-- ===== src/Lru/Cache.antt =====
-- NetworkProtocols/LRU.cpp, class LRUCache: the constructor, get and put.
-- `cap` is the capacity as `put` compares it: `m.size() == cap` converts it to `size_t`, so a
-- negative capacity is a number that no size reaches. `none` is undefined behaviour.
use network_os_simulation.Shared.{
  ℕ, List, [], Option, none, some, length, ◌>>=◌, ◌==◌, if◌then◌else◌,
}
use network_os_simulation.Shared.Text.{Text, codes, text_discrete}
use network_os_simulation.Shared.Dict.{lookup, insert, erase}
use network_os_simulation.Lru.Memory.{
  Ptr, Memory, deref, set_next, set_prev, new_node, add_node, delete_node,
}

-- The map `m` takes a URL to the address of its node.
pub record LruCache : Type 0 where
  pub head : ℕ
  pub tail : ℕ
  pub cap : ℕ
  pub m : List (Text × ℕ)
  pub mem : Memory

abbrev pub missing : Text
missing = codes "-1"

-- Before the first `new`: no address is used.
abbrev pub no_memory : Memory
no_memory = record {
  used = 0;
  key = λ _. [];
  val = λ _. [];
  prev = λ _. Ptr.wild;
  next = λ _. Ptr.wild;
}

-- The two sentinels are the nodes 0 and 1.
unfoldable pub init : ℕ → LruCache
unfolding new_node
init capacity =
    let h = new_node missing missing (new_node missing missing no_memory) in
    record {
      head = 0;
      tail = 1;
      cap = capacity;
      m = [];
      mem = set_prev 1 (Ptr.at 0) (set_next 0 (Ptr.at 1) h);
    }

-- `m[key] = head -> next`
abbrev pub bind_key : Text → LruCache → Option LruCache
bind_key key c = do
  p ← deref (c.mem.next c.head)
  some (record c { m = insert text_discrete key p c.m })

unfoldable pub get : Text → LruCache → Option (LruCache × Text)
get key c = elim (lookup text_discrete key c.m) [
  | none ↦ some (c, missing)
  | some res_node ↦ do
    let ans = c.mem.val res_node
    h1 ← delete_node res_node c.mem
    h2 ← add_node c.head res_node h1
    c' ← bind_key key (record c { mem = h2 })
    some (c', ans)
]

-- The eviction at the start of `put`.
unfoldable pub make_room : LruCache → Option LruCache
make_room c =
    if length c.m == c.cap
    then (do
      last ← deref (c.mem.prev c.tail)
      h1 ← delete_node last c.mem
      some (record c { m = erase text_discrete (c.mem.key last) c.m; mem = h1 }))
    else some c

unfoldable pub put : Text → Text → LruCache → Option LruCache
put key value c = do
  c1 ← make_room c
  h2 ← add_node c1.head c1.mem.used (new_node key value c1.mem)
  bind_key key (record c1 { mem = h2 })
