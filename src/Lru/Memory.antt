-- ===== src/Lru/Memory.antt =====
-- NetworkProtocols/LRU.cpp, class Node and the methods addNode and deleteNode of LRUCache.
-- The program never frees a node, so an address below `used` is valid for ever. The constructor
-- of Node leaves `prev` and `next` unassigned: such a pointer is `wild`, and to follow it is a
-- fault (`none`).
use network_os_simulation.Shared.{ℕ, ◌+◌, Option, none, some, update, ◌>>=◌}
use network_os_simulation.Shared.Text.{Text}

pub data Ptr : Type 0 where
  wild : Ptr
  at : ℕ → Ptr

-- The fields of all nodes, by address.
pub record Memory : Type 0 where
  pub used : ℕ
  pub key : ℕ → Text
  pub val : ℕ → Text
  pub prev : ℕ → Ptr
  pub next : ℕ → Ptr

abbrev pub deref : Ptr → Option ℕ
deref Ptr.wild = none
deref (Ptr.at p) = some p

abbrev pub set_next : ℕ → Ptr → Memory → Memory
set_next p q h = record h { next = update h.next p q }

abbrev pub set_prev : ℕ → Ptr → Memory → Memory
set_prev p q h = record h { prev = update h.prev p q }

-- `new Node(key, val)`: the new node stands at the address `h.used`.
unfoldable pub new_node : Text → Text → Memory → Memory
new_node k v h = record {
  used = h.used + 1;
  key = update h.key h.used k;
  val = update h.val h.used v;
  prev = update h.prev h.used Ptr.wild;
  next = update h.next h.used Ptr.wild;
}

unfoldable pub add_node : ℕ → ℕ → Memory → Option Memory
add_node head newnode h0 = do
  let next = h0.next head
  let h1 = set_next head (Ptr.at newnode) h0
  let h2 = set_prev newnode (Ptr.at head) h1
  let h3 = set_next newnode next h2
  n ← deref next
  some (set_prev n (Ptr.at newnode) h3)

unfoldable pub delete_node : ℕ → Memory → Option Memory
delete_node delnode h0 = do
  let prevv = h0.prev delnode
  let nextt = h0.next delnode
  p ← deref prevv
  let h1 = set_next p nextt h0
  n ← deref nextt
  some (set_prev n prevv h1)
