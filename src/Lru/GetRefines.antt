-- ===== src/Lru/GetRefines.antt =====
-- NetworkProtocols/LRU.cpp, LRUCache::get: the nodes move as the entries do.
use mathlib.Core.Option as Opt
use mathlib.Core.List.{append_assoc}
use network_os_simulation.Shared.{
  ℕ, ◌≡◌, refl, sym, ap, ap₂, ◌∙◌, inl, inr, List, [], ◌∷◌, ◌++◌, none, some, map, subst, Distinct,
  All, ◌≢◌, Option-cases, ite, last_or, last_or-concat,
}
use network_os_simulation.Shared.Text.{Text, text_discrete}
use network_os_simulation.Shared.Dict.{
  lookup, insert, erase, lookup-insert, length-insert_old, Distinct-insert,
}
use network_os_simulation.Lru.Memory.{Memory, add_node, delete_node}
use network_os_simulation.Lru.Cache.{LruCache, get}
use network_os_simulation.Lru.Chain.{Chain, Chain-delete, Chain-add}
use network_os_simulation.Lru.Spec.{
  Entries, answer, touch, contents, find, lookup-contents, find-split,
}
use network_os_simulation.Lru.Invariant.{
  IsCache, Holds, Distinct-front, find-front, length-front, first_of_concat, contents-data,
  contents-front, find-middle,
}

-- A node `x` in the middle is unlinked and linked in first.
record Moved (h : Memory) (a x z : ℕ) (pre post : List ℕ) : Type 0 where
  deleted : Memory
  added : Memory
  delete_runs : delete_node x h ≡ some deleted
  add_runs : add_node a x deleted ≡ some added
  chain : Chain added a ((x ∷ pre ++ post) ++ z ∷ [])
  keys : added.key ≡ h.key
  vals : added.val ≡ h.val
  end : added.next z ≡ h.next z

move :
    (h : Memory) (a x z : ℕ) (pre post : List ℕ)
    → Chain h a ((pre ++ x ∷ post) ++ z ∷ [])
    → Moved h a x z pre post
move h a x z pre post c =
    let (n, rest, e) = first_of_concat post z in
    let (n', rest', e') = first_of_concat (pre ++ post) z in
    let whole : (pre ++ x ∷ post) ++ z ∷ [] ≡ pre ++ x ∷ n ∷ rest =
      append_assoc pre (x ∷ post) (z ∷ []) ∙ ap (λ l. pre ++ x ∷ l) e in
    let others : (pre ++ post) ++ z ∷ [] ≡ pre ++ n ∷ rest =
      append_assoc pre post (z ∷ []) ∙ ap (λ l. pre ++ l) e in
    let path : pre ++ n ∷ rest ≡ n' ∷ rest' = sym others ∙ e' in
    let d = Chain-delete h a pre x n rest (subst (Chain h a) whole c) in
    let b =
      Chain-add d.after a x n' rest' (subst (Chain d.after a) path d.chain)
        (subst (λ l. All (λ q. x ≢ q) (a ∷ l)) path d.outside) d.allocated in
    record {
      deleted = d.after;
      added = b.after;
      delete_runs = d.runs;
      add_runs = b.runs;
      chain = subst (λ l. Chain b.after a (x ∷ l)) (sym e') b.chain;
      keys = b.same.keys ∙ d.same.keys;
      vals = b.same.vals ∙ d.same.vals;
      end =
          subst (λ q. b.after.next q ≡ d.after.next q)
            (ap (last_or a) (sym e') ∙ last_or-concat a (pre ++ post) z) b.end
          ∙ subst (λ q. d.after.next q ≡ h.next q)
              (ap (last_or a) (sym others) ∙ last_or-concat a (pre ++ post) z) d.end;
    }

-- The cache after a hit on the node `x`.
abbrev after_hit : LruCache → Text → ℕ → Memory → LruCache
after_hit c k x h = record c { mem = h; m = insert text_discrete k x c.m }

record HitRuns (c : LruCache) (k : Text) (x : ℕ) (pre post : List ℕ) : Type 0 where
  mem : Memory
  runs : get k c ≡ some (after_hit c k x mem, c.mem.val x)
  chain : Chain mem c.head ((x ∷ pre ++ post) ++ c.tail ∷ [])
  keys : mem.key ≡ c.mem.key
  vals : mem.val ≡ c.mem.val
  end : mem.next c.tail ≡ c.mem.next c.tail

get_hit :
    (c : LruCache) (k : Text) (x : ℕ) (pre post : List ℕ)
    → Chain c.mem c.head ((pre ++ x ∷ post) ++ c.tail ∷ [])
    → lookup text_discrete k c.m ≡ some x
    → HitRuns c k x pre post
unfolding get
get_hit c k x pre post ch e =
    let v = move c.mem c.head x c.tail pre post ch in
    record {
      mem = v.added;
      runs = rw (e, get, v.delete_runs, v.add_runs, v.chain.links.0);
      chain = v.chain;
      keys = v.keys;
      vals = v.vals;
      end = v.end;
    }

after_hit-IsCache :
    (c : LruCache) (k : Text) (x : ℕ) (pre post : List ℕ)
    → IsCache c (pre ++ x ∷ post)
    → c.mem.key x ≡ k
    → (r : HitRuns c k x pre post) → IsCache (after_hit c k x r.mem) (x ∷ pre ++ post)
after_hit-IsCache c k x pre post v e r = record {
  chain = r.chain;
  keys =
      subst (λ f. Distinct (map f (x ∷ pre ++ post))) (sym r.keys)
        (Distinct-front c.mem.key pre x post v.keys);
  index = λ q.
      lookup-insert text_discrete q k x c.m
      ∙ ap₂ (λ j o. ite (text_discrete q j) (some x) o) (sym e) (v.index q)
      ∙ sym (find-front c.mem.key q pre x post)
      ∙ ap (λ f. find f q (x ∷ pre ++ post)) (sym r.keys);
  size =
      length-insert_old text_discrete k x x c.m (v.index k ∙ found)
      ∙ v.size
      ∙ sym (length-front pre x post);
  unique = Distinct-insert text_discrete k x c.m v.unique;
  blank = (ap (λ f. f c.head) r.vals ∙ v.blank.0, ap (λ f. f c.tail) r.vals ∙ v.blank.1);
  end = r.end ∙ v.end;
}
  where
    found : find c.mem.key k (pre ++ x ∷ post) ≡ some x
    found = find-middle c.mem.key k pre x post v.keys e

-- `get` returns the stored text, or "-1", and moves a hit to the front; it never follows an
-- unassigned pointer.
pub record GetRuns (c : LruCache) (l : Entries) (k : Text) : Type 0 where
  pub after : LruCache
  pub runs : get k c ≡ some (after, answer (lookup text_discrete k l))
  pub holds : Holds after (touch k l)
  pub cap : after.cap ≡ c.cap

get_miss-runs :
    (c : LruCache) (l : Entries) (k : Text)
    → Holds c l
    → lookup text_discrete k l ≡ none
    → lookup text_discrete k c.m ≡ none
    → GetRuns c l k
unfolding get touch
get_miss-runs c l k v none_l none_m = record {
  after = c;
  runs = rw (none_m, get, none_l);
  holds = rw (none_l, touch) v;
  cap = refl;
}

get_hit-runs :
    (c : LruCache) (k : Text) (x : ℕ) (pre post : List ℕ)
    → IsCache c (pre ++ x ∷ post)
    → c.mem.key x ≡ k
    → GetRuns c (contents c.mem (pre ++ x ∷ post)) k
unfolding touch
get_hit-runs c k x pre post v e =
    let found = find-middle c.mem.key k pre x post v.keys e in
    let h = get_hit c k x pre post v.chain (v.index k ∙ found) in
    let value : lookup text_discrete k (contents c.mem (pre ++ x ∷ post)) ≡ some (c.mem.val x) =
      lookup-contents c.mem k (pre ++ x ∷ post) ∙ ap (Opt.map c.mem.val) found in
    record {
      after = after_hit c k x h.mem;
      runs = rw value h.runs;
      holds = record {
        nodes = x ∷ pre ++ post;
        valid = after_hit-IsCache c k x pre post v e h;
        entries = rw (value, touch) (moved h.mem h.keys h.vals);
      };
      cap = refl;
    }
  where
    moved :
        (h : Memory)
        → h.key ≡ c.mem.key
        → h.val ≡ c.mem.val
        → contents h (x ∷ pre ++ post)
          ≡ (k, c.mem.val x) ∷ erase text_discrete k (contents c.mem (pre ++ x ∷ post))
    moved h ks vs =
        contents-data h c.mem (x ∷ pre ++ post) ks vs ∙ contents-front c.mem k x pre post v.keys e

-- On a cache that holds the entries `l`, `get` runs without a fault, returns the text stored for
-- the key, or "-1" for a key that is not stored, and leaves a cache of the same capacity that
-- holds `l` with a hit moved to the front.
pub get-Holds : (c : LruCache) (l : Entries) (k : Text) → Holds c l → GetRuns c l k
get-Holds c l k v = elim (Option-cases (find c.mem.key k v.nodes)) [
  | inl miss ↦
      get_miss-runs c l k v
        (ap (lookup text_discrete k) (sym v.entries)
          ∙ lookup-contents c.mem k v.nodes
          ∙ ap (Opt.map c.mem.val) miss)
        (v.valid.index k ∙ miss)
  | inr (x, hit) ↦
      let (pre, post, split, e) = find-split c.mem.key k v.nodes hit in
      subst (λ l. GetRuns c l k) (ap (contents c.mem) (sym split) ∙ v.entries)
        (get_hit-runs c k x pre post (subst (IsCache c) split v.valid) e)
]
