-- ===== src/Lru/PutHolds.antt =====
-- NetworkProtocols/LRU.cpp, LRUCache::put as a whole.
use mathlib.Core.Option as Opt
use network_os_simulation.Shared.{
  ℕ, suc, ◌<◌, ◌≡◌, refl, sym, ap, ap₂, ◌∙◌, ◌≢◌, List, [], ◌∷◌, ◌++◌, some, none, arith, map,
  subst, Distinct, All, All-left, All-right, ite, if_pos, ℕ_discrete, last_or, last_or-concat,
}
use network_os_simulation.Shared.Text.{Text, text_discrete}
use network_os_simulation.Shared.Dict.{
  lookup, insert, lookup-insert, length-insert_new, Distinct-insert,
}
use network_os_simulation.Lru.Memory.{Memory, new_node, add_node}
use network_os_simulation.Lru.Cache.{LruCache, put}
use network_os_simulation.Lru.Chain.{Chain, Chain-add}
use network_os_simulation.Lru.Fresh.{
  fresh_of_below, next-new_node, val-new_node, keys-new_node, find-new_node, contents-new_node,
  Chain-new_node,
}
use network_os_simulation.Lru.Spec.{Entries, store, contents, find, absent_of_find, lookup-contents}
use network_os_simulation.Lru.Invariant.{IsCache, Holds, first_of_concat, contents-data}
use network_os_simulation.Lru.PutRefines.{make_room-Roomy}

-- The cache after a new node for `k` was linked in first.
abbrev filled : LruCache → Text → Memory → LruCache
filled c k h = record c { m = insert text_discrete k c.mem.used c.m; mem = h }

record Fills (c : LruCache) (k v : Text) (ps : List ℕ) : Type 0 where
  mem : Memory
  runs : add_node c.head c.mem.used (new_node k v c.mem) ≡ some mem
  chain : Chain mem c.head ((c.mem.used ∷ ps) ++ c.tail ∷ [])
  keys : mem.key ≡ (new_node k v c.mem).key
  vals : mem.val ≡ (new_node k v c.mem).val
  end : mem.next c.tail ≡ c.mem.next c.tail

used-lt : (h : Memory) (k v : Text) → h.used < (new_node k v h).used
unfolding new_node
used-lt h k v = omega arith

key-new_node :
    (h : Memory) (k v : Text)
    → ((new_node k v h).key h.used ≡ k) × ((new_node k v h).val h.used ≡ v)
unfolding new_node
key-new_node h k v =
    (if_pos (ℕ_discrete h.used h.used) refl _ _, if_pos (ℕ_discrete h.used h.used) refl _ _)

-- A fresh node is none of the sentinels.
fresh_sentinels :
    (c : LruCache) (ps : List ℕ) → IsCache c ps → (c.mem.used ≢ c.head) × (c.mem.used ≢ c.tail)
fresh_sentinels c ps v =
    let f = fresh_of_below c.mem.used (c.head ∷ ps ++ c.tail ∷ []) v.chain.below in
    (f.0, (All-right (λ q. c.mem.used ≢ q) ps (c.tail ∷ []) f.1).0)

fill : (c : LruCache) (k v : Text) (ps : List ℕ) → IsCache c ps → Fills c k v ps
fill c k v ps valid =
    let (n, post, e) = first_of_concat ps c.tail in
    let h = new_node k v c.mem in
    let whole = valid.chain in
    let fresh = fresh_of_below c.mem.used (c.head ∷ ps ++ c.tail ∷ []) whole.below in
    let b =
      Chain-add h c.head c.mem.used n post
        (subst (Chain h c.head) e (Chain-new_node c.mem k v c.head (ps ++ c.tail ∷ []) whole))
        (subst (λ l. All (λ q. c.mem.used ≢ q) (c.head ∷ l)) e fresh) (used-lt c.mem k v) in
    record {
      mem = b.after;
      runs = b.runs;
      chain = subst (λ l. Chain b.after c.head (c.mem.used ∷ l)) (sym e) b.chain;
      keys = b.same.keys;
      vals = b.same.vals;
      end =
          subst (λ q. b.after.next q ≡ h.next q)
            (ap (last_or c.head) (sym e) ∙ last_or-concat c.head ps c.tail) b.end
          ∙ next-new_node c.mem k v c.tail (fresh_sentinels c ps valid).1;
    }

module _ (c : LruCache) (k v : Text) (ps : List ℕ) (valid : IsCache c ps) where
  fresh : All (λ q. c.mem.used ≢ q) ps
  fresh =
      All-left (λ q. c.mem.used ≢ q) ps (c.tail ∷ [])
        (fresh_of_below c.mem.used (c.head ∷ ps ++ c.tail ∷ []) valid.chain.below).1

  find-filled :
      (q : Text)
      → ite (text_discrete q k) (some c.mem.used) (find c.mem.key q ps)
        ≡ find (new_node k v c.mem).key q (c.mem.used ∷ ps)
  unfolding find
  find-filled q =
      ap₂ (λ j o. ite (text_discrete q j) (some c.mem.used) o) (sym (key-new_node c.mem k v).0)
        (sym (find-new_node c.mem k v q ps fresh))

  filled-IsCache :
      lookup text_discrete k c.m ≡ none
      → (r : Fills c k v ps) → IsCache (filled c k r.mem) (c.mem.used ∷ ps)
  filled-IsCache new r = record {
    chain = r.chain;
    keys =
        subst (λ f. Distinct (map f (c.mem.used ∷ ps))) (sym r.keys)
          (
            subst (λ l. All (λ y. (new_node k v c.mem).key c.mem.used ≢ y) l)
                (sym (keys-new_node c.mem k v ps fresh))
                (rw ((key-new_node c.mem k v).0)
                  (absent_of_find c.mem.key k ps (sym (valid.index k) ∙ new))),
            subst (Distinct) (sym (keys-new_node c.mem k v ps fresh)) valid.keys,
          );
    index = λ q.
        lookup-insert text_discrete q k c.mem.used c.m
        ∙ ap (ite (text_discrete q k) (some c.mem.used)) (valid.index q)
        ∙ find-filled q
        ∙ ap (λ f. find f q (c.mem.used ∷ ps)) (sym r.keys);
    size = length-insert_new text_discrete k c.mem.used c.m new ∙ ap suc valid.size;
    unique = Distinct-insert text_discrete k c.mem.used c.m valid.unique;
    blank = (
      ap (λ f. f c.head) r.vals
          ∙ val-new_node c.mem k v c.head (fresh_sentinels c ps valid).0
          ∙ valid.blank.0,
      ap (λ f. f c.tail) r.vals
          ∙ val-new_node c.mem k v c.tail (fresh_sentinels c ps valid).1
          ∙ valid.blank.1,
    );
    end = r.end ∙ valid.end;
  }

  contents-filled :
      (h : Memory)
      → h.key ≡ (new_node k v c.mem).key
      → h.val ≡ (new_node k v c.mem).val
      → contents h (c.mem.used ∷ ps) ≡ (k, v) ∷ contents c.mem ps
  unfolding contents
  contents-filled h ks vs =
      contents-data h (new_node k v c.mem) (c.mem.used ∷ ps) ks vs
      ∙ ap₂ ◌∷◌ (ap₂ (λ a b. (a, b)) (key-new_node c.mem k v).0 (key-new_node c.mem k v).1)
          (contents-new_node c.mem k v ps fresh)

-- What `put` leaves.
pub record PutRuns (c : LruCache) (l : Entries) (k v : Text) : Type 0 where
  pub after : LruCache
  pub runs : put k v c ≡ some after
  pub holds : Holds after (store c.cap k v l)
  pub cap : after.cap ≡ c.cap

absent_key :
    (c : LruCache) (l : Entries) (k : Text)
    → Holds c l
    → lookup text_discrete k l ≡ none
    → lookup text_discrete k c.m ≡ none
absent_key c l k h new =
    h.valid.index k
    ∙ none_of_map h.nodes
        (sym (lookup-contents c.mem k h.nodes) ∙ ap (lookup text_discrete k) h.entries ∙ new)
  where
    none_of_map :
        (ps : List ℕ) → Opt.map c.mem.val (find c.mem.key k ps) ≡ none → find c.mem.key k ps ≡ none
    none_of_map ps e = ground arith

-- On a cache with room for an entry, `put` of a key that is not stored runs without a fault and
-- leaves a cache of the same capacity that holds the new entry in front of the old ones; a full
-- cache has dropped its last entry.
pub put-Holds :
    (c : LruCache) (l : Entries) (k v : Text)
    → Holds c l
    → 0 < c.cap
    → lookup text_discrete k l ≡ none
    → PutRuns c l k v
unfolding put store
put-Holds c l k v h pos new =
    let r = make_room-Roomy c l k h pos (absent_key c l k h new) in
    let f = fill r.after k v r.holds.nodes r.holds.valid in
    record {
      after = filled r.after k f.mem;
      runs = rw (r.runs, put, f.runs, f.chain.links.0);
      holds = record {
        nodes = r.after.mem.used ∷ r.holds.nodes;
        valid = filled-IsCache r.after k v r.holds.nodes r.holds.valid r.absent f;
        entries =
            contents-filled r.after k v r.holds.nodes r.holds.valid f.mem f.keys f.vals
            ∙ ap (◌∷◌ (k, v)) r.holds.entries;
      };
      cap = r.cap;
    }
