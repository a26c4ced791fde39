-- ===== src/Lru/Invariant.antt =====
-- NetworkProtocols/LRU.cpp: when the map and the list of nodes of an LRUCache agree.
use mathlib.Core.List.{map-append}
use network_os_simulation.Shared.{
  ℕ, suc, ◌≡◌, refl, sym, ap, ◌∙◌, ◌≢◌, List, [], ◌∷◌, ◌++◌, some, ite, arith, map, subst, Distinct,
  Distinct-drop, Distinct-middle, length, if_neg,
}
use network_os_simulation.Shared.Text.{Text, text_discrete}
use network_os_simulation.Shared.Dict
use network_os_simulation.Shared.Dict.{lookup, erase}
use network_os_simulation.Lru.Memory.{Ptr, Memory}
use network_os_simulation.Lru.Cache.{LruCache, missing}
use network_os_simulation.Lru.Chain.{Chain}
use network_os_simulation.Lru.Spec.{
  Entries, contents, find, find-drop_ne, first-ne-middle, erase-contents,
}

-- `ps` are the nodes between the sentinels. A key has one node, and the map leads to it. The
-- sentinels keep the page "-1", and nothing follows the tail.
pub record IsCache (c : LruCache) (ps : List ℕ) : Type 0 where
  pub chain : Chain c.mem c.head (ps ++ c.tail ∷ [])
  pub keys : Distinct (map c.mem.key ps)
  pub index : (q : Text) → lookup text_discrete q c.m ≡ find c.mem.key q ps
  pub size : length c.m ≡ length ps
  pub unique : Distinct (Dict.keys c.m)
  pub blank : (c.mem.val c.head ≡ missing) × (c.mem.val c.tail ≡ missing)
  pub end : c.mem.next c.tail ≡ Ptr.wild

-- The cache is well formed and holds these entries, most recently used first.
pub record Holds (c : LruCache) (l : Entries) : Type 0 where
  pub nodes : List ℕ
  pub valid : IsCache c nodes
  pub entries : contents c.mem nodes ≡ l

-- The keys after a node moved to the front.
pub Distinct-front :
    (key : ℕ → Text) (pre : List ℕ) (x : ℕ) (post : List ℕ)
    → Distinct (map key (pre ++ x ∷ post))
    → Distinct (map key (x ∷ pre ++ post))
Distinct-front key pre x post d =
    let d' = subst (Distinct) (map-append key pre (x ∷ post)) d in
    let front : Distinct (key x ∷ map key pre ++ map key post) = (
      Distinct-middle (map key pre) (key x) (map key post) d',
      Distinct-drop (map key pre) (key x) (map key post) d',
    ) in
    subst (λ l. Distinct (key x ∷ l)) (sym (map-append key pre post)) front

-- To move a node to the front changes no search.
pub find-front :
    (key : ℕ → Text) (q : Text) (pre : List ℕ) (x : ℕ) (post : List ℕ)
    → find key q (x ∷ pre ++ post)
      ≡ ite (text_discrete q (key x)) (some x) (find key q (pre ++ x ∷ post))
unfolding find
find-front key q pre x post = ground (arith, find-drop_ne key q pre x post)

pub length-front :
    (pre : List ℕ) (x : ℕ) (post : List ℕ) → length (x ∷ pre ++ post) ≡ length (pre ++ x ∷ post)
length-front [] x post = refl
length-front (y ∷ pre) x post = ap suc (length-front pre x post)

-- A list that ends in a sentinel has a first node.
pub first_of_concat : (xs : List ℕ) (z : ℕ) → (y : ℕ) × (ys : List ℕ) × (xs ++ z ∷ [] ≡ y ∷ ys)
first_of_concat [] z = (z, [], refl)
first_of_concat (x ∷ xs) z = (x, xs ++ z ∷ [], refl)

-- The same nodes hold the same entries if no key and no value changed.
pub contents-data :
    (h h' : Memory) (ps : List ℕ) → h.key ≡ h'.key → h.val ≡ h'.val → contents h ps ≡ contents h' ps
unfolding contents
contents-data h h' ps ks vs = rw (ks, vs)

-- A key that is distinct from the others is found at its node.
pub find-middle :
    (key : ℕ → Text) (k : Text) (pre : List ℕ) (x : ℕ) (post : List ℕ)
    → Distinct (map key (pre ++ x ∷ post))
    → key x ≡ k
    → find key k (pre ++ x ∷ post) ≡ some x
unfolding find
find-middle key k [] x post d e = ground arith
find-middle key k (p ∷ pre) x post d e =
    let apart : key p ≢ key x = first-ne-middle key p pre x post d.0 in
    if_neg (text_discrete k (key p)) (λ q. apart (sym q ∙ sym e)) _ _
    ∙ find-middle key k pre x post d.1 e

pub contents-front :
    (h : Memory) (k : Text) (x : ℕ) (pre post : List ℕ)
    → Distinct (map h.key (pre ++ x ∷ post))
    → h.key x ≡ k
    → contents h (x ∷ pre ++ post)
      ≡ (k, h.val x) ∷ erase text_discrete k (contents h (pre ++ x ∷ post))
unfolding contents
contents-front h k x pre post d e =
    rw (← e) (ap (◌∷◌ (h.key x, h.val x)) (sym (erase-contents h x post pre d)))
