-- ===== src/Lru/Spec.antt =====
-- NetworkProtocols/LRU.cpp: what LRUCache promises, on the list of its entries, most recently used
-- first, and the entries that a list of nodes holds.
use mathlib.Core.Option as Opt
use network_os_simulation.Shared.{
  ℕ, ◌≡◌, refl, sym, ap, ◌∙◌, ◌≢◌, List, [], ◌∷◌, ◌++◌, Option, none, some, arith, ite, if_pos,
  if_neg, map, All, Distinct, drop_last, length, ◌==◌, if◌then◌else◌,
}
use network_os_simulation.Shared.Text.{Text, text_discrete}
use network_os_simulation.Shared.Dict.{lookup, erase}
use network_os_simulation.Lru.Memory.{Memory}
use network_os_simulation.Lru.Cache.{missing}

abbrev pub Entries : Type 0
Entries = List (Text × Text)

-- The value, or the text "-1" of a miss.
abbrev pub answer : Option Text → Text
answer none = missing
answer (some v) = v

-- A hit moves to the front, a miss changes nothing.
unfoldable pub touch : Text → Entries → Entries
touch k l = elim (lookup text_discrete k l) [ none ↦ l | some v ↦ (k, v) ∷ erase text_discrete k l ]

pub touch-miss : (k : Text) (l : Entries) → lookup text_discrete k l ≡ none → touch k l ≡ l
unfolding touch
touch-miss k l e = rw (e, touch)

-- The new entry stands in front; a full cache drops its last entry.
unfoldable pub store : ℕ → Text → Text → Entries → Entries
store cap k v l = (k, v) ∷ (if length l == cap then drop_last l else l)

-- What was stored is found.
pub lookup-store :
    (cap : ℕ) (k v : Text) (l : Entries) → lookup text_discrete k (store cap k v l) ≡ some v
unfolding lookup store
lookup-store cap k v l = if_pos (text_discrete k k) refl _ _

unfoldable pub contents : Memory → List ℕ → Entries
contents h ps = map (λ p. (h.key p, h.val p)) ps

-- The first node with the key.
unfoldable pub find : (ℕ → Text) → Text → List ℕ → Option ℕ
find key k [] = none
find key k (p ∷ ps) = ite (text_discrete k (key p)) (some p) (find key k ps)

pub lookup-contents :
    (h : Memory) (k : Text) (ps : List ℕ)
    → lookup text_discrete k (contents h ps) ≡ Opt.map h.val (find h.key k ps)
unfolding lookup contents find
lookup-contents h k [] = refl
lookup-contents h k (p ∷ ps) = ground (arith, lookup-contents h k ps)

pub find-split :
    (key : ℕ → Text) (k : Text) (ps : List ℕ) {x : ℕ}
    → find key k ps ≡ some x
    → (pre : List ℕ) × (post : List ℕ) × (ps ≡ pre ++ x ∷ post) × (key x ≡ k)
unfolding find
find-split key k [] h = absurd (ground arith)
find-split key k (p ∷ ps) h = elim (text_discrete k (key p)) [
  | yes e ↦ ([], ps, ground arith, ground arith)
  | no e ↦
      let (pre, post, s, t) = find-split key k ps (ground arith) in (p ∷ pre, post, ap (◌∷◌ p) s, t)
]

pub first-ne-middle :
    (key : ℕ → Text) (p : ℕ) (pre : List ℕ) (x : ℕ) (post : List ℕ)
    → All (λ y. key p ≢ y) (map key (pre ++ x ∷ post))
    → key p ≢ key x
first-ne-middle key p [] x post d = d.0
first-ne-middle key p (q ∷ pre) x post d = first-ne-middle key p pre x post d.1

module _ (h : Memory) (x : ℕ) (post : List ℕ) where
  -- To erase the key of a node is to leave the node out.
  pub erase-contents :
      (pre : List ℕ)
      → Distinct (map h.key (pre ++ x ∷ post))
      → erase text_discrete (h.key x) (contents h (pre ++ x ∷ post)) ≡ contents h (pre ++ post)
  unfolding erase contents
  erase-contents [] d = if_pos (text_discrete (h.key x) (h.key x)) refl _ _
  erase-contents (p ∷ pre) d =
      if_neg (text_discrete (h.key x) (h.key p))
        (λ e. first-ne-middle h.key p pre x post d.0 (sym e)) _ _
      ∙ ap (◌∷◌ (h.key p, h.val p)) (erase-contents pre d.1)

pub find-drop_ne :
    (key : ℕ → Text) (q : Text) (pre : List ℕ) (x : ℕ) (post : List ℕ)
    → q ≢ key x
    → find key q (pre ++ x ∷ post) ≡ find key q (pre ++ post)
unfolding find
find-drop_ne key q [] x post h = if_neg (text_discrete q (key x)) h _ _
find-drop_ne key q (p ∷ pre) x post h = ground (arith, find-drop_ne key q pre x post h)

pub find-absent :
    (key : ℕ → Text) (q : Text) (ps : List ℕ) → All (λ y. q ≢ y) (map key ps) → find key q ps ≡ none
unfolding find
find-absent key q [] h = refl
find-absent key q (p ∷ ps) h = if_neg (text_discrete q (key p)) h.0 _ _ ∙ find-absent key q ps h.1

pub absent_of_find :
    (key : ℕ → Text) (q : Text) (ps : List ℕ) → find key q ps ≡ none → All (λ y. q ≢ y) (map key ps)
unfolding find
absent_of_find key q [] h = tt
absent_of_find key q (p ∷ ps) h = elim (text_discrete q (key p)) [
  | yes e ↦ absurd (ground arith)
  | no e ↦ (e, absent_of_find key q ps (ground arith))
]
