-- ===== src/Ospf/Dijkstra/Queue.antt =====
-- NetworkProtocols/OSPF.cpp: the priority queue loses its top and nothing else.
use network_os_simulation.Shared.{
  ℕ, suc, ◌≡◌, refl, ap, ◌⊎◌, inl, inr, List, [], ◌∷◌, Bool-cases, arith, length, if◌then◌else◌,
}
use network_os_simulation.Ospf.Dijkstra.{before, pop_top}

-- The router is in the queue.
abbrev pub Queued : ℕ → List (ℕ × ℕ) → Type 0
Queued a [] = ⊥
Queued a (x ∷ xs) = (a ≡ x.1) ⊎ Queued a xs

pub length-pop_top : (x : ℕ × ℕ) (xs : List (ℕ × ℕ)) → length (pop_top x xs).1 ≡ length xs
unfolding pop_top
length-pop_top x [] = refl
length-pop_top x (y ∷ ys) = ap suc (length-pop_top (if before x y then x else y) ys)

pub Queued-pop_top :
    (a : ℕ) (x : ℕ × ℕ) (xs : List (ℕ × ℕ))
    → Queued a (x ∷ xs)
    → (a ≡ (pop_top x xs).0.1) ⊎ Queued a (pop_top x xs).1
unfolding pop_top
Queued-pop_top a x [] q = q
Queued-pop_top a x (y ∷ ys) q = elim (Bool-cases (before x y)) [
  | inl e ↦ rw (e) (ground (arith, Queued-pop_top a x ys))
  | inr e ↦ rw (e) (ground (arith, Queued-pop_top a y ys))
]

pub Queued-of_pop_top :
    (a : ℕ) (x : ℕ × ℕ) (xs : List (ℕ × ℕ))
    → (a ≡ (pop_top x xs).0.1) ⊎ Queued a (pop_top x xs).1
    → Queued a (x ∷ xs)
unfolding pop_top
Queued-of_pop_top a x [] q = q
Queued-of_pop_top a x (y ∷ ys) q = elim (Bool-cases (before x y)) [
  | inl e ↦ ground (arith, e, Queued-of_pop_top a x ys)
  | inr e ↦ ground (arith, e, Queued-of_pop_top a y ys)
]
