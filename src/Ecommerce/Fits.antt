-- ===== src/Ecommerce/Fits.antt =====
-- MultiThreading/Ecommerce.cpp: what find_thread and out_of_values find.
use network_os_simulation.Shared.{
  ℕ, zero, suc, ◌≡◌, refl, ◌⊎◌, ◌↔◌, inl, inr, List, [], ◌∷◌, some, true, arith, get_elem?,
  Bool-cases, Option-cases,
}
use network_os_simulation.Shared.Int.{ℤ, pos, ◌≤ℤ◌, ltb_ℤ, leb_ℤ, leb_ℤ_iff}
use network_os_simulation.Ecommerce.{WorkerThread, find_thread, highest, out_of_values, resources}

-- Some worker can have the resources.
abbrev pub Fits : List WorkerThread → ℤ → Type 0
Fits [] r = ⊥
Fits (w ∷ ws) r = (r ≤ℤ w.resources_available) ⊎ Fits ws r

abbrev pub AllNonneg : List WorkerThread → Type 0
AllNonneg [] = Unit
AllNonneg (w ∷ ws) = (pos 0 ≤ℤ w.resources_available) × AllNonneg ws

-- There is a worker, and no worker has negative resources.
abbrev pub IsStaffed : List WorkerThread → Type 0
IsStaffed [] = ⊥
IsStaffed (w ∷ ws) = (pos 0 ≤ℤ w.resources_available) × AllNonneg ws

highest_iff : (r h : ℤ) (ws : List WorkerThread) → (r ≤ℤ highest h ws) ↔ ((r ≤ℤ h) ⊎ Fits ws r)
unfolding highest
highest_iff r h [] = ground arith
highest_iff r h (w ∷ ws) = elim (Bool-cases (ltb_ℤ h w.resources_available)) [
  | inl e ↦ rw (e) (ground (arith, highest_iff r w.resources_available ws, e))
  | inr e ↦ rw (e) (ground (arith, highest_iff r h ws, e))
]

Fits-nonpos : (r : ℤ) (ws : List WorkerThread) → IsStaffed ws → r ≤ℤ pos 0 → Fits ws r
Fits-nonpos r [] st le = elim st [ ]
Fits-nonpos r (w ∷ ws) st le = inl (omega arith)

-- On a staffed service the test is whether some worker can have the resources.
pub out_of_values_iff :
    (ws : List WorkerThread) (r : ℤ) → IsStaffed ws → (out_of_values ws r ≡ true) ↔ Fits ws r
unfolding out_of_values
out_of_values_iff ws r st = (
  λ e. elim ((highest_iff r (pos 0) ws).0 ((leb_ℤ_iff r (highest (pos 0) ws)).0 e)) [
    | inl le ↦ Fits-nonpos r ws st le
    | inr f ↦ f
  ],
  λ f. (leb_ℤ_iff r (highest (pos 0) ws)).1 ((highest_iff r (pos 0) ws).1 (inr f)),
)

-- While no worker is busy, a worker is found if there is one that can have the resources.
pub find_thread-Fits :
    (ws : List WorkerThread) (r : ℤ)
    → Fits ws r
    → (place : ℕ) × (find_thread (resources ws) r ≡ some place)
unfolding find_thread
find_thread-Fits [] r f = elim f [ ]
find_thread-Fits (w ∷ ws) r f = elim (Bool-cases (leb_ℤ r w.resources_available)) [
  | inl e ↦ (0, rw (e) refl)
  | inr e ↦ let (p, q) = find_thread-Fits ws r (ground (arith, f, e)) in (suc p, rw (e, q) refl)
]

-- A worker that is found is one of the array.
pub find_thread-get_elem? :
    (fs : List ℤ) (r : ℤ) (place : ℕ)
    → find_thread fs r ≡ some place
    → (free : ℤ) × (get_elem? fs place ≡ some free) × (r ≤ℤ free)
unfolding find_thread
find_thread-get_elem? [] r place e = absurd (ground arith)
find_thread-get_elem? (f ∷ fs) r zero e = elim (Bool-cases (leb_ℤ r f)) [
  | inl here ↦ (f, refl, (leb_ℤ_iff r f).0 here)
  | inr there ↦ elim (Option-cases (find_thread fs r)) [
    | inl q ↦ absurd (ground arith)
    | inr (p, q) ↦ absurd (ground arith)
  ]
]
find_thread-get_elem? (f ∷ fs) r (suc place) e = elim (Bool-cases (leb_ℤ r f)) [
  | inl here ↦ absurd (ground arith)
  | inr there ↦ elim (Option-cases (find_thread fs r)) [
    | inl q ↦ absurd (ground arith)
    | inr (p, q) ↦ find_thread-get_elem? fs r place (ground arith)
  ]
]
