-- ===== src/Shared/Sums.antt =====
-- What the threads or the processes of a program amount to together.
use Prim.Native.Nat.{ℕ, zero, suc, ◌+◌, ◌*◌, ◌≤◌, ◌<◌}
use mathlib.Core.Path.{◌≡◌, refl, ap, ap₂}
use mathlib.Core.Logic.{if_pos, if_neg}
use native.Mathlib.Omega.{arith}
use native.Mathlib.Decide.{ℕ_discrete}
use network_os_simulation.Shared.Lists.{update}

-- A number for each place, added up.
module _ {P : Type 0} (weight : P → ℕ) where
  unfoldable pub sum : ℕ → (ℕ → P) → ℕ
  sum zero place = 0
  sum (suc n) place = weight (place n) + sum n place

  pub sum-same : (n i : ℕ) (p : P) (place : ℕ → P) → n ≤ i → sum n (update place i p) ≡ sum n place
  unfolding sum
  sum-same zero i p place le = refl
  sum-same (suc n) i p place le =
      ap₂ ◌+◌ (ap weight (if_neg (ℕ_discrete i n) (λ e. omega (arith, e, le)) p (place n)))
        (sum-same n i p place (omega (arith, le)))

  -- A change of one place changes its own part only.
  pub sum-update :
      (n i : ℕ) (p : P) (place : ℕ → P)
      → i < n
      → sum n (update place i p) + weight (place i) ≡ sum n place + weight p
  unfolding sum
  sum-update zero i p place lt = absurd (omega (arith, lt))
  sum-update (suc n) i p place lt = elim (ℕ_discrete i n) [
    | yes e ↦
        let now : weight (update place i p n) ≡ weight p =
          ap weight (if_pos (ℕ_discrete i n) e p (place n)) in
        omega (arith, now, sum-same n i p place (omega (arith, e)), ap (λ k. weight (place k)) e)
    | no ne ↦
        let same : weight (update place i p n) ≡ weight (place n) =
          ap weight (if_neg (ℕ_discrete i n) ne p (place n)) in
        omega (arith, same, sum-update n i p place (omega (arith, lt, ne)))
  ]

  pub sum-zero : (n : ℕ) (p : P) → weight p ≡ 0 → sum n (λ _. p) ≡ 0
  unfolding sum
  sum-zero zero p z = refl
  sum-zero (suc n) p z = omega (arith, z, sum-zero n p z)

  pub sum-le :
      (n b : ℕ) (place : ℕ → P) → ((i : ℕ) → i < n → weight (place i) ≤ b) → sum n place ≤ n * b
  unfolding sum
  sum-le zero b place h = omega arith
  sum-le (suc n) b place h =
      omega (arith, h n (omega arith), sum-le n b place (λ i lt. h i (omega (arith, lt))))

  -- The others leave one share free.
  pub sum-others-le :
      (n b i : ℕ) (place : ℕ → P)
      → ((j : ℕ) → j < n → weight (place j) ≤ b)
      → i < n
      → sum n place + b ≤ n * b + weight (place i)
  unfolding sum
  sum-others-le zero b i place h lt = absurd (omega (arith, lt))
  sum-others-le (suc n) b i place h lt = elim (ℕ_discrete i n) [
    | yes e ↦
        omega
          (arith, sum-le n b place (λ j lj. h j (omega (arith, lj))), ap (λ k. weight (place k)) e)
    | no ne ↦ omega (
      arith,
      h n (omega arith),
      sum-others-le n b i place (λ j lj. h j (omega (arith, lj))) (omega (arith, lt, ne)),
    )
  ]
