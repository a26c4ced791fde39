-- ===== src/Exam/Hall/Queue.antt =====
-- Inter Process Communication/Online_Exam.cpp: how many messages of a type a queue has.
use network_os_simulation.Shared.{
  ℕ, suc, ◌+◌, ◌<◌, ◌≤◌, ◌≡◌, refl, sym, ap, ap₂, subst, ◌∙◌, ◌≢◌, inl, inr, List, [], ◌∷◌, ◌++◌,
  Option, some, none, ◌>>=◌, false, arith, length, zero, ltb, ◌==◌, if◌then◌else◌, update,
  Bool-cases,
}
use network_os_simulation.Shared.Sums.{sum, sum-update, sum-le, sum-others-le}
use network_os_simulation.Exam.{receive}

unfoldable pub copies : ℕ → List (ℕ × ℕ) → ℕ
copies t [] = 0
copies t ((m, a) ∷ queue) = (if m == t then 1 else 0) + copies t queue

pub copies-append :
    (t : ℕ) (queue : List (ℕ × ℕ)) (m a : ℕ)
    → copies t (queue ++ (m, a) ∷ []) ≡ copies t queue + (if m == t then 1 else 0)
unfolding copies
copies-append t [] m a = omega arith
copies-append t ((m1, a1) ∷ queue) m a = omega (arith, copies-append t queue m a)

-- A message of the type is received if there is one.
pub receive-copies :
    (t : ℕ) (queue : List (ℕ × ℕ))
    → 0 < copies t queue
    → (r : ℕ × List (ℕ × ℕ)) × (receive t queue ≡ some r)
unfolding receive copies
receive-copies t [] h = absurd (omega (arith, h))
receive-copies t ((m, a) ∷ queue) h = elim (Bool-cases (m == t)) [
  | inl q ↦ ((a, queue), rw q refl)
  | inr q ↦
      let (r, e) = receive-copies t queue (subst_count q h) in ((r.0, (m, a) ∷ r.1), rw (q, e) refl)
]
  where
    subst_count :
        (m == t) ≡ false → 0 < (if m == t then 1 else 0) + copies t queue → 0 < copies t queue
    subst_count q h = ground (arith, h, q)

abbrev put_back : ℕ → ℕ → ℕ × List (ℕ × ℕ) → ℕ × List (ℕ × ℕ)
put_back m b r = (r.0, (m, b) ∷ r.1)

-- One message of the type is gone, and no other.
pub copies-receive :
    (t : ℕ) (queue : List (ℕ × ℕ)) (a : ℕ) (rest : List (ℕ × ℕ))
    → receive t queue ≡ some (a, rest)
    → (copies t queue ≡ suc (copies t rest))
      × ((u : ℕ) → u ≢ t → copies u rest ≡ copies u queue)
      × (length queue ≡ suc (length rest))
unfolding receive copies
copies-receive t [] a rest e = absurd (ground arith)
copies-receive t ((m, b) ∷ queue) a rest e = elim (Bool-cases (m == t)) [
  | inl q ↦
      let is : queue ≡ rest = ground (arith, e, q) in
      (
        ap₂ (λ f r. (if f then 1 else 0) + copies t r) q is ∙ omega arith,
        λ u ne. ap (copies u) (sym is) ∙ ground (arith, q, ne),
        ap (λ l. suc (length l)) is,
      )
  | inr q ↦
      let (rest1, got, is) = later (receive t queue) (
        subst
          (λ c.
            (if c then some (b, queue) else do r ← receive t queue; some (put_back m b r))
            ≡ some (a, rest))
          q e) in
      let (less, others, shorter) = copies-receive t queue a rest1 got in
      (
        ground (arith, less, ap (copies t) is, q),
        λ u ne. ap (copies u) (sym is) ∙ ap (λ k. (if m == u then 1 else 0) + k) (others u ne),
        ap suc shorter ∙ ap (λ l. suc (length l)) is,
      )
]
  where
    later :
        (o : Option (ℕ × List (ℕ × ℕ)))
        → (do r ← o; some (put_back m b r)) ≡ some (a, rest)
        → (rest1 : List (ℕ × ℕ)) × (o ≡ some (a, rest1)) × ((m, b) ∷ rest1 ≡ rest)
    later none e1 = absurd (ground (arith, e1))
    later (some (a1, rest1)) e1 = (
      rest1,
      ap (λ x. let p : ℕ × List (ℕ × ℕ) = (x, rest1) in some p) (ground (arith, e1)),
      ground (arith, e1),
    )

-- Whether a student is past question `q`, as a number.
abbrev ahead : ℕ → ℕ → ℕ
ahead q p = if ltb q p then 1 else 0

-- The students before `n` that are past question `q`.
abbrev pub past : ℕ → ℕ → (ℕ → ℕ) → ℕ
past n q place = sum (ahead q) n place

ahead-le : (q p : ℕ) → ahead q p ≤ 1
ahead-le q p = ground arith

ahead-zero : (q p : ℕ) → p ≤ q → ahead q p ≤ 0
ahead-zero q p le = ground (arith, le)

pub past-lt : (n q i : ℕ) (place : ℕ → ℕ) → i < n → place i ≤ q → past n q place < n
past-lt n q i place lt le = omega (
  arith,
  ahead-zero q (place i) le,
  sum-others-le (ahead q) n 1 i place (λ j _. ahead-le q (place j)) lt,
)

-- All students are past the question.
pub past-all : (n q : ℕ) (place : ℕ → ℕ) → ((i : ℕ) → i < n → suc q ≤ place i) → past n q place ≡ n
unfolding sum
past-all zero q place h = refl
past-all (suc n) q place h =
    let one : ahead q (place n) ≡ 1 = ground (arith, h n (omega arith)) in
    omega (arith, one, past-all n q place (λ i lt. h i (omega (arith, lt))))

pub past-none : (n q : ℕ) (place : ℕ → ℕ) → ((i : ℕ) → i < n → place i ≤ q) → past n q place ≡ 0
past-none n q place h =
    omega (arith, sum-le (ahead q) n 0 place (λ i lt. ahead-zero q (place i) (h i lt)))

pub past-update :
    (n q i v : ℕ) (place : ℕ → ℕ)
    → i < n
    → place i ≤ q
    → q < v
    → past n q (update place i v) ≡ suc (past n q place)
past-update n q i v place lt le gt =
    let now : ahead q v ≡ 1 = ground (arith, gt) in
    omega (arith, now, ahead-zero q (place i) le, sum-update (ahead q) n i v place lt)
