-- ===== src/Exam/Collect.antt =====
-- Inter Process Communication/Online_Exam.cpp: one answer is received and marked.
use network_os_simulation.Shared.{
  ℕ, suc, ◌+◌, ◌<◌, ◌≡◌, refl, ap, subst, ◌∙◌, ◌≢◌, inl, inr, List, [], ◌∷◌, some, true, false,
  arith, ltb, sym, ℕ_discrete, ◌==◌, if◌then◌else◌, get_elem?, set, get_elem?-set_self,
  get_elem?-set_other, Bool-cases,
}
use network_os_simulation.Exam.{receive}

-- The answers of one type, in order.
abbrev pub of_type : ℕ → List (ℕ × ℕ) → List ℕ
of_type t [] = []
of_type t ((m, a) ∷ queue) = if m == t then a ∷ of_type t queue else of_type t queue

cons-inj : (x y : ℕ) (xs ys : List ℕ) → x ∷ xs ≡ y ∷ ys → (x ≡ y) × (xs ≡ ys)
cons-inj x y xs ys e = ground arith

other_type : (m t u : ℕ) → (m == t) ≡ true → u ≢ t → (m == u) ≡ false
other_type m t u q ne = ground arith

abbrev pub drop_first : List ℕ → List ℕ
drop_first [] = []
drop_first (a ∷ xs) = xs

-- 1 for a correct first answer.
abbrev pub agree : ℕ → List ℕ → ℕ
agree correct [] = 0
agree correct (a ∷ xs) = if a == correct then 1 else 0

receive-of_type :
    (t : ℕ) (queue : List (ℕ × ℕ)) (a : ℕ) (rest : List ℕ)
    → of_type t queue ≡ a ∷ rest
    → (queue1 : List (ℕ × ℕ)) × (receive t queue ≡ some (a, queue1))
      × (of_type t queue1 ≡ rest)
      × ((u : ℕ) → u ≢ t → of_type u queue1 ≡ of_type u queue)
unfolding receive
receive-of_type t [] a rest e = absurd (ground arith)
receive-of_type t ((m, b) ∷ queue) a rest e = elim (Bool-cases (m == t)) [
  | inl q ↦
      let (same, tail) =
        cons-inj b a (of_type t queue) rest
          (subst (λ c. (if c then b ∷ of_type t queue else of_type t queue) ≡ a ∷ rest) q e) in
      (
        queue,
        rw (q) (ap (λ x. let p : ℕ × List (ℕ × ℕ) = (x, queue) in some p) same),
        tail,
        λ u ne. rw (other_type m t u q ne) refl,
      )
  | inr q ↦
      let (queue1, got, tail, others) =
        receive-of_type t queue a rest
          (subst (λ c. (if c then b ∷ of_type t queue else of_type t queue) ≡ a ∷ rest) q e) in
      (
        (m, b) ∷ queue1,
        rw (q, got) refl,
        rw (q) tail,
        λ u ne. elim (Bool-cases (m == u)) [
          | inl w ↦ rw (w) (ap (◌∷◌ b) (others u ne))
          | inr w ↦ rw (w) (others u ne)
        ],
      )
]

-- The next answer of each student from number `j` on is taken.
abbrev pub taken : ℕ → (ℕ → List ℕ) → ℕ → List ℕ
taken j answers i = if ltb i j then drop_first (answers i) else answers i

abbrev pub counted : ℕ → ℕ → (ℕ → List ℕ) → (ℕ → ℕ) → ℕ → ℕ
counted correct j answers grades i =
    if ltb i j then grades i + agree correct (answers i) else grades i

-- Each of the `n` students has these answers in the queue and this grade.
pub record Holds (n : ℕ) (answers : ℕ → List ℕ) (grades : ℕ → ℕ) (queue : List (ℕ × ℕ))
    (gs : List ℕ) : Type 0 where
  pub waiting : (i : ℕ) → i < n → of_type (suc i) queue ≡ answers i
  pub graded : (i : ℕ) → i < n → get_elem? gs i ≡ some (grades i)

-- The right answers of a student.
abbrev pub matches : List ℕ → List ℕ → ℕ
matches [] answers = 0
matches (c ∷ cs) [] = 0
matches (c ∷ cs) (a ∷ xs) = (if a == c then 1 else 0) + matches cs xs

pub matches-step :
    (c : ℕ) (cs xs : List ℕ) → matches (c ∷ cs) xs ≡ agree c xs + matches cs (drop_first xs)
matches-step c cs [] = nothing cs
  where
    nothing : (ds : List ℕ) → 0 ≡ 0 + matches ds []
    nothing [] = omega arith
    nothing (d ∷ ds) = omega arith
matches-step c cs (a ∷ xs) = refl

module _ (n c : ℕ) (answers : ℕ → List ℕ) (grades : ℕ → ℕ)
    (some_answer : (i : ℕ) → i < n → (a : ℕ) × (rest : List ℕ) × (answers i ≡ a ∷ rest)) where
  -- The turn of student `j`.
  pub turn :
      (j : ℕ) (queue : List (ℕ × ℕ)) (gs : List ℕ)
      → j < n
      → Holds n (taken j answers) (counted c j answers grades) queue gs
      → (r : ℕ × List (ℕ × ℕ)) × (g : ℕ) × (receive (suc j) queue ≡ some r)
        × (get_elem? gs j ≡ some g)
        × Holds n
            (taken (suc j) answers)
            (counted c (suc j) answers grades)
            r.1
            (set gs j (if r.0 == c then suc g else g))
  turn j queue gs lt h =
      let (a, rest, is) = some_answer j lt in
      let now : of_type (suc j) queue ≡ a ∷ rest = h.waiting j lt ∙ (rw (not_below j) refl ∙ is) in
      let (queue1, got, tail, others) = receive-of_type (suc j) queue a rest now in
      let old : get_elem? gs j ≡ some (grades j) = h.graded j lt ∙ rw (not_below j) refl in
      let g1 = if a == c then suc (grades j) else grades j in
      (
        (a, queue1),
        grades j,
        got,
        old,
        record {
          waiting = λ i lt2. elim (ℕ_discrete i j) [
            | yes e ↦
                subst (λ k. of_type (suc k) queue1 ≡ taken (suc j) answers k) (sym e)
                  (tail ∙ rw (below j, is) refl)
            | no ne ↦
                others (suc i) (λ e. ne (omega (arith, e)))
                ∙ (h.waiting i lt2 ∙ rw (same_below i j ne) refl)
          ];
          graded = λ i lt2. elim (ℕ_discrete i j) [
            | yes e ↦
                subst (λ k. get_elem? (set gs j g1) k ≡ some (counted c (suc j) answers grades k))
                  (sym e)
                  (get_elem?-set_self gs j (grades j) g1 old
                    ∙ rw (below j, is) (ap some (plus_one a (grades j))))
            | no ne ↦
                get_elem?-set_other gs j i g1 (λ e. ne (sym e))
                ∙ (h.graded i lt2 ∙ rw (same_below i j ne) refl)
          ];
        },
      )
    where
      not_below : (k : ℕ) → ltb k k ≡ false
      not_below k = ground arith

      below : (k : ℕ) → ltb k (suc k) ≡ true
      below k = ground arith

      same_below : (i k : ℕ) → i ≢ k → ltb i k ≡ ltb i (suc k)
      same_below i k ne = ground arith

      plus_one : (a g : ℕ) → (if a == c then suc g else g) ≡ g + (if a == c then 1 else 0)
      plus_one a g = ground arith
