-- ===== src/Exam/Marks.antt =====
-- Inter Process Communication/Online_Exam.cpp: the loops over the students and the questions.
use network_os_simulation.Shared.{
  ℕ, zero, suc, ◌+◌, ◌<◌, ◌≡◌, refl, ap, subst, ◌∙◌, List, [], ◌∷◌, some, true, false, arith, ltb,
  ◌==◌, if◌then◌else◌, get_elem?, set, replicate, length, ◌>>=◌,
}
use network_os_simulation.Exam.{mark, mark_all, exam}
use network_os_simulation.Exam.Collect.{
  of_type, taken, counted, Holds, turn, drop_first, agree, matches, matches-step,
}

module _ (n c : ℕ) (answers : ℕ → List ℕ) (grades : ℕ → ℕ)
    (some_answer : (i : ℕ) → i < n → (a : ℕ) × (rest : List ℕ) × (answers i ≡ a ∷ rest)) where
  mark-Holds :
      (k j : ℕ) (queue : List (ℕ × ℕ)) (gs : List ℕ)
      → j + k ≡ n
      → Holds n (taken j answers) (counted c j answers grades) queue gs
      → (queue1 : List (ℕ × ℕ)) × (gs1 : List ℕ) × (mark c k j queue gs ≡ some (queue1, gs1))
        × Holds n (taken n answers) (counted c n answers grades) queue1 gs1
  unfolding mark
  mark-Holds zero j queue gs e h = (
    queue,
    gs,
    refl,
    subst (λ m. Holds n (taken m answers) (counted c m answers grades) queue gs) (omega arith) h,
  )
  mark-Holds (suc k) j queue gs e h =
      let (r, g, got, old, h1) = turn n c answers grades some_answer j queue gs (omega arith) h in
      let (queue1, gs1, runs, h2) =
        mark-Holds k (suc j) r.1 (set gs j (if r.0 == c then suc g else g)) (omega arith) h1 in
      (queue1, gs1, rw (got, ◌>>=◌, old) runs, h2)

  -- All students are marked for one question.
  question :
      (queue : List (ℕ × ℕ)) (gs : List ℕ)
      → Holds n answers grades queue gs
      → (queue1 : List (ℕ × ℕ)) × (gs1 : List ℕ) × (mark c n 0 queue gs ≡ some (queue1, gs1))
        × Holds n (λ i. drop_first (answers i)) (λ i. grades i + agree c (answers i)) queue1 gs1
  question queue gs h =
      let (queue1, gs1, runs, h1) = mark-Holds n 0 queue gs (omega arith) (record {
        waiting = λ i lt. h.waiting i lt ∙ rw (none_below i) refl;
        graded = λ i lt. h.graded i lt ∙ rw (none_below i) refl;
      }) in
      (
        queue1,
        gs1,
        runs,
        record {
          waiting = λ i lt. h1.waiting i lt ∙ rw (is_below i lt) refl;
          graded = λ i lt. h1.graded i lt ∙ rw (is_below i lt) refl;
        },
      )
    where
      none_below : (i : ℕ) → ltb i 0 ≡ false
      none_below i = ground arith

      is_below : (i : ℕ) → i < n → ltb i n ≡ true
      is_below i lt = ground arith

not_empty : (xs : List ℕ) (k : ℕ) → length xs ≡ suc k → (a : ℕ) × (rest : List ℕ) × (xs ≡ a ∷ rest)
not_empty [] k e = absurd (omega arith)
not_empty (a ∷ rest) k e = (a, rest, refl)

length-drop_first : (xs : List ℕ) (k : ℕ) → length xs ≡ suc k → length (drop_first xs) ≡ k
length-drop_first [] k e = absurd (omega arith)
length-drop_first (a ∷ rest) k e = omega arith

mark_all-matches :
    (n : ℕ) (cs : List ℕ) (answers : ℕ → List ℕ) (grades : ℕ → ℕ) (queue : List (ℕ × ℕ))
    (gs : List ℕ)
    → ((i : ℕ) → i < n → length (answers i) ≡ length cs)
    → Holds n answers grades queue gs
    → (gs1 : List ℕ) × (mark_all n cs queue gs ≡ some gs1)
      × ((i : ℕ) → i < n → get_elem? gs1 i ≡ some (grades i + matches cs (answers i)))
unfolding mark_all
mark_all-matches n [] answers grades queue gs len h =
    (gs, refl, λ i lt. h.graded i lt ∙ ap some (omega arith))
mark_all-matches n (c ∷ cs) answers grades queue gs len h =
    let (queue1, gs1, runs, h1) =
      question n c answers grades (λ i lt. not_empty (answers i) (length cs) (len i lt)) queue gs
        h in
    let (gs2, runs2, all) =
      mark_all-matches n cs (λ i. drop_first (answers i)) (λ i. grades i + agree c (answers i))
        queue1 gs1 (λ i lt. length-drop_first (answers i) (length cs) (len i lt)) h1 in
    (
      gs2,
      rw (runs, ◌>>=◌) runs2,
      λ i lt. all i lt ∙ ap some (omega (arith, matches-step c cs (answers i))),
    )

get_elem?-replicate : (n x i : ℕ) → i < n → get_elem? (replicate n x) i ≡ some x
get_elem?-replicate zero x i lt = absurd (omega arith)
get_elem?-replicate (suc n) x zero lt = refl
get_elem?-replicate (suc n) x (suc i) lt = get_elem?-replicate n x i (omega arith)

-- In whatever order the answers of the students arrive, if the queue has for each student one
-- answer to each question in the order of the questions, the parent collects all of them without
-- waiting for ever, and the grade of each student is the number of the right answers among them.
pub exam-matches :
    (n : ℕ) (cs : List ℕ) (queue : List (ℕ × ℕ))
    → ((i : ℕ) → i < n → length (of_type (suc i) queue) ≡ length cs)
    → (gs : List ℕ) × (exam n cs queue ≡ some gs)
      × ((i : ℕ) → i < n → get_elem? gs i ≡ some (matches cs (of_type (suc i) queue)))
unfolding exam
exam-matches n cs queue len =
    let (gs, runs, all) =
      mark_all-matches n cs (λ i. of_type (suc i) queue) (λ i. 0) queue (replicate n 0) len
        (record { waiting = λ i lt. refl; graded = λ i lt. get_elem?-replicate n 0 i lt }) in
    (gs, runs, λ i lt. all i lt ∙ ap some (omega arith))
