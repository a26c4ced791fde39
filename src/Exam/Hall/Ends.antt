-- ===== src/Exam/Hall/Ends.antt =====
-- Inter Process Communication/Online_Exam.cpp: every run of the parent and the children ends.
use native.Mathlib.Nat.{mul-le-mul_right}
use network_os_simulation.Shared.{
  ℕ, suc, ◌+◌, ◌*◌, ◌<◌, ◌≤◌, ◌≡◌, refl, subst, inl, inr, List, [], ◌∷◌, some, arith, ltb,
  Bool-cases, length, get_elem?,
}
use network_os_simulation.Shared.Sums.{sum-update, sum-le}
use network_os_simulation.Exam.{receive}
use network_os_simulation.Exam.Hall.{
  Phase, Hall, Move, start, ask, collect, parent_move, move, moves,
}
use network_os_simulation.Exam.Hall.Running.{
  total, IsRunning, sent, got, start-IsRunning, bind-some,
}
use network_os_simulation.Exam.Hall.Progress.{move-IsRunning, moves-IsRunning}
use network_os_simulation.Exam.Hall.Made.{
  some-inj, when_true, when_false, ask-some, take_question-some, send_answer-some, Made, of_parent,
  of_take, of_answer, move-Made,
}

-- The moves of the parent in the round of a question.
abbrev index : ℕ → Phase → ℕ
index n (Phase.asking k) = k
index n (Phase.marking j) = n + 1 + j

-- Every move makes it larger.
abbrev progress : ℕ → Hall → ℕ
progress n s = s.question * (2 * n + 2) + index n s.phase + total n s.received + total n s.place

module _ (n m : ℕ) {r : ℕ} (s : Hall) (h : IsRunning n r s) where
  ask-progress :
      (k drawn : ℕ) (s1 : Hall)
      → s.phase ≡ Phase.asking k
      → ask n k drawn s ≡ some s1
      → progress n s < progress n s1
  ask-progress k drawn s1 p e =
      let le : k ≤ n = subst (λ x. sent n x ≤ n) p h.sent_le in
      elim (ask-some n k drawn s s1 e) [
        | inl (lt, is) ↦ subst (λ t. progress n s < progress n t) is (rw (p) (omega arith))
        | inr (ge, is) ↦ subst (λ t. progress n s < progress n t) is (rw (p) (omega (arith, le)))
      ]

  collect-progress :
      (j : ℕ) (s1 : Hall)
      → s.phase ≡ Phase.marking j
      → collect n j s ≡ some s1
      → progress n s < progress n s1
  unfolding collect
  collect-progress j s1 p e =
      let le : j ≤ n = subst (λ x. got x ≤ n) p h.got_le in
      elim (Bool-cases (ltb j n)) [
        | inl q ↦
            let (r, got1, e1) =
              bind-some (receive (suc j) s.answers) _ s1 (when_true (ltb j n) _ _ (some s1) q e) in
            let (g, was, e2) = bind-some (get_elem? s.grades j) _ s1 e1 in
            subst (λ t. progress n s < progress n t) (some-inj _ s1 e2) (rw p (omega arith))
        | inr q ↦
            subst (λ t. progress n s < progress n t)
              (some-inj _ s1 (when_false (ltb j n) _ _ (some s1) q e)) (rw p (omega (arith, le)))
      ]

  parent_move-progress :
      (drawn : ℕ) (p : Phase) (s1 : Hall)
      → s.phase ≡ p
      → parent_move n drawn p s ≡ some s1
      → progress n s < progress n s1
  unfolding parent_move
  parent_move-progress drawn (Phase.asking k) s1 p e = ask-progress k drawn s1 p e
  parent_move-progress drawn (Phase.marking j) s1 p e = collect-progress j s1 p e

  Made-progress : (a : Move) (s1 : Hall) → Made n m s s1 a → progress n s < progress n s1
  Made-progress (Move.parent drawn) s1 (of_parent lt e) =
      parent_move-progress drawn s.phase s1 refl e
  Made-progress (Move.take i) s1 (of_take lt more same e) =
      let (r1, got1, is) = take_question-some i s s1 e in
      subst (λ t. progress n s < progress n t) is
        (omega (arith, sum-update (λ p. p) n i (suc (s.received i)) s.received lt))
  Made-progress (Move.answer i drawn) s1 (of_answer lt due e) =
      subst (λ t. progress n s < progress n t) (send_answer-some i drawn s s1 e)
        (omega (arith, sum-update (λ p. p) n i (suc (s.place i)) s.place lt))

  -- Every move is progress.
  move-progress : (a : Move) (s1 : Hall) → move n m a s ≡ some s1 → progress n s < progress n s1
  move-progress a s1 e = Made-progress a s1 (move-Made n m s s1 a e)

module _ (n m : ℕ) (s : Hall) where
  ask-question :
      (k drawn : ℕ) (s1 : Hall) → ask n k drawn s ≡ some s1 → s1.question ≤ suc s.question
  ask-question k drawn s1 e = elim (ask-some n k drawn s s1 e) [
    | inl (lt, is) ↦ subst (λ t. t.question ≤ suc s.question) is (omega arith)
    | inr (ge, is) ↦ subst (λ t. t.question ≤ suc s.question) is (omega arith)
  ]

  collect-question : (j : ℕ) (s1 : Hall) → collect n j s ≡ some s1 → s1.question ≤ suc s.question
  unfolding collect
  collect-question j s1 e = elim (Bool-cases (ltb j n)) [
    | inl q ↦
        let (r, got1, e1) =
          bind-some (receive (suc j) s.answers) _ s1 (when_true (ltb j n) _ _ (some s1) q e) in
        let (g, was, e2) = bind-some (get_elem? s.grades j) _ s1 e1 in
        subst (λ t. t.question ≤ suc s.question) (some-inj _ s1 e2) (omega arith)
    | inr q ↦
        subst (λ t. t.question ≤ suc s.question)
          (some-inj _ s1 (when_false (ltb j n) _ _ (some s1) q e)) (omega arith)
  ]

  parent_move-question :
      (drawn : ℕ) (p : Phase) (s1 : Hall)
      → parent_move n drawn p s ≡ some s1
      → s1.question ≤ suc s.question
  unfolding parent_move
  parent_move-question drawn (Phase.asking k) s1 e = ask-question k drawn s1 e
  parent_move-question drawn (Phase.marking j) s1 e = collect-question j s1 e

  Made-question : (a : Move) (s1 : Hall) → s.question ≤ m → Made n m s s1 a → s1.question ≤ m
  Made-question (Move.parent drawn) s1 le (of_parent lt e) =
      omega (arith, parent_move-question drawn s.phase s1 e, lt)
  Made-question (Move.take i) s1 le (of_take lt more same e) =
      let (r1, got1, is) = take_question-some i s s1 e in subst (λ t. t.question ≤ m) is le
  Made-question (Move.answer i drawn) s1 le (of_answer lt due e) =
      subst (λ t. t.question ≤ m) (send_answer-some i drawn s s1 e) le

  -- The parent stops at the number of the questions.
  move-question : (a : Move) (s1 : Hall) → s.question ≤ m → move n m a s ≡ some s1 → s1.question ≤ m
  move-question a s1 le e = Made-question a s1 le (move-Made n m s s1 a e)

moves-progress :
    (n m : ℕ) {r : ℕ} (ms : List Move) (s t : Hall)
    → IsRunning n r s
    → s.question ≤ m
    → moves n m ms s ≡ some t
    → (length ms + progress n s ≤ progress n t) × (t.question ≤ m)
unfolding moves
moves-progress n m [] s t h le e =
    let is = some-inj s t e in
    (
      subst (λ x. 0 + progress n s ≤ progress n x) is (omega arith),
      subst (λ x. x.question ≤ m) is le,
    )
moves-progress n m (a ∷ ms) s t h le e =
    let (s1, first, rest) = bind-some (move n m a s) _ t e in
    let (more, last) =
      moves-progress n m ms s1 t (move-IsRunning n m s h a s1 first)
        (move-question n m s a s1 le first) rest in
    (omega (arith, more, move-progress n m s h a s1 first), last)

start-question : (n m room : ℕ) → (start n room).question ≤ m
unfolding start
start-question n m room = omega arith

index-le : (n : ℕ) (p : Phase) → sent n p ≤ n → got p ≤ n → index n p ≤ 2 * n + 1
index-le n (Phase.asking k) sl gl = omega (arith, sl)
index-le n (Phase.marking j) sl gl = omega (arith, gl)

-- Every run of the parent and the children ends, whatever room the queues have: with `n` students
-- and `m` questions no run has more than m * (2 * n + 2) + 2 * n + 1 + 2 * (n * (m + 1)) moves.
pub moves-ends :
    (n m room : ℕ) (ms : List Move) (s : Hall)
    → moves n m ms (start n room) ≡ some s
    → length ms ≤ m * (2 * n + 2) + 2 * n + 1 + 2 * (n * (m + 1))
moves-ends n m room ms s e =
    let h = moves-IsRunning n m ms (start n room) s (start-IsRunning n room) e in
    let (made, le) =
      moves-progress n m ms (start n room) s (start-IsRunning n room) (start-question n m room) e in
    let taken : total n s.received ≤ n * (m + 1) =
      sum-le (λ p. p) n (m + 1) s.received (λ i lt. omega (arith, h.high i lt, le)) in
    let given : total n s.place ≤ n * (m + 1) =
      sum-le (λ p. p) n (m + 1) s.place
        (λ i lt. omega (arith, h.high i lt, (h.behind i lt).0, le)) in
    let rounds : s.question * (2 * n + 2) ≤ m * (2 * n + 2) = mul-le-mul_right (2 * n + 2) le in
    let inside : index n s.phase ≤ 2 * n + 1 = index-le n s.phase h.sent_le h.got_le in
    omega (arith, made, taken, given, rounds, inside)
