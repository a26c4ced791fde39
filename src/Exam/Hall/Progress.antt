-- ===== src/Exam/Hall/Progress.antt =====
-- Inter Process Communication/Online_Exam.cpp: the parent and the children never wait for each
-- other for ever.
use network_os_simulation.Shared.{
  ℕ, suc, length, ℕ_discrete, ◌<◌, ◌≤◌, ◌≡◌, refl, sym, ap, subst, ◌∙◌, inl, inr, List, [], ◌∷◌,
  some, none, true, false, arith, ltb, ◌==◌, ◌&&◌, if◌then◌else◌, Bool-cases, length-set, set,
  get_elem?, get_elem?-lt,
}
use network_os_simulation.Shared.Sums.{sum-others-le}
use network_os_simulation.Exam.{receive}
use network_os_simulation.Exam.Hall.{
  Phase, Hall, Move, generate_answer, start, ask, collect, parent_move, take_question, send_answer,
  move, moves,
}
use network_os_simulation.Exam.Hall.Queue.{copies, past-lt, receive-copies}
use network_os_simulation.Exam.Hall.Running.{
  IsRunning, sent, got, start-IsRunning, bind-some, waits, asked_one, asked_all,
  asked_one-IsRunning, asked_all-IsRunning, collected-IsRunning, next-IsRunning,
}
use network_os_simulation.Exam.Hall.Children.{taken-IsRunning, sent-IsRunning}
use network_os_simulation.Exam.Hall.Made.{
  some-inj, when_true, when_false, took, answered, ask-some, take_question-some, send_answer-some,
  Made, of_parent, of_take, of_answer, move-Made,
}

module _ (n m : ℕ) {r : ℕ} (s : Hall) (h : IsRunning n r s) where
  collect-IsRunning :
      (j : ℕ) (s1 : Hall) → s.phase ≡ Phase.marking j → collect n j s ≡ some s1 → IsRunning n r s1
  unfolding collect
  collect-IsRunning j s1 p e = elim (Bool-cases (ltb j n)) [
    | inl q ↦
        let (r1, got, e1) =
          bind-some (receive (suc j) s.answers) _ s1 (when_true (ltb j n) _ _ (some s1) q e) in
        let (g, was, e2) = bind-some (get_elem? s.grades j) _ s1 e1 in
        subst (IsRunning n r) (some-inj _ s1 e2) (
          collected-IsRunning n s h j r1.0 r1.1
            (set s.grades j (if r1.0 == s.correct then suc g else g)) p (ground (arith, q)) got
            (length-set s.grades j _ ∙ h.graded))
    | inr q ↦
        subst (IsRunning n r) (some-inj _ s1 (when_false (ltb j n) _ _ (some s1) q e))
          (next-IsRunning n s h j p (ground (arith, q)))
  ]

  parent_move-IsRunning :
      (drawn : ℕ) (p : Phase) (s1 : Hall)
      → s.phase ≡ p
      → parent_move n drawn p s ≡ some s1
      → IsRunning n r s1
  unfolding parent_move
  parent_move-IsRunning drawn (Phase.asking k) s1 p e = elim (ask-some n k drawn s s1 e) [
    | inl (lt, is) ↦ subst (IsRunning n r) is (asked_one-IsRunning n s h k p lt)
    | inr (ge, is) ↦ subst (IsRunning n r) is (asked_all-IsRunning n s h k drawn p ge)
  ]
  parent_move-IsRunning drawn (Phase.marking j) s1 p e = collect-IsRunning j s1 p e

  Made-IsRunning : (a : Move) (s1 : Hall) → Made n m s s1 a → IsRunning n r s1
  Made-IsRunning (Move.parent drawn) s1 (of_parent lt e) =
      parent_move-IsRunning drawn s.phase s1 refl e
  Made-IsRunning (Move.take i) s1 (of_take lt more same e) =
      let (r1, got, is) = take_question-some i s s1 e in
      subst (IsRunning n r) is (taken-IsRunning n s h i r1.0 r1.1 lt same got)
  Made-IsRunning (Move.answer i drawn) s1 (of_answer lt due e) =
      subst (IsRunning n r) (send_answer-some i drawn s s1 e)
        (sent-IsRunning n s h i (generate_answer drawn) lt due)

  pub move-IsRunning : (a : Move) (s1 : Hall) → move n m a s ≡ some s1 → IsRunning n r s1
  move-IsRunning a s1 e = Made-IsRunning a s1 (move-Made n m s s1 a e)

pub moves-IsRunning :
    (n m : ℕ) {r : ℕ} (ms : List Move) (s t : Hall)
    → IsRunning n r s
    → moves n m ms s ≡ some t
    → IsRunning n r t
unfolding moves
moves-IsRunning n m {r} [] s t h e = subst (IsRunning n r) (some-inj s t e) h
moves-IsRunning n m (a ∷ ms) s t h e =
    let (s1, first, rest) = bind-some (move n m a s) _ t e in
    moves-IsRunning n m ms s1 t (move-IsRunning n m s h a s1 first) rest

ask-asked_one :
    (n k drawn : ℕ) (s : Hall)
    → k < n
    → length s.asked < s.room
    → ask n k drawn s ≡ some (asked_one k s)
unfolding ask
ask-asked_one n k drawn s lt room = ground (arith, lt, room)

ask-asked_all : (n k drawn : ℕ) (s : Hall) → n ≤ k → ask n k drawn s ≡ some (asked_all drawn s)
unfolding ask
ask-asked_all n k drawn s ge = ground (arith, ge)

abbrev marked : ℕ → ℕ × List (ℕ × ℕ) → ℕ → Hall → Hall
marked j r g s = record s {
  answers = r.1;
  grades = set s.grades j (if r.0 == s.correct then suc g else g);
  phase = Phase.marking (suc j);
}

collect-marked :
    (n j : ℕ) (r : ℕ × List (ℕ × ℕ)) (g : ℕ) (s : Hall)
    → ltb j n ≡ true
    → receive (suc j) s.answers ≡ some r
    → get_elem? s.grades j ≡ some g
    → collect n j s ≡ some (marked j r g s)
unfolding collect
collect-marked n j r g s q got was = rw (q, got, was) refl

abbrev next_question : Hall → Hall
next_question s = record s { question = suc s.question; phase = Phase.asking 0 }

collect-next : (n j : ℕ) (s : Hall) → ltb j n ≡ false → collect n j s ≡ some (next_question s)
unfolding collect
collect-next n j s q = rw q refl

-- Some process can move.
abbrev pub CanMove : ℕ → ℕ → Hall → Type 0
CanMove n m s = (a : Move) × (t : Hall) × (move n m a s ≡ some t)

module _ (n m : ℕ) {r : ℕ} (s : Hall) (h : IsRunning n r s) (fits : n ≤ r)
    (lt : s.question < m) where
  parent-CanMove : (drawn : ℕ) (t : Hall) → parent_move n drawn s.phase s ≡ some t → CanMove n m s
  unfolding move
  parent-CanMove drawn t e = (Move.parent drawn, t, ground (arith, e, lt))

  -- A child that is still at the current question finds its copy.
  take-CanMove :
      (j : ℕ)
      → j < n
      → s.place j ≡ s.question
      → s.received j ≡ s.place j
      → sent n s.phase ≡ n
      → CanMove n m s
  unfolding move take_question
  take-CanMove j lj here same all =
      let before = past-lt n s.question j s.received lj (omega (arith, here, same)) in
      let queued : 0 < copies (suc (s.place j)) s.asked =
        subst (λ x. 0 < copies (suc x) s.asked) (sym here)
          (omega (arith, before, h.current, all)) in
      let (r1, got) = receive-copies (suc (s.place j)) s.asked queued in
      let ready : (ltb j n && ltb (s.place j) m && (s.received j == s.place j)) ≡ true =
        ground (arith, lj, here, lt, same) in
      (
        Move.take j,
        took j r1.1 s,
        ap (λ b. if b then take_question j s else none) ready ∙ rw got refl,
      )

  -- There is room for the answer to the current question.
  answers_room : (j : ℕ) → j < n → s.place j ≡ s.question → length s.answers < r
  answers_room j lj here =
      let all =
        sum-others-le (λ p. p) n (suc s.question) j s.place
          (λ i li. omega (arith, h.high i li, (h.behind i li).0)) lj in
      omega (arith, all, h.answers_size, here, fits)

  answer-CanMove :
      (j : ℕ) → j < n → s.place j ≡ s.question → s.place j < s.received j → CanMove n m s
  unfolding move send_answer
  answer-CanMove j lj here due =
      let room : ltb (length s.answers) s.room ≡ true =
        ground (arith, answers_room j lj here, h.room) in
      let ready : (ltb j n && ltb (s.place j) (s.received j)) ≡ true = ground (arith, lj, due) in
      (
        Move.answer j 0,
        answered j 0 s,
        ap (λ b. if b then send_answer j 0 s else none) ready
            ∙ ap (λ b. if b then some (answered j 0 s) else none) room,
      )

  child-CanMove : (j : ℕ) → j < n → s.place j ≡ s.question → sent n s.phase ≡ n → CanMove n m s
  child-CanMove j lj here all = elim (ℕ_discrete (s.received j) (s.place j)) [
    | yes same ↦ take-CanMove j lj here same all
    | no ne ↦ answer-CanMove j lj here (omega (arith, ne, (h.behind j lj).0))
  ]

  collect-CanMove : (j : ℕ) → s.phase ≡ Phase.marking j → CanMove n m s
  unfolding parent_move
  collect-CanMove j p = elim (Bool-cases (ltb j n)) [
    | inl q ↦ elim (Bool-cases (ltb 0 (copies (suc j) s.answers))) [
      | inl w ↦
          let (r1, got) = receive-copies (suc j) s.answers (ground (arith, w)) in
          let (g, was) = get_elem?-lt s.grades j (ground (arith, q, h.graded)) in
          parent-CanMove 0 (marked j r1 g s)
            (ap (λ x. parent_move n 0 x s) p ∙ collect-marked n j r1 g s q got was)
      | inr w ↦
          let lj : j < n = ground (arith, q) in
          child-CanMove j lj (ground (arith, waits n s h j lj j (ap got p), w)) (ap (sent n) p)
    ]
    | inr q ↦
        parent-CanMove 0 (next_question s) (ap (λ x. parent_move n 0 x s) p ∙ collect-next n j s q)
  ]

  ask-CanMove : (k : ℕ) → s.phase ≡ Phase.asking k → CanMove n m s
  unfolding parent_move
  ask-CanMove k p = elim (Bool-cases (ltb k n)) [
    | inl q ↦
        let room : length s.asked < s.room =
          ground (arith, q, h.asked_size ∙ ap (sent n) p, h.room, fits) in
        parent-CanMove 0 (asked_one k s)
          (ap (λ x. parent_move n 0 x s) p ∙ ask-asked_one n k 0 s (ground (arith, q)) room)
    | inr q ↦
        parent-CanMove 0 (asked_all 0 s)
          (ap (λ x. parent_move n 0 x s) p ∙ ask-asked_all n k 0 s (ground (arith, q)))
  ]

  phase-CanMove : (p : Phase) → s.phase ≡ p → CanMove n m s
  phase-CanMove (Phase.asking k) e = ask-CanMove k e
  phase-CanMove (Phase.marking j) e = collect-CanMove j e

-- In every order of the moves, where each queue has room for a message of each student: as long as
-- the parent has a question left, some process can move, and when it has none left, every child
-- has answered all questions.
pub moves-CanMove :
    (n m room : ℕ) (ms : List Move) (s : Hall)
    → n ≤ room
    → moves n m ms (start n room) ≡ some s
    → (s.question < m → CanMove n m s) × (m ≤ s.question → (i : ℕ) → i < n → m ≤ s.place i)
moves-CanMove n m room ms s fits e =
    let h = moves-IsRunning n m ms (start n room) s (start-IsRunning n room) e in
    (λ lt. phase-CanMove n m s h fits lt s.phase refl, λ le i lt. omega (arith, h.low i lt, le))
