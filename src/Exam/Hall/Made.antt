-- ===== src/Exam/Hall/Made.antt =====
-- -- Inter Process Communication/Online_Exam.cpp: what it says of a state that a move can be made.
use network_os_simulation.Shared.{
  ℕ, suc, length, ◌⊎◌, ◌<◌, ◌≤◌, ◌≡◌, ap, inl, inr, List, [], ◌∷◌, ◌++◌, update, Bool, Option, some,
  none, true, false, arith, ltb, ◌==◌, ◌&&◌, if◌then◌else◌, Bool-cases,
}
use network_os_simulation.Exam.{receive}
use network_os_simulation.Exam.Hall.{
  Hall, Move, generate_answer, ask, parent_move, take_question, send_answer, move,
}
use network_os_simulation.Exam.Hall.Running.{got, bind-some, asked_one, asked_all}

pub some-inj : (x y : Hall) → some x ≡ some y → x ≡ y
some-inj x y q = ap (λ (o : Option Hall). elim o [ some z ↦ z | none ↦ x ]) q

pub when_true : (b : Bool) (x y z : Option Hall) → b ≡ true → (if b then x else y) ≡ z → x ≡ z
when_true true x y z q e = e
when_true false x y z q e = absurd (ground (arith, q))

pub when_false : (b : Bool) (x y z : Option Hall) → b ≡ false → (if b then x else y) ≡ z → y ≡ z
when_false false x y z q e = e
when_false true x y z q e = absurd (ground (arith, q))

-- What a child leaves that takes a question, or sends an answer.
abbrev pub took : ℕ → List (ℕ × ℕ) → Hall → Hall
took i rest s = record s { asked = rest; received = update s.received i (suc (s.received i)) }

abbrev pub answered : ℕ → ℕ → Hall → Hall
answered i drawn s = record s {
  answers = s.answers ++ (suc i, generate_answer drawn) ∷ [];
  place = update s.place i (suc (s.place i));
}

-- A move of the parent that asks is one of two.
pub ask-some :
    (n k drawn : ℕ) (s s1 : Hall)
    → ask n k drawn s ≡ some s1
    → ((k < n) × (asked_one k s ≡ s1)) ⊎ ((n ≤ k) × (asked_all drawn s ≡ s1))
unfolding ask
ask-some n k drawn s s1 e = elim (Bool-cases (ltb k n)) [
  | inl q ↦
      let guarded = when_true (ltb k n) _ _ (some s1) q e in
      elim (Bool-cases (ltb (length s.asked) s.room)) [
        | inl w ↦ inl (
          ground (arith, q),
          some-inj (asked_one k s) s1
              (when_true (ltb (length s.asked) s.room) _ _ (some s1) w guarded),
        )
        | inr w ↦
            absurd
              (ground (arith, when_false (ltb (length s.asked) s.room) _ _ (some s1) w guarded))
      ]
  | inr q ↦
      inr (
        ground (arith, q),
        some-inj (asked_all drawn s) s1 (when_false (ltb k n) _ _ (some s1) q e),
      )
]

-- A question that a child takes was there.
pub take_question-some :
    (i : ℕ) (s s1 : Hall)
    → take_question i s ≡ some s1
    → (r : ℕ × List (ℕ × ℕ)) × (receive (suc (s.place i)) s.asked ≡ some r) × (took i r.1 s ≡ s1)
unfolding take_question
take_question-some i s s1 e =
    let (r, got, e1) = bind-some (receive (suc (s.place i)) s.asked) _ s1 e in
    (r, got, some-inj (took i r.1 s) s1 e1)

-- An answer was sent while there was room.
pub send_answer-some :
    (i drawn : ℕ) (s s1 : Hall) → send_answer i drawn s ≡ some s1 → answered i drawn s ≡ s1
unfolding send_answer
send_answer-some i drawn s s1 e = elim (Bool-cases (ltb (length s.answers) s.room)) [
  | inl w ↦
      some-inj (answered i drawn s) s1 (when_true (ltb (length s.answers) s.room) _ _ (some s1) w e)
  | inr w ↦ absurd (ground (arith, when_false (ltb (length s.answers) s.room) _ _ (some s1) w e))
]

-- What a move that was made says.
pub data Made (n m : ℕ) (s s1 : Hall) : Move → Type 0 where
  of_parent :
      {drawn : ℕ}
      → s.question < m
      → parent_move n drawn s.phase s ≡ some s1
      → Made n m s s1 (Move.parent drawn)
  of_take :
      {i : ℕ}
      → i < n
      → s.place i < m
      → s.received i ≡ s.place i
      → take_question i s ≡ some s1
      → Made n m s s1 (Move.take i)
  of_answer :
      {i drawn : ℕ}
      → i < n
      → s.place i < s.received i
      → send_answer i drawn s ≡ some s1
      → Made n m s s1 (Move.answer i drawn)

pub move-Made : (n m : ℕ) (s s1 : Hall) (a : Move) → move n m a s ≡ some s1 → Made n m s s1 a
unfolding move
move-Made n m s s1 (Move.parent drawn) e = elim (Bool-cases (ltb s.question m)) [
  | inl q ↦ of_parent (ground (arith, q)) (when_true (ltb s.question m) _ _ (some s1) q e)
  | inr q ↦ absurd (ground (arith, when_false (ltb s.question m) _ _ (some s1) q e))
]
move-Made n m s s1 (Move.take i) e =
    let ready = ltb i n && ltb (s.place i) m && (s.received i == s.place i) in
    elim (Bool-cases ready) [
      | inl q ↦
          of_take (ground (arith, q)) (ground (arith, q)) (ground (arith, q))
            (when_true ready _ _ (some s1) q e)
      | inr q ↦ absurd (ground (arith, when_false ready _ _ (some s1) q e))
    ]
move-Made n m s s1 (Move.answer i drawn) e =
    let ready = ltb i n && ltb (s.place i) (s.received i) in
    elim (Bool-cases ready) [
      | inl q ↦
          of_answer (ground (arith, q)) (ground (arith, q)) (when_true ready _ _ (some s1) q e)
      | inr q ↦ absurd (ground (arith, when_false ready _ _ (some s1) q e))
    ]
