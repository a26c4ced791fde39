-- ===== src/Exam/Hall/Graded.antt =====
-- Inter Process Communication/Online_Exam.cpp: the grades of the parent among the children are
-- those that its loops compute from all messages in the order of their arrival.
use mathlib.Core.List.{append_assoc}
use network_os_simulation.Shared.{
  ℕ, suc, ◌-◌, ◌≡◌, refl, sym, ap, ap₂, subst, ◌∙◌, true, false, inl, inr, List, [], ◌∷◌, ◌++◌,
  Option, some, none, ◌>>=◌, arith, ltb, ◌==◌, if◌then◌else◌, Bool-cases, get_elem?,
}
use network_os_simulation.Exam.{receive, mark, mark_all, exam}
use network_os_simulation.Exam.Hall.{
  Phase, Hall, Move, generate_answer, start, ask, collect, parent_move, send_answer, move, moves,
}
use network_os_simulation.Exam.Hall.Running.{bind-some}
use network_os_simulation.Exam.Hall.Made.{
  some-inj, when_true, when_false, ask-some, take_question-some, send_answer-some, Made, of_parent,
  of_take, of_answer, move-Made,
}

-- The message of a move, and the messages of a run.
abbrev pub answer_of : Move → List (ℕ × ℕ)
answer_of (Move.parent d) = []
answer_of (Move.take i) = []
answer_of (Move.answer i d) = (suc i, generate_answer d) ∷ []

abbrev pub arrivals : List Move → List (ℕ × ℕ)
arrivals [] = []
arrivals (a ∷ ms) = answer_of a ++ arrivals ms

-- The correct answer that a move draws.
abbrev pub draw_at : ℕ → ℕ → Phase → List ℕ
draw_at n d (Phase.asking k) = if ltb k n then [] else generate_answer d ∷ []
draw_at n d (Phase.marking j) = []

abbrev pub draw_of : ℕ → Move → Hall → List ℕ
draw_of n (Move.parent d) s = draw_at n d s.phase
draw_of n (Move.take i) s = []
draw_of n (Move.answer i d) s = []

abbrev pub then_draws : List ℕ → (Hall → List ℕ) → Option Hall → List ℕ
then_draws cs rest none = []
then_draws cs rest (some s) = cs ++ rest s

-- The correct answers that a run draws.
unfoldable pub draws : ℕ → ℕ → List Move → Hall → List ℕ
unfolding move
draws n m [] s = []
draws n m (a ∷ ms) s = then_draws (draw_of n a s) (λ s1. draws n m ms s1) (move n m a s)

-- What the parent's loops still compute.
abbrev from_phase : ℕ → List ℕ → List (ℕ × ℕ) → ℕ → List ℕ → Phase → Option (List ℕ)
from_phase n cs queue correct gs (Phase.asking k) = mark_all n cs queue gs
from_phase n cs queue correct gs (Phase.marking j) = do
  r ← mark correct (n - j) j queue gs
  mark_all n cs r.0 r.1

abbrev remaining : ℕ → List ℕ → List (ℕ × ℕ) → Hall → Option (List ℕ)
remaining n cs later s = from_phase n cs (s.answers ++ later) s.correct s.grades s.phase

abbrev received : ℕ → List (ℕ × ℕ) → Option (ℕ × List (ℕ × ℕ))
received b rest = some (b, rest)

-- A message that is there is received, whatever comes later.
receive-append :
    (t : ℕ) (queue later : List (ℕ × ℕ)) (b : ℕ) (rest : List (ℕ × ℕ))
    → receive t queue ≡ some (b, rest)
    → receive t (queue ++ later) ≡ some (b, rest ++ later)
unfolding receive
receive-append t [] later b rest e = absurd (ground (arith, e))
receive-append t ((u, a) ∷ queue) later b rest e = elim (Bool-cases (u == t)) [
  | inl q ↦
      let same : a ≡ b = ground (arith, e, q) in
      let all : queue ≡ rest = ground (arith, e, q) in
      rw q (ap₂ (λ x l. received x (l ++ later)) same all)
  | inr q ↦ rw q (
      go (receive t queue) (λ c r i. receive-append t queue later c r i)
        (subst
          (λ x.
            (if x then received a queue else receive t queue >>= λ r. received r.0 ((u, a) ∷ r.1))
            ≡ some (b, rest))
          q e))
]
  where
    go :
        (o : Option (ℕ × List (ℕ × ℕ)))
        → ((c : ℕ) (r : List (ℕ × ℕ))
            → o ≡ some (c, r)
            → receive t (queue ++ later) ≡ some (c, r ++ later))
        → (o >>= λ r. received r.0 ((u, a) ∷ r.1)) ≡ some (b, rest)
        → (receive t (queue ++ later) >>= λ r. received r.0 ((u, a) ∷ r.1))
          ≡ some (b, rest ++ later)
    go none ih e1 = absurd (ground (arith, e1))
    go (some (c, r)) ih e1 =
        let same : c ≡ b = ground (arith, e1) in
        let all : (u, a) ∷ r ≡ rest = ground (arith, e1) in
        rw (ih c r refl) (ap₂ (λ x l. received x (l ++ later)) same all)

minus_zero : (n : ℕ) → n ≡ n - 0
minus_zero n = omega arith

module _ (n : ℕ) (cs : List ℕ) (later : List (ℕ × ℕ)) (s : Hall) where
  ask-remaining :
      (k d : ℕ) (s1 : Hall)
      → ask n k d s ≡ some s1
      → from_phase n
          (draw_at n d (Phase.asking k) ++ cs)
          (s.answers ++ later)
          s.correct
          s.grades
          (Phase.asking k)
        ≡ remaining n cs later s1
  unfolding mark_all
  ask-remaining k d s1 e = elim (ask-some n k d s s1 e) [
    | inl (lt, is) ↦
        let q : ltb k n ≡ true = ground (arith, lt) in rw (q) refl ∙ ap (remaining n cs later) is
    | inr (ge, is) ↦
        let q : ltb k n ≡ false = ground (arith, ge) in
        rw (q) (
          ap
            (λ k. mark (generate_answer d) k 0 (s.answers ++ later) s.grades >>= λ r.
              mark_all n cs r.0 r.1)
            (minus_zero n))
        ∙ ap (remaining n cs later) is
  ]

  collect-remaining :
      (j : ℕ) (s1 : Hall)
      → collect n j s ≡ some s1
      → from_phase n cs (s.answers ++ later) s.correct s.grades (Phase.marking j)
        ≡ remaining n cs later s1
  unfolding collect mark
  collect-remaining j s1 e = elim (Bool-cases (ltb j n)) [
    | inl q ↦
        let (r, got, e1) =
          bind-some (receive (suc j) s.answers) _ s1 (when_true (ltb j n) _ _ (some s1) q e) in
        let (g, was, e2) = bind-some (get_elem? s.grades j) _ s1 e1 in
        let left : n - j ≡ suc (n - suc j) = ground (arith, q) in
        ap (λ k. mark s.correct k j (s.answers ++ later) s.grades >>= λ x. mark_all n cs x.0 x.1)
          left
        ∙ rw (receive-append (suc j) s.answers later r.0 r.1 got, was) refl
        ∙ ap (remaining n cs later) (some-inj _ s1 e2)
    | inr q ↦
        let none_left : n - j ≡ 0 = ground (arith, q) in
        ap (λ k. mark s.correct k j (s.answers ++ later) s.grades >>= λ x. mark_all n cs x.0 x.1)
          none_left
        ∙ ap (remaining n cs later) (some-inj _ s1 (when_false (ltb j n) _ _ (some s1) q e))
  ]

  answer-remaining :
      (i d : ℕ) (s1 : Hall)
      → send_answer i d s ≡ some s1
      → remaining n cs ((suc i, generate_answer d) ∷ later) s ≡ remaining n cs later s1
  answer-remaining i d s1 e =
      ap (λ q. from_phase n cs q s.correct s.grades s.phase)
        (sym (append_assoc s.answers ((suc i, generate_answer d) ∷ []) later))
      ∙ ap (remaining n cs later) (send_answer-some i d s s1 e)

  parent-remaining :
      (d : ℕ) (p : Phase) (s1 : Hall)
      → s.phase ≡ p
      → parent_move n d p s ≡ some s1
      → from_phase n (draw_at n d p ++ cs) (s.answers ++ later) s.correct s.grades p
        ≡ remaining n cs later s1
  unfolding parent_move
  parent-remaining d (Phase.asking k) s1 is e = ask-remaining k d s1 e
  parent-remaining d (Phase.marking j) s1 is e = collect-remaining j s1 e

  Made-remaining :
      (m : ℕ) (a : Move) (s1 : Hall)
      → Made n m s s1 a
      → remaining n (draw_of n a s ++ cs) (answer_of a ++ later) s ≡ remaining n cs later s1
  Made-remaining m (Move.parent d) s1 (of_parent lt e) = parent-remaining d s.phase s1 refl e
  Made-remaining m (Move.take i) s1 (of_take lt more same e) =
      let (r, got, is) = take_question-some i s s1 e in ap (remaining n cs later) is
  Made-remaining m (Move.answer i d) s1 (of_answer lt due e) = answer-remaining i d s1 e

  -- A move computes a part of what the loops have left.
  move-remaining :
      (m : ℕ) (a : Move) (s1 : Hall)
      → move n m a s ≡ some s1
      → remaining n (draw_of n a s ++ cs) (answer_of a ++ later) s ≡ remaining n cs later s1
  move-remaining m a s1 e = Made-remaining m a s1 (move-Made n m s s1 a e)

moves-remaining :
    (n m : ℕ) (ms : List Move) (s t : Hall)
    → moves n m ms s ≡ some t
    → remaining n (draws n m ms s) (arrivals ms) s ≡ remaining n [] [] t
unfolding moves draws
moves-remaining n m [] s t e = ap (remaining n [] []) (some-inj s t e)
moves-remaining n m (a ∷ ms) s t e =
    let (s1, first, rest) = bind-some (move n m a s) _ t e in
    ap
      (λ o.
        remaining n (then_draws (draw_of n a s) (draws n m ms) o) (answer_of a ++ arrivals ms) s)
      first
    ∙ move-remaining n (draws n m ms s1) (arrivals ms) s m a s1 first
    ∙ moves-remaining n m ms s1 t rest

-- Whatever the order of the moves: when the parent is not marking, so between two questions and at
-- the end, the grades are those that its loops, taken as a function, give for the correct answers
-- drawn and the messages sent up to then, in the order of the moves.
pub moves-exam :
    (n m room : ℕ) (ms : List Move) (s : Hall) (k : ℕ)
    → moves n m ms (start n room) ≡ some s
    → s.phase ≡ Phase.asking k
    → exam n (draws n m ms (start n room)) (arrivals ms) ≡ some s.grades
unfolding exam start mark_all
moves-exam n m room ms s k e asks =
    moves-remaining n m ms (start n room) s e
    ∙ ap (from_phase n [] (s.answers ++ []) s.correct s.grades) asks
