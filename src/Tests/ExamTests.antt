-- ===== src/Tests/ExamTests.antt =====
-- Inter Process Communication/Online_Exam.cpp: an exam of two students and two questions.
use network_os_simulation.Shared.{
  ℕ, zero, suc, ◌<◌, ◌≤◌, ◌+◌, ◌*◌, ◌≡◌, update, refl, inl, List, [], ◌∷◌, some, none, ℕ_discrete,
  arith, length, get_elem?,
}
use network_os_simulation.Exam.{receive, grade_f, exam, final_grade}
use network_os_simulation.Exam.Collect.{of_type, matches}
use network_os_simulation.Exam.Hall.{
  Phase, Hall, Move, start, ask, collect, parent_move, take_question, send_answer, move, moves,
  generate_answer,
}
use network_os_simulation.Exam.Hall.Progress
use network_os_simulation.Exam.Hall.Ends
use network_os_simulation.Exam.Hall.Graded
use network_os_simulation.Exam.Hall.Graded.{draws}
use network_os_simulation.Exam.Hall.Progress.{CanMove}
use network_os_simulation.Exam.Marks
use network_os_simulation.Exam.Grades

-- Student 2 is faster than student 1; the right answers are 65 and 67.
abbrev arrivals : List (ℕ × ℕ)
arrivals = (2, 65) ∷ (2, 66) ∷ (1, 65) ∷ (1, 67) ∷ []

lengths : (i : ℕ) → i < 2 → length (of_type (suc i) arrivals) ≡ 2
lengths zero lt = refl
lengths (suc zero) lt = refl
lengths (suc (suc i)) lt = absurd (omega arith)

run_of_exam : exam 2 (65 ∷ 67 ∷ []) arrivals ≡ some (2 ∷ 1 ∷ [])
unfolding exam
run_of_exam = refl

exam-matches_example :
    (gs : List ℕ) × (exam 2 (65 ∷ 67 ∷ []) arrivals ≡ some gs)
    × ((i : ℕ) → i < 2 → get_elem? gs i ≡ some (matches (65 ∷ 67 ∷ []) (of_type (suc i) arrivals)))
exam-matches_example = Marks.exam-matches 2 (65 ∷ 67 ∷ []) arrivals lengths

-- 99 right answers of 200 are 49.5 percent.
final_grade-gap_example : final_grade 200 99 ≡ grade_f
final_grade-gap_example = Grades.final_grade-gap 200 99 (inl (omega arith, omega arith))

-- One question to two students: both copies are sent, and student 2 has answered.
abbrev half_way : Hall
half_way = record {
  room = 2;
  asked = (1, 1) ∷ [];
  answers = (2, 66) ∷ [];
  question = 0;
  phase = Phase.marking 0;
  correct = 68;
  received = update (λ _. 0) 1 1;
  place = update (λ _. 0) 1 1;
  grades = 0 ∷ 0 ∷ [];
}

abbrev to_half_way : List Move
to_half_way = Move.parent 1 ∷ Move.parent 1 ∷ Move.take 1 ∷ Move.answer 1 5 ∷ Move.parent 3 ∷ []

-- All that a run computes with.
program : Unit {0}
unfolding moves move take_question send_answer parent_move ask collect start generate_answer receive
    ℕ_discrete
program = tt

moves-half_way : moves 2 1 to_half_way (start 2 2) ≡ some half_way
unfolding program
moves-half_way = refl

moves-CanMove_example :
    (0 < 1 → CanMove 2 1 half_way) × (1 ≤ 0 → (i : ℕ) → i < 2 → 1 ≤ half_way.place i)
moves-CanMove_example =
    Progress.moves-CanMove 2 1 2 to_half_way half_way (omega arith) moves-half_way

moves-ends_example : 5 ≤ 1 * (2 * 2 + 2) + 2 * 2 + 1 + 2 * (2 * (1 + 1))
moves-ends_example = Ends.moves-ends 2 1 2 to_half_way half_way moves-half_way

-- Queues of one message: student 2 has answered, and the answer of student 1 finds no room.
abbrev deadlock : Hall
deadlock = record {
  room = 1;
  asked = [];
  answers = (2, 66) ∷ [];
  question = 0;
  phase = Phase.marking 0;
  correct = 68;
  received = update (update (λ _. 0) 1 1) 0 1;
  place = update (λ _. 0) 1 1;
  grades = 0 ∷ 0 ∷ [];
}

to_deadlock :
    moves 2 1
      (Move.parent 1
        ∷ Move.take 1
        ∷ Move.answer 1 5
        ∷ Move.parent 1
        ∷ Move.take 0
        ∷ Move.parent 3
        ∷ [])
      (start 2 1)
    ≡ some deadlock
unfolding program
to_deadlock = refl

-- No process can move.
deadlocked : (a : Move) → move 2 1 a deadlock ≡ none
unfolding program
deadlocked (Move.parent d) = refl
deadlocked (Move.take zero) = refl
deadlocked (Move.take (suc zero)) = refl
deadlocked (Move.take (suc (suc i))) = ground arith
deadlocked (Move.answer zero d) = refl
deadlocked (Move.answer (suc zero) d) = refl
deadlocked (Move.answer (suc (suc i)) d) = ground arith

-- An exam of one student and one question, to its end.
abbrev one_question : List Move
one_question =
    Move.parent 1
    ∷ Move.parent 3
    ∷ Move.take 0
    ∷ Move.answer 0 7
    ∷ Move.parent 1
    ∷ Move.parent 1
    ∷ []

abbrev ended : Hall
ended = record {
  room = 1;
  asked = [];
  answers = [];
  question = 1;
  phase = Phase.asking 0;
  correct = 68;
  received = update (λ _. 0) 0 1;
  place = update (λ _. 0) 0 1;
  grades = 1 ∷ [];
}

moves-ended : moves 1 1 one_question (start 1 1) ≡ some ended
unfolding program
moves-ended = refl

moves-exam_example : exam 1 (68 ∷ []) ((1, 68) ∷ []) ≡ some (1 ∷ [])
unfolding program draws
moves-exam_example = Graded.moves-exam 1 1 1 one_question ended 0 moves-ended refl
