-- ===== src/Exam/Hall.antt =====
-- Inter Process Communication/Online_Exam.cpp, lines 40 to 103: the parent and the children, which
-- talk over two queues of messages. A run is any sequence of moves of one process.
pub mod Queue
pub mod Running
pub mod Children
pub mod Made
pub mod Progress
pub mod Ends
pub mod Graded
use network_os_simulation.Shared.{
  ℕ, suc, ◌+◌, ◌%◌, List, [], ◌∷◌, ◌++◌, Option, none, some, ◌&&◌, ltb, ◌==◌, if◌then◌else◌,
  get_elem?, set, length, replicate, update, ◌>>=◌,
}
use network_os_simulation.Exam.{receive}

-- The parent sends the question to student `k`, or waits for the answer of student `j`.
pub data Phase : Type 0 where
  asking : ℕ → Phase
  marking : ℕ → Phase

-- The queues are `send_qid`, with the number of the question as its text, and `recv_qid`; a queue has
-- room for `room` messages, which all have the same size, and `msgsnd` waits while it is full.
-- `received` has the questions that each child has taken, and `place` its variable `j`, the answers
-- that it has sent.
pub record Hall : Type 0 where
  pub room : ℕ
  pub asked : List (ℕ × ℕ)
  pub answers : List (ℕ × ℕ)
  pub question : ℕ
  pub phase : Phase
  pub correct : ℕ
  pub received : ℕ → ℕ
  pub place : ℕ → ℕ
  pub grades : List ℕ

-- A move of the parent, a child that takes a question, a child that sends an answer; the first and
-- the last with a number that the process may draw.
pub data Move : Type 0 where
  parent : ℕ → Move
  take : ℕ → Move
  answer : ℕ → ℕ → Move

-- The answer for a random number from 1 to 10: 'A' to 'D'.
unfoldable pub generate_answer : ℕ → ℕ
generate_answer random_number = random_number % 4 + 65

unfoldable pub start : ℕ → ℕ → Hall
start num_students room = record {
  room = room;
  asked = [];
  answers = [];
  question = 0;
  phase = Phase.asking 0;
  correct = 0;
  received = λ _. 0;
  place = λ _. 0;
  grades = replicate num_students 0;
}

module _ (num_students : ℕ) where
  -- `msgsnd` to the next student, when there is room; after the last one the correct answer is
  -- drawn.
  unfoldable pub ask : ℕ → ℕ → Hall → Option Hall
  ask k drawn s =
      if ltb k num_students
      then (if ltb (length s.asked) s.room
          then some (record s {
            asked = s.asked ++ (suc s.question, suc s.question) ∷ [];
            phase = Phase.asking (suc k);
          })
          else none)
      else some (record s { phase = Phase.marking 0; correct = generate_answer drawn })

  -- `msgrcv` from the next student and the mark; after the last one the next question begins.
  unfoldable pub collect : ℕ → Hall → Option Hall
  collect j s =
      if ltb j num_students
      then (do
        r ← receive (suc j) s.answers
        g ← get_elem? s.grades j
        some (record s {
          answers = r.1;
          grades = set s.grades j (if r.0 == s.correct then suc g else g);
          phase = Phase.marking (suc j);
        }))
      else some (record s { question = suc s.question; phase = Phase.asking 0 })

  unfoldable pub parent_move : ℕ → Phase → Hall → Option Hall
  parent_move drawn (Phase.asking k) s = ask k drawn s
  parent_move drawn (Phase.marking j) s = collect j s

-- `msgrcv` of a child: its next question.
unfoldable pub take_question : ℕ → Hall → Option Hall
take_question i s = do
  r ← receive (suc (s.place i)) s.asked
  some (record s { asked = r.1; received = update s.received i (suc (s.received i)) })

-- `msgsnd` of a child: its answer, when there is room.
unfoldable pub send_answer : ℕ → ℕ → Hall → Option Hall
send_answer i drawn s =
    if ltb (length s.answers) s.room
    then some (record s {
      answers = s.answers ++ (suc i, generate_answer drawn) ∷ [];
      place = update s.place i (suc (s.place i));
    })
    else none

module _ (num_students num_questions : ℕ) where
  -- `none` is a move that cannot be made: the process waits, or has ended.
  unfoldable pub move : Move → Hall → Option Hall
  move (Move.parent drawn) s =
      if ltb s.question num_questions then parent_move num_students drawn s.phase s else none
  move (Move.take i) s =
      if ltb i num_students && ltb (s.place i) num_questions && (s.received i == s.place i)
      then take_question i s
      else none
  move (Move.answer i drawn) s =
      if ltb i num_students && ltb (s.place i) (s.received i) then send_answer i drawn s else none

  unfoldable pub moves : List Move → Hall → Option Hall
  moves [] s = some s
  moves (m ∷ ms) s = do s1 ← move m s; moves ms s1
