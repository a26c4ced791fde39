-- ===== src/Exam.antt =====
-- Inter Process Communication/Online_Exam.cpp: the parent's collection of answers, and the grades.
-- The queue of answers is the list of all messages in the order of their arrival. `none` is a wait
-- for a message that never comes, or an access out of bounds.
pub mod Collect
pub mod Marks
pub mod Grades
pub mod Hall
use network_os_simulation.Shared.{
  ℕ, zero, suc, ◌+◌, ◌*◌, List, [], ◌∷◌, Option, none, some, Bool, true, false, ◌&&◌, leb, ◌==◌,
  if◌then◌else◌, get_elem?, set, replicate, length, ◌>>=◌,
}

-- `msgrcv` with a type: the first message of the type, which is the student's number plus one.
unfoldable pub receive : ℕ → List (ℕ × ℕ) → Option (ℕ × List (ℕ × ℕ))
receive t [] = none
receive t ((msgtype, answer) ∷ queue) =
    let rest = receive t queue in
    if msgtype == t then some (answer, queue) else do r ← rest; some (r.0, (msgtype, answer) ∷ r.1)

-- The loop over the students for one question: `k` of them, from student `j` on.
unfoldable pub mark : ℕ → ℕ → ℕ → List (ℕ × ℕ) → List ℕ → Option (List (ℕ × ℕ) × List ℕ)
unfolding receive
mark correct zero j queue grades = some (queue, grades)
mark correct (suc k) j queue grades = do
  r ← receive (suc j) queue
  g ← get_elem? grades j
  mark correct k (suc j) r.1 (set grades j (if r.0 == correct then suc g else g))

-- The loop over the questions, by their correct answers.
unfoldable pub mark_all : ℕ → List ℕ → List (ℕ × ℕ) → List ℕ → Option (List ℕ)
unfolding mark
mark_all num_students [] queue grades = some grades
mark_all num_students (c ∷ cs) queue grades = do
  r ← mark c num_students 0 queue grades
  mark_all num_students cs r.0 r.1

unfoldable pub exam : ℕ → List ℕ → List (ℕ × ℕ) → Option (List ℕ)
unfolding mark_all
exam num_students correct queue = mark_all num_students correct queue (replicate num_students 0)

pub data Grade : Type 0 where
  grade_a grade_b grade_c : Grade
  grade_d grade_f : Grade

-- The percentage lies between two bounds, in exact arithmetic.
abbrev between : ℕ → ℕ → ℕ → ℕ → Bool
between low high grades questions =
    leb (low * questions) (100 * grades) && leb (100 * grades) (high * questions)

-- Without questions the percentage is no number, and every comparison is false.
unfoldable pub final_grade : ℕ → ℕ → Grade
final_grade questions grades =
    if questions == 0
    then grade_f
    else if leb (50 * questions) (100 * grades)
    then grade_a
    else if between 40 49 grades questions
    then grade_b
    else if between 30 39 grades questions
    then grade_c
    else if between 20 29 grades questions
    then grade_d
    else grade_f
