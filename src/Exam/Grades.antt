-- ===== src/Exam/Grades.antt =====
-- Inter Process Communication/Online_Exam.cpp: the grades have gaps between their bounds.
use network_os_simulation.Shared.{ℕ, ◌*◌, ◌<◌, ◌≡◌, ◌⊎◌, arith}
use network_os_simulation.Exam.{grade_f, final_grade}

-- The percentage lies strictly between two whole numbers.
abbrev pub Inside : ℕ → ℕ → ℕ → ℕ → Type 0
Inside low high grades questions =
    (low * questions < 100 * grades) × (100 * grades < high * questions)

-- A student whose percentage, in exact arithmetic, lies strictly between 49 and 50, 39 and 40, or
-- 29 and 30 gets the grade F.
pub final_grade-gap :
    (questions grades : ℕ)
    → Inside 49 50 grades questions ⊎ Inside 39 40 grades questions ⊎ Inside 29 30 grades questions
    → final_grade questions grades ≡ grade_f
unfolding final_grade
final_grade-gap questions grades h = ground (arith, h)
