-- ===== src/Exam/Hall/Running.antt =====
-- Inter Process Communication/Online_Exam.cpp: what holds of the parent, the children and the two
-- queues in every run.
use network_os_simulation.Shared.{
  ℕ, zero, suc, ◌+◌, ◌*◌, length-append, ◌<◌, ◌≤◌, ◌≡◌, refl, sym, ap, subst, ◌∙◌, List, [], ◌∷◌,
  ◌++◌, Option, some, none, ◌>>=◌, arith, ltb, if◌then◌else◌, ℕ_discrete, length, replicate,
}
use network_os_simulation.Shared.Sums.{sum, sum-zero}
use network_os_simulation.Exam.{receive}
use network_os_simulation.Exam.Hall.{Phase, Hall, start, generate_answer}
use network_os_simulation.Exam.Hall.Queue.{
  copies, copies-append, copies-receive, past, past-none, past-all,
}

-- The copies of the current question that were sent, of `n`.
abbrev pub sent : ℕ → Phase → ℕ
sent n (Phase.asking k) = k
sent n (Phase.marking j) = n

-- The answers to the current question that were collected.
abbrev pub got : Phase → ℕ
got (Phase.asking k) = 0
got (Phase.marking j) = j

-- The questions that `n` children have taken, or answered, together.
abbrev pub total : ℕ → (ℕ → ℕ) → ℕ
total n place = sum (λ p. p) n place

-- No child has taken more than the current question, or has more than one to answer; a child that
-- is not past the current question has its copy in the queue once all are sent; what a child has
-- answered and the parent has not collected waits in the queue of answers. Nothing else is in the
-- queues, which have room for `r` messages.
pub record IsRunning (n r : ℕ) (s : Hall) : Type 0 where
  pub room : s.room ≡ r
  pub sent_le : sent n s.phase ≤ n
  pub got_le : got s.phase ≤ n
  pub low : (i : ℕ) → i < n → s.question ≤ s.place i
  pub high : (i : ℕ) → i < n → s.received i ≤ suc s.question
  pub behind : (i : ℕ) → i < n → (s.place i ≤ s.received i) × (s.received i ≤ suc (s.place i))
  pub current : copies (suc s.question) s.asked + past n s.question s.received ≡ sent n s.phase
  pub asked_size : length s.asked + past n s.question s.received ≡ sent n s.phase
  pub later : (t : ℕ) → suc s.question < t → copies t s.asked ≡ 0
  pub waiting :
      (i : ℕ)
      → i < n
      → copies (suc i) s.answers + (if ltb i (got s.phase) then 1 else 0) + s.question ≡ s.place i
  pub answers_size : length s.answers + got s.phase + n * s.question ≡ total n s.place
  pub graded : length s.grades ≡ n

length-replicate : (k x : ℕ) → length (replicate k x) ≡ k
length-replicate zero x = refl
length-replicate (suc k) x = ap suc (length-replicate k x)

pub start-IsRunning : (n r : ℕ) → IsRunning n r (start n r)
unfolding start copies
start-IsRunning n r = record {
  room = refl;
  sent_le = omega arith;
  got_le = omega arith;
  low = λ i lt. omega arith;
  high = λ i lt. omega arith;
  behind = λ i lt. (omega arith, omega arith);
  current = omega (arith, past-none n 0 (λ _. 0) (λ i lt. omega arith));
  asked_size = omega (arith, past-none n 0 (λ _. 0) (λ i lt. omega arith));
  later = λ t lt. refl;
  waiting = λ i lt. ground arith;
  answers_size = omega (arith, sum-zero (λ p. p) n 0 refl);
  graded = length-replicate n 0;
}

-- A chain that gives a value had one at its first step.
pub bind-some {ℓ κ} :
    {A : Type ℓ} {B : Type κ} (o : Option A) (f : A → Option B) (y : B)
    → (o >>= f) ≡ some y
    → (a : A) × (o ≡ some a) × (f a ≡ some y)
bind-some none f y e = absurd (ground (arith, e))
bind-some (some a) f y e = (a, refl, e)

-- The parent sends one copy, or has sent all.
abbrev pub asked_one : ℕ → Hall → Hall
asked_one k s = record s {
  asked = s.asked ++ (suc s.question, suc s.question) ∷ [];
  phase = Phase.asking (suc k);
}

abbrev pub asked_all : ℕ → Hall → Hall
asked_all drawn s = record s { phase = Phase.marking 0; correct = generate_answer drawn }

module _ (n : ℕ) {r : ℕ} (s : Hall) (h : IsRunning n r s) where
  pub waits :
      (i : ℕ)
      → i < n
      → (g : ℕ) → got s.phase ≡ g
      → copies (suc i) s.answers + (if ltb i g then 1 else 0) + s.question ≡ s.place i
  waits i lt g e =
      subst (λ x. copies (suc i) s.answers + (if ltb i x then 1 else 0) + s.question ≡ s.place i) e
        (h.waiting i lt)

  pub asked_one-IsRunning :
      (k : ℕ) → s.phase ≡ Phase.asking k → k < n → IsRunning n r (asked_one k s)
  asked_one-IsRunning k e lt = record {
    room = h.room;
    sent_le = lt;
    got_le = omega arith;
    low = h.low;
    high = h.high;
    behind = h.behind;
    current = ground (
      arith,
      copies-append (suc s.question) s.asked (suc s.question) (suc s.question),
      h.current ∙ ap (sent n) e,
    );
    asked_size = omega (
      arith,
      length-append s.asked ((suc s.question, suc s.question) ∷ []),
      h.asked_size ∙ ap (sent n) e,
    );
    later = λ t lt1.
        ground
          (arith, copies-append t s.asked (suc s.question) (suc s.question), h.later t lt1, lt1);
    waiting = λ i lt1. waits i lt1 0 (ap got e);
    answers_size =
        ap (λ g. length s.answers + g + n * s.question) (sym (ap got e)) ∙ h.answers_size;
    graded = h.graded;
  }

  pub asked_all-IsRunning :
      (k drawn : ℕ) → s.phase ≡ Phase.asking k → n ≤ k → IsRunning n r (asked_all drawn s)
  asked_all-IsRunning k drawn e ge =
      let le : k ≤ n = subst (λ x. x ≤ n) (ap (sent n) e) h.sent_le in
      record {
        room = h.room;
        sent_le = omega arith;
        got_le = omega arith;
        low = h.low;
        high = h.high;
        behind = h.behind;
        current = omega (arith, h.current ∙ ap (sent n) e, ge, le);
        asked_size = omega (arith, h.asked_size ∙ ap (sent n) e, ge, le);
        later = h.later;
        waiting = λ i lt. waits i lt 0 (ap got e);
        answers_size =
            ap (λ g. length s.answers + g + n * s.question) (sym (ap got e)) ∙ h.answers_size;
        graded = h.graded;
      }

  pub collected-IsRunning :
      (j a : ℕ) (rest : List (ℕ × ℕ)) (gs : List ℕ)
      → s.phase ≡ Phase.marking j
      → j < n
      → receive (suc j) s.answers ≡ some (a, rest)
      → length gs ≡ n
      → IsRunning n r (record s { answers = rest; grades = gs; phase = Phase.marking (suc j) })
  collected-IsRunning j a rest gs e lt got_it size =
      let (one, others, shorter) = copies-receive (suc j) s.answers a rest got_it in
      record {
        room = h.room;
        sent_le = omega arith;
        got_le = omega arith;
        low = h.low;
        high = h.high;
        behind = h.behind;
        current = h.current ∙ ap (sent n) e;
        asked_size = h.asked_size ∙ ap (sent n) e;
        answers_size = omega (
          arith,
          ap (λ g. length s.answers + g + n * s.question) (ap got e),
          h.answers_size,
          shorter,
        );
        later = h.later;
        waiting = λ i lt1. elim (ℕ_discrete i j) [
          | yes same ↦
              subst
                (λ k.
                  copies (suc k) rest + (if ltb k (suc j) then 1 else 0) + s.question ≡ s.place k)
                (sym same) (ground (arith, one, waits j lt j (ap got e)))
          | no ne ↦
              ground
                (arith, others (suc i) (λ x. ne (omega (arith, x))), waits i lt1 j (ap got e), ne)
        ];
        graded = size;
      }

  pub next-IsRunning :
      (j : ℕ)
      → s.phase ≡ Phase.marking j
      → n ≤ j
      → IsRunning n r (record s { question = suc s.question; phase = Phase.asking 0 })
  next-IsRunning j e le =
      let past_all : (i : ℕ) → i < n → copies (suc i) s.answers + suc s.question ≡ s.place i =
        λ i lt. ground (arith, waits i lt j (ap got e), lt, le) in
      let taken : (i : ℕ) → i < n → suc s.question ≤ s.received i =
        λ i lt. omega (arith, past_all i lt, (h.behind i lt).0) in
      let fewer : j ≤ n = subst (λ x. x ≤ n) (ap got e) h.got_le in
      record {
        room = h.room;
        sent_le = omega arith;
        got_le = omega arith;
        low = λ i lt. omega (arith, past_all i lt);
        high = λ i lt. omega (arith, h.high i lt);
        behind = h.behind;
        current = omega (
          arith,
          h.later (suc (suc s.question)) (omega arith),
          past-none n (suc s.question) s.received h.high,
        );
        asked_size = omega (
          arith,
          h.asked_size ∙ ap (sent n) e,
          past-all n s.question s.received taken,
          past-none n (suc s.question) s.received h.high,
        );
        later = λ t lt. h.later t (omega (arith, lt));
        waiting = λ i lt. ground (arith, past_all i lt);
        answers_size = omega (
          arith,
          ap (λ g. length s.answers + g + n * s.question) (ap got e),
          h.answers_size,
          fewer,
          le,
        );
        graded = h.graded;
      }
