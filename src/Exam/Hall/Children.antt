-- ===== src/Exam/Hall/Children.antt =====
-- Inter Process Communication/Online_Exam.cpp: the moves of the children keep what holds in a run.
use network_os_simulation.Shared.{
  ℕ, suc, length-append, ◌<◌, ◌≡◌, ap, subst, ◌∙◌, List, [], ◌∷◌, ◌++◌, some, arith, update,
  ℕ_discrete, if_pos, if_neg,
}
use network_os_simulation.Shared.Sums.{sum-update}
use network_os_simulation.Exam.{receive}
use network_os_simulation.Exam.Hall.{Hall}
use network_os_simulation.Exam.Hall.Queue.{copies, copies-append, copies-receive, past-update}
use network_os_simulation.Exam.Hall.Running.{IsRunning}

module _ (n : ℕ) {r : ℕ} (s : Hall) (h : IsRunning n r s) where
  pub taken-IsRunning :
      (i text : ℕ) (rest : List (ℕ × ℕ))
      → i < n
      → s.received i ≡ s.place i
      → receive (suc (s.place i)) s.asked ≡ some (text, rest)
      → IsRunning n r
          (record s { asked = rest; received = update s.received i (suc (s.received i)) })
  taken-IsRunning i text rest lt same got_it =
      let (one, others, shorter) = copies-receive (suc (s.place i)) s.asked text rest got_it in
      let here : s.place i ≡ s.question = elim (ℕ_discrete (s.place i) (suc s.question)) [
        | yes e ↦ absurd (omega (arith, one, h.later (suc (s.place i)) (omega (arith, e))))
        | no ne ↦ omega (arith, ne, h.low i lt, h.high i lt, same)
      ] in
      let one_more =
        past-update n s.question i (suc (s.received i)) s.received lt (omega (arith, here, same))
          (omega (arith, here, same)) in
      record {
        room = h.room;
        sent_le = h.sent_le;
        got_le = h.got_le;
        low = h.low;
        high = λ q lq. ground (arith, h.high q lq, here, same);
        behind = λ q lq. elim (ℕ_discrete i q) [
          | yes e ↦
              let now : update s.received i (suc (s.received i)) q ≡ suc (s.received i) =
                if_pos (ℕ_discrete i q) e _ _ in
              (
                omega (arith, now, ap s.place e, ap s.received e, same),
                omega (arith, now, ap s.place e, ap s.received e, same),
              )
          | no ne ↦
              let now : update s.received i (suc (s.received i)) q ≡ s.received q =
                if_neg (ℕ_discrete i q) ne _ _ in
              (omega (arith, now, (h.behind q lq).0), omega (arith, now, (h.behind q lq).1))
        ];
        current = omega (
          arith,
          one_more,
          subst (λ x. copies (suc x) s.asked ≡ suc (copies (suc x) rest)) here one,
          h.current,
        );
        asked_size = omega (arith, one_more, shorter, h.asked_size);
        later = λ t lt1. others t (λ e. omega (arith, e, lt1, here)) ∙ h.later t lt1;
        waiting = h.waiting;
        answers_size = h.answers_size;
        graded = h.graded;
      }

  pub sent-IsRunning :
      (i a : ℕ)
      → i < n
      → s.place i < s.received i
      → IsRunning n r (record s {
        answers = s.answers ++ (suc i, a) ∷ [];
        place = update s.place i (suc (s.place i));
      })
  sent-IsRunning i a lt due = record {
    room = h.room;
    sent_le = h.sent_le;
    got_le = h.got_le;
    low = λ q lq. ground (arith, h.low q lq, h.low i lt);
    high = h.high;
    behind = λ q lq. elim (ℕ_discrete i q) [
      | yes e ↦
          let now : update s.place i (suc (s.place i)) q ≡ suc (s.place i) =
            if_pos (ℕ_discrete i q) e _ _ in
          (
            omega (arith, now, due, ap s.received e),
            omega (arith, now, (h.behind i lt).1, ap s.received e),
          )
      | no ne ↦
          let now : update s.place i (suc (s.place i)) q ≡ s.place q =
            if_neg (ℕ_discrete i q) ne _ _ in
          (omega (arith, now, (h.behind q lq).0), omega (arith, now, (h.behind q lq).1))
    ];
    current = h.current;
    asked_size = h.asked_size;
    later = h.later;
    waiting = λ q lq.
        let more = copies-append (suc q) s.answers (suc i) a in
        elim (ℕ_discrete i q) [
          | yes e ↦
              let now : update s.place i (suc (s.place i)) q ≡ suc (s.place q) =
                if_pos (ℕ_discrete i q) e _ _ ∙ ap suc (ap s.place e) in
              ground (arith, more, h.waiting q lq, now, e)
          | no ne ↦ ground (
            arith,
            more,
            h.waiting q lq,
            if_neg (ℕ_discrete i q) ne (suc (s.place i)) (s.place q),
            ne,
          )
        ];
    answers_size = omega (
      arith,
      length-append s.answers ((suc i, a) ∷ []),
      h.answers_size,
      sum-update (λ p. p) n i (suc (s.place i)) s.place lt,
    );
    graded = h.graded;
  }
