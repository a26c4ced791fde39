-- ===== src/Ecommerce/Serve.antt =====
-- MultiThreading/Ecommerce.cpp: one turn of the loop serves the front of the queue or leaves all.
use network_os_simulation.Shared.{
  ℕ, suc, ◌+◌, ◌<◌, ◌≡◌, refl, sym, ap, subst, ◌∙◌, ◌⊎◌, inl, inr, List, [], ◌∷◌, ◌++◌, none, some,
  arith, length, set, Bool-cases, Option-cases, get_elem?-lt, lt-get_elem?, append_assoc,
  length-append, length-set,
}
use network_os_simulation.Shared.Int.{ℤ, pos, negsuc, ◌-ℤ◌, eqb_ℤ-refl}
use network_os_simulation.Ecommerce.{
  WorkerThread, executing, unavailable, Serving, find_thread, out_of_values, queue_erase, execute,
  reject, serve_front, serve_next, enqueue,
}
use network_os_simulation.Ecommerce.Fits.{Fits, IsStaffed, out_of_values_iff, find_thread-get_elem?}
use network_os_simulation.Ecommerce.Log.{
  Reports, Reports-concat, rejections, rejections-concat_executing, rejections-concat_unavailable,
}

module _ (workers : List WorkerThread) (reqs : List ℤ) (before : ℕ) where
  -- The requests `done` are served, and those of `rest` wait; `before` were rejected elsewhere.
  pub record IsServing (done rest : List ℤ) (s : Serving) : Type 0 where
    pub split : done ++ rest ≡ reqs
    pub queue : s.temp_queue ≡ enqueue (length done) rest
    pub number : s.count ≡ suc (length done)
    pub reports : Reports workers 1 done s.log
    pub rejects : s.rejected ≡ before + rejections s.log
    pub times : length s.wt_time ≡ length reqs
    pub free : length s.worker_resources ≡ length workers

  module _ (done rest : List ℤ) (r : ℤ) (s : Serving) (v : IsServing done (r ∷ rest) s) where
    split-next : (done ++ r ∷ []) ++ rest ≡ reqs
    split-next = append_assoc done (r ∷ []) rest ∙ v.split

    length-next : length (done ++ r ∷ []) ≡ suc (length done)
    length-next = length-append done (r ∷ []) ∙ omega arith

    queue-next : queue_erase s.temp_queue r ≡ enqueue (length (done ++ r ∷ [])) rest
    unfolding enqueue queue_erase
    queue-next = rw (v.queue, length-next, enqueue, queue_erase, eqb_ℤ-refl r) refl

    execute-IsServing :
        (time l place : ℕ)
        → l < length reqs
        → find_thread s.worker_resources r ≡ some place
        → Fits workers r
        → (s1 : Serving) × (execute workers reqs time l r place s ≡ some s1)
          × IsServing (done ++ r ∷ []) rest s1
    unfolding execute
    execute-IsServing time l place lt found fits =
        let (old, e1) = get_elem?-lt s.wt_time l (omega (arith, v.times)) in
        let (f, e2, le) = find_thread-get_elem? s.worker_resources r place found in
        let (used, e3) = get_elem?-lt reqs l lt in
        let inside : place < length workers =
          subst (λ n. place < n) v.free (lt-get_elem? s.worker_resources place f e2) in
        (
          record s {
            wt_time = set s.wt_time l (pos time);
            temp_queue = queue_erase s.temp_queue r;
            worker_resources = set s.worker_resources place (f -ℤ used);
            count = suc s.count;
            log = s.log ++ executing s.count r place ∷ [];
          },
          rw (e1, e2, e3) refl,
          record {
            split = split-next;
            queue = queue-next;
            number = ap suc v.number ∙ ap suc (sym length-next);
            reports =
                Reports-concat workers 1 done s.log r (executing s.count r place) v.reports
                  (v.number ∙ omega arith, refl, fits, inside);
            rejects =
                v.rejects
                ∙ ap (λ n. before + n) (sym (rejections-concat_executing s.log s.count r place));
            times = length-set s.wt_time l (pos time) ∙ v.times;
            free = length-set s.worker_resources place (f -ℤ used) ∙ v.free;
          },
        )

    reject-IsServing :
        (l : ℕ)
        → l < length reqs
        → ¬ Fits workers r
        → (s1 : Serving) × (reject workers reqs l r s ≡ some s1)
          × IsServing (done ++ r ∷ []) rest s1
    unfolding reject
    reject-IsServing l lt far =
        let (old, e1) = get_elem?-lt s.wt_time l (omega (arith, v.times)) in
        (
          record s {
            wt_time = set s.wt_time l (negsuc 0);
            temp_queue = queue_erase s.temp_queue r;
            count = suc s.count;
            rejected = suc s.rejected;
            log = s.log ++ unavailable s.count r ∷ [];
          },
          rw (e1) refl,
          record {
            split = split-next;
            queue = queue-next;
            number = ap suc v.number ∙ ap suc (sym length-next);
            reports =
                Reports-concat workers 1 done s.log r (unavailable s.count r) v.reports
                  (v.number ∙ omega arith, refl, far);
            rejects = omega (arith, v.rejects, rejections-concat_unavailable s.log s.count r);
            times = length-set s.wt_time l (negsuc 0) ∙ v.times;
            free = v.free;
          },
        )

    -- The turn serves the front, or no worker is free for it and nothing changes.
    abbrev pub Served : ℕ → ℕ → Type 0
    Served time l =
        ((s1 : Serving) × (serve_next workers reqs time l s ≡ some s1)
          × IsServing (done ++ r ∷ []) rest s1)
        ⊎ ((serve_next workers reqs time l s ≡ some s)
            × Fits workers r
            × (find_thread s.worker_resources r ≡ none))

    front-next :
        (time l : ℕ) → serve_next workers reqs time l s ≡ serve_front workers reqs time l r s
    unfolding serve_next enqueue
    front-next time l =
        ap
          (λ (q : List (ℕ × ℤ)). elim q [
            | [] ↦ none
            | (j, c) ∷ more ↦ serve_front workers reqs time l c s
          ])
          v.queue

    pub serve_next-Served : (time l : ℕ) → IsStaffed workers → l < length reqs → Served time l
    unfolding serve_front
    serve_next-Served time l staffed lt = elim (Bool-cases (out_of_values workers r)) [
      | inl can ↦
          let fits = (out_of_values_iff workers r staffed).0 can in
          elim (Option-cases (find_thread s.worker_resources r)) [
            | inl busy ↦ inr (front-next time l ∙ rw (can, serve_front, busy) refl, fits, busy)
            | inr (place, found) ↦
                let (s1, e, v1) = execute-IsServing time l place lt found fits in
                inl (s1, front-next time l ∙ rw (can, serve_front, found) e, v1)
          ]
      | inr cannot ↦
          let (s1, e, v1) =
            reject-IsServing l lt
              (λ f. absurd (ground (arith, (out_of_values_iff workers r staffed).1 f))) in
          inl (s1, front-next time l ∙ rw (cannot, serve_front) e, v1)
    ]
