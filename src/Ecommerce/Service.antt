-- ===== src/Ecommerce/Service.antt =====
-- MultiThreading/Ecommerce.cpp: the loop for one service ends, with all requests served in order.
use network_os_simulation.Shared.{
  ℕ, zero, suc, ◌+◌, ◌≤◌, ◌≡◌, refl, sym, ap, subst, ◌∙◌, inl, inr, List, [], ◌∷◌, ◌++◌, Option,
  none, some, arith, length, ◌>>=◌, length-append, length-map, append_nil,
}
use network_os_simulation.Shared.Int.{ℤ}
use network_os_simulation.Ecommerce.{
  WorkerThread, Serving, resources, turns, serve_round, rounds, enqueue, serve_service,
}
use network_os_simulation.Ecommerce.Fits.{IsStaffed, find_thread-Fits}
use network_os_simulation.Ecommerce.Log.{Reports, rejections}
use network_os_simulation.Ecommerce.Serve.{IsServing, serve_next-Served}

length-enqueue : (j : ℕ) (rs : List ℤ) → length (enqueue j rs) ≡ length rs
unfolding enqueue
length-enqueue j [] = refl
length-enqueue j (r ∷ rs) = ap suc (length-enqueue (suc j) rs)

module _ (workers : List WorkerThread) (reqs : List ℤ) (before : ℕ)
    (staffed : IsStaffed workers) where
  -- The run gives a state in which at most `most` requests wait.
  abbrev EndsWith : ℕ → Option Serving → Type 0
  EndsWith most result =
      (done rest : List ℤ) × (s1 : Serving) × (result ≡ some s1)
      × IsServing workers reqs before done rest s1
      × (length rest ≤ most)

  turns-EndsWith :
      (time k l : ℕ) (done rest : List ℤ) (s : Serving)
      → IsServing workers reqs before done rest s
      → k ≤ length rest
      → l + k ≤ length reqs
      → EndsWith (length rest) (turns workers reqs time k l s)
  unfolding turns
  turns-EndsWith time zero l done rest s v fit lt = (done, rest, s, refl, v, omega arith)
  turns-EndsWith time (suc k) l done [] s v fit lt = absurd (omega arith)
  turns-EndsWith time (suc k) l done (r ∷ rest) s v fit lt =
      elim (serve_next-Served workers reqs before done rest r s v time l staffed (omega arith)) [
        | inl (s1, e, v1) ↦
            let (done2, rest2, s2, e2, v2, le) =
              turns-EndsWith time k (suc l) (done ++ r ∷ []) rest s1 v1 (omega arith)
                (omega arith) in
            (done2, rest2, s2, rw (e) e2, v2, omega arith)
        | inr (e, fits, busy) ↦
            rw (e) (turns-EndsWith time k (suc l) done (r ∷ rest) s v (omega arith) (omega arith))
      ]

  -- A round serves the front at least: no worker is busy at its start.
  serve_round-EndsWith :
      (time : ℕ) (done rest : List ℤ) (r : ℤ) (s : Serving)
      → IsServing workers reqs before done (r ∷ rest) s
      → EndsWith (length rest) (serve_round workers reqs time s)
  unfolding serve_round turns
  serve_round-EndsWith time done rest r s v =
      let fresh : Serving = record s { worker_resources = resources workers } in
      let v0 : IsServing workers reqs before done (r ∷ rest) fresh = record {
        split = v.split;
        queue = v.queue;
        number = v.number;
        reports = v.reports;
        rejects = v.rejects;
        times = v.times;
        free = length-map (λ (w : WorkerThread). w.resources_available) workers;
      } in
      let size : length s.temp_queue ≡ suc (length rest) =
        ap length v.queue ∙ length-enqueue (length done) (r ∷ rest) in
      let room : suc (length done + length rest) ≡ length reqs =
        omega (arith, ap length v.split, length-append done (r ∷ rest)) in
      elim (serve_next-Served workers reqs before done rest r fresh v0 time 0 staffed
        (omega arith)) [
          | inl (s1, e, v1) ↦
              let (done2, rest2, s2, e2, v2, le) =
                turns-EndsWith time (length rest) 1 (done ++ r ∷ []) rest s1 v1 (omega arith)
                  (omega arith) in
              (
                done2,
                rest2,
                s2,
                ap (λ n. turns workers reqs time n 0 fresh) size ∙ rw (e) e2,
                v2,
                le,
              )
          | inr (e, fits, busy) ↦
              let (place, found) = find_thread-Fits workers r fits in
              absurd (ground (arith, found, busy))
        ]

  -- The loop in the two cases of the queue.
  rounds-empty :
      (fuel time : ℕ) (s : Serving) → s.temp_queue ≡ [] → rounds workers reqs fuel time s ≡ some s
  unfolding rounds
  rounds-empty zero time s e = ap (λ (q : List (ℕ × ℤ)). elim q [ [] ↦ some s | _ ∷ _ ↦ none ]) e
  rounds-empty (suc fuel) time s e =
      ap
        (λ (q : List (ℕ × ℤ)). elim q [
          | [] ↦ some s
          | _ ∷ _ ↦ serve_round workers reqs time s >>= rounds workers reqs fuel (suc time)
        ])
        e

  rounds-more :
      (fuel time : ℕ) (s : Serving) (f : ℕ × ℤ) (more : List (ℕ × ℤ))
      → s.temp_queue ≡ f ∷ more
      → rounds workers reqs (suc fuel) time s
        ≡ serve_round workers reqs time s >>= rounds workers reqs fuel (suc time)
  unfolding rounds
  rounds-more fuel time s f more e =
      ap
        (λ (q : List (ℕ × ℤ)). elim q [
          | [] ↦ some s
          | _ ∷ _ ↦ serve_round workers reqs time s >>= rounds workers reqs fuel (suc time)
        ])
        e

  abbrev Finishes : Option Serving → Type 0
  Finishes result = (s1 : Serving) × (result ≡ some s1) × IsServing workers reqs before reqs [] s1

  finish :
      (done : List ℤ) (s : Serving)
      → IsServing workers reqs before done [] s
      → IsServing workers reqs before reqs [] s
  finish done s v =
      subst (λ d. IsServing workers reqs before d [] s) (sym (append_nil done) ∙ v.split) v

  rounds-Finishes :
      (fuel time : ℕ) (done rest : List ℤ) (s : Serving)
      → IsServing workers reqs before done rest s
      → length rest ≤ fuel
      → Finishes (rounds workers reqs fuel time s)
  unfolding enqueue
  rounds-Finishes fuel time done [] s v le = (s, rounds-empty fuel time s v.queue, finish done s v)
  rounds-Finishes zero time done (r ∷ rest) s v le = absurd (omega arith)
  rounds-Finishes (suc fuel) time done (r ∷ rest) s v le =
      let (done2, rest2, s2, e2, v2, shorter) = serve_round-EndsWith time done rest r s v in
      let (s3, e3, v3) = rounds-Finishes fuel (suc time) done2 rest2 s2 v2 (omega arith) in
      (
        s3,
        rounds-more fuel time s (length done, r) (enqueue (suc (length done)) rest) v.queue
            ∙ rw (e2) e3,
        v3,
      )

-- On a service that has a worker, and none with negative resources, and as many waiting times as
-- requests, the loop ends without a fault, for fuel of the number of requests at least. It prints
-- one line for each request, in their order and with the numbers from 1 on; the line says that the
-- request is unavailable exactly if no worker can have its resources, and else names one of the
-- workers. The counter of rejected requests has grown by the number of the lines of the first kind,
-- and the number of waiting times stays.
pub serve_service-Reports :
    (fuel : ℕ) (workers : List WorkerThread) (reqs times : List ℤ) (before : ℕ)
    → IsStaffed workers
    → length times ≡ length reqs
    → length reqs ≤ fuel
    → (s : Serving) × (serve_service fuel workers reqs times before ≡ some s)
      × (s.temp_queue ≡ [])
      × Reports workers 1 reqs s.log
      × (s.rejected ≡ before + rejections s.log)
      × (length s.wt_time ≡ length reqs)
unfolding serve_service enqueue
serve_service-Reports fuel workers reqs times before staffed size le =
    let (s, e, v) =
      rounds-Finishes workers reqs before staffed fuel 0 [] reqs _
        (record {
          split = refl;
          queue = refl;
          number = refl;
          reports = tt;
          rejects = omega arith;
          times = size;
          free = length-map (λ (w : WorkerThread). w.resources_available) workers;
        })
        le in
    (s, e, v.queue, v.reports, v.rejects, v.times)
