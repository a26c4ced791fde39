-- ===== src/Ecommerce/Program.antt =====
-- MultiThreading/Ecommerce.cpp: the whole of main, over all services. The order in which `sort` leaves
-- the workers of a service is a parameter.
use network_os_simulation.Shared.{
  ℕ, zero, suc, ◌+◌, ◌≤◌, ◌<◌, ◌≡◌, refl, ap, sym, subst, ◌∙◌, List, [], ◌∷◌, map, Option, none,
  some, length, get_elem?, replicate, All, arith, ◌>>=◌, length-map,
}
use network_os_simulation.Shared.Int.{ℤ, pos}
use network_os_simulation.Ecommerce.{
  WorkerThread, Serving, read_requests, make_default, serve_service,
}
use network_os_simulation.Ecommerce.Stats.{all_waits, all_turnarounds}
use network_os_simulation.Ecommerce.Fits.{IsStaffed}
use network_os_simulation.Ecommerce.Log.{Reports, rejections}
use network_os_simulation.Ecommerce.Service.{serve_service-Reports}
use network_os_simulation.Ecommerce.Requests.{of_service, Holds, read_requests-Holds}

-- The loop over the services, which counts the rejected requests of all of them.
unfoldable pub serve_services :
    ℕ → List (List WorkerThread) → List (List ℤ) → List (List ℤ) → ℕ → Option (List Serving × ℕ)
unfolding serve_service
serve_services fuel [] req_arr wt_time rejected = some ([], rejected)
serve_services fuel (ws ∷ wss) (reqs ∷ req_arr) (times ∷ wt_time) rejected = do
  s ← serve_service fuel ws reqs times rejected
  r ← serve_services fuel wss req_arr wt_time s.rejected
  some (s ∷ r.0, r.1)
serve_services fuel (ws ∷ wss) _ _ rejected = none

-- What is printed. An average is a sum and the number that it is divided by.
pub record Summary : Type 0 where
  pub served : List Serving
  pub avg_wt_time : ℤ × ℕ
  pub avg_tat_time : ℤ × ℕ
  pub rejected : ℕ
  pub waits : ℕ

unfoldable pub summarise : List Serving → ℕ → ℕ → Summary
unfolding all_waits all_turnarounds
summarise served rejected requests =
    let wt_time = map (λ (s : Serving). s.wt_time) served in
    let (sum, waits) = all_waits wt_time (pos 0, 0) in
    record {
      served = served;
      avg_wt_time = (sum, requests);
      avg_tat_time = (all_turnarounds wt_time (pos 0), requests);
      rejected = rejected;
      waits = waits;
    }

module _ (sort : List WorkerThread → List WorkerThread) where
  unfoldable pub program : ℕ → List (List WorkerThread) → List (ℕ × ℤ) → Option Summary
  unfolding read_requests make_default serve_services summarise
  program fuel services requests = do
    req_arr ← read_requests requests (replicate (length services) [])
    r ← serve_services fuel (map sort services) req_arr (make_default req_arr) 0
    some (summarise r.0 r.1 (length requests))

-- Each service has one line for each of its requests.
abbrev pub AllReports : List (List WorkerThread) → List (List ℤ) → List Serving → Type 0
AllReports [] arr [] = Unit
AllReports [] arr (s ∷ ss) = ⊥
AllReports (ws ∷ wss) [] ss = ⊥
AllReports (ws ∷ wss) (reqs ∷ arr) [] = ⊥
AllReports (ws ∷ wss) (reqs ∷ arr) (s ∷ ss) = Reports ws 1 reqs s.log × AllReports wss arr ss

abbrev pub all_rejections : List Serving → ℕ
all_rejections [] = 0
all_rejections (s ∷ ss) = rejections s.log + all_rejections ss

length-replicate : {A : Type 0} (n : ℕ) (x : A) → length (replicate n x) ≡ n
length-replicate zero x = refl
length-replicate (suc n) x = ap suc (length-replicate n x)

serve_services-Reports :
    (fuel : ℕ) (wss : List (List WorkerThread)) (arr : List (List ℤ)) (before : ℕ)
    → All IsStaffed wss
    → length arr ≡ length wss
    → All (λ reqs. length reqs ≤ fuel) arr
    → (ss : List Serving) × (serve_services fuel wss arr (make_default arr) before
        ≡ some (ss, before + all_rejections ss))
      × AllReports wss arr ss
unfolding serve_services make_default
serve_services-Reports fuel [] arr before staffed size enough =
    ([], ap (λ n. some ([], n)) (omega arith), tt)
serve_services-Reports fuel (ws ∷ wss) [] before staffed size enough = absurd (omega arith)
serve_services-Reports fuel (ws ∷ wss) (reqs ∷ arr) before staffed size enough =
    let times = replicate (length reqs) (pos 0) in
    let (s, runs, _, reports, counted, _) =
      serve_service-Reports fuel ws reqs times before staffed.0
        (length-replicate (length reqs) (pos 0)) enough.0 in
    let (ss, others, all) =
      serve_services-Reports fuel wss arr s.rejected staffed.1 (omega arith) enough.1 in
    (
      s ∷ ss,
      ap
            (λ o. o >>= λ s1. serve_services fuel wss arr (make_default arr) s1.rejected >>= λ r.
              some (s1 ∷ r.0, r.1))
            runs
          ∙ ap (λ o. o >>= λ r. some (s ∷ r.0, r.1)) others
          ∙ ap (λ n. some (s ∷ ss, n)) (omega arith),
      (reports, all),
    )

length-of_service :
    (t : ℕ) (requests : List (ℕ × ℤ)) → length (of_service t requests) ≤ length requests
length-of_service t [] = omega arith
length-of_service t ((type, res) ∷ rest) = ground (arith, length-of_service t rest)

All-get_elem? :
    (P : List ℤ → Type 0) (arr : List (List ℤ)) (f : ℕ → List ℤ)
    → Holds arr f
    → ((t : ℕ) → P (f t))
    → All P arr
All-get_elem? P [] f h p = tt
All-get_elem? P (x ∷ arr) f h p = (
  subst P (first_item (h 0 (omega arith))) (p 0),
  All-get_elem? P arr (λ t. f (suc t)) (λ t lt. h (suc t) (omega arith)) (λ t. p (suc t)),
)
  where
    first_item : some x ≡ some (f 0) → f 0 ≡ x
    first_item e = cc

Holds-replicate : (n : ℕ) → Holds (replicate n []) (λ t. [])
Holds-replicate zero t lt = absurd (omega arith)
Holds-replicate (suc n) zero lt = refl
Holds-replicate (suc n) (suc t) lt = Holds-replicate n t (omega arith)

All-map :
    (f : List WorkerThread → List WorkerThread) (wss : List (List WorkerThread))
    → ((ws : List WorkerThread) → IsStaffed ws → IsStaffed (f ws))
    → All IsStaffed wss
    → All IsStaffed (map f wss)
All-map f [] keeps staffed = tt
All-map f (ws ∷ wss) keeps staffed = (keeps ws staffed.0, All-map f wss keeps staffed.1)

module _ (sort : List WorkerThread → List WorkerThread)
    (keeps : (ws : List WorkerThread) → IsStaffed ws → IsStaffed (sort ws)) where
  program_steps :
      (fuel : ℕ) (services : List (List WorkerThread)) (requests : List (ℕ × ℤ))
      (arr : List (List ℤ)) (ss : List Serving) (n : ℕ)
      → read_requests requests (replicate (length services) []) ≡ some arr
      → serve_services fuel (map sort services) arr (make_default arr) 0 ≡ some (ss, n)
      → (summary : Summary) × (program sort fuel services requests ≡ some summary)
        × (summary.served ≡ ss)
        × (summary.rejected ≡ n)
  unfolding program
  program_steps fuel services requests arr ss n reads runs =
      (summarise ss n (length requests), rw (program, reads, ◌>>=◌, runs), refl, refl)

  -- Where every service has a worker, and none with negative resources, also after the sort, and
  -- every request is for one of the services, the program ends without a fault, for fuel of the
  -- number of requests at least. Each service gets its requests in their order, and has one line
  -- for each of them, with the numbers from 1 on, which says that the request is unavailable
  -- exactly if no worker can have its resources, and else names one of the workers; the number of
  -- rejected requests is that of the lines that say so, over all services.
  pub program-Reports :
      (fuel : ℕ) (services : List (List WorkerThread)) (requests : List (ℕ × ℤ))
      → All IsStaffed services
      → All (λ q. q.0 < length services) requests
      → length requests ≤ fuel
      → (arr : List (List ℤ)) × (summary : Summary) × (program sort fuel services requests
          ≡ some summary)
        × ((t : ℕ) → t < length services → get_elem? arr t ≡ some (of_service t requests))
        × AllReports (map sort services) arr summary.served
        × (summary.rejected ≡ all_rejections summary.served)
  program-Reports fuel services requests staffed ok enough =
      let n = length services in
      let empty = length-replicate {A = List ℤ} n [] in
      let (arr, reads, size, holds) =
        read_requests-Holds requests (replicate n []) (λ t. [])
          (subst (λ m. All (λ q. q.0 < m) requests) (sym empty) ok) (Holds-replicate n) in
      let fits =
        All-get_elem? (λ reqs. length reqs ≤ fuel) arr (λ t. of_service t requests) holds
          (λ t. omega (arith, length-of_service t requests)) in
      let (ss, runs, all) =
        serve_services-Reports fuel (map sort services) arr 0 (All-map sort services keeps staffed)
          (size ∙ empty ∙ sym (length-map sort services)) fits in
      let (summary, ends, same, counted) =
        program_steps fuel services requests arr ss (0 + all_rejections ss) reads runs in
      (
        arr,
        summary,
        ends,
        λ t lt. holds t (omega (arith, lt, size, empty)),
        subst (AllReports (map sort services) arr) (sym same) all,
        counted ∙ ap (λ l. 0 + all_rejections l) (sym same) ∙ omega arith,
      )
