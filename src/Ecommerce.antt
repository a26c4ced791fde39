-- ===== src/Ecommerce.antt =====
-- MultiThreading/Ecommerce.cpp: requests that are served by the worker threads of a service.
-- `none` is an access out of bounds, or a loop that ran out of fuel.
pub mod Fits
pub mod Log
pub mod Serve
pub mod Service
pub mod Stats
pub mod Requests
pub mod Program
use mathlib.Core.Option
use network_os_simulation.Shared.{
  ℕ, zero, suc, ◌+◌, List, [], ◌∷◌, ◌++◌, map, Option, none, some, Bool, true, false, if◌then◌else◌,
  length, get_elem?, set, replicate, ◌>>=◌,
}
use network_os_simulation.Shared.Int.{ℤ, pos, negsuc, ◌-ℤ◌, ◌+ℤ◌, ltb_ℤ, leb_ℤ, eqb_ℤ}

pub record WorkerThread : Type 0 where
  pub priority : ℤ
  pub resources_available : ℤ

-- The order that `sort` is called with.
unfoldable pub comp_func : WorkerThread → WorkerThread → Bool
comp_func a b = leb_ℤ b.priority a.priority

-- `none` is -1. The number `m` of workers is the length of the array.
unfoldable pub find_thread : List ℤ → ℤ → Option ℕ
find_thread [] curr_res = none
find_thread (w ∷ ws) curr_res =
    if leb_ℤ curr_res w then some 0 else Option.map suc (find_thread ws curr_res)

unfoldable pub make_default : List (List ℤ) → List (List ℤ)
make_default req_arr = map (λ reqs. replicate (length reqs) (pos 0)) req_arr

-- Erases the first request that needs the resources `a`, whatever its number.
unfoldable pub queue_erase : List (ℕ × ℤ) → ℤ → List (ℕ × ℤ)
unfolding eqb_ℤ
queue_erase [] a = []
queue_erase ((j, r) ∷ queue) a = if eqb_ℤ r a then queue else (j, r) ∷ queue_erase queue a

unfoldable pub highest : ℤ → List WorkerThread → ℤ
highest h [] = h
highest h (w ∷ ws) = highest (if ltb_ℤ h w.resources_available then w.resources_available else h) ws

-- `false` is -1.
unfoldable pub out_of_values : List WorkerThread → ℤ → Bool
unfolding highest
out_of_values workers value = leb_ℤ value (highest (pos 0) workers)

-- The reading of the requests: type and resources of each. A type out of range is a fault.
unfoldable pub read_requests : List (ℕ × ℤ) → List (List ℤ) → Option (List (List ℤ))
read_requests [] req_arr = some req_arr
read_requests ((type, res) ∷ rest) req_arr = do
  reqs ← get_elem? req_arr type
  read_requests rest (set req_arr type (reqs ++ res ∷ []))

-- The lines that are printed: number of the request, resources, and the worker that executes it.
pub data Event : Type 0 where
  executing : ℕ → ℤ → ℕ → Event
  unavailable : ℕ → ℤ → Event

-- The variables of the loop for one service.
pub record Serving : Type 0 where
  pub temp_queue : List (ℕ × ℤ)
  pub worker_resources : List ℤ
  pub wt_time : List ℤ
  pub count : ℕ
  pub rejected : ℕ
  pub log : List Event

abbrev pub resources : List WorkerThread → List ℤ
resources workers = map (λ w. w.resources_available) workers

module _ (workers : List WorkerThread) (reqs : List ℤ) where
  unfoldable pub execute : ℕ → ℕ → ℤ → ℕ → Serving → Option Serving
  unfolding queue_erase ◌-ℤ◌
  execute time l curr_res place s = do
    old ← get_elem? s.wt_time l
    free ← get_elem? s.worker_resources place
    used ← get_elem? reqs l
    some (record s {
      wt_time = set s.wt_time l (pos time);
      temp_queue = queue_erase s.temp_queue curr_res;
      worker_resources = set s.worker_resources place (free -ℤ used);
      count = suc s.count;
      log = s.log ++ executing s.count curr_res place ∷ [];
    })

  unfoldable pub reject : ℕ → ℤ → Serving → Option Serving
  unfolding queue_erase
  reject l curr_res s = do
    old ← get_elem? s.wt_time l
    some (record s {
      wt_time = set s.wt_time l (negsuc 0);
      temp_queue = queue_erase s.temp_queue curr_res;
      count = suc s.count;
      rejected = suc s.rejected;
      log = s.log ++ unavailable s.count curr_res ∷ [];
    })

  -- The body of the loop over `l`, for the resources of the front of the queue.
  unfoldable pub serve_front : ℕ → ℕ → ℤ → Serving → Option Serving
  unfolding execute reject find_thread out_of_values
  serve_front time l curr_res s = elim (out_of_values workers curr_res) [
    | true ↦ elim (find_thread s.worker_resources curr_res) [
      | some place ↦ execute time l curr_res place s
      | none ↦ some s
    ]
    | false ↦ reject l curr_res s
  ]

  -- The front of an empty queue is a fault.
  unfoldable pub serve_next : ℕ → ℕ → Serving → Option Serving
  unfolding serve_front
  serve_next time l s = elim s.temp_queue [
    | [] ↦ none
    | (j, curr_res) ∷ rest ↦ serve_front time l curr_res s
  ]

  -- `k` more turns of the loop, from the turn `l` on.
  unfoldable pub turns : ℕ → ℕ → ℕ → Serving → Option Serving
  unfolding serve_next
  turns time zero l s = some s
  turns time (suc k) l s = do s1 ← serve_next time l s; turns time k (suc l) s1

  unfoldable pub serve_round : ℕ → Serving → Option Serving
  unfolding turns
  serve_round time s =
      turns time (length s.temp_queue) 0 (record s { worker_resources = resources workers })

  -- The loop until the queue is empty.
  unfoldable pub rounds : ℕ → ℕ → Serving → Option Serving
  unfolding serve_round
  rounds zero time s = elim s.temp_queue [ [] ↦ some s | _ ∷ _ ↦ none ]
  rounds (suc fuel) time s = elim s.temp_queue [
    | [] ↦ some s
    | _ ∷ _ ↦ do s1 ← serve_round time s; rounds fuel (suc time) s1
  ]

-- The queue of the requests, with their numbers.
unfoldable pub enqueue : ℕ → List ℤ → List (ℕ × ℤ)
enqueue j [] = []
enqueue j (r ∷ rs) = (j, r) ∷ enqueue (suc j) rs

-- All of the loop for one service, after `rejected` requests were rejected.
unfoldable pub serve_service : ℕ → List WorkerThread → List ℤ → List ℤ → ℕ → Option Serving
unfolding rounds enqueue
serve_service fuel workers reqs wt_time rejected = rounds workers reqs fuel 0 (record {
  temp_queue = enqueue 0 reqs;
  worker_resources = resources workers;
  wt_time = wt_time;
  count = 1;
  rejected = rejected;
  log = [];
})
