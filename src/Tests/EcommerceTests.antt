-- ===== src/Tests/EcommerceTests.antt =====
-- MultiThreading/Ecommerce.cpp: runs for one service.
use mathlib.Core.Option
use network_os_simulation.Shared.{◌+◌, ◌≡◌, refl, List, [], ◌∷◌, some, arith, length}
use network_os_simulation.Shared.Int.{ℤ, pos, negsuc, ◌+ℤ◌}
use network_os_simulation.Ecommerce.{WorkerThread, Event, executing, Serving, serve_service}
use network_os_simulation.Ecommerce.Log.{Reports, rejections}
use network_os_simulation.Ecommerce.Service
use network_os_simulation.Ecommerce.Stats
use network_os_simulation.Ecommerce.Stats.{all_waits, all_turnarounds}

abbrev worker_5 : List WorkerThread
worker_5 = record { priority = pos 1; resources_available = pos 5 } ∷ []

-- One worker with 5 resources: the requests for 5 and 4 run in the same round, since a round takes
-- the resources of the request with the number of the turn. The time of the request for 5 is written
-- to the first slot, and the last slot stays 0.
overcommitted :
    Option.map {B = List Event × List ℤ}
      (λ (s : Serving). (s.log, s.wt_time))
      (serve_service 3 worker_5 (pos 1 ∷ pos 5 ∷ pos 4 ∷ []) (pos 0 ∷ pos 0 ∷ pos 0 ∷ []) 0)
    ≡ some (
      executing 1 (pos 1) 0 ∷ executing 2 (pos 5) 0 ∷ executing 3 (pos 4) 0 ∷ [],
      pos 1 ∷ pos 1 ∷ pos 0 ∷ [],
    )
unfolding serve_service
overcommitted = refl

-- The third request is for more than the worker has.
serve_service-Reports_example :
    (s : Serving) × (serve_service 3 worker_5
        (pos 3 ∷ pos 4 ∷ pos 9 ∷ [])
        (pos 0 ∷ pos 0 ∷ pos 0 ∷ [])
        2
      ≡ some s)
    × (s.temp_queue ≡ [])
    × Reports worker_5 1 (pos 3 ∷ pos 4 ∷ pos 9 ∷ []) s.log
    × (s.rejected ≡ 2 + rejections s.log)
    × (length s.wt_time ≡ 3)
serve_service-Reports_example =
    Service.serve_service-Reports 3 worker_5 (pos 3 ∷ pos 4 ∷ pos 9 ∷ [])
      (pos 0 ∷ pos 0 ∷ pos 0 ∷ []) 2 (omega arith, tt) refl (omega arith)

all_turnarounds-all_waits_example :
    all_turnarounds ((pos 0 ∷ negsuc 0 ∷ []) ∷ (pos 3 ∷ []) ∷ []) (pos 0)
    ≡ (all_waits ((pos 0 ∷ negsuc 0 ∷ []) ∷ (pos 3 ∷ []) ∷ []) (pos 0, 0)).0 +ℤ pos 2
all_turnarounds-all_waits_example =
    Stats.all_turnarounds-all_waits ((pos 0 ∷ negsuc 0 ∷ []) ∷ (pos 3 ∷ []) ∷ [])
      ((refl, tt), (tt, tt))
