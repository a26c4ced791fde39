-- ===== src/Tests/SimulationTests.antt =====
-- The application of the wired simulation, and the statistics of a few flows.
use network_os_simulation.Shared.{◌≡◌, refl, ◌*◌, ◌-◌, ◌<◌, ◌≤◌, [], ◌∷◌, none, some, false, arith}
use network_os_simulation.Wired.{
  MyApp, bind, connect, send, schedule, cancel, close, new_app, setup, start, fire, stop, react,
  reacts,
}
use network_os_simulation.Wired.Sends.{fires, waiting, finished, start-fires}
use network_os_simulation.Wired.Stops.{sends, stops-sends}
use network_os_simulation.Flows.{
  fairness, avg_throughput, direction, flow_type, forth, back, veno, other, fairness_le,
}

abbrev app : MyApp
app = waiting 1 7 50 100 1000

stop_run :
    reacts (start ∷ fire ∷ stop ∷ []) (setup 7 50 100 1000 new_app)
    ≡ some (record (waiting 2 7 50 100 1000) {
      send_event = false;
      running = false;
      calls =
          bind
          ∷ connect 7
          ∷ send 50
          ∷ schedule 400 1000
          ∷ send 50
          ∷ schedule 400 1000
          ∷ cancel
          ∷ close
          ∷ [];
    })
unfolding reacts setup new_app
stop_run = refl

-- One packet is sent where none should be.
no_packets_run : reacts (start ∷ []) (setup 7 50 0 1000 new_app) ≡ some (finished 0 7 50 0 1000)
unfolding reacts setup new_app
no_packets_run = refl

start-fires_example :
    (2 < 3 → reacts (start ∷ fires 1) (setup 7 50 3 1000 new_app) ≡ some (waiting 2 7 50 3 1000))
    × (1 ≡ 3 - 1
        → reacts (start ∷ fires 1) (setup 7 50 3 1000 new_app) ≡ some (finished 1 7 50 3 1000))
start-fires_example = start-fires 1 7 50 3 1000 (omega arith)

stops-sends_example :
    (stopped : MyApp) × (reacts (stop ∷ stop ∷ []) app ≡ some stopped)
    × (sends stopped.calls ≡ 1)
    × (react fire stopped ≡ none)
stops-sends_example = stops-sends 1 app

flows_run : (fairness (3 ∷ 5 ∷ []) ≡ (64, 204)) × (avg_throughput (3 ∷ 5 ∷ []) ≡ (8, 6))
unfolding fairness avg_throughput
flows_run = (refl, refl)

labels_run :
    (direction 4 ≡ back) × (direction 2 ≡ forth) × (flow_type 5 ≡ veno) × (flow_type 9 ≡ other)
unfolding direction flow_type
labels_run = (refl, refl, refl, refl)

fairness_le_example : 6 * (fairness (3 ∷ 5 ∷ [])).0 ≤ 2 * (fairness (3 ∷ 5 ∷ [])).1
fairness_le_example = fairness_le (3 ∷ 5 ∷ [])
