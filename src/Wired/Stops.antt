-- ===== src/Wired/Stops.antt =====
-- An application that is stopped.
use network_os_simulation.Shared.{
  ◌≡◌, refl, ap, ◌∙◌, ℕ, zero, suc, List, [], ◌∷◌, ◌++◌, none, some, Bool, true, false,
  if◌then◌else◌,
}
use network_os_simulation.Wired.{
  Call, bind, connect, send, schedule, cancel, close, MyApp, stop_application, send_packet, Signal,
  fire, stop, react, reacts,
}

-- The number of packets given to the socket.
abbrev pub sends : List Call → ℕ
sends [] = 0
sends (send size ∷ cs) = suc (sends cs)
sends (bind ∷ cs) = sends cs
sends (connect a ∷ cs) = sends cs
sends (schedule b r ∷ cs) = sends cs
sends (cancel ∷ cs) = sends cs
sends (close ∷ cs) = sends cs

abbrev pub stops : ℕ → List Signal
stops zero = []
stops (suc k) = stop ∷ stops k

sends-append : (cs : List Call) (c : Call) → sends (c ∷ []) ≡ 0 → sends (cs ++ c ∷ []) ≡ sends cs
sends-append [] c e = e
sends-append (send size ∷ cs) c e = ap suc (sends-append cs c e)
sends-append (bind ∷ cs) c e = sends-append cs c e
sends-append (connect a ∷ cs) c e = sends-append cs c e
sends-append (schedule b r ∷ cs) c e = sends-append cs c e
sends-append (cancel ∷ cs) c e = sends-append cs c e
sends-append (close ∷ cs) c e = sends-append cs c e

stop_fields :
    (event socket : Bool) (app : MyApp)
    → ((stop_application (record app { send_event = event; socket = socket })).send_event ≡ false)
      × (sends (stop_application (record app { send_event = event; socket = socket })).calls
          ≡ sends app.calls)
unfolding stop_application
stop_fields true true app =
    (refl, sends-append (app.calls ++ cancel ∷ []) close refl ∙ sends-append app.calls cancel refl)
stop_fields true false app = (refl, sends-append app.calls cancel refl)
stop_fields false true app = (refl, sends-append app.calls close refl)
stop_fields false false app = (refl, refl)

-- An application in any state that is stopped, once or more, has sent no further packet, and its
-- event cannot be run any more.
pub stops-sends :
    (k : ℕ) (app : MyApp)
    → (stopped : MyApp) × (reacts (stops (suc k)) app ≡ some stopped)
      × (sends stopped.calls ≡ sends app.calls)
      × (react fire stopped ≡ none)
unfolding reacts
stops-sends zero app =
    let (event, same) = stop_fields app.send_event app.socket app in
    (
      stop_application app,
      refl,
      same,
      ap
          (λ e.
            if e then send_packet (record (stop_application app) { send_event = false }) else none)
          event,
    )
stops-sends (suc k) app =
    let (stopped, runs, quiet, ends) = stops-sends k (stop_application app) in
    (stopped, runs, quiet ∙ (stop_fields app.send_event app.socket app).1, ends)
