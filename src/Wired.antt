-- ===== src/Wired.antt =====
-- "Network Simulation using NS-3/WiredTCP.cc": MyApp, an application that sends packets at a rate.
-- NS-3 itself is not modelled: the calls that the application makes of it are listed in the order in
-- which they are made, and the simulator calls the application by events.
pub mod Sends
pub mod Stops
use network_os_simulation.Shared.{
  ℕ, suc, ◌*◌, ◌%◌, ◌^◌, List, [], ◌∷◌, ◌++◌, Option, none, some, Bool, true, false, ltb,
  if◌then◌else◌, ◌>>=◌,
}

-- The interval is the number of bits over the bits of a second.
pub data Call : Type 0 where
  bind : Call
  connect : ℕ → Call
  send : ℕ → Call
  schedule : ℕ → ℕ → Call
  cancel : Call
  close : Call

-- `send_event`: the event is scheduled and was not run. `socket`: it is not null.
pub record MyApp : Type 0 where
  pub socket : Bool
  pub peer : ℕ
  pub packet_size : ℕ
  pub n_packets : ℕ
  pub data_rate : ℕ
  pub send_event : Bool
  pub running : Bool
  pub packets_sent : ℕ
  pub calls : List Call

abbrev call : Call → MyApp → MyApp
call c app = record app { calls = app.calls ++ c ∷ [] }

unfoldable pub new_app : MyApp
new_app = record {
  socket = false;
  peer = 0;
  packet_size = 0;
  n_packets = 0;
  data_rate = 0;
  send_event = false;
  running = false;
  packets_sent = 0;
  calls = [];
}

unfoldable pub setup : ℕ → ℕ → ℕ → ℕ → MyApp → MyApp
setup address packet_size n_packets data_rate app = record app {
  socket = true;
  peer = address;
  packet_size = packet_size;
  n_packets = n_packets;
  data_rate = data_rate;
}

-- The product is one of `uint32_t`.
unfoldable pub schedule_tx : MyApp → MyApp
schedule_tx app =
    if app.running
    then call (schedule (app.packet_size * 8 % 2 ^ 32) app.data_rate)
        (record app { send_event = true })
    else app

-- `none`: a null pointer is followed.
unfoldable pub send_packet : MyApp → Option MyApp
unfolding schedule_tx
send_packet app =
    if app.socket
    then (let sent =
          call (send app.packet_size)
            (record app { packets_sent = suc app.packets_sent % 2 ^ 32 }) in
        some (if ltb sent.packets_sent sent.n_packets then schedule_tx sent else sent))
    else none

unfoldable pub start_application : MyApp → Option MyApp
unfolding send_packet
start_application app =
    let started = record app { running = true; packets_sent = 0 } in
    if app.socket then send_packet (call (connect app.peer) (call bind started)) else none

unfoldable pub stop_application : MyApp → MyApp
stop_application app =
    let stopped = record app { running = false } in
    let cancelled =
      if stopped.send_event then call cancel (record stopped { send_event = false }) else stopped in
    if cancelled.socket then call close cancelled else cancelled

-- What the simulator does with the application: the scheduled event is run only if there is one.
pub data Signal : Type 0 where
  start fire stop : Signal

unfoldable pub react : Signal → MyApp → Option MyApp
unfolding start_application send_packet stop_application
react start app = start_application app
react fire app = if app.send_event then send_packet (record app { send_event = false }) else none
react stop app = some (stop_application app)

unfoldable pub reacts : List Signal → MyApp → Option MyApp
unfolding react
reacts [] app = some app
reacts (e ∷ es) app = do next ← react e app; reacts es next
