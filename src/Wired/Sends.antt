-- ===== src/Wired/Sends.antt =====
-- The packets that are sent before the application is stopped.
use network_os_simulation.Shared.{
  ◌≡◌, ap, ◌∙◌, ℕ, zero, suc, ◌*◌, ◌%◌, ◌^◌, ◌<◌, ◌≤◌, List, [], ◌∷◌, ◌++◌, some, true, false, ltb,
  ◌>>=◌, arith, append_assoc, ◌+◌, ◌-◌,
}
use network_os_simulation.Wired.{
  Call, bind, connect, send, schedule, MyApp, new_app, setup, schedule_tx, send_packet, Signal,
  start, fire, react, reacts,
}

abbrev pub fires : ℕ → List Signal
fires zero = []
fires (suc k) = fire ∷ fires k

-- The calls for `k` packets, each with the schedule of the next one.
abbrev pub packets : ℕ → ℕ → ℕ → List Call
packets zero size rate = []
packets (suc k) size rate =
    packets k size rate ++ send size ∷ schedule (size * 8 % 2 ^ 32) rate ∷ []

-- The application that waits with `k` packets sent.
abbrev pub waiting : ℕ → ℕ → ℕ → ℕ → ℕ → MyApp
waiting k address size n rate = record {
  socket = true;
  peer = address;
  packet_size = size;
  n_packets = n;
  data_rate = rate;
  send_event = true;
  running = true;
  packets_sent = k;
  calls = bind ∷ connect address ∷ packets k size rate;
}

-- The application that has sent `n` packets.
abbrev pub finished : ℕ → ℕ → ℕ → ℕ → ℕ → MyApp
finished k address size n rate = record (waiting (suc k) address size n rate) {
  send_event = false;
  calls = bind ∷ connect address ∷ (packets k size rate ++ send size ∷ []);
}

small : (k : ℕ) → k < 2 ^ 32 → k % 2 ^ 32 ≡ k
small k h = omega arith

below : (k n : ℕ) → k < n → ltb k n ≡ true
below k n h = ground arith

not_below : (k n : ℕ) → n ≤ k → ltb k n ≡ false
not_below k n h = ground arith

fire_waits :
    (k address size n rate : ℕ)
    → suc k < n
    → n < 2 ^ 32
    → react fire (waiting k address size n rate) ≡ some (waiting (suc k) address size n rate)
unfolding react
fire_waits k address size n rate h b =
    rw (send_packet, small (suc k) (omega arith), below (suc k) n h, schedule_tx)
      (ap
        (λ cs.
          some
            (record (waiting (suc k) address size n rate) { calls = bind ∷ connect address ∷ cs }))
        (append_assoc (packets k size rate) (send size ∷ [])
          (schedule (size * 8 % 2 ^ 32) rate ∷ [])))

fire_ends :
    (k address size n rate : ℕ)
    → n ≤ suc k
    → suc k < 2 ^ 32
    → react fire (waiting k address size n rate) ≡ some (finished k address size n rate)
unfolding react
fire_ends k address size n rate h b = rw (send_packet, small (suc k) b, not_below (suc k) n h)

start_waits :
    (address size n rate : ℕ)
    → 1 < n
    → react start (setup address size n rate new_app) ≡ some (waiting 1 address size n rate)
unfolding react setup new_app
start_waits address size n rate h = rw (send_packet, below 1 n h, schedule_tx)

start_ends :
    (address size n rate : ℕ)
    → n ≤ 1
    → react start (setup address size n rate new_app) ≡ some (finished 0 address size n rate)
unfolding react setup new_app
start_ends address size n rate h = rw (send_packet, not_below 1 n h)

fires_wait :
    (j k address size n rate : ℕ)
    → j + k < n
    → n < 2 ^ 32
    → reacts (fires j) (waiting k address size n rate) ≡ some (waiting (j + k) address size n rate)
unfolding reacts
fires_wait zero k address size n rate h b =
    ap (λ i. some (waiting i address size n rate)) (omega arith)
fires_wait (suc j) k address size n rate h b =
    ap (λ o. o >>= reacts (fires j)) (fire_waits k address size n rate (omega arith) b)
    ∙ fires_wait j (suc k) address size n rate (omega arith) b
    ∙ ap (λ i. some (waiting i address size n rate)) (omega arith)

fires_end :
    (j k address size n rate : ℕ)
    → suc j + k ≡ n
    → n < 2 ^ 32
    → reacts (fires (suc j)) (waiting k address size n rate)
      ≡ some (finished (j + k) address size n rate)
unfolding reacts
fires_end zero k address size n rate h b =
    ap (λ o. o >>= reacts []) (fire_ends k address size n rate (omega arith) (omega arith))
    ∙ ap (λ i. some (finished i address size n rate)) (omega arith)
fires_end (suc j) k address size n rate h b =
    ap (λ o. o >>= reacts (fires (suc j))) (fire_waits k address size n rate (omega arith) b)
    ∙ fires_end j (suc k) address size n rate (omega arith) b
    ∙ ap (λ i. some (finished i address size n rate)) (omega arith)

-- A new application that is set up for `n` packets, where `n` is below 2 to the power of 32,
-- started and called by its event `j` times: with `suc j` below `n` it has sent `suc j` packets
-- and waits for its event, with the calls that a list of packets describes; with `j` the number
-- before `n`, or 0 for `n` equal to 0, it has sent `suc j` packets and waits for nothing. So one
-- packet is sent for `n` equal to 0.
pub start-fires :
    (j address size n rate : ℕ)
    → n < 2 ^ 32
    → (suc j < n
        → reacts (start ∷ fires j) (setup address size n rate new_app)
          ≡ some (waiting (suc j) address size n rate))
      × (j ≡ n - 1
          → reacts (start ∷ fires j) (setup address size n rate new_app)
            ≡ some (finished j address size n rate))
unfolding reacts
start-fires j address size n rate b = (
  λ h.
      ap (λ o. o >>= reacts (fires j)) (start_waits address size n rate (omega arith))
      ∙ fires_wait j 1 address size n rate (omega arith) b
      ∙ ap (λ i. some (waiting i address size n rate)) (omega arith),
  λ h. last j h,
)
  where
    last :
        (i : ℕ)
        → i ≡ n - 1
        → reacts (start ∷ fires i) (setup address size n rate new_app)
          ≡ some (finished i address size n rate)
    last zero h = ap (λ o. o >>= reacts []) (start_ends address size n rate (omega arith))
    last (suc i) h =
        ap (λ o. o >>= reacts (fires (suc i))) (start_waits address size n rate (omega arith))
        ∙ fires_end i 1 address size n rate (omega arith) b
        ∙ ap (λ k. some (finished k address size n rate)) (omega arith)
