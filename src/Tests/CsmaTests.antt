-- ===== src/Tests/CsmaTests.antt =====
-- NetworkProtocols/CSMA_CA_Simulation.cpp: simulations with a given stream of random numbers.
use mathlib.Core.Option
use network_os_simulation.Shared.{
  ℕ, ◌*◌, ◌≤◌, ◌≡◌, refl, [], ◌∷◌, none, some, Bool, true, false, arith, All, length, map,
}
use network_os_simulation.CsmaCa.State.{Node, Config, Simulation}
use network_os_simulation.CsmaCa.{perform_backoff, slot, simulate_csma}
use network_os_simulation.CsmaCa.Books.{IsBooked}
use network_os_simulation.CsmaCa.Nodes.{total, Bounded}
use network_os_simulation.CsmaCa.Slot
use network_os_simulation.CsmaCa.Slot.{IsUsable, IsSlot}
use network_os_simulation.CsmaCa.Simulate

-- Everybody wants to transmit at all times; `rand` gives 0, 1, 2, ...
abbrev cfg : Config
cfg = record {
  max_backoff = 4;
  max_transmission_time = 2;
  backoff_channel_busy = 3;
  limit = 100;
  rand = λ d. d;
}

cfg-IsUsable : IsUsable cfg
cfg-IsUsable = record { backoff = omega arith; times = omega arith; busy = omega arith }

abbrev eager : ℕ → Bool
eager i = true

-- Two nodes collide at first; node 0 has its first success in slot 4.
two_nodes :
    Option.map
      (λ (s : Simulation). map (λ (n : Node). n.time_before_success) s.nodes)
      (simulate_csma cfg eager 2 8)
    ≡ some ((4 ∷ []) ∷ [] ∷ [])
unfolding simulate_csma
two_nodes = refl

simulate_csma-total_example :
    (s : Simulation) × (simulate_csma cfg eager 2 12 ≡ some s)
    × (length s.nodes ≡ 2)
    × Bounded 12 s.nodes
    × All (IsBooked s.count_collisions) s.nodes
    × (2 * total s.nodes ≤ 13)
simulate_csma-total_example = Simulate.simulate_csma-total cfg cfg-IsUsable eager 2 12 (omega arith)

abbrev node : ℕ → Node
node i = record {
  id = i;
  backoff_interval = 0;
  collision_count = 31;
  successful_transmissions = 0;
  is_transmitting = true;
  collisions_before_success = [];
  time_before_success = [];
}

abbrev fresh : ℕ → Node
fresh i = record (node i) { collision_count = 0 }

-- A backoff after 31 collisions shifts out of the range of `int`.
shifts_out : perform_backoff cfg 7 (node 0) ≡ none
unfolding perform_backoff
shifts_out = refl

abbrev two : Simulation
two = record {
  nodes = fresh 0 ∷ fresh 1 ∷ [];
  count_collisions = 0 ∷ 0 ∷ [];
  channel_busy_node = none;
  transmission_time = 2;
  channel_busy = false;
  transmission_timer = 0;
  global_collisions = 0;
  drawn = 0;
}

slot-IsSlot_example : (s1 : Simulation) × (slot cfg 0 two ≡ some s1) × IsSlot 2 0 two s1
slot-IsSlot_example =
    Slot.slot-IsSlot cfg cfg-IsUsable 0 2 0 two
      (record {
        ids = (refl, (refl, tt));
        size = refl;
        counts = refl;
        bounded = (omega arith, (omega arith, tt));
        books = ((0, refl, refl, refl), ((0, refl, refl, refl), tt));
      })
      (omega arith)
