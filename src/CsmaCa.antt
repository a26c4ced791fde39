-- ===== src/CsmaCa.antt =====
-- NetworkProtocols/CSMA_CA_Simulation.cpp: nodes that share a channel, in slots of time.
-- The results of `rand` are a parameter, read in order. A probability is a parameter `limit`, the
-- number of the remainders below transmissionProab * 100. `none` is undefined behaviour: a shift
-- that leaves the range of `int`, a remainder by 0, an access out of bounds.
pub mod State
pub mod Nodes
pub mod Books
pub mod Hit
pub mod Visit
pub mod Visits
pub mod Wait
pub mod Slot
pub mod Simulate
use network_os_simulation.Shared.{
  ℕ, zero, suc, ◌+◌, ◌-◌, ◌^◌, ◌%◌, min, List, [], ◌∷◌, ◌++◌, Option, none, some, Bool, true, false,
  not, ◌&&◌, ltb, ◌==◌, if◌then◌else◌, length, get_elem?, set, replicate, ◌>>=◌,
}
use network_os_simulation.CsmaCa.State.{
  Node, Config, shift, remainder, attempt_transmission, is_ready, count_down, is_other, Simulation,
  Hits, new_nodes,
}

module _ (cfg : Config) where
  -- With the result `r` of `rand`.
  unfoldable pub perform_backoff : ℕ → Node → Option Node
  unfolding shift remainder
  perform_backoff r node = do
    a ← shift node.collision_count
    b ← shift cfg.max_backoff
    q ← remainder r (min a b)
    some (record node { backoff_interval = suc q })

  unfoldable pub perform_busy_backoff : ℕ → Node → Option Node
  unfolding remainder
  perform_busy_backoff r node = do
    q ← remainder r cfg.backoff_channel_busy
    some (record node { backoff_interval = suc q })

  unfoldable pub transmitting_probability : ℕ → Bool
  transmitting_probability r = ltb (r % 100) cfg.limit

  -- The first loop of a slot: who starts to transmit.
  unfoldable pub start_all : List Node → ℕ → List Node × ℕ
  unfolding transmitting_probability
  start_all [] d = ([], d)
  start_all (node ∷ rest) d = elim node.is_transmitting [
    | true ↦ let (nodes, e) = start_all rest d in (node ∷ nodes, e)
    | false ↦
        let (nodes, e) = start_all rest (suc d) in
        (record node { is_transmitting = transmitting_probability (cfg.rand d) } ∷ nodes, e)
  ]

  -- One node while the channel is busy.
  unfoldable pub wait_one : Option ℕ → Node → ℕ → Option (Node × ℕ)
  unfolding attempt_transmission perform_busy_backoff count_down is_other
  wait_one busy node d = elim (is_other busy node && attempt_transmission node) [
    | true ↦ elim node.is_transmitting [
      | true ↦ do node1 ← perform_busy_backoff (cfg.rand d) node; some (node1, suc d)
      | false ↦ some (node, d)
    ]
    | false ↦ some (count_down node, d)
  ]

  unfoldable pub wait_all : Option ℕ → List Node → ℕ → Option (List Node × ℕ)
  unfolding wait_one
  wait_all busy [] d = some ([], d)
  wait_all busy (node ∷ rest) d = do
    one ← wait_one busy node d
    more ← wait_all busy rest one.1
    some (one.0 ∷ more.0, more.1)

  -- The loop over the other nodes, for the node with the ID `me`.
  unfoldable pub hit_others : ℕ → List Node → List ℕ → ℕ → Option Hits
  unfolding is_ready perform_backoff
  hit_others me [] counts d =
      some (record { nodes = []; count_collisions = counts; drawn = d; collisions = 0 })
  hit_others me (other ∷ rest) counts d = elim (not (me == other.id) && is_ready other) [
    | true ↦ do
      c ← get_elem? counts other.id
      other1 ←
          perform_backoff (cfg.rand d)
            (record other { collision_count = suc other.collision_count })
      h ← hit_others me rest (set counts other.id (suc c)) (suc d)
      some (record h { nodes = other1 ∷ h.nodes; collisions = suc h.collisions })
    | false ↦ do h ← hit_others me rest counts d; some (record h { nodes = other ∷ h.nodes })
  ]

  unfoldable pub succeed : ℕ → ℕ → Hits → Simulation → Option Simulation
  unfolding transmitting_probability
  succeed time i h sim = do
    node ← get_elem? h.nodes i
    c ← get_elem? h.count_collisions node.id
    some (record sim {
      nodes = set h.nodes i (record node {
        is_transmitting = transmitting_probability (cfg.rand h.drawn);
        collisions_before_success = node.collisions_before_success ++ c ∷ [];
        time_before_success = node.time_before_success ++ time ∷ [];
        successful_transmissions = suc node.successful_transmissions;
      });
      count_collisions = set h.count_collisions node.id 0;
      channel_busy = true;
      channel_busy_node = some node.id;
      transmission_timer = suc sim.transmission_timer;
      drawn = suc h.drawn;
    })

  unfoldable pub collide : ℕ → Hits → Simulation → Option Simulation
  unfolding perform_backoff
  collide i h sim = do
    node ← get_elem? h.nodes i
    c ← get_elem? h.count_collisions node.id
    node1 ←
        perform_backoff (cfg.rand h.drawn)
          (record node { collision_count = suc node.collision_count })
    some (record sim {
      nodes = set h.nodes i node1;
      count_collisions = set h.count_collisions node.id (suc c);
      global_collisions = suc sim.global_collisions;
      drawn = suc h.drawn;
    })

  -- The body of the loop over the nodes, for the node in place `i`.
  unfoldable pub visit : ℕ → ℕ → Simulation → Option Simulation
  unfolding is_ready hit_others succeed collide count_down
  visit time i sim = do
    node ← get_elem? sim.nodes i
    elim (is_ready node) [
      | true ↦ do
        h ← hit_others node.id sim.nodes sim.count_collisions sim.drawn
        if h.collisions == 0 then succeed time i h sim else collide i h sim
      | false ↦ some (record sim { nodes = set sim.nodes i (count_down node) })
    ]

  -- The nodes from place `i` on, `k` of them.
  unfoldable pub visits : ℕ → ℕ → ℕ → Simulation → Option Simulation
  unfolding visit
  visits time zero i sim = some sim
  visits time (suc k) i sim = do sim1 ← visit time i sim; visits time k (suc i) sim1

  -- A slot while the channel is busy.
  unfoldable pub busy_slot : Simulation → Option Simulation
  unfolding wait_all remainder
  busy_slot sim = do
    more ← wait_all sim.channel_busy_node sim.nodes sim.drawn
    let next = record sim {
      nodes = more.0;
      drawn = more.1;
      transmission_timer = suc sim.transmission_timer;
    }
    elim (next.transmission_timer == next.transmission_time) [
      | true ↦ do
        q ← remainder (cfg.rand next.drawn) cfg.max_transmission_time
        some (record next {
          transmission_timer = 0;
          channel_busy = false;
          transmission_time = q + 2;
          drawn = suc next.drawn;
        })
      | false ↦ some next
    ]

  unfoldable pub slot : ℕ → Simulation → Option Simulation
  unfolding start_all busy_slot visits
  slot time sim =
      let (nodes, d) = start_all sim.nodes sim.drawn in
      let next = record sim { nodes = nodes; drawn = d } in
      elim next.channel_busy [
        | true ↦ busy_slot next
        | false ↦ visits time (length next.nodes) 0 next
      ]

  unfoldable pub slots : ℕ → ℕ → Simulation → Option Simulation
  unfolding slot
  slots zero time sim = some sim
  slots (suc k) time sim = do sim1 ← slot time sim; slots k (suc time) sim1

  unfoldable pub simulate_csma : (ℕ → Bool) → ℕ → ℕ → Option Simulation
  unfolding slots new_nodes remainder
  simulate_csma junk num_nodes simulation_duration = do
    q ← remainder (cfg.rand 0) cfg.max_transmission_time
    slots simulation_duration 0 (record {
      nodes = new_nodes junk num_nodes 0;
      count_collisions = replicate num_nodes 0;
      channel_busy_node = none;
      transmission_time = q + 2;
      channel_busy = false;
      transmission_timer = 0;
      global_collisions = 0;
      drawn = 1;
    })
