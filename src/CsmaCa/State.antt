-- ===== src/CsmaCa/State.antt =====
-- NetworkProtocols/CSMA_CA_Simulation.cpp: a node, its tests, and the variables of simulateCSMA.
use network_os_simulation.Shared.{
  ℕ, zero, suc, ◌-◌, ◌^◌, ◌%◌, List, [], ◌∷◌, Option, none, some, Bool, true, not, ◌&&◌, ltb, ◌==◌,
  if◌then◌else◌,
}

pub record Node : Type 0 where
  pub id : ℕ
  pub backoff_interval : ℕ
  pub collision_count : ℕ
  pub successful_transmissions : ℕ
  pub is_transmitting : Bool
  pub collisions_before_success : List ℕ
  pub time_before_success : List ℕ

pub record Config : Type 0 where
  pub max_backoff : ℕ
  pub max_transmission_time : ℕ
  pub backoff_channel_busy : ℕ
  pub limit : ℕ
  pub rand : ℕ → ℕ

-- `1 << n` in an `int` of 32 bits.
unfoldable pub shift : ℕ → Option ℕ
shift n = if ltb n 31 then some (2 ^ n) else none

-- `a % b`
unfoldable pub remainder : ℕ → ℕ → Option ℕ
remainder a b = if b == 0 then none else some (a % b)

unfoldable pub attempt_transmission : Node → Bool
attempt_transmission node = node.backoff_interval == 0

unfoldable pub is_ready : Node → Bool
unfolding attempt_transmission
is_ready node = attempt_transmission node && node.is_transmitting

unfoldable pub count_down : Node → Node
count_down node = record node {
  backoff_interval =
      if ltb 0 node.backoff_interval then node.backoff_interval - 1 else node.backoff_interval;
}

-- `channelbusynode != node.id`
unfoldable pub is_other : Option ℕ → Node → Bool
is_other none node = true
is_other (some b) node = not (b == node.id)

-- The variables of simulateCSMA; `drawn` counts the calls of `rand`.
pub record Simulation : Type 0 where
  pub nodes : List Node
  pub count_collisions : List ℕ
  pub channel_busy_node : Option ℕ
  pub transmission_time : ℕ
  pub channel_busy : Bool
  pub transmission_timer : ℕ
  pub global_collisions : ℕ
  pub drawn : ℕ

-- What the loop over the other nodes leaves.
pub record Hits : Type 0 where
  pub nodes : List Node
  pub count_collisions : List ℕ
  pub drawn : ℕ
  pub collisions : ℕ

-- `Node(i)`. The constructor leaves `istransmitting` as it is in memory, which `junk` tells.
unfoldable pub new_nodes : (ℕ → Bool) → ℕ → ℕ → List Node
new_nodes junk zero i = []
new_nodes junk (suc k) i =
    record {
      id = i;
      backoff_interval = 0;
      collision_count = 0;
      successful_transmissions = 0;
      is_transmitting = junk i;
      collisions_before_success = [];
      time_before_success = [];
    }
    ∷ new_nodes junk k (suc i)
