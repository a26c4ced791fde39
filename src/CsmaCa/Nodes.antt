-- ===== src/CsmaCa/Nodes.antt =====
-- NetworkProtocols/CSMA_CA_Simulation.cpp: what is kept of the nodes while they are visited.
use native.Mathlib.Nat.{mod-lt, one-le-pow}
use network_os_simulation.Shared.{
  ℕ, zero, suc, ◌+◌, ◌^◌, ◌%◌, min, ◌≤◌, ◌<◌, ◌≡◌, refl, ◌∙◌, List, [], ◌∷◌, some, false, arith,
  get_elem?, set, All,
}
use network_os_simulation.CsmaCa.State.{Node, Config, shift, remainder, is_ready}
use network_os_simulation.CsmaCa.{perform_backoff}

-- The nodes have the numbers from `k` on.
abbrev pub HasIds : ℕ → List Node → Type 0
HasIds k [] = Unit
HasIds k (n ∷ ns) = (n.id ≡ k) × HasIds (suc k) ns

-- The successful transmissions of all nodes.
abbrev pub total : List Node → ℕ
total [] = 0
total (n ∷ ns) = n.successful_transmissions + total ns

-- No node has collided more than `c` times.
abbrev pub Bounded : ℕ → List Node → Type 0
Bounded c ns = All (λ (n : Node). n.collision_count ≤ c) ns

-- No node from the place `i` on is ready.
abbrev pub QuietFrom : ℕ → List Node → Type 0
QuietFrom i ns = All (λ (n : Node). i ≤ n.id → is_ready n ≡ false) ns

pub id-get_elem? :
    (k : ℕ) (ns : List Node) (i : ℕ) (n : Node)
    → HasIds k ns
    → get_elem? ns i ≡ some n
    → n.id ≡ k + i
id-get_elem? k [] i n h e = absurd (ground arith)
id-get_elem? k (m ∷ ns) zero n h e = ground arith
id-get_elem? k (m ∷ ns) (suc i) n h e = id-get_elem? (suc k) ns i n h.1 e ∙ omega arith

pub HasIds-set :
    (k : ℕ) (ns : List Node) (i : ℕ) (n : Node) → HasIds k ns → n.id ≡ k + i → HasIds k (set ns i n)
HasIds-set k [] i n h e = tt
HasIds-set k (m ∷ ns) zero n h e = (omega arith, h.1)
HasIds-set k (m ∷ ns) (suc i) n h e = (h.0, HasIds-set (suc k) ns i n h.1 (omega arith))

pub total-set :
    (ns : List Node) (i : ℕ) (old new : Node)
    → get_elem? ns i ≡ some old
    → total (set ns i new) + old.successful_transmissions ≡ total ns + new.successful_transmissions
total-set [] i old new e = absurd (ground arith)
total-set (n ∷ ns) zero old new e = ground arith
total-set (n ∷ ns) (suc i) old new e = omega (arith, total-set ns i old new e)

two_pow-pos : (n : ℕ) → 0 < 2 ^ n
two_pow-pos n = one-le-pow n 2 (omega arith)

shift-small : (n : ℕ) → n < 31 → shift n ≡ some (2 ^ n)
unfolding shift
shift-small n lt = ground arith

pub remainder-pos : (a b : ℕ) → 0 < b → remainder a b ≡ some (a % b)
unfolding remainder
remainder-pos a b lt = ground arith

-- A backoff of a node with less than 31 collisions, under a maximum below 31, makes it wait at
-- least one slot, and at most two to the power of its collisions, and of the maximum; nothing else
-- of the node changes.
pub perform_backoff_lem :
    (cfg : Config) (r : ℕ) (node : Node)
    → node.collision_count < 31
    → cfg.max_backoff < 31
    → (q : ℕ) × (perform_backoff cfg r node ≡ some (record node { backoff_interval = suc q }))
      × (suc q ≤ 2 ^ node.collision_count)
      × (suc q ≤ 2 ^ cfg.max_backoff)
unfolding perform_backoff shift remainder
perform_backoff_lem cfg r node lt lt2 =
    let m = min (2 ^ node.collision_count) (2 ^ cfg.max_backoff) in
    let small : r % m < m =
      mod-lt r (omega (arith, two_pow-pos node.collision_count, two_pow-pos cfg.max_backoff)) in
    (
      r % m,
      rw
          (
            shift-small node.collision_count lt,
            shift-small cfg.max_backoff lt2,
            remainder-pos r m (omega (arith, small)),
          )
          refl,
      omega (arith, small),
      omega (arith, small),
    )
