-- ===== src/CsmaCa/Simulate.antt =====
-- NetworkProtocols/CSMA_CA_Simulation.cpp: a whole simulation.
use network_os_simulation.Shared.{
  ℕ, zero, suc, ◌+◌, ◌*◌, ◌%◌, ◌≤◌, ◌≡◌, refl, ap, subst, ◌⊎◌, inl, inr, none, some, Bool, true,
  false, arith, length, ◌<◌, All, get_elem?, replicate, Bool-cases,
}
use network_os_simulation.CsmaCa.State.{Config, Simulation, new_nodes}
use network_os_simulation.CsmaCa.{slots, simulate_csma}
use network_os_simulation.CsmaCa.Nodes.{HasIds, total, Bounded, remainder-pos}
use network_os_simulation.CsmaCa.Books.{IsBooked}
use network_os_simulation.CsmaCa.Visit.{IsField}
use network_os_simulation.CsmaCa.Slot.{IsUsable, IsSlot, slot-IsSlot}

-- After `t` slots there is one success for two slots at most; the last may be on its way.
abbrev Budget : ℕ → Simulation → Type 0
Budget t sim =
    ((sim.channel_busy ≡ false) × (2 * total sim.nodes ≤ t))
    ⊎ ((sim.channel_busy ≡ true) × (2 * total sim.nodes ≤ suc t))

Budget-IsSlot :
    (n c t : ℕ) (sim after : Simulation)
    → Budget t sim
    → IsSlot n c sim after
    → Budget (suc t) after
Budget-IsSlot n c t sim after (inr (busy, le)) s = elim (Bool-cases after.channel_busy) [
  | inl e ↦ inr (e, omega (arith, s.when_busy busy))
  | inr e ↦ inl (e, omega (arith, s.when_busy busy))
]
Budget-IsSlot n c t sim after (inl (idle, le)) s = elim (s.when_idle idle) [
  | inl (e, same) ↦ inl (e, omega (arith, same))
  | inr (e, more) ↦ inr (e, omega (arith, more))
]

new_nodes-HasIds : (junk : ℕ → Bool) (k i : ℕ) → HasIds i (new_nodes junk k i)
unfolding new_nodes
new_nodes-HasIds junk zero i = tt
new_nodes-HasIds junk (suc k) i = (refl, new_nodes-HasIds junk k (suc i))

length-new_nodes : (junk : ℕ → Bool) (k i : ℕ) → length (new_nodes junk k i) ≡ k
unfolding new_nodes
length-new_nodes junk zero i = refl
length-new_nodes junk (suc k) i = ap suc (length-new_nodes junk k (suc i))

new_nodes-Bounded : (junk : ℕ → Bool) (k i : ℕ) → Bounded 0 (new_nodes junk k i)
unfolding new_nodes
new_nodes-Bounded junk zero i = tt
new_nodes-Bounded junk (suc k) i = (omega arith, new_nodes-Bounded junk k (suc i))

total-new_nodes : (junk : ℕ → Bool) (k i : ℕ) → total (new_nodes junk k i) ≡ 0
unfolding new_nodes
total-new_nodes junk zero i = refl
total-new_nodes junk (suc k) i = omega (arith, total-new_nodes junk k (suc i))

length-replicate : (k x : ℕ) → length (replicate k x) ≡ k
length-replicate zero x = refl
length-replicate (suc k) x = ap suc (length-replicate k x)

get_elem?-replicate : (k i x : ℕ) → i < k → get_elem? (replicate k x) i ≡ some x
get_elem?-replicate zero i x lt = absurd (omega arith)
get_elem?-replicate (suc k) zero x lt = refl
get_elem?-replicate (suc k) (suc i) x lt = get_elem?-replicate k i x (omega arith)

new_nodes-IsBooked :
    (junk : ℕ → Bool) (n k i : ℕ) → i + k ≤ n → All (IsBooked (replicate n 0)) (new_nodes junk k i)
unfolding new_nodes
new_nodes-IsBooked junk n zero i le = tt
new_nodes-IsBooked junk n (suc k) i le = (
  (0, get_elem?-replicate n i 0 (omega arith), refl, refl),
  new_nodes-IsBooked junk n k (suc i) (omega arith),
)

module _ (cfg : Config) (ok : IsUsable cfg) where
  slots-Budget :
      (n k time c : ℕ) (sim : Simulation)
      → IsField n c sim
      → c + k ≤ 30
      → Budget time sim
      → (s1 : Simulation) × (slots cfg k time sim ≡ some s1)
        × IsField n (c + k) s1
        × Budget (time + k) s1
  unfolding slots
  slots-Budget n zero time c sim f le b = (
    sim,
    refl,
    subst (λ x. IsField n x sim) (omega arith) f,
    subst (λ x. Budget x sim) (omega arith) b,
  )
  slots-Budget n (suc k) time c sim f le b =
      let (s1, e1, s) = slot-IsSlot cfg ok time n c sim f (omega arith) in
      let (s2, e2, f2, b2) =
        slots-Budget n k (suc time) (suc c) s1 s.field (omega arith)
          (Budget-IsSlot n c time sim s1 b s) in
      (
        s2,
        rw (e1) e2,
        subst (λ x. IsField n x s2) (omega arith) f2,
        subst (λ x. Budget x s2) (omega arith) b2,
      )

  -- With the user's values in range, a simulation of at most 30 slots runs without a fault,
  -- whatever `rand` gives and whatever the constructor leaves in `istransmitting`. No node has
  -- more collisions than there were slots; the collisions that a node has recorded, one record for
  -- each success, and those counted since add up to its total; and all nodes together have one
  -- successful transmission for every two slots at most, rounded up.
  pub simulate_csma-total :
      (junk : ℕ → Bool) (num_nodes duration : ℕ)
      → duration ≤ 30
      → (s : Simulation) × (simulate_csma cfg junk num_nodes duration ≡ some s)
        × (length s.nodes ≡ num_nodes)
        × Bounded duration s.nodes
        × All (IsBooked s.count_collisions) s.nodes
        × (2 * total s.nodes ≤ suc duration)
  unfolding simulate_csma
  simulate_csma-total junk num_nodes duration le =
      let (s, e, f, b) =
        slots-Budget num_nodes duration 0 0
          (record {
            nodes = new_nodes junk num_nodes 0;
            count_collisions = replicate num_nodes 0;
            channel_busy_node = none;
            transmission_time = cfg.rand 0 % cfg.max_transmission_time + 2;
            channel_busy = false;
            transmission_timer = 0;
            global_collisions = 0;
            drawn = 1;
          })
          (record {
            ids = new_nodes-HasIds junk num_nodes 0;
            size = length-new_nodes junk num_nodes 0;
            counts = length-replicate num_nodes 0;
            bounded = new_nodes-Bounded junk num_nodes 0;
            books = new_nodes-IsBooked junk num_nodes num_nodes 0 (omega arith);
          })
          (omega arith) (inl (refl, omega (arith, total-new_nodes junk num_nodes 0))) in
      (
        s,
        rw (remainder-pos (cfg.rand 0) cfg.max_transmission_time ok.times) e,
        f.size,
        subst (λ x. Bounded x s.nodes) (omega arith) f.bounded,
        f.books,
        elim b [ inl p ↦ omega (arith, p.1) | inr p ↦ omega (arith, p.1) ],
      )
