-- ===== src/CsmaCa/Visit.antt =====
-- NetworkProtocols/CSMA_CA_Simulation.cpp: the visits of a slot with an idle channel. The first node
-- that is ready attempts to transmit; after it no later node is ready.
use network_os_simulation.Shared.{
  All-get_elem?, All-set, ℕ, suc, ◌≤◌, ◌<◌, ◌≡◌, refl, ◌∙◌, ◌⊎◌, inl, inr, List, [], ◌∷◌, ◌++◌,
  some, true, false, arith, length, get_elem?, set, All, get_elem?-lt, get_elem?-set_self,
  get_elem?-set_other, length-set, All-map,
}
use network_os_simulation.CsmaCa.State.{Node, Config, Hits, Simulation, is_ready}
use network_os_simulation.CsmaCa.{transmitting_probability, succeed, collide}
use network_os_simulation.CsmaCa.Nodes.{
  HasIds, total, Bounded, QuietFrom, id-get_elem?, HasIds-set, total-set, perform_backoff_lem,
}
use network_os_simulation.CsmaCa.Books.{
  IsBooked, IsBooked-set, IsBooked-collision, IsBooked-success,
}
use network_os_simulation.CsmaCa.Hit.{After, IsHit}

-- `n` nodes, in order, with counters for each, which agree with their records, and no more than `c`
-- collisions of each.
pub record IsField (n c : ℕ) (sim : Simulation) : Type 0 where
  pub ids : HasIds 0 sim.nodes
  pub size : length sim.nodes ≡ n
  pub counts : length sim.count_collisions ≡ n
  pub bounded : Bounded c sim.nodes
  pub books : All (IsBooked sim.count_collisions) sim.nodes

-- The channel is idle after the slot, or just one transmission succeeded.
abbrev pub OneAtMost : ℕ → Simulation → Type 0
OneAtMost t sim =
    ((sim.channel_busy ≡ false) × (total sim.nodes ≡ t))
    ⊎ ((sim.channel_busy ≡ true) × (total sim.nodes ≡ suc t))

-- No node has attempted to transmit yet, or one has, and the rest are not ready.
abbrev pub Progress : ℕ → ℕ → ℕ → ℕ → Simulation → Type 0
Progress n c t i sim =
    (IsField n c sim × (sim.channel_busy ≡ false) × (total sim.nodes ≡ t))
    ⊎ (IsField n (suc c) sim × QuietFrom i sim.nodes × OneAtMost t sim)

pub Bounded-suc : (c : ℕ) (ns : List Node) → Bounded c ns → Bounded (suc c) ns
Bounded-suc c [] b = tt
Bounded-suc c (m ∷ ns) b = (omega (arith, b.0), Bounded-suc c ns b.1)

quiet : (me c : ℕ) (ns : List Node) → All (After me c) ns → QuietFrom (suc me) ns
quiet me c ns h =
    All-map (After me c) {Q = λ (m : Node). suc me ≤ m.id → is_ready m ≡ false}
      (λ m a lt. ground (arith, a, lt)) ns h

After-bounded : (me c : ℕ) (ns : List Node) → All (After me c) ns → Bounded (suc c) ns
After-bounded me c ns h =
    All-map (After me c) {Q = λ (m : Node). m.collision_count ≤ suc c} (λ m a. ground (arith, a)) ns
      h

own_count : (me c : ℕ) (m : Node) → After me c m → m.id ≡ me → m.collision_count ≤ c
own_count me c m a e = ground (arith, a, e)

module _ (cfg : Config) (n c : ℕ) (lt : c < 30) (lt2 : cfg.max_backoff < 31) where
  -- The node in place `i` after the loop over the others, and what a write to it keeps.
  module _ (i : ℕ) (sim : Simulation) (h : Hits) (f : IsField n c sim) (inside : i < n)
      (v : IsHit i c 0 sim.nodes sim.count_collisions h) where
    here : (m : Node) × (get_elem? h.nodes i ≡ some m)
    here = get_elem?-lt h.nodes i (omega (arith, v.size, f.size))

    -- A write of the node `i` keeps what the slot needs of the nodes.
    kept :
        (m : Node)
        → m.id ≡ i
        → m.collision_count ≤ suc c
        → HasIds 0 (set h.nodes i m)
          × (length (set h.nodes i m) ≡ n)
          × Bounded (suc c) (set h.nodes i m)
          × QuietFrom (suc i) (set h.nodes i m)
    kept m own few = (
      HasIds-set 0 h.nodes i m v.ids (omega (arith, own)),
      length-set h.nodes i m ∙ v.size ∙ f.size,
      All-set (λ (a : Node). a.collision_count ≤ suc c) h.nodes i m
          (After-bounded i c h.nodes v.after) few,
      All-set (λ (a : Node). suc i ≤ a.id → is_ready a ≡ false) h.nodes i m
          (quiet i c h.nodes v.after) (λ le. absurd (omega (arith, le, own))),
    )

    own_id : (m : Node) → get_elem? h.nodes i ≡ some m → m.id ≡ i
    own_id m e = id-get_elem? 0 h.nodes i m v.ids e ∙ omega arith

    own_few : (m : Node) → get_elem? h.nodes i ≡ some m → m.collision_count ≤ c
    own_few m e = own_count i c m (All-get_elem? (After i c) h.nodes i m v.after e) (own_id m e)

    own_counter :
        (m : Node)
        → get_elem? h.nodes i ≡ some m
        → (x : ℕ) × (get_elem? h.count_collisions m.id ≡ some x)
    own_counter m e =
        get_elem?-lt h.count_collisions m.id (omega (arith, own_id m e, v.counts_size, f.counts))

    own-IsBooked : (m : Node) → get_elem? h.nodes i ≡ some m → IsBooked h.count_collisions m
    own-IsBooked m e = All-get_elem? (IsBooked h.count_collisions) h.nodes i m (v.books f.books) e

    write-IsBooked :
        (m new : Node) (y : ℕ)
        → get_elem? h.nodes i ≡ some m
        → IsBooked (set h.count_collisions m.id y) new
        → All (IsBooked (set h.count_collisions m.id y)) (set h.nodes i new)
    write-IsBooked m new y e b =
        IsBooked-set h.count_collisions (set h.count_collisions m.id y) 0 h.nodes i new v.ids
          (λ j ne.
            get_elem?-set_other h.count_collisions m.id j y
              (λ p. ne (omega (arith, p, own_id m e))))
          b (v.books f.books)

    pub succeed-Progress :
        (time : ℕ)
        → (s1 : Simulation) × (succeed cfg time i h sim ≡ some s1)
          × Progress n c (total sim.nodes) (suc i) s1
    unfolding succeed
    succeed-Progress time =
        let (m, at) = here in
        let (x, counter) = own_counter m at in
        let new : Node = record m {
          is_transmitting = transmitting_probability cfg (cfg.rand h.drawn);
          collisions_before_success = m.collisions_before_success ++ x ∷ [];
          time_before_success = m.time_before_success ++ time ∷ [];
          successful_transmissions = suc m.successful_transmissions;
        } in
        let (ids, size, bounded, still) = kept new (own_id m at) (omega (arith, own_few m at)) in
        (
          record sim {
            nodes = set h.nodes i new;
            count_collisions = set h.count_collisions m.id 0;
            channel_busy = true;
            channel_busy_node = some m.id;
            transmission_timer = suc sim.transmission_timer;
            drawn = suc h.drawn;
          },
          rw (at, counter) refl,
          inr (
            record {
              ids = ids;
              size = size;
              counts = length-set h.count_collisions m.id 0 ∙ v.counts_size ∙ f.counts;
              bounded = bounded;
              books = write-IsBooked m new 0 at (
                  IsBooked-success h.count_collisions (set h.count_collisions m.id 0) m x
                    new.is_transmitting new.time_before_success counter
                    (get_elem?-set_self h.count_collisions m.id x 0 counter) (own-IsBooked m at));
            },
            still,
            inr (refl, omega (arith, total-set h.nodes i m new at, v.same)),
          ),
        )

    pub collide-Progress :
        sim.channel_busy ≡ false
        → (s1 : Simulation) × (collide cfg i h sim ≡ some s1)
          × Progress n c (total sim.nodes) (suc i) s1
    unfolding collide
    collide-Progress idle =
        let (m, at) = here in
        let (x, counter) = own_counter m at in
        let bumped : Node = record m { collision_count = suc m.collision_count } in
        let (q, off, le1, le2) =
          perform_backoff_lem cfg (cfg.rand h.drawn) bumped (omega (arith, own_few m at)) lt2 in
        let new : Node = record bumped { backoff_interval = suc q } in
        let (ids, size, bounded, still) = kept new (own_id m at) (omega (arith, own_few m at)) in
        (
          record sim {
            nodes = set h.nodes i new;
            count_collisions = set h.count_collisions m.id (suc x);
            global_collisions = suc sim.global_collisions;
            drawn = suc h.drawn;
          },
          rw (at, counter, off) refl,
          inr (
            record {
              ids = ids;
              size = size;
              counts = length-set h.count_collisions m.id (suc x) ∙ v.counts_size ∙ f.counts;
              bounded = bounded;
              books = write-IsBooked m new (suc x) at (
                  IsBooked-collision h.count_collisions (set h.count_collisions m.id (suc x)) m x
                    (suc q) counter (get_elem?-set_self h.count_collisions m.id x (suc x) counter)
                    (own-IsBooked m at));
            },
            still,
            inl (idle, omega (arith, total-set h.nodes i m new at, v.same)),
          ),
        )
