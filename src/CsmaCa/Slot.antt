-- ===== src/CsmaCa/Slot.antt =====
-- NetworkProtocols/CSMA_CA_Simulation.cpp: one slot, and all slots of a simulation.
use network_os_simulation.Shared.{
  ℕ, suc, ◌+◌, ◌%◌, ◌<◌, ◌≡◌, refl, ap, sym, subst, All, ◌∙◌, inl, inr, some, Bool, true, false,
  arith, ◌==◌, length, ◌>>=◌, Bool-cases,
}
use network_os_simulation.CsmaCa.State.{Config, Simulation}
use network_os_simulation.CsmaCa.{start_all, visits, busy_slot, slot}
use network_os_simulation.CsmaCa.Nodes.{total, remainder-pos}
use network_os_simulation.CsmaCa.Books.{IsBooked}
use network_os_simulation.CsmaCa.Visit.{IsField, OneAtMost, Bounded-suc}
use network_os_simulation.CsmaCa.Visits.{visits-Progress}
use network_os_simulation.CsmaCa.Wait.{
  SameNodes, HasIds-SameNodes, Bounded-SameNodes, IsBooked-SameNodes, total-SameNodes,
  length-SameNodes, start_all-SameNodes, wait_all-SameNodes,
}

-- The values that the user may enter.
pub record IsUsable (cfg : Config) : Type 0 where
  pub backoff : cfg.max_backoff < 31
  pub times : 0 < cfg.max_transmission_time
  pub busy : 0 < cfg.backoff_channel_busy

IsField-SameNodes :
    (n c : ℕ) (sim after : Simulation)
    → IsField n c sim
    → SameNodes sim.nodes after.nodes
    → after.count_collisions ≡ sim.count_collisions
    → IsField n c after
IsField-SameNodes n c sim after f s e = record {
  ids = HasIds-SameNodes 0 sim.nodes after.nodes s f.ids;
  size = length-SameNodes sim.nodes after.nodes s ∙ f.size;
  counts = ap length e ∙ f.counts;
  bounded = Bounded-SameNodes c sim.nodes after.nodes s f.bounded;
  books =
      subst (λ counts. All (IsBooked counts) after.nodes) (sym e)
        (IsBooked-SameNodes sim.count_collisions sim.nodes after.nodes s f.books);
}

IsField-suc : (n c : ℕ) (sim : Simulation) → IsField n c sim → IsField n (suc c) sim
IsField-suc n c sim f = record {
  ids = f.ids;
  size = f.size;
  counts = f.counts;
  bounded = Bounded-suc c sim.nodes f.bounded;
  books = f.books;
}

-- What a slot does: with a busy channel no transmission succeeds, with an idle one at most one does,
-- which then keeps the channel busy.
pub record IsSlot (n c : ℕ) (sim after : Simulation) : Type 0 where
  pub field : IsField n (suc c) after
  pub when_busy : sim.channel_busy ≡ true → total after.nodes ≡ total sim.nodes
  pub when_idle : sim.channel_busy ≡ false → OneAtMost (total sim.nodes) after

module _ (cfg : Config) (ok : IsUsable cfg) where
  busy_slot_lem :
      (n c : ℕ) (sim : Simulation)
      → IsField n c sim
      → (s1 : Simulation) × (busy_slot cfg sim ≡ some s1)
        × IsField n c s1
        × (total s1.nodes ≡ total sim.nodes)
  unfolding busy_slot
  busy_slot_lem n c sim f =
      let (ms, e, runs, s) =
        wait_all-SameNodes cfg sim.channel_busy_node sim.nodes sim.drawn ok.busy in
      let q = cfg.rand e % cfg.max_transmission_time in
      elim (Bool-cases (suc sim.transmission_timer == sim.transmission_time)) [
        | inl done ↦ (
          record sim {
            nodes = ms;
            transmission_timer = 0;
            channel_busy = false;
            transmission_time = q + 2;
            drawn = suc e;
          },
          rw (runs, ◌>>=◌, done, remainder-pos (cfg.rand e) cfg.max_transmission_time ok.times)
              refl,
          IsField-SameNodes n c sim _ f s refl,
          total-SameNodes sim.nodes ms s,
        )
        | inr more ↦ (
          record sim { nodes = ms; drawn = e; transmission_timer = suc sim.transmission_timer },
          rw (runs, ◌>>=◌, more) refl,
          IsField-SameNodes n c sim _ f s refl,
          total-SameNodes sim.nodes ms s,
        )
      ]

  started : Simulation → Simulation
  started sim = record sim {
    nodes = (start_all cfg sim.nodes sim.drawn).0;
    drawn = (start_all cfg sim.nodes sim.drawn).1;
  }

  slot-cases :
      (time : ℕ) (sim : Simulation) (b : Bool)
      → sim.channel_busy ≡ b
      → slot cfg time sim ≡ (elim b [
        | true ↦ busy_slot cfg (started sim)
        | false ↦ visits cfg time (length (started sim).nodes) 0 (started sim)
      ])
  unfolding slot started
  slot-cases time sim b e =
      ap
        (λ (x : Bool). elim x [
          | true ↦ busy_slot cfg (started sim)
          | false ↦ visits cfg time (length (started sim).nodes) 0 (started sim)
        ])
        e

  -- On `n` nodes with at most `c` collisions each, where `c` is below 30 and the user's values are
  -- in range, and where the recorded and the counted collisions of each node add up to its total
  -- and its records are as many as its successes: a slot runs without a fault and leaves `n` nodes
  -- with at most `c + 1` collisions each, of which the same is true. With a busy channel no
  -- transmission succeeds; with an idle channel none does and it stays idle, or just one does and
  -- it is busy.
  pub slot-IsSlot :
      (time n c : ℕ) (sim : Simulation)
      → IsField n c sim
      → c < 30
      → (s1 : Simulation) × (slot cfg time sim ≡ some s1) × IsSlot n c sim s1
  unfolding started
  slot-IsSlot time n c sim f lt =
      let next = started sim in
      let s = start_all-SameNodes cfg sim.nodes sim.drawn in
      let f1 : IsField n c next = IsField-SameNodes n c sim next f s refl in
      let same : total next.nodes ≡ total sim.nodes = total-SameNodes sim.nodes next.nodes s in
      elim (Bool-cases sim.channel_busy) [
        | inl busy ↦
            let (s1, e1, f2, t) = busy_slot_lem n c next f1 in
            (
              s1,
              slot-cases time sim true busy ∙ e1,
              record {
                field = IsField-suc n c s1 f2;
                when_busy = λ b. t ∙ same;
                when_idle = λ b. absurd (ground (arith, b, busy));
              },
            )
        | inr idle ↦
            let (s1, e1, p) =
              visits-Progress cfg n c lt ok.backoff time (total sim.nodes) (length next.nodes) 0
                next (inl (f1, idle, same)) (omega (arith, f1.size)) in
            (
              s1,
              slot-cases time sim false idle ∙ e1,
              record {
                field = elim p [ inl a ↦ IsField-suc n c s1 a.0 | inr a ↦ a.0 ];
                when_busy = λ b. absurd (ground (arith, b, idle));
                when_idle = λ b. elim p [ inl a ↦ inl (a.1, a.2) | inr a ↦ a.2 ];
              },
            )
      ]
