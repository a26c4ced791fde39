-- ===== src/CsmaCa/Visits.antt =====
-- NetworkProtocols/CSMA_CA_Simulation.cpp: the loop over the nodes of a slot with an idle channel.
use network_os_simulation.Shared.{
  All-get_elem?, All-set, ℕ, zero, suc, ◌+◌, ◌≤◌, ◌<◌, ◌≡◌, refl, sym, subst, ◌∙◌, inl, inr, List,
  some, true, false, arith, ◌==◌, get_elem?, set, if◌then◌else◌, ◌>>=◌, Bool-cases, get_elem?-lt,
  length-set, All-map,
}
use network_os_simulation.CsmaCa.State.{Node, Config, Hits, Simulation, is_ready, count_down}
use network_os_simulation.CsmaCa.{hit_others, succeed, collide, visit, visits}
use network_os_simulation.CsmaCa.Nodes.{total, QuietFrom, id-get_elem?, HasIds-set, total-set}
use network_os_simulation.CsmaCa.Books.{IsBooked}
use network_os_simulation.CsmaCa.Hit.{IsHit, hit_others-IsHit}
use network_os_simulation.CsmaCa.Visit.{IsField, Progress, succeed-Progress, collide-Progress}

QuietFrom-suc : (i : ℕ) (ns : List Node) → QuietFrom i ns → QuietFrom (suc i) ns
QuietFrom-suc i ns h =
    All-map (λ (m : Node). i ≤ m.id → is_ready m ≡ false)
      {Q = λ (m : Node). suc i ≤ m.id → is_ready m ≡ false} (λ m q lt. q (omega arith)) ns h

module _ (cfg : Config) (n c : ℕ) (lt : c < 30) (lt2 : cfg.max_backoff < 31) where
  -- A node that is not ready counts down.
  pass :
      (d i : ℕ) (sim : Simulation) (m : Node)
      → IsField n d sim
      → get_elem? sim.nodes i ≡ some m
      → IsField n d (record sim { nodes = set sim.nodes i (count_down m) })
        × (total (set sim.nodes i (count_down m)) ≡ total sim.nodes)
  unfolding count_down
  pass d i sim m f at = (
    record {
      ids = HasIds-set 0 sim.nodes i (count_down m) f.ids (id-get_elem? 0 sim.nodes i m f.ids at);
      size = length-set sim.nodes i (count_down m) ∙ f.size;
      counts = f.counts;
      bounded =
          All-set (λ (a : Node). a.collision_count ≤ d) sim.nodes i (count_down m) f.bounded
            (All-get_elem? (λ (a : Node). a.collision_count ≤ d) sim.nodes i m f.bounded at);
      books =
          All-set (IsBooked sim.count_collisions) sim.nodes i (count_down m) f.books
            (All-get_elem? (IsBooked sim.count_collisions) sim.nodes i m f.books at);
    },
    omega (arith, total-set sim.nodes i m (count_down m) at),
  )

  -- The visit of a node that is ready, before any other attempt.
  attempt :
      (time i : ℕ) (sim : Simulation)
      → IsField n c sim
      → i < n
      → sim.channel_busy ≡ false
      → (h : Hits) → IsHit i c 0 sim.nodes sim.count_collisions h
      → (s1 : Simulation) × ((if h.collisions == 0
            then succeed cfg time i h sim
            else collide cfg i h sim)
          ≡ some s1)
        × Progress n c (total sim.nodes) (suc i) s1
  attempt time i sim f inside idle h v = elim (Bool-cases (h.collisions == 0)) [
    | inl e ↦ rw (e) (succeed-Progress cfg n c lt lt2 i sim h f inside v time)
    | inr e ↦ rw (e) (collide-Progress cfg n c lt lt2 i sim h f inside v idle)
  ]

  visit-pass :
      (time i : ℕ) (sim : Simulation) (m : Node)
      → get_elem? sim.nodes i ≡ some m
      → is_ready m ≡ false
      → visit cfg time i sim ≡ some (record sim { nodes = set sim.nodes i (count_down m) })
  unfolding visit
  visit-pass time i sim m at e = rw (at, ◌>>=◌, e) refl

  visit-attempt :
      (time i : ℕ) (sim : Simulation) (m : Node) (h : Hits)
      → get_elem? sim.nodes i ≡ some m
      → is_ready m ≡ true
      → hit_others cfg m.id sim.nodes sim.count_collisions sim.drawn ≡ some h
      → visit cfg time i sim
        ≡ (if h.collisions == 0 then succeed cfg time i h sim else collide cfg i h sim)
  unfolding visit
  visit-attempt time i sim m h at e runs = rw (at, ◌>>=◌, e, runs) refl

  past : (i : ℕ) (m : Node) → m.id ≡ i → suc i ≤ (count_down m).id → ⊥
  unfolding count_down
  past i m own le = omega arith

  visit-Progress :
      (time t i : ℕ) (sim : Simulation)
      → Progress n c t i sim
      → i < n
      → (s1 : Simulation) × (visit cfg time i sim ≡ some s1) × Progress n c t (suc i) s1
  visit-Progress time t i sim (inl (f, idle, sum)) inside =
      let (m, at) = get_elem?-lt sim.nodes i (omega (arith, f.size)) in
      elim (Bool-cases (is_ready m)) [
        | inr e ↦
            let (f1, same) = pass c i sim m f at in
            (
              record sim { nodes = set sim.nodes i (count_down m) },
              visit-pass time i sim m at e,
              inl (f1, idle, same ∙ sum),
            )
        | inl e ↦
            let me : m.id ≡ i = id-get_elem? 0 sim.nodes i m f.ids at ∙ omega arith in
            let (h, runs, v) =
              hit_others-IsHit cfg i c 0 sim.nodes sim.count_collisions sim.drawn f.ids f.bounded lt
                lt2 (omega (arith, f.size, f.counts)) in
            let (s1, e1, p) = attempt time i sim f inside idle h v in
            (
              s1,
              visit-attempt time i sim m h at e (
                    subst (λ j. hit_others cfg j sim.nodes sim.count_collisions sim.drawn ≡ some h)
                      (sym me) runs)
                  ∙ e1,
              subst (λ k. Progress n c k (suc i) s1) sum p,
            )
      ]
  visit-Progress time t i sim (inr (f, q, one)) inside =
      let (m, at) = get_elem?-lt sim.nodes i (omega (arith, f.size)) in
      let own : m.id ≡ i = id-get_elem? 0 sim.nodes i m f.ids at ∙ omega arith in
      let unready : is_ready m ≡ false =
        All-get_elem? (λ (a : Node). i ≤ a.id → is_ready a ≡ false) sim.nodes i m q at
          (omega (arith, own)) in
      let (f1, same) = pass (suc c) i sim m f at in
      (
        record sim { nodes = set sim.nodes i (count_down m) },
        visit-pass time i sim m at unready,
        inr (
          f1,
          All-set (λ (a : Node). suc i ≤ a.id → is_ready a ≡ false) sim.nodes i (count_down m)
              (QuietFrom-suc i sim.nodes q) (λ le. absurd (past i m own le)),
          elim one [ inl (b, s) ↦ inl (b, same ∙ s) | inr (b, s) ↦ inr (b, same ∙ s) ],
        ),
      )

  pub visits-Progress :
      (time t k i : ℕ) (sim : Simulation)
      → Progress n c t i sim
      → i + k ≤ n
      → (s1 : Simulation) × (visits cfg time k i sim ≡ some s1) × Progress n c t (i + k) s1
  unfolding visits
  visits-Progress time t zero i sim p le =
      (sim, refl, subst (λ j. Progress n c t j sim) (omega arith) p)
  visits-Progress time t (suc k) i sim p le =
      let (s1, e1, p1) = visit-Progress time t i sim p (omega arith) in
      let (s2, e2, p2) = visits-Progress time t k (suc i) s1 p1 (omega arith) in
      (s2, rw (e1) e2, subst (λ j. Progress n c t j s2) (omega arith) p2)
