-- ===== src/Ospf/Dijkstra/Correct.antt =====
-- NetworkProtocols/OSPF.cpp, lines 31 to 61: the search ends, with shortest distances.
use network_os_simulation.Shared.{
  ℕ, zero, suc, ◌+◌, ◌*◌, ◌≤◌, ◌<◌, ◌≡◌, refl, ap, subst, ◌∙◌, sym, ◌≢◌, ◌⊎◌, inl, inr, List, [],
  ◌∷◌, none, some, arith, if_pos, ℕ_discrete, length, List-cases,
}
use network_os_simulation.Shared.Lists.{In}
use network_os_simulation.Ospf.Router.{Network, id_of, links_of, All-of_In, In-of_All}
use network_os_simulation.Ospf.Dijkstra.{
  Search, infinity, pop_top, scan, settle, run, all_infinite, start, rounds, search_from,
}
use network_os_simulation.Ospf.Dijkstra.Queue.{
  Queued, length-pop_top, Queued-pop_top, Queued-of_pop_top,
}
use network_os_simulation.Ospf.Dijkstra.Walks.{Live, Walk, here, step, IsNetwork}
use network_os_simulation.Ospf.Dijkstra.Relax.{
  dist, Settled, Settled-Progress, scan-Progress, IsKnown, scan-IsKnown,
}
use network_os_simulation.Ospf.Dijkstra.Tree.{IsTree, IsTree-pq, scan-IsTree, none-ne-some}
use network_os_simulation.Ospf.Dijkstra.Work.{total, work, scan-work}

-- A router that is not queued has no link that could make another router nearer.
pub record IsSearch (net : Network) (src : ℕ) (s : Search) : Type 0 where
  pub known : IsKnown net src s
  pub tree : IsTree net src s
  pub relaxed : (x : ℕ) → Live net x → Queued x s.pq ⊎ Settled net s x (links_of net x)

module _ (net : Network) (wf : IsNetwork net) (src : ℕ) (ls : Live net src) where
  -- One round takes the top `u` off the queue and settles it.
  settle-IsSearch :
      (s : Search) (x : ℕ × ℕ) (xs : List (ℕ × ℕ))
      → s.pq ≡ x ∷ xs
      → IsSearch net src s
      → IsSearch net src (settle net s x xs) × (work net (settle net s x xs) < work net s)
  unfolding settle total
  settle-IsSearch s x xs e h =
      let u = (pop_top x xs).0.1 in
      let r = record s { pq = (pop_top x xs).1 } in
      let lu : Live net u = h.known.queued u (rw e (Queued-of_pop_top u x xs (inl refl))) in
      let known : IsKnown net src r = record {
        root = h.known.root;
        bounded = h.known.bounded;
        known = h.known.known;
        queued = λ y q. h.known.queued y (rw e (Queued-of_pop_top y x xs (inr q)));
      } in
      let live = λ (v w : ℕ) (i : In (v, w) (links_of net u)). wf.closed u v w lu i in
      let (p, settled) = scan-Progress net wf u lu r (links_of net u) live in
      let t = scan net u r (links_of net u) in
      (
        record {
          known = scan-IsKnown net wf src u lu r (links_of net u) (λ v w i. i) known;
          tree =
              scan-IsTree net wf src u lu r (links_of net u) (λ v w i. i) known
                (IsTree-pq net src s (pop_top x xs).1 h.tree);
          relaxed = λ y ly. elim (h.relaxed y ly) [
            | inl q ↦ elim (Queued-pop_top y x xs (subst (λ l. Queued y l) e q)) [
              | inl same ↦ inr (subst (λ z. Settled net t z (links_of net z)) (sym same) settled)
              | inr rest ↦ inl (p.queue y rest)
            ]
            | inr st ↦ elim (p.changed y ly) [
              | inl eq ↦ inr (Settled-Progress net u y r t (links_of net y) p eq st)
              | inr q ↦ inl q
            ]
          ];
        },
        omega (
          arith,
          scan-work net wf u r (links_of net u) lu live,
          length-pop_top x xs,
          ap length e,
        ),
      )

  -- The loop ends, with an empty queue, if it has more rounds than work.
  run-IsSearch :
      (fuel : ℕ) (s : Search)
      → IsSearch net src s
      → work net s < fuel
      → (t : Search) × (run net fuel s ≡ some t) × IsSearch net src t × (t.pq ≡ [])
  unfolding run
  run-IsSearch zero s h lt = absurd (omega arith)
  run-IsSearch (suc fuel) s h lt = elim (List-cases s.pq) [
    | inl e ↦ (s, simp (e, run), h, e)
    | inr (x, xs, e) ↦
        let (next, falls) = settle-IsSearch s x xs e h in
        let (t, runs, r, empty) = run-IsSearch fuel (settle net s x xs) next (omega arith) in
        (t, rw (e, run) runs, r, empty)
  ]

  all_infinite-eq : (rs : List ℕ) (x : ℕ) → In x rs → all_infinite net rs (id_of net x) ≡ infinity
  unfolding all_infinite
  all_infinite-eq [] x i = elim i [ ]
  all_infinite-eq (r ∷ rs) x (inl e) = ground arith
  all_infinite-eq (r ∷ rs) x (inr i) = ground (arith, all_infinite-eq rs x i)

  start-other : (x : ℕ) → Live net x → x ≢ src → dist net (start net src) x ≡ infinity
  unfolding start
  start-other x lx ne = ground (arith, all_infinite-eq net.routers x lx, wf.ids src x ls lx)

  start-src : dist net (start net src) src ≡ 0
  unfolding start
  start-src = if_pos (ℕ_discrete (id_of net src) (id_of net src)) refl _ _

  start-le : (x : ℕ) → Live net x → dist net (start net src) x ≤ infinity
  start-le x lx = elim (ℕ_discrete x src) [
    | yes e ↦ rw e (omega (arith, start-src))
    | no ne ↦ omega (arith, start-other x lx ne)
  ]

  start-Queued : (x : ℕ) → Queued x (start net src).pq → Live net x
  unfolding start
  start-Queued x (inl e) = rw e ls
  start-Queued x (inr q) = elim q [ ]

  start-no_hop : (x : ℕ) → (start net src).next_hop x ≡ none
  unfolding start
  start-no_hop x = refl

  start-IsTree : IsTree net src (start net src)
  start-IsTree = record {
    source = start-no_hop src;
    parent = λ v u lv e. absurd (none-ne-some u (sym (start-no_hop v) ∙ e));
    unreached = λ v lv ne e. start-other v lv ne;
  }

  start-queue : (x : ℕ) → x ≡ src → Queued x (start net src).pq
  unfolding start
  start-queue x e = inl e

  start-IsSearch : IsSearch net src (start net src)
  start-IsSearch = record {
    known = record {
      root = start-src;
      bounded = start-le;
      known = λ x lx. elim (ℕ_discrete x src) [
        | yes e ↦ inr (rw e (rw start-src here))
        | no ne ↦ inl (start-other x lx ne)
      ];
      queued = λ x q. start-Queued x q;
    };
    tree = start-IsTree;
    relaxed = λ x lx. elim (ℕ_discrete x src) [
      | yes e ↦ inl (start-queue x e)
      | no ne ↦ inr (
          All-of_In (λ e. dist net (start net src) e.0 ≤ dist net (start net src) x + e.1)
            (links_of net x)
            (λ v w i. omega (arith, start-other x lx ne, start-le v (wf.closed x v w lx i))))
    ];
  }

  total-bound :
      (s : Search) (rs : List ℕ)
      → ((x : ℕ) → In x rs → dist net s x ≤ infinity)
      → total net s rs ≤ infinity * length rs
  unfolding total
  total-bound s [] h = omega arith
  total-bound s (r ∷ rs) h = omega (arith, h r (inl refl), total-bound s rs (λ x i. h x (inr i)))

  start-work : work net (start net src) < rounds net
  start-work = omega (arith, total-bound (start net src) net.routers start-le, start-queue_one)
    where
      start-queue_one : length (start net src).pq ≡ 1
      start-queue_one = unfold start in refl

  -- When no router is queued, no walk is shorter than a distance.
  pub dist-le-Walk :
      (t : Search)
      → IsSearch net src t
      → t.pq ≡ []
      → {v w : ℕ} → Walk net src v w
      → Live net v × (dist net t v ≤ w)
  dist-le-Walk t h e here = (ls, omega (arith, h.known.root))
  dist-le-Walk t h e (step {u} {d} v w walk link) =
      let (lu, below) = dist-le-Walk t h e walk in
      let settled : Settled net t u (links_of net u) = elim (h.relaxed u lu) [
        | inl q ↦ absurd (subst (λ l. Queued u l) e q)
        | inr st ↦ st
      ] in
      (
        wf.closed u v w lu link,
        omega (
          arith,
          below,
          In-of_All (λ e. dist net t e.0 ≤ dist net t u + e.1) (links_of net u) v w settled link,
        ),
      )

-- The search ends in a state with an empty queue.
pub search_from-IsSearch :
    (net : Network) (src : ℕ)
    → IsNetwork net
    → Live net src
    → (t : Search) × (search_from net src ≡ some t) × IsSearch net src t × (t.pq ≡ [])
unfolding search_from
search_from-IsSearch net src wf ls =
    run-IsSearch net wf src ls (rounds net) (start net src) (start-IsSearch net wf src ls)
      (start-work net wf src ls)

-- On a well-formed network the search from a router of the set ends, and the distance of every
-- router of the set is the weight of a walk to it, or 100000; it is at most 100000, and no walk to
-- the router weighs less.
pub search_from-shortest :
    (net : Network) (src : ℕ)
    → IsNetwork net
    → Live net src
    → (t : Search) × (search_from net src ≡ some t)
      × ((v : ℕ)
          → Live net v
          → ((dist net t v ≡ infinity) ⊎ Walk net src v (dist net t v))
            × (dist net t v ≤ infinity)
            × ((w : ℕ) → Walk net src v w → dist net t v ≤ w))
search_from-shortest net src wf ls =
    let (t, runs, h, e) = search_from-IsSearch net src wf ls in
    (
      t,
      runs,
      λ v lv. (
        h.known.known v lv,
        h.known.bounded v lv,
        λ w walk. (dist-le-Walk net wf src ls t h e walk).1,
      ),
    )
