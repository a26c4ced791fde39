-- ===== src/Ospf/Table/Entries.antt =====
-- NetworkProtocols/OSPF.cpp, lines 63 to 103: what each entry of a routing table says.
use network_os_simulation.Shared.{
  ℕ, ◌+◌, ◌≤◌, ◌<◌, ◌≡◌, sym, subst, ◌∙◌, ◌≢◌, ◌⊎◌, inl, inr, List, [], Option, none, some, true,
  false, arith, Bool-cases, Option-cases, ℕ_discrete,
}
use network_os_simulation.Shared.Lists.{In}
use network_os_simulation.Ospf.Router.{Network, links_of}
use network_os_simulation.Ospf.Dijkstra.{Search, infinity}
use network_os_simulation.Ospf.Dijkstra.Walks.{Live, Walk, IsNetwork}
use network_os_simulation.Ospf.Dijkstra.Relax.{dist}
use network_os_simulation.Ospf.Dijkstra.Tree.{Rooted, root, via, some_eq, none-ne-some}
use network_os_simulation.Ospf.Dijkstra.Correct.{IsSearch, dist-le-Walk}
use network_os_simulation.Ospf.Table.{hop_of, is_neighbor, walk_back, entry}
use network_os_simulation.Ospf.Table.Route.{
  In-of_is_neighbor, walk_back-Ends, LeadsTo, LeadsTo-itself, LeadsTo-IsParent, LeadsTo-of_IsParent,
}

-- The way back of a router with a stored router leads through it.
Rooted-parent :
    {nh : ℕ → Option ℕ} {src v : ℕ} (u : ℕ)
    → Rooted nh src v
    → nh src ≡ none
    → nh v ≡ some u
    → Rooted nh src u
Rooted-parent u root e f = absurd (none-ne-some u (sym e ∙ f))
Rooted-parent {nh} {src} u (via {u = y} g r) e f = subst (Rooted nh src) (some_eq (sym g ∙ f)) r

-- `h` is another router than the owner, and lies on a walk of least weight to the destination.
pub record Onward (net : Network) (src h dest : ℕ) : Type 0 where
  pub live : Live net h
  pub apart : h ≢ src
  pub before : ℕ
  pub after : ℕ
  pub first : Walk net src h before
  pub rest : Walk net h dest after
  pub least : (w : ℕ) → Walk net src dest w → before + after ≤ w

-- What an entry says: NULL, that no walk to another router weighs less than 100000; a router, that
-- the destination is the owner itself, or that the owner has a link to it, that the destination is
-- reached by a walk below 100000, and that the router lies on a walk of least weight.
abbrev pub IsEntry : Network → ℕ → ℕ → Option ℕ → Type 0
IsEntry net src dest none = (dest ≢ src) × ((w : ℕ) → Walk net src dest w → infinity ≤ w)
IsEntry net src dest (some h) =
    ((dest ≡ src) × (h ≡ src))
    ⊎ (((w : ℕ) × In (h, w) (links_of net src))
        × ((w : ℕ) × Walk net src dest w × (w < infinity))
        × Onward net src h dest)

-- The entry for `dest`, given fuel from `bound` on.
pub record HasEntry (net : Network) (src : ℕ) (s : Search) (dest : ℕ) : Type 0 where
  pub bound : ℕ
  pub value : Option ℕ
  pub runs :
      (fuel : ℕ)
      → bound ≤ fuel
      → entry fuel (links_of net src) (hop_of s.next_hop) src dest ≡ some value
  pub says : IsEntry net src dest value

module _ (es : List (ℕ × ℕ)) (hop : ℕ → ℕ) (src dest : ℕ) where
  entry_self : (fuel : ℕ) → hop dest ≡ src → entry fuel es hop src dest ≡ some (some dest)
  unfolding entry
  entry_self fuel e = ground (arith, e)

  entry-none : (fuel : ℕ) → hop dest ≡ dest → dest ≢ src → entry fuel es hop src dest ≡ some none
  unfolding entry
  entry-none fuel e ne = ground (arith, e)

  entry_near :
      (fuel u : ℕ)
      → hop dest ≡ u
      → u ≢ dest
      → u ≢ src
      → is_neighbor es u ≡ true
      → entry fuel es hop src dest ≡ some (some u)
  unfolding entry
  entry_near fuel u e apart other close = ground (arith, e, close)

  entry_far :
      (fuel u last : ℕ)
      → hop dest ≡ u
      → u ≢ dest
      → u ≢ src
      → is_neighbor es u ≡ false
      → walk_back es hop fuel u ≡ some last
      → entry fuel es hop src dest ≡ some (some last)
  unfolding entry
  entry_far fuel u last e apart other far stops = ground (arith, e, far, stops)

module _ (net : Network) (wf : IsNetwork net) (src : ℕ) (ls : Live net src) (s : Search)
    (h : IsSearch net src s) (empty : s.pq ≡ []) (dest : ℕ) (ld : Live net dest) where
  open h use {tree, known}

  abbrev es : List (ℕ × ℕ)
  es = links_of net src

  abbrev hop : ℕ → ℕ
  hop = hop_of s.next_hop

  -- A router with a finite distance is reached by a walk of that weight.
  reached : dist net s dest < infinity → (w : ℕ) × Walk net src dest w × (w < infinity)
  reached lt = elim (known.known dest ld) [
    | inl e ↦ absurd (omega (arith, lt, e))
    | inr walk ↦ (dist net s dest, walk, lt)
  ]

  onward : (h : ℕ) → LeadsTo net src s h dest → dist net s dest < infinity → Onward net src h dest
  onward b l lt = record {
    live = l.live;
    apart = l.apart;
    before = dist net s b;
    after = l.weight;
    first = elim (known.known b l.live) [
      | inl e ↦ absurd (omega (arith, lt, e, l.below))
      | inr walk ↦ walk
    ];
    rest = l.walk;
    least = λ w walk. omega (arith, l.below, (dist-le-Walk net wf src ls s h empty walk).1);
  }

  HasEntry-none : s.next_hop dest ≡ none → HasEntry net src s dest
  HasEntry-none e = elim (ℕ_discrete dest src) [
    | yes q ↦ record {
      bound = 0;
      value = some dest;
      runs = λ fuel lt. entry_self es hop src dest fuel (rw (e, hop_of) q);
      says = inl (q, q);
    }
    | no q ↦ record {
      bound = 0;
      value = none;
      runs = λ fuel lt. entry-none es hop src dest fuel (rw (e, hop_of)) q;
      says = (
        q,
        λ w walk.
            omega
              (arith, tree.unreached dest ld q e, (dist-le-Walk net wf src ls s h empty walk).1),
      );
    }
  ]

  HasEntry-parent : (u : ℕ) → s.next_hop dest ≡ some u → HasEntry net src s dest
  HasEntry-parent u e =
      let p = tree.parent dest u ld e in
      let hop_u : hop dest ≡ u = rw (e, hop_of) in
      elim (ℕ_discrete u src) [
        | yes q ↦ record {
          bound = 0;
          value = some dest;
          runs = λ fuel lt. entry_self es hop src dest fuel (hop_u ∙ q);
          says = inr (
            (p.weight, subst (λ z. In (dest, p.weight) (links_of net z)) q p.link),
            reached p.finite,
            onward dest (LeadsTo-itself net src s tree dest ld (λ d. p.apart (q ∙ sym d))) p.finite,
          );
        }
        | no q ↦ elim (Bool-cases (is_neighbor es u)) [
          | inl close ↦ record {
            bound = 0;
            value = some u;
            runs = λ fuel lt. entry_near es hop src dest fuel u hop_u p.apart q close;
            says = inr (
              In-of_is_neighbor es u close,
              reached p.finite,
              onward u (LeadsTo-of_IsParent net src s tree u dest p q) p.finite,
            );
          }
          | inr far ↦
              let r =
                walk_back-Ends net src s tree (Rooted-parent u p.rooted tree.source e) p.live q in
              record {
                bound = r.bound;
                value = some r.last;
                runs = λ fuel lt.
                    entry_far es hop src dest fuel u r.last hop_u p.apart q far (r.stops fuel lt);
                says = inr (
                  In-of_is_neighbor es r.last r.neighbor,
                  reached p.finite,
                  onward r.last (LeadsTo-IsParent net src s tree r.last u dest p r.holds) p.finite,
                );
              }
        ]
      ]

  pub entry-HasEntry : HasEntry net src s dest
  entry-HasEntry = elim (Option-cases (s.next_hop dest)) [
    | inl e ↦ HasEntry-none e
    | inr (u, e) ↦ HasEntry-parent u e
  ]
