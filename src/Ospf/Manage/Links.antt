-- ===== src/Ospf/Manage/Links.antt =====
-- NetworkProtocols/OSPF.cpp, createRouter: the links that a network has after it.
use network_os_simulation.Shared.{
  Distinct, ◌≢◌, ℕ, ◌≡◌, refl, sym, subst, ap, ◌∙◌, ◌⊎◌, ◌↔◌, inl, inr, List, none, arith,
}
use network_os_simulation.Shared.Lists.{In}
use network_os_simulation.Ospf.Router.{Router, Network, id_of, links_of, get_router_by_id}
use network_os_simulation.Ospf.Dijkstra.Walks.{Live, IsNetwork}
use network_os_simulation.Ospf.Manage.{
  add_incoming, add_outgoing, insert_router, new_router, joined, create_router,
}
use network_os_simulation.Ospf.Manage.Graph.{SameGraph, IsNetwork-SameGraph}
use network_os_simulation.Ospf.Manage.Tables.{HasTables, update_all-Updates}
use network_os_simulation.Ospf.Manage.Create.{
  Member, Rebuilds, id-ne-get_router_by_id, Distinct-insert_router, new_router_other,
  new_router_self, In-insert_router, In-insert_router_back,
}
use network_os_simulation.Ospf.Manage.Extends.{
  Extends, Named, Unique, Named-same, Unique-same, Extends-trans, add_incoming-Extends,
  add_outgoing-Extends,
}

-- What the network is after the router with ID `i` came to address `a`: its routers, and the links
-- between them.
pub record Joins (a i : ℕ) (incoming outgoing : List (ℕ × ℕ)) (net after : Network) : Type 0 where
  pub live : (x : ℕ) → Live after x ↔ Member net a x
  pub id : id_of after a ≡ i
  pub ids : (x : ℕ) → Live net x → id_of after x ≡ id_of net x
  pub leaving :
      (b w : ℕ) → In (b, w) (links_of after a) ↔ (Live net b × In (id_of net b, w) outgoing)
  pub links :
      (x b w : ℕ)
      → Live net x
      → In (b, w) (links_of after x)
        ↔ (In (b, w) (links_of net x) ⊎ ((b ≡ a) × In (id_of net x, w) incoming))

module _ (a i : ℕ) (incoming outgoing : List (ℕ × ℕ)) (net : Network) (wf : IsNetwork net)
    (fresh : ¬ Live net a) (free : get_router_by_id i net net.routers ≡ none) where
  abbrev base : Network
  base = new_router a i net

  abbrev linked : Network
  linked = add_outgoing a outgoing (add_incoming a incoming base)

  base-live : (x : ℕ) → Live base x ↔ Live net x
  unfolding new_router
  base-live x = (λ l. l, λ l. l)

  base-id : (x : ℕ) → Live net x → id_of base x ≡ id_of net x
  base-id x l = ap (λ (n : Router). n.router_id) (new_router_other a i net x fresh l)

  base-links : (x : ℕ) → Live net x → links_of base x ≡ links_of net x
  base-links x l = ap (λ (n : Router). n.neighbors) (new_router_other a i net x fresh l)

  base-Unique : Unique base
  base-Unique x y lx ly e =
      wf.ids x y ((base-live x).0 lx) ((base-live y).0 ly)
        (sym (base-id x ((base-live x).0 lx)) ∙ e ∙ base-id y ((base-live y).0 ly))

  base-Named : (es : List (ℕ × ℕ)) (y w : ℕ) → Named base es y w ↔ Named net es y w
  base-Named es y w = (
    λ h. let l = (base-live y).0 h.0 in (l, subst (λ k. In (k, w) es) (base-id y l) h.1),
    λ h. ((base-live y).1 h.0, subst (λ k. In (k, w) es) (sym (base-id y h.0)) h.1),
  )

  linked-Extends :
      Extends base linked
        (λ x b w. ((b ≡ a) × Named net incoming x w) ⊎ ((x ≡ a) × Named net outgoing b w))
  linked-Extends =
      let in_by = add_incoming-Extends a incoming base base-Unique in
      let mid = add_incoming a incoming base in
      Extends-trans base mid linked _ _ _ in_by
        (add_outgoing-Extends a outgoing mid (Unique-same base mid _ in_by base-Unique))
        (λ x b w. ground (
          arith,
          base-Named incoming x w,
          base-Named outgoing b w,
          Named-same base mid _ outgoing b w in_by,
        ))

  no_links : (b w : ℕ) → ¬ In (b, w) (links_of base a)
  no_links b w m =
      subst (λ es. In (b, w) es) (ap (λ (n : Router). n.neighbors) (new_router_self a i net)) m

  joined-Joins : Joins a i incoming outgoing net (joined a i incoming outgoing net)
  unfolding joined
  joined-Joins =
      let x = linked-Extends in
      record {
        live = λ y.
            subst (λ rs. In y (insert_router a rs) ↔ Member net a y) (sym x.routers)
              (In-insert_router a y net.routers, In-insert_router_back a y net.routers);
        id = x.ids a ∙ ap (λ (n : Router). n.router_id) (new_router_self a i net);
        ids = λ y l. x.ids y ∙ base-id y l;
        leaving = λ b w. (
          λ m. elim ((x.links a b w).0 m) [
            | inl old ↦ absurd (no_links b w old)
            | inr (inl k) ↦ absurd (fresh k.1.0)
            | inr (inr k) ↦ k.1
          ],
          λ n. (x.links a b w).1 (inr (inr (refl, n))),
        );
        links = λ y b w l. (
          λ m. elim ((x.links y b w).0 m) [
            | inl old ↦ inl (subst (In (b, w)) (base-links y l) old)
            | inr (inl k) ↦ inr (k.0, k.1.1)
            | inr (inr k) ↦ absurd (fresh (subst (Live net) k.0 l))
          ],
          λ h. (x.links y b w).1 (elim h [
            | inl old ↦ inl (subst (In (b, w)) (sym (base-links y l)) old)
            | inr k ↦ inr (inl (k.0, (l, k.1)))
          ]),
        );
      }

  joined-IsNetwork : IsNetwork (joined a i incoming outgoing net)
  unfolding joined
  joined-IsNetwork =
      let after = joined a i incoming outgoing net in
      let j = joined-Joins in
      let other_id : (x : ℕ) → Live net x → id_of after x ≢ i =
        λ x l e. id-ne-get_router_by_id i net net.routers x free l (sym (j.ids x l) ∙ e) in
      record {
        distinct =
            subst (λ rs. Distinct (insert_router a rs)) (sym linked-Extends.routers)
              (Distinct-insert_router a net.routers fresh wf.distinct);
        ids = λ x y lx ly e. elim ((j.live x).0 lx) [
          | inl p ↦ elim ((j.live y).0 ly) [
            | inl q ↦ p ∙ sym q
            | inr l ↦ absurd (other_id y l (sym e ∙ ap (id_of after) p ∙ j.id))
          ]
          | inr l ↦ elim ((j.live y).0 ly) [
            | inl q ↦ absurd (other_id x l (e ∙ ap (id_of after) q ∙ j.id))
            | inr k ↦ wf.ids x y l k (sym (j.ids x l) ∙ e ∙ j.ids y k)
          ]
        ];
        closed = λ x b w lx m. (j.live b).1 (elim ((j.live x).0 lx) [
          | inl p ↦ inr ((j.leaving b w).0 (subst (λ z. In (b, w) (links_of after z)) p m)).0
          | inr l ↦ elim ((j.links x b w l).0 m) [
            | inl old ↦ inr (wf.closed x b w l old)
            | inr k ↦ inl k.0
          ]
        ]);
      }

Joins-SameGraph :
    (a i : ℕ) (incoming outgoing : List (ℕ × ℕ)) (net mid after : Network)
    → Joins a i incoming outgoing net mid
    → SameGraph mid after
    → Joins a i incoming outgoing net after
Joins-SameGraph a i incoming outgoing net mid after j g = record {
  live = λ x. subst (λ rs. In x rs ↔ Member net a x) (sym g.routers) (j.live x);
  id = g.ids a ∙ j.id;
  ids = λ x l. g.ids x ∙ j.ids x l;
  leaving = λ b w.
      subst (λ es. In (b, w) es ↔ (Live net b × In (id_of net b, w) outgoing)) (sym (g.links a))
        (j.leaving b w);
  links = λ x b w l.
      subst
        (λ es.
          In (b, w) es ↔ (In (b, w) (links_of net x) ⊎ ((b ≡ a) × In (id_of net x, w) incoming)))
        (sym (g.links x)) (j.links x b w l);
}

-- On a well-formed network createRouter with an ID that no router has, at an address that no
-- router has, ends for every fuel from some bound on. The routers after it are those before it,
-- with their IDs, and the new one. It has exactly the outgoing links whose ID is that of a router
-- before it; each other router has its links and those that the incoming ones with its ID give,
-- and no more. The network is well formed, and every routing table has a true entry for every
-- router.
pub create_router-Joins :
    (a i : ℕ) (incoming outgoing : List (ℕ × ℕ)) (net : Network)
    → IsNetwork net
    → ¬ Live net a
    → get_router_by_id i net net.routers ≡ none
    → (r : Rebuilds (λ fuel. create_router fuel a i incoming outgoing net)) × Joins a i incoming
        outgoing net r.after
unfolding create_router
create_router-Joins a i incoming outgoing net wf fresh free =
    let net1 = joined a i incoming outgoing net in
    let wf1 = joined-IsNetwork a i incoming outgoing net wf fresh free in
    let u = update_all-Updates net1.routers net1 wf1 wf1.distinct (λ r l. l) in
    (
      record {
        bound = u.bound;
        after = u.after;
        runs = λ fuel lt. rw (free, create_router, u.runs fuel lt);
        wf = IsNetwork-SameGraph net1 u.after u.same wf1;
        tables = subst (HasTables u.after) (sym u.same.routers) u.tells;
      },
      Joins-SameGraph a i incoming outgoing net net1 u.after
          (joined-Joins a i incoming outgoing net wf fresh free) u.same,
    )
