-- ===== src/Ospf/Manage/Delete.antt =====
-- NetworkProtocols/OSPF.cpp, deleteRouter: the router and all links to it are gone, the rest stays.
use network_os_simulation.Shared.{
  ℕ, ◌≡◌, sym, subst, ◌∙◌, ◌≢◌, ◌↔◌, inl, inr, List, [], ◌∷◌, some, arith, Distinct, Bool-cases,
  ◌==◌, ==_iff,
}
use network_os_simulation.Shared.Lists.{In}
use network_os_simulation.Ospf.Router.{Network, id_of, links_of, get_router_by_id}
use network_os_simulation.Ospf.Dijkstra.Walks.{Live, IsNetwork}
use network_os_simulation.Ospf.Manage.{remove_links, erase_router, parted, delete_router}
use network_os_simulation.Ospf.Manage.Graph.{SameGraph, IsNetwork-SameGraph}
use network_os_simulation.Ospf.Manage.Tables.{HasTables, update_all-Updates}
use network_os_simulation.Ospf.Manage.Create.{Rebuilds, All-ne-In, All-ne-In_back}
use network_os_simulation.Ospf.Manage.Cut.{Cuts, remove_links-Cuts}

In-erase_router :
    (a x : ℕ) (bs : List ℕ) → Distinct bs → In x (erase_router a bs) ↔ (In x bs × (x ≢ a))
unfolding erase_router
In-erase_router a x [] d = (λ i. elim i [ ], λ p. elim p.0 [ ])
In-erase_router a x (b ∷ bs) d = elim (Bool-cases (b == a)) [
  | inl e ↦
      let q = (==_iff b a).0 e in
      rw (e) (
        λ i. (inr i, λ s. All-ne-In_back b bs d.0 (subst (λ z. In z bs) (s ∙ sym q) i)),
        λ p. elim p.0 [ inl s ↦ absurd (p.1 (s ∙ q)) | inr i ↦ i ],
      )
  | inr e ↦ rw (e) (ground (arith, In-erase_router a x bs d.1, e))
]

Distinct-erase_router : (a : ℕ) (bs : List ℕ) → Distinct bs → Distinct (erase_router a bs)
unfolding erase_router
Distinct-erase_router a [] d = tt
Distinct-erase_router a (b ∷ bs) d = elim (Bool-cases (b == a)) [
  | inl e ↦ rw (e) d.1
  | inr e ↦ rw (e) (
    All-ne-In b (erase_router a bs)
        (λ i. All-ne-In_back b bs d.0 ((In-erase_router a b bs d.1).0 i).0),
    Distinct-erase_router a bs d.1,
  )
]

-- What the network is after the router `gone` left it: its routers, and the links between them.
pub record Parts (gone : ℕ) (net after : Network) : Type 0 where
  pub live : (x : ℕ) → Live after x ↔ (Live net x × (x ≢ gone))
  pub ids : (x : ℕ) → id_of after x ≡ id_of net x
  pub links :
      (x b w : ℕ)
      → Live after x
      → In (b, w) (links_of after x) ↔ (In (b, w) (links_of net x) × (b ≢ gone))

parted-Parts : (gone : ℕ) (net : Network) → IsNetwork net → Parts gone net (parted gone net)
unfolding parted
parted-Parts gone net wf =
    let cut = remove_links gone net.routers net in
    let c : Cuts gone net.routers net cut = remove_links-Cuts gone net.routers net in
    let live : (x : ℕ) → In x (erase_router gone cut.routers) ↔ (Live net x × (x ≢ gone)) = λ x.
      subst (λ rs. In x (erase_router gone rs) ↔ (Live net x × (x ≢ gone))) (sym c.routers)
        (In-erase_router gone x net.routers wf.distinct) in
    record {
      live = live;
      ids = c.ids;
      links = λ x b w l. (
        λ i. (c.fewer x b w i, c.clean x b w ((live x).0 l).0 ((live x).0 l).1 i),
        λ p. c.kept x b w p.1 p.0,
      );
    }

parted-IsNetwork : (gone : ℕ) (net : Network) → IsNetwork net → IsNetwork (parted gone net)
unfolding parted
parted-IsNetwork gone net wf =
    let p : Parts gone net (parted gone net) = parted-Parts gone net wf in
    let c : Cuts gone net.routers net (remove_links gone net.routers net) =
      remove_links-Cuts gone net.routers net in
    record {
      distinct =
          Distinct-erase_router gone (remove_links gone net.routers net).routers
            (subst (λ rs. Distinct rs) (sym c.routers) wf.distinct);
      ids = λ x y lx ly e.
          wf.ids x y ((p.live x).0 lx).0 ((p.live y).0 ly).0 (sym (p.ids x) ∙ e ∙ p.ids y);
      closed = λ x b w lx i.
          let (old, ne) = (p.links x b w lx).0 i in
          (p.live b).1 (wf.closed x b w ((p.live x).0 lx).0 old, ne);
    }

Parts-SameGraph :
    (gone : ℕ) (net mid after : Network)
    → Parts gone net mid
    → SameGraph mid after
    → Parts gone net after
Parts-SameGraph gone net mid after p g = record {
  live = λ x. subst (λ rs. In x rs ↔ (Live net x × (x ≢ gone))) (sym g.routers) (p.live x);
  ids = λ x. g.ids x ∙ p.ids x;
  links = λ x b w l.
      subst (λ es. In (b, w) es ↔ (In (b, w) (links_of net x) × (b ≢ gone))) (sym (g.links x))
        (p.links x b w (subst (In x) g.routers l));
}

-- deleteRouter with the ID of a router `gone` of a well-formed network ends, for every fuel from
-- some bound on. The routers after it are those before it other than `gone`, with their IDs and
-- exactly their links that did not lead to `gone`; the network is well formed, and every routing
-- table is true of it.
pub delete_router-Parts :
    (del gone : ℕ) (net : Network)
    → IsNetwork net
    → get_router_by_id del net net.routers ≡ some gone
    → (r : Rebuilds (λ fuel. delete_router fuel del net)) × Parts gone net r.after
unfolding delete_router
delete_router-Parts del gone net wf found =
    let net1 = parted gone net in
    let wf1 = parted-IsNetwork gone net wf in
    let u = update_all-Updates net1.routers net1 wf1 wf1.distinct (λ r l. l) in
    (
      record {
        bound = u.bound;
        after = u.after;
        runs = λ fuel lt. rw (found, delete_router, u.runs fuel lt);
        wf = IsNetwork-SameGraph net1 u.after u.same wf1;
        tables = subst (HasTables u.after) (sym u.same.routers) u.tells;
      },
      Parts-SameGraph gone net net1 u.after (parted-Parts gone net wf) u.same,
    )
