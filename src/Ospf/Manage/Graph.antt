-- ===== src/Ospf/Manage/Graph.antt =====
-- NetworkProtocols/OSPF.cpp: two networks with the same routers and links have the same walks.
use network_os_simulation.Shared.{ℕ, ◌≡◌, sym, subst, ◌∙◌, inl, inr, Option, none, some, Distinct}
use network_os_simulation.Shared.Lists.{In}
use network_os_simulation.Ospf.Router.{Network, id_of, links_of}
use network_os_simulation.Ospf.Dijkstra.Walks.{Live, Walk, here, step, IsNetwork}
use network_os_simulation.Ospf.Table.Entries.{IsEntry}

-- The networks differ in the tables at most.
pub record SameGraph (net net' : Network) : Type 0 where
  pub routers : net'.routers ≡ net.routers
  pub ids : (a : ℕ) → id_of net' a ≡ id_of net a
  pub links : (a : ℕ) → links_of net' a ≡ links_of net a

pub SameGraph-trans : (a b c : Network) → SameGraph a b → SameGraph b c → SameGraph a c
SameGraph-trans a b c p q = record {
  routers = q.routers ∙ p.routers;
  ids = λ x. q.ids x ∙ p.ids x;
  links = λ x. q.links x ∙ p.links x;
}

pub SameGraph-sym : (a b : Network) → SameGraph a b → SameGraph b a
SameGraph-sym a b p = record {
  routers = sym p.routers;
  ids = λ x. sym (p.ids x);
  links = λ x. sym (p.links x);
}

module _ (net net' : Network) (g : SameGraph net net') where
  pub Live-SameGraph : (a : ℕ) → Live net a → Live net' a
  Live-SameGraph a l = subst (In a) (sym g.routers) l

  pub Live-SameGraph_back : (a : ℕ) → Live net' a → Live net a
  Live-SameGraph_back a l = subst (In a) g.routers l

  pub IsNetwork-SameGraph : IsNetwork net → IsNetwork net'
  IsNetwork-SameGraph wf = record {
    distinct = subst (λ l. Distinct l) (sym g.routers) wf.distinct;
    ids = λ a b la lb e.
        wf.ids a b (Live-SameGraph_back a la) (Live-SameGraph_back b lb)
          (sym (g.ids a) ∙ e ∙ g.ids b);
    closed = λ a b w la i.
        Live-SameGraph b
          (wf.closed a b w (Live-SameGraph_back a la) (subst (In (b, w)) (g.links a) i));
  }

  pub Walk-SameGraph : {src v w : ℕ} → Walk net src v w → Walk net' src v w
  Walk-SameGraph here = here
  Walk-SameGraph (step {u} {d} v w walk i) =
      step v w (Walk-SameGraph walk) (subst (In (v, w)) (sym (g.links u)) i)

pub IsEntry-SameGraph :
    (net net' : Network) (src dest : ℕ) (e : Option ℕ)
    → SameGraph net net'
    → IsEntry net src dest e
    → IsEntry net' src dest e
IsEntry-SameGraph net net' src dest none g (ne, far) =
    (ne, λ w walk. far w (Walk-SameGraph net' net (SameGraph-sym net net' g) walk))
IsEntry-SameGraph net net' src dest (some h) g (inl q) = inl q
IsEntry-SameGraph net net' src dest (some h) g (inr ((w, i), (d, walk, lt), on)) = inr (
  (w, subst (In (h, w)) (sym (g.links src)) i),
  (d, Walk-SameGraph net net' g walk, lt),
  record {
    live = Live-SameGraph net net' g h on.live;
    apart = on.apart;
    before = on.before;
    after = on.after;
    first = Walk-SameGraph net net' g on.first;
    rest = Walk-SameGraph net net' g on.rest;
    least = λ v other. on.least v (Walk-SameGraph net' net (SameGraph-sym net net' g) other);
  },
)
