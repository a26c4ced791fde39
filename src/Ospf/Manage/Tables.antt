-- ===== src/Ospf/Manage/Tables.antt =====
-- NetworkProtocols/OSPF.cpp: the loop that updates the table of every router.
use network_os_simulation.Shared.{
  ℕ, ◌+◌, ◌≤◌, ◌≡◌, refl, sym, subst, ap, ◌∙◌, ◌≢◌, inl, inr, List, [], ◌∷◌, Option, some, arith,
  Distinct, if_pos, if_neg, ℕ_discrete,
}
use network_os_simulation.Shared.Dict.{lookup}
use network_os_simulation.Shared.Lists.{In}
use network_os_simulation.Ospf.Router.{Router, Network, id_of, links_of, All-In}
use network_os_simulation.Ospf.Dijkstra.Walks.{Live, IsNetwork}
use network_os_simulation.Ospf.Table.{update_all}
use network_os_simulation.Ospf.Table.Update.{Tells, with_table, update_routing_table-Tells}
use network_os_simulation.Ospf.Manage.Graph.{
  SameGraph, SameGraph-trans, IsNetwork-SameGraph, Live-SameGraph, Live-SameGraph_back,
  IsEntry-SameGraph,
}

abbrev pub table_at : Network → ℕ → List (ℕ × Option ℕ)
table_at net a = (net.node a).routing_table

with_table_other :
    (net : Network) (r : ℕ) (t : List (ℕ × Option ℕ)) (a : ℕ)
    → r ≢ a
    → (with_table net r t).node a ≡ net.node a
with_table_other net r t a ne = if_neg (ℕ_discrete r a) ne _ _

with_table_self :
    (net : Network) (r : ℕ) (t : List (ℕ × Option ℕ))
    → (with_table net r t).node r ≡ record (net.node r) { routing_table = t }
with_table_self net r t = if_pos (ℕ_discrete r r) refl _ _

with_table-SameGraph :
    (net : Network) (r : ℕ) (t : List (ℕ × Option ℕ)) → SameGraph net (with_table net r t)
with_table-SameGraph net r t = record {
  routers = refl;
  ids = λ a. elim (ℕ_discrete r a) [
    | yes e ↦
        subst (λ x. id_of (with_table net r t) x ≡ id_of net x) e
          (ap (λ (n : Router). n.router_id) (with_table_self net r t))
    | no e ↦ ap (λ (n : Router). n.router_id) (with_table_other net r t a e)
  ];
  links = λ a. elim (ℕ_discrete r a) [
    | yes e ↦
        subst (λ x. links_of (with_table net r t) x ≡ links_of net x) e
          (ap (λ (n : Router). n.neighbors) (with_table_self net r t))
    | no e ↦ ap (λ (n : Router). n.neighbors) (with_table_other net r t a e)
  ];
}

Tells-SameGraph :
    (net net' : Network) (r : ℕ) (t : List (ℕ × Option ℕ)) (dest : ℕ)
    → SameGraph net net'
    → Tells net r t dest
    → Tells net' r t dest
Tells-SameGraph net net' r t dest g (e, found, says) = (
  e,
  ap (λ i. lookup ℕ_discrete i t) (g.ids dest) ∙ found,
  IsEntry-SameGraph net net' r dest e g says,
)

-- The tables of these routers have a true entry for every router of the set.
abbrev pub HasTables : Network → List ℕ → Type 0
HasTables net rs = (r dest : ℕ) → In r rs → Live net dest → Tells net r (table_at net r) dest

pub record Updates (rs : List ℕ) (net : Network) : Type 0 where
  pub bound : ℕ
  pub after : Network
  pub runs : (fuel : ℕ) → bound ≤ fuel → update_all fuel rs net ≡ some after
  pub same : SameGraph net after
  pub tells : HasTables after rs
  pub others : (a : ℕ) → ((r : ℕ) → In r rs → r ≢ a) → after.node a ≡ net.node a

-- On a well-formed network the loop ends, changes tables only, and leaves true tables.
pub update_all-Updates :
    (rs : List ℕ) (net : Network)
    → IsNetwork net
    → Distinct rs
    → ((r : ℕ) → In r rs → Live net r)
    → Updates rs net
unfolding update_all
update_all-Updates [] net wf d live = record {
  bound = 0;
  after = net;
  runs = λ fuel lt. refl;
  same = record { routers = refl; ids = λ a. refl; links = λ a. refl };
  tells = λ r dest i l. elim i [ ];
  others = λ a h. refl;
}
update_all-Updates (r ∷ rs) net wf d live =
    let (bound, t, runs, tells) = update_routing_table-Tells net r wf (live r (inl refl)) in
    let net1 = with_table net r t in
    let g = with_table-SameGraph net r t in
    let u =
      update_all-Updates rs net1 (IsNetwork-SameGraph net net1 g wf) d.1
        (λ x i. Live-SameGraph net net1 g x (live x (inr i))) in
    let whole = SameGraph-trans net net1 u.after g u.same in
    let kept : table_at u.after r ≡ t =
      ap (λ (n : Router). n.routing_table)
        (u.others r (λ x i e. All-In rs x (λ y. r ≢ y) d.0 i (sym e)) ∙ with_table_self net r t) in
    record {
      bound = bound + u.bound;
      after = u.after;
      runs = λ fuel lt. rw (runs fuel (omega arith)) (u.runs fuel (omega arith));
      same = whole;
      tells = λ x dest i l. elim i [
        | inr j ↦ u.tells x dest j l
        | inl e ↦
            subst (λ y. Tells u.after y (table_at u.after y) dest) (sym e)
              (subst (λ s. Tells u.after r s dest) (sym kept)
                (Tells-SameGraph net u.after r t dest whole
                  (tells dest (Live-SameGraph_back net u.after whole dest l))))
      ];
      others = λ a h. u.others a (λ x i. h x (inr i)) ∙ with_table_other net r t a (h r (inl refl));
    }
