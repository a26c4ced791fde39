-- ===== src/Ospf/Table/Update.antt =====
-- NetworkProtocols/OSPF.cpp, Router::updateRoutingTable as a whole.
use network_os_simulation.Shared.{
  ℕ, ◌+◌, ◌≤◌, ◌≡◌, refl, sym, subst, ◌∙◌, ◌≢◌, inl, inr, List, [], ◌∷◌, Option, some, arith,
  Distinct, if_pos, if_neg, update, ℕ_discrete,
}
use network_os_simulation.Shared.Dict.{lookup, insert, lookup-insert}
use network_os_simulation.Shared.Lists.{In}
use network_os_simulation.Ospf.Router.{Network, id_of, All-In}
use network_os_simulation.Ospf.Dijkstra.{Search}
use network_os_simulation.Ospf.Dijkstra.Walks.{Live, IsNetwork}
use network_os_simulation.Ospf.Dijkstra.Correct.{search_from-IsSearch}
use network_os_simulation.Ospf.Table.{hop_of, fill, update_routing_table}
use network_os_simulation.Ospf.Table.Entries.{IsEntry, HasEntry, entry-HasEntry}

-- The table has a true entry for the router.
abbrev pub Tells : Network → ℕ → List (ℕ × Option ℕ) → ℕ → Type 0
Tells net src table dest =
    (e : Option ℕ) × (lookup ℕ_discrete (id_of net dest) table ≡ some e) × IsEntry net src dest e

module _ (net : Network) (src : ℕ) (s : Search) where
  abbrev hop : ℕ → ℕ
  hop = hop_of s.next_hop

  record Fills (rs : List ℕ) (table : List (ℕ × Option ℕ)) : Type 0 where
    bound : ℕ
    after : List (ℕ × Option ℕ)
    runs : (fuel : ℕ) → bound ≤ fuel → fill fuel net src hop rs table ≡ some after
    tells : (dest : ℕ) → In dest rs → Tells net src after dest
    others :
        (i : ℕ)
        → ((d : ℕ) → In d rs → i ≢ id_of net d)
        → lookup ℕ_discrete i after ≡ lookup ℕ_discrete i table

  fill-Fills :
      (rs : List ℕ) (table : List (ℕ × Option ℕ))
      → Distinct rs
      → ((a b : ℕ) → In a rs → In b rs → id_of net a ≡ id_of net b → a ≡ b)
      → ((d : ℕ) → In d rs → HasEntry net src s d)
      → Fills rs table
  unfolding fill
  fill-Fills [] table d ids has = record {
    bound = 0;
    after = table;
    runs = λ fuel lt. refl;
    tells = λ dest i. elim i [ ];
    others = λ i h. refl;
  }
  fill-Fills (r ∷ rs) table d ids has =
      let e = has r (inl refl) in
      let f =
        fill-Fills rs (insert ℕ_discrete (id_of net r) e.value table) d.1
          (λ a b i j. ids a b (inr i) (inr j)) (λ x i. has x (inr i)) in
      let apart = λ (x : ℕ) (i : In x rs) (q : id_of net r ≡ id_of net x).
        All-In rs x (λ y. r ≢ y) d.0 i (ids r x (inl refl) (inr i) q) in
      record {
        bound = e.bound + f.bound;
        after = f.after;
        runs = λ fuel lt. rw (e.runs fuel (omega arith)) (f.runs fuel (omega arith));
        tells = λ dest i. elim i [
          | inl q ↦ subst (Tells net src f.after) (sym q) (
            e.value,
            f.others (id_of net r) apart
                ∙ lookup-insert ℕ_discrete (id_of net r) (id_of net r) e.value table
                ∙ if_pos (ℕ_discrete (id_of net r) (id_of net r)) refl _ _,
            e.says,
          )
          | inr j ↦ f.tells dest j
        ];
        others = λ i h.
            f.others i (λ x j. h x (inr j))
            ∙ lookup-insert ℕ_discrete i (id_of net r) e.value table
            ∙ if_neg (ℕ_discrete i (id_of net r)) (h r (inl refl)) _ _;
      }

-- The network with another table at one router.
abbrev pub with_table : Network → ℕ → List (ℕ × Option ℕ) → Network
with_table net this table = record net {
  node = update net.node this (record (net.node this) { routing_table = table });
}

-- On a well-formed network the update of a router's table ends, for every fuel from some bound on;
-- it changes only that table, which then has an entry for every router of the set. An entry NULL
-- means that the destination is another router and that no walk to it weighs less than 100000; an
-- entry that is a router means that the destination is the owner itself, or that the owner has a
-- link to that router, some walk to the destination weighs less than 100000, and that router is
-- not the owner and lies on a walk of least weight to the destination.
pub update_routing_table-Tells :
    (net : Network) (this : ℕ)
    → IsNetwork net
    → Live net this
    → (bound : ℕ) × (table : List (ℕ × Option ℕ)) × ((fuel : ℕ)
        → bound ≤ fuel
        → update_routing_table fuel this net ≡ some (with_table net this table))
      × ((dest : ℕ) → Live net dest → Tells net this table dest)
unfolding update_routing_table
update_routing_table-Tells net this wf lt =
    let (s, runs, h, empty) = search_from-IsSearch net this wf lt in
    let f =
      fill-Fills net this s net.routers [] wf.distinct wf.ids
        (entry-HasEntry net wf this lt s h empty) in
    (f.bound, f.after, λ fuel le. rw (runs) (rw (f.runs fuel le)), f.tells)
