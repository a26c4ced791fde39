-- ===== src/Tests/OspfTests.antt =====
-- NetworkProtocols/OSPF.cpp: runs on a small network.
use mathlib.Core.Option
use network_os_simulation.Shared.{
  ℕ, zero, suc, ◌≤◌, ◌⊎◌, ◌≡◌, refl, List, [], ◌∷◌, Option, none, some, inl, arith,
}
use network_os_simulation.Shared.Lists.{In}
use network_os_simulation.Ospf.Router.{Network, get_router_by_id}
use network_os_simulation.Ospf.Dijkstra.{Search, infinity, search_from}
use network_os_simulation.Ospf.Dijkstra.Walks.{Live, Walk, IsNetwork}
use network_os_simulation.Ospf.Dijkstra.Relax.{dist}
use network_os_simulation.Ospf.Dijkstra.Correct
use network_os_simulation.Ospf.Table.{update_routing_table}
use network_os_simulation.Ospf.Table.Update
use network_os_simulation.Ospf.Manage.{create_router, delete_router}
use network_os_simulation.Ospf.Manage.Links
use network_os_simulation.Ospf.Manage.Links.{Joins}
use network_os_simulation.Ospf.Manage.Create.{Rebuilds}
use network_os_simulation.Ospf.Manage.Delete
use network_os_simulation.Ospf.Manage.Delete.{Parts}
use network_os_simulation.Ospf.Table.Update.{with_table, Tells}

-- Router 0 reaches router 1 for 10, or by router 2 for 2; router 3 lies behind router 1. The ID of
-- a router is its address. Router 4 is not reached.
abbrev links : ℕ → List (ℕ × ℕ)
links zero = (1, 10) ∷ (2, 1) ∷ []
links (suc zero) = (3, 1) ∷ []
links (suc (suc zero)) = (1, 1) ∷ []
links _ = []

abbrev net : Network
net = record {
  routers = 0 ∷ 1 ∷ 2 ∷ 3 ∷ 4 ∷ [];
  node = λ a. record { router_id = a; neighbors = links a; routing_table = [] };
}

net-closed : (a b w : ℕ) → Live net a → In (b, w) (links a) → Live net b
net-closed zero b w la i = ground arith
net-closed (suc zero) b w la i = ground arith
net-closed (suc (suc zero)) b w la i = ground arith
net-closed (suc (suc (suc a))) b w la i = elim i [ ]

net-IsNetwork : IsNetwork net
net-IsNetwork = record { distinct = omega arith; ids = λ a b la lb e. e; closed = net-closed }

search_from-shortest_example :
    (t : Search) × (search_from net 0 ≡ some t)
    × ((v : ℕ)
        → Live net v
        → ((dist net t v ≡ infinity) ⊎ Walk net 0 v (dist net t v))
          × (dist net t v ≤ infinity)
          × ((w : ℕ) → Walk net 0 v w → dist net t v ≤ w))
search_from-shortest_example = Correct.search_from-shortest net 0 net-IsNetwork (inl refl)

-- The table of router 0: router 3 is sent to router 1, over the link of weight 10, though the way
-- through router 2 is shorter; router 1 itself is sent to router 2.
table_of_0 :
    Option.map (λ (n : Network). (n.node 0).routing_table) (update_routing_table 10 0 net)
    ≡ some ((0, some 0) ∷ (1, some 2) ∷ (2, some 2) ∷ (3, some 1) ∷ (4, none) ∷ [])
unfolding update_routing_table
table_of_0 = refl

update_routing_table-Tells_example :
    (bound : ℕ) × (table : List (ℕ × Option ℕ)) × ((fuel : ℕ)
      → bound ≤ fuel
      → update_routing_table fuel 0 net ≡ some (with_table net 0 table))
    × ((dest : ℕ) → Live net dest → Tells net 0 table dest)
update_routing_table-Tells_example =
    Update.update_routing_table-Tells net 0 net-IsNetwork (inl refl)

no_router_5 : get_router_by_id 5 net net.routers ≡ none
unfolding get_router_by_id
no_router_5 = refl

router_1_there : get_router_by_id 1 net net.routers ≡ some 1
unfolding get_router_by_id
router_1_there = refl

-- A router with ID 5 comes, with a link from router 3 and one to router 4.
create_router-Joins_example :
    (r : Rebuilds (λ fuel. create_router fuel 5 5 ((3, 2) ∷ []) ((4, 7) ∷ []) net)) × Joins 5 5
      ((3, 2) ∷ [])
      ((4, 7) ∷ [])
      net
      r.after
create_router-Joins_example =
    Links.create_router-Joins 5 5 ((3, 2) ∷ []) ((4, 7) ∷ []) net net-IsNetwork (λ l. ground arith)
      no_router_5

delete_router-Parts_example :
    (r : Rebuilds (λ fuel. delete_router fuel 1 net)) × Parts 1 net r.after
delete_router-Parts_example = Delete.delete_router-Parts 1 1 net net-IsNetwork router_1_there
