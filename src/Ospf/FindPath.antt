-- ===== src/Ospf/FindPath.antt =====
-- NetworkProtocols/OSPF.cpp, findPath, which follows the routing tables. The map from IDs to routers
-- that main builds has for each ID the first router of the set. The loop has fuel.
pub mod Follow
pub mod Chain
use network_os_simulation.Shared.{
  ℕ, zero, suc, List, [], ◌∷◌, ◌++◌, Option, none, some, true, false, ◌==◌, update, ℕ_discrete,
}
use network_os_simulation.Shared.Dict.{lookup, insert}
use network_os_simulation.Ospf.Router.{Network, id_of, get_router_by_id}

-- The routers, NULL as `none`; a NULL that is followed; a loop that did not end within its fuel.
pub data Trip : Type 0 where
  route : List (Option ℕ) → Trip
  fault : Trip
  unfinished : Trip

-- A key that is not there comes into the table with the value NULL.
abbrev pub with_null : ℕ → ℕ → Network → Network
with_null r finish net = record net {
  node = update net.node r (record (net.node r) {
    routing_table = insert ℕ_discrete finish none (net.node r).routing_table;
  });
}

unfoldable pub follow : ℕ → ℕ → ℕ → Network → List (Option ℕ) → Trip × Network
unfolding get_router_by_id
follow zero temp finish net v = (unfinished, net)
follow (suc fuel) temp finish net v = elim (temp == finish) [
  | true ↦ (route v, net)
  | false ↦ elim (get_router_by_id temp net net.routers) [
    | none ↦ (fault, net)
    | some r ↦ elim (lookup ℕ_discrete finish (net.node r).routing_table) [
      | none ↦ (route [], with_null r finish net)
      | some none ↦ (route [], net)
      | some (some h) ↦ follow fuel (id_of net h) finish net (v ++ some r ∷ [])
    ]
  ]
]

unfoldable pub find_path : ℕ → ℕ → ℕ → Network → Trip × Network
unfolding follow get_router_by_id
find_path fuel start finish net = elim (start == finish) [
  | true ↦ (route (get_router_by_id start net net.routers ∷ []), net)
  | false ↦ follow fuel start finish net []
]
