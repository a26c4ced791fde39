-- ===== src/Ospf/Table.antt =====
-- NetworkProtocols/OSPF.cpp, Router::updateRoutingTable, lines 63 to 103: from the routers that the
-- search stored to the routing table. The `while` loop of line 87 has fuel; `none` is a loop that
-- did not end within it.
pub mod Route
pub mod Entries
pub mod Update
use network_os_simulation.Shared.{
  ℕ, zero, suc, List, [], ◌∷◌, Option, none, some, Bool, true, false, not, ◌&&◌, ◌==◌,
  if◌then◌else◌, update, ◌>>=◌, ℕ_discrete,
}
use network_os_simulation.Shared.Dict.{insert}
use network_os_simulation.Ospf.Router.{Network, id_of, links_of}
use network_os_simulation.Ospf.Dijkstra.{Search, search_from}

-- `next_hop[a]` after the loop of line 64: a router that has none is its own.
abbrev pub hop_of : (ℕ → Option ℕ) → ℕ → ℕ
hop_of nh a = elim (nh a) [ none ↦ a | some b ↦ b ]

-- Whether `a` is in `neighbors_set`.
unfoldable pub is_neighbor : List (ℕ × ℕ) → ℕ → Bool
is_neighbor [] a = false
is_neighbor ((b, w) ∷ es) a = if b == a then true else is_neighbor es a

-- `while (temp is no neighbour) temp = next_hop[temp]`
unfoldable pub walk_back : List (ℕ × ℕ) → (ℕ → ℕ) → ℕ → ℕ → Option ℕ
walk_back es hop zero temp = none
walk_back es hop (suc fuel) temp = elim (is_neighbor es temp) [
  | true ↦ some temp
  | false ↦ walk_back es hop fuel (hop temp)
]

-- The entry for one destination, NULL as `none`, from router `this` with the links `es`.
unfoldable pub entry : ℕ → List (ℕ × ℕ) → (ℕ → ℕ) → ℕ → ℕ → Option (Option ℕ)
entry fuel es hop this dest =
    let nh = hop dest in
    let back = walk_back es hop fuel nh in
    if not (dest == nh) && not (nh == this)
    then (if is_neighbor es nh then some (some nh) else (do temp ← back; some (some temp)))
    else if nh == this
    then some (some dest)
    else some none

module _ (fuel : ℕ) (net : Network) (this : ℕ) (hop : ℕ → ℕ) where
  -- The loop over all destinations, which writes to the table.
  unfoldable pub fill : List ℕ → List (ℕ × Option ℕ) → Option (List (ℕ × Option ℕ))
  fill [] table = some table
  fill (dest ∷ rs) table = do
    e ← entry fuel (links_of net this) hop this dest
    fill rs (insert ℕ_discrete (id_of net dest) e table)

unfoldable pub update_routing_table : ℕ → ℕ → Network → Option Network
unfolding search_from fill entry walk_back is_neighbor insert ℕ_discrete
update_routing_table fuel this net = do
  s ← search_from net this
  table ← fill fuel net this (hop_of s.next_hop) net.routers []
  some (record net {
    node = update net.node this (record (net.node this) { routing_table = table });
  })

-- The loop over all routers at the end of createRouter and deleteRouter.
unfoldable pub update_all : ℕ → List ℕ → Network → Option Network
unfolding update_routing_table
update_all fuel [] net = some net
update_all fuel (r ∷ rs) net = do net' ← update_routing_table fuel r net; update_all fuel rs net'
