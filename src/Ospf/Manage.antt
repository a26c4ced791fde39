-- ===== src/Ospf/Manage.antt =====
-- NetworkProtocols/OSPF.cpp: createRouter and deleteRouter, with what the user types as arguments.
-- A new router stands at an address that the caller gives. `none` is a loop that did not end.
pub mod Graph
pub mod Tables
pub mod Create
pub mod Extends
pub mod Links
pub mod Cut
pub mod Delete
use network_os_simulation.Shared.{
  ℕ, List, [], ◌∷◌, Option, none, some, Bool, true, false, ◌==◌, leb, if◌then◌else◌, update, ◌>>=◌,
}
use network_os_simulation.Ospf.Router.{
  Router, Network, id_of, links_of, add_neighbor, get_router_by_id,
}
use network_os_simulation.Ospf.Table.{update_all}

-- What the menu shows after the call.
pub data Outcome : Type 0 where
  duplicate not_found : Outcome
  changed : Outcome

-- The loop over the incoming links: ID of the neighbour and weight.
unfoldable pub add_incoming : ℕ → List (ℕ × ℕ) → Network → Network
add_incoming new [] net = net
add_incoming new ((i, w) ∷ rest) net =
    add_incoming new rest
      (elim (get_router_by_id i net net.routers) [ some r ↦ add_neighbor r new w net | none ↦ net ])

unfoldable pub add_outgoing : ℕ → List (ℕ × ℕ) → Network → Network
add_outgoing new [] net = net
add_outgoing new ((i, w) ∷ rest) net =
    add_outgoing new rest
      (elim (get_router_by_id i net net.routers) [ some r ↦ add_neighbor new r w net | none ↦ net ])

-- `all_router_ptrs.insert(a)`: the set is ordered by address.
unfoldable pub insert_router : ℕ → List ℕ → List ℕ
insert_router a [] = a ∷ []
insert_router a (b ∷ bs) = if leb a b then a ∷ b ∷ bs else b ∷ insert_router a bs

-- `new Router(id)`
unfoldable pub new_router : ℕ → ℕ → Network → Network
new_router a i net = record net {
  node = update net.node a (record { router_id = i; neighbors = []; routing_table = [] });
}

-- The network before the tables are updated.
unfoldable pub joined : ℕ → ℕ → List (ℕ × ℕ) → List (ℕ × ℕ) → Network → Network
unfolding add_incoming add_outgoing insert_router new_router add_neighbor get_router_by_id
joined a i incoming outgoing net =
    let linked = add_outgoing a outgoing (add_incoming a incoming (new_router a i net)) in
    record linked { routers = insert_router a linked.routers }

unfoldable pub create_router :
    ℕ → ℕ → ℕ → List (ℕ × ℕ) → List (ℕ × ℕ) → Network → Option (Network × Outcome)
unfolding joined update_all get_router_by_id
create_router fuel a i incoming outgoing net = elim (get_router_by_id i net net.routers) [
  | some r ↦ some (net, duplicate)
  | none ↦ do
    let net1 = joined a i incoming outgoing net
    net2 ← update_all fuel net1.routers net1
    some (net2, changed)
]

-- The links that do not lead to `gone`.
unfoldable pub links_without : ℕ → List (ℕ × ℕ) → List (ℕ × ℕ)
links_without gone [] = []
links_without gone ((b, w) ∷ es) =
    if b == gone then links_without gone es else (b, w) ∷ links_without gone es

unfoldable pub remove_links : ℕ → List ℕ → Network → Network
unfolding links_without
remove_links gone [] net = net
remove_links gone (r ∷ rs) net = remove_links gone rs (
    if r == gone then net else record net {
      node =
          update net.node r
            (record (net.node r) { neighbors = links_without gone (links_of net r) });
    })

unfoldable pub erase_router : ℕ → List ℕ → List ℕ
erase_router a [] = []
erase_router a (b ∷ bs) = if b == a then bs else b ∷ erase_router a bs

-- The network without the router `gone`, before the tables are updated.
unfoldable pub parted : ℕ → Network → Network
unfolding remove_links erase_router
parted gone net =
    let cut = remove_links gone net.routers net in
    record cut { routers = erase_router gone cut.routers }

unfoldable pub delete_router : ℕ → ℕ → Network → Option (Network × Outcome)
unfolding parted update_all get_router_by_id
delete_router fuel del net = elim (get_router_by_id del net net.routers) [
  | none ↦ some (net, not_found)
  | some gone ↦ do
    let net1 = parted gone net
    net2 ← update_all fuel net1.routers net1
    some (net2, changed)
]
