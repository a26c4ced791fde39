-- ===== src/Ospf/Menu.antt =====
-- NetworkProtocols/OSPF.cpp, main: the menu, with what the user types as arguments. Exit is the end of
-- the choices. `none` is a NULL that is followed, or a loop that did not end within its fuel.
pub mod Weights
pub mod WellBuilt
use network_os_simulation.Shared.{ℕ, List, [], ◌∷◌, Option, none, some, ◌>>=◌}
use network_os_simulation.Ospf.Router.{Network}
use network_os_simulation.Ospf.Manage.{Outcome, create_router, delete_router}
use network_os_simulation.Ospf.FindPath.{Trip, route, fault, unfinished, find_path}

-- `create` has the address of the new router, its ID, and the links in and out.
pub data Choice : Type 0 where
  create : ℕ → ℕ → List (ℕ × ℕ) → List (ℕ × ℕ) → Choice
  find : ℕ → ℕ → Choice
  print : Choice
  delete : ℕ → Choice
  invalid : Choice

-- The loop that prints the path follows every pointer.
unfoldable pub print_path : List (Option ℕ) → Network → Option Network
print_path [] net = some net
print_path (none ∷ path) net = none
print_path (some r ∷ path) net = print_path path net

unfoldable pub turn : ℕ → Choice → Network → Option Network
unfolding create_router find_path delete_router print_path
turn fuel (create a i incoming outgoing) net = do
  r ← create_router fuel a i incoming outgoing net
  some r.0
turn fuel (find start finish) net =
    let (trip, net1) = find_path fuel start finish net in
    elim trip [ route path ↦ print_path path net1 | fault ↦ none | unfinished ↦ none ]
turn fuel print net = some net
turn fuel (delete del) net = do r ← delete_router fuel del net; some r.0
turn fuel invalid net = some net

unfoldable pub menu : ℕ → List Choice → Network → Option Network
unfolding turn
menu fuel [] net = some net
menu fuel (c ∷ cs) net = do next ← turn fuel c net; menu fuel cs next
