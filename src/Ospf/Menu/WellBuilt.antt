-- ===== src/Ospf/Menu/WellBuilt.antt =====
-- NetworkProtocols/OSPF.cpp: what holds of the network at every turn of the menu.
use network_os_simulation.Shared.{
  ℕ, ◌+◌, ◌≤◌, ◌≡◌, refl, sym, subst, ap, ◌∙◌, inl, inr, List, [], ◌∷◌, map, Option, none, some,
  arith, ◌>>=◌, Option-cases, ℕ_discrete,
}
use network_os_simulation.Shared.Tests.{equals_itself}
use network_os_simulation.Ospf.Router.{Network, id_of, get_router_by_id}
use network_os_simulation.Ospf.Dijkstra.Walks.{Live, IsNetwork}
use network_os_simulation.Ospf.Manage.{create_router, delete_router}
use network_os_simulation.Ospf.Manage.Tables.{HasTables}
use network_os_simulation.Ospf.Manage.Links.{create_router-Joins}
use network_os_simulation.Ospf.Manage.Delete.{delete_router-Parts}
use network_os_simulation.Ospf.FindPath.{route, fault, unfinished, find_path}
use network_os_simulation.Ospf.FindPath.Chain.{find_path-Answers}
use network_os_simulation.Ospf.FindPath.Follow.{Positive, get_router_by_id-id_of}
use network_os_simulation.Ospf.Menu.{
  Choice, create, find, print, delete, invalid, print_path, turn, menu,
}
use network_os_simulation.Ospf.Menu.Weights.{Weights, Positive-Joins, Positive-Parts}

pub record WellBuilt (net : Network) : Type 0 where
  pub wf : IsNetwork net
  pub positive : Positive net
  pub tables : HasTables net net.routers

-- A new router comes to an address that is free, with positive weights; a path is asked for between
-- routers of the set.
abbrev pub Permitted : Network → Choice → Type 0
Permitted net (create a i incoming outgoing) = ¬ Live net a × Weights incoming × Weights outgoing
Permitted net (find start finish) =
    (a : ℕ) × (b : ℕ) × Live net a × Live net b × (start ≡ id_of net a) × (finish ≡ id_of net b)
Permitted net print = Unit
Permitted net (delete del) = Unit
Permitted net invalid = Unit

-- A run ends in a well-built network, given fuel from `bound` on.
pub record Ends (run : ℕ → Option Network) : Type 0 where
  pub bound : ℕ
  pub after : Network
  pub runs : (fuel : ℕ) → bound ≤ fuel → run fuel ≡ some after
  pub built : WellBuilt after

print_path-some :
    (path : List ℕ) (net : Network) → print_path (map (λ r. some r) path) net ≡ some net
unfolding print_path
print_path-some [] net = refl
print_path-some (r ∷ path) net = print_path-some path net

module _ (net : Network) (w : WellBuilt net) where
  Ends-same :
      (c : Choice) → ((fuel : ℕ) → turn fuel c net ≡ some net) → Ends (λ fuel. turn fuel c net)
  Ends-same c same = record { bound = 0; after = net; runs = λ fuel h. same fuel; built = w }

  create_free :
      (a i : ℕ) (incoming outgoing : List (ℕ × ℕ))
      → Permitted net (create a i incoming outgoing)
      → get_router_by_id i net net.routers ≡ none
      → Ends (λ fuel. turn fuel (create a i incoming outgoing) net)
  unfolding turn
  create_free a i incoming outgoing (fresh, ws, vs) free =
      let (r, joins) = create_router-Joins a i incoming outgoing net w.wf fresh free in
      record {
        bound = r.bound;
        after = r.after;
        runs = λ fuel h. ap (λ o. o >>= (λ q. some q.0)) (r.runs fuel h);
        built = record {
          wf = r.wf;
          positive = Positive-Joins a i incoming outgoing net r.after joins ws vs w.positive;
          tables = r.tables;
        };
      }

  create_taken :
      (fuel a i r : ℕ) (incoming outgoing : List (ℕ × ℕ))
      → get_router_by_id i net net.routers ≡ some r
      → turn fuel (create a i incoming outgoing) net ≡ some net
  unfolding turn
  create_taken fuel a i r incoming outgoing e = rw (create_router, e)

  delete_missing :
      (fuel del : ℕ)
      → get_router_by_id del net net.routers ≡ none
      → turn fuel (delete del) net ≡ some net
  unfolding turn
  delete_missing fuel del e = rw (delete_router, e)

  delete_found :
      (del gone : ℕ)
      → get_router_by_id del net net.routers ≡ some gone
      → Ends (λ fuel. turn fuel (delete del) net)
  unfolding turn
  delete_found del gone found =
      let (r, parts) = delete_router-Parts del gone net w.wf found in
      record {
        bound = r.bound;
        after = r.after;
        runs = λ fuel h. ap (λ o. o >>= (λ q. some q.0)) (r.runs fuel h);
        built = record {
          wf = r.wf;
          positive = Positive-Parts gone net r.after parts w.positive;
          tables = r.tables;
        };
      }

  find_same :
      (fuel a : ℕ)
      → Live net a
      → find_path fuel (id_of net a) (id_of net a) net ≡ (route (some a ∷ []), net)
  unfolding find_path
  find_same fuel a la = rw (
    find_path,
    equals_itself (id_of net a),
    get_router_by_id-id_of net a net.routers la (λ b lb e. w.wf.ids b a lb la e),
  )

  find_shown :
      (fuel start finish : ℕ) (path : List ℕ)
      → find_path fuel start finish net ≡ (route (map (λ r. some r) path), net)
      → turn fuel (find start finish) net ≡ some net
  unfolding turn
  find_shown fuel start finish path e =
      ap
        (λ t. elim t.0 as (λ x. Option Network) [
          | route found ↦ print_path found t.1
          | fault ↦ none
          | unfinished ↦ none
        ])
        e
      ∙ print_path-some path net

  find_known :
      (a b : ℕ)
      → Live net a
      → Live net b
      → Ends (λ fuel. turn fuel (find (id_of net a) (id_of net b)) net)
  find_known a b la lb = elim (ℕ_discrete a b) [
    | yes q ↦
        subst (λ c. Ends (λ fuel. turn fuel (find (id_of net a) (id_of net c)) net)) q
          (Ends-same (find (id_of net a) (id_of net a))
            (λ fuel. find_shown fuel (id_of net a) (id_of net a) (a ∷ []) (find_same fuel a la)))
    | no ne ↦
        let answers = find_path-Answers net w.wf w.positive w.tables a b la lb ne in
        record {
          bound = answers.bound;
          after = net;
          runs = λ fuel h.
              find_shown fuel (id_of net a) (id_of net b) answers.path (answers.runs fuel h);
          built = w;
        }
  ]

  -- One turn.
  turn-Ends : (c : Choice) → Permitted net c → Ends (λ fuel. turn fuel c net)
  unfolding turn
  turn-Ends (create a i incoming outgoing) p =
      elim (Option-cases (get_router_by_id i net net.routers)) [
        | inl free ↦ create_free a i incoming outgoing p free
        | inr (r, taken) ↦
            Ends-same (create a i incoming outgoing)
              (λ fuel. create_taken fuel a i r incoming outgoing taken)
      ]
  turn-Ends (find start finish) (a, b, la, lb, e, f) =
      subst (λ s. Ends (λ fuel. turn fuel (find s finish) net)) (sym e)
        (subst (λ t. Ends (λ fuel. turn fuel (find (id_of net a) t) net)) (sym f)
          (find_known a b la lb))
  turn-Ends print p = Ends-same print (λ fuel. refl)
  turn-Ends (delete del) p = elim (Option-cases (get_router_by_id del net net.routers)) [
    | inl missing ↦ Ends-same (delete del) (λ fuel. delete_missing fuel del missing)
    | inr (gone, found) ↦ delete_found del gone found
  ]
  turn-Ends invalid p = Ends-same invalid (λ fuel. refl)

-- Every choice is permitted when its turn comes.
abbrev pub Permits : List Choice → Network → Type 0
Permits [] net = Unit
Permits (c ∷ cs) net =
    Permitted net c × ((fuel : ℕ) (next : Network) → turn fuel c net ≡ some next → Permits cs next)

-- From a well-formed network with positive weights and true tables, a run of the menu over any
-- choices ends, for every fuel from some bound on, without following NULL, and leaves such a
-- network, if at each turn the choice is permitted: a new router comes to a free address, with
-- positive weights, and a path is asked for between routers of the set.
pub menu-WellBuilt :
    (cs : List Choice) (net : Network)
    → WellBuilt net
    → Permits cs net
    → Ends (λ fuel. menu fuel cs net)
unfolding menu
menu-WellBuilt [] net w p = record { bound = 0; after = net; runs = λ fuel h. refl; built = w }
menu-WellBuilt (c ∷ cs) net w p =
    let first = turn-Ends net w c p.0 in
    let rest =
      menu-WellBuilt cs first.after first.built
        (p.1 first.bound first.after (first.runs first.bound (omega arith))) in
    record {
      bound = first.bound + rest.bound;
      after = rest.after;
      runs = λ fuel h.
          ap (λ o. o >>= menu fuel cs) (first.runs fuel (omega arith))
          ∙ rest.runs fuel (omega arith);
      built = rest.built;
    }
