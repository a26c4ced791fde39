-- ===== src/Ospf/FindPath/Chain.antt =====
-- NetworkProtocols/OSPF.cpp, findPath: along true tables the loop ends, and its path goes along links.
use network_os_simulation.Shared.{
  ℕ, suc, ◌≤◌, ◌<◌, ◌≡◌, refl, sym, ◌∙◌, ◌≢◌, ◌⊎◌, inl, inr, List, [], map, none, some, arith,
  ℕ_discrete,
}
use network_os_simulation.Shared.Tests.{not_equal}
use network_os_simulation.Shared.Dict.{lookup}
use network_os_simulation.Ospf.Router.{Network, id_of}
use network_os_simulation.Ospf.Dijkstra.{infinity}
use network_os_simulation.Ospf.Dijkstra.Walks.{Live, Walk, IsNetwork}
use network_os_simulation.Ospf.Table.Update.{Tells}
use network_os_simulation.Ospf.Manage.Tables.{HasTables, table_at}
use network_os_simulation.Ospf.FindPath.{route, follow, find_path}
use network_os_simulation.Ospf.FindPath.Follow.{
  Chain, Positive, with_fuel, follow-none, ids_differ, follow-Chain,
}

-- The answer to a search from `a` to `b`, given fuel from `bound` on.
pub record Answers (net : Network) (a b : ℕ) : Type 0 where
  pub bound : ℕ
  pub path : List ℕ
  pub runs :
      (fuel : ℕ)
      → bound ≤ fuel
      → find_path fuel (id_of net a) (id_of net b) net ≡ (route (map (λ r. some r) path), net)
  pub says :
      (Chain net b a path × ((w : ℕ) × Walk net a b w × (w < infinity)))
      ⊎ ((path ≡ []) × ((w : ℕ) → Walk net a b w → infinity ≤ w))

find_path-follow :
    (net : Network) (fuel start finish : ℕ)
    → start ≢ finish
    → find_path fuel start finish net ≡ follow fuel start finish net []
unfolding find_path
find_path-follow net fuel start finish ne = rw (find_path, not_equal start finish ne)

module _ (net : Network) (wf : IsNetwork net) (positive : Positive net)
    (tables : HasTables net net.routers) (a b : ℕ) (la : Live net a) (lb : Live net b)
    (ne : a ≢ b) where
  differ : id_of net a ≢ id_of net b
  differ = ids_differ net wf positive tables a b la lb ne

  Answers-none :
      lookup ℕ_discrete (id_of net b) (table_at net a) ≡ some none
      → ((w : ℕ) → Walk net a b w → infinity ≤ w)
      → Answers net a b
  Answers-none found far = record {
    bound = 1;
    path = [];
    runs =
        with_fuel 0 (λ k. find_path k (id_of net a) (id_of net b) net ≡ (route [], net))
          (λ k h.
            find_path-follow net (suc k) (id_of net a) (id_of net b) differ
            ∙ follow-none net wf positive tables k a b [] la differ found);
    says = inr (refl, far);
  }

  Answers-some : (w : ℕ) → Walk net a b w → w < infinity → Answers net a b
  Answers-some w walk near =
      let (rs, chain, runs) =
        follow-Chain net wf positive tables (suc w) a b w la lb walk near (omega arith) in
      record {
        bound = suc w;
        path = rs;
        runs =
            λ fuel h. find_path-follow net fuel (id_of net a) (id_of net b) differ ∙ runs fuel [] h;
        says = inl (chain, (w, walk, near));
      }

  Answers-Tells : Tells net a (table_at net a) b → Answers net a b
  Answers-Tells (none, found, (other, far)) = Answers-none found far
  Answers-Tells (some h, found, inl (q, _)) = absurd (ne (sym q))
  Answers-Tells (some h, found, inr (link, (w, walk, near), on)) = Answers-some w walk near

  -- On a well-formed network whose links have positive weights and whose tables have true entries,
  -- findPath from a router of the set to another ends, for every fuel from some bound on, without
  -- following NULL and without a change of the tables. Either some walk weighs less than 100000,
  -- and the path starts at the first router and leads along links to the last; or no walk does,
  -- and the path is empty.
  pub find_path-Answers : Answers net a b
  find_path-Answers = Answers-Tells (tables a b la lb)
