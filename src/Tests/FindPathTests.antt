-- ===== src/Tests/FindPathTests.antt =====
-- NetworkProtocols/OSPF.cpp, findPath: two routers, with one link from the first to the second.
use network_os_simulation.Shared.{
  ℕ, zero, suc, ◌≤◌, ◌≡◌, ◌≢◌, refl, ap, subst, sym, List, [], ◌∷◌, Option, none, some, inl, inr,
  arith, ℕ_discrete,
}
use network_os_simulation.Shared.Dict.{lookup, insert}
use network_os_simulation.Shared.Lists.{In}
use network_os_simulation.Ospf.Router.{Network}
use network_os_simulation.Ospf.Dijkstra.Walks.{Live, Walk, here, step, IsNetwork}
use network_os_simulation.Ospf.Table.Entries.{Onward}
use network_os_simulation.Ospf.Table.Update.{Tells}
use network_os_simulation.Ospf.Manage.Tables.{HasTables}
use network_os_simulation.Ospf.FindPath.{route, fault, with_null, find_path}
use network_os_simulation.Ospf.FindPath.Chain.{Answers, find_path-Answers}

abbrev links : ℕ → List (ℕ × ℕ)
links zero = (1, 3) ∷ []
links (suc a) = []

abbrev table : ℕ → List (ℕ × Option ℕ)
table zero = (0, some 0) ∷ (1, some 1) ∷ []
table (suc a) = (0, none) ∷ (1, some 1) ∷ []

abbrev net : Network
net = record {
  routers = 0 ∷ 1 ∷ [];
  node = λ a. record { router_id = a; neighbors = links a; routing_table = table a };
}

path_run : find_path 5 0 1 net ≡ (route (some 0 ∷ []), net)
unfolding find_path lookup ℕ_discrete
path_run = refl

no_path_run : find_path 5 1 0 net ≡ (route [], net)
unfolding find_path lookup ℕ_discrete
no_path_run = refl

-- The start is not there; both ends are the same and not there; the end is not there, and comes into
-- the table of the start.
unknown_run :
    (find_path 5 7 1 net ≡ (fault, net))
    × (find_path 5 7 7 net ≡ (route (none ∷ []), net))
    × (find_path 5 0 7 net ≡ (route [], with_null 0 7 net))
unfolding find_path lookup insert ℕ_discrete
unknown_run = (refl, refl, refl)

link_weight : (u v w : ℕ) → In (v, w) (links u) → 3 ≤ w
link_weight zero v w (inl e) = omega (arith, ap (λ p. p.1) e)
link_weight zero v w (inr i) = elim i [ ]
link_weight (suc u) v w i = elim i [ ]

link_target : (u v w : ℕ) → In (v, w) (links u) → Live net v
link_target zero v w (inl e) = inr (inl (ap (λ p. p.0) e))
link_target zero v w (inr i) = elim i [ ]
link_target (suc u) v w i = elim i [ ]

net-IsNetwork : IsNetwork net
net-IsNetwork = record {
  distinct = omega arith;
  ids = λ a b la lb e. e;
  closed = λ a b w la i. link_target a b w i;
}

walk_weight : (b w : ℕ) → Walk net 0 b w → b ≢ 0 → 3 ≤ w
walk_weight b w here ne = absurd (ne refl)
walk_weight b w (step {u} {d} v l walk link) ne = omega (arith, link_weight u v l link)

walk_from_1 : (b w : ℕ) → Walk net 1 b w → b ≡ 1
walk_from_1 b w here = refl
walk_from_1 b w (step {u} {d} v l walk link) =
    elim (subst (λ x. In (v, l) (links x)) (walk_from_1 u d walk) link) [ ]

both : (P : ℕ → Type 0) → P 0 → P 1 → (x : ℕ) → In x net.routers → P x
both P p q x (inl e) = subst P (sym e) p
both P p q x (inr (inl e)) = subst P (sym e) q
both P p q x (inr (inr i)) = elim i [ ]

link_entry : Onward net 0 1 1
link_entry = record {
  live = inr (inl refl);
  apart = omega arith;
  before = 3;
  after = 0;
  first = step 1 3 here (inl refl);
  rest = here;
  least = λ w walk. walk_weight 1 w walk (omega arith);
}

net-HasTables : HasTables net net.routers
unfolding lookup ℕ_discrete
net-HasTables r dest i l =
    both (λ x. Tells net x (table x) dest)
      (both (λ y. Tells net 0 (table 0) y) (some 0, refl, inl (refl, refl))
        (some 1, refl, inr ((3, inl refl), (3, step 1 3 here (inl refl), omega arith), link_entry))
        dest l)
      (both (λ y. Tells net 1 (table 1) y)
        (none, refl, (omega arith, λ w walk. absurd (omega (arith, walk_from_1 0 w walk))))
        (some 1, refl, inl (refl, refl)) dest l)
      r i

find_path-Answers_example : Answers net 0 1
find_path-Answers_example =
    find_path-Answers net net-IsNetwork (λ a b w la i. omega (arith, link_weight a b w i))
      net-HasTables 0 1 (inl refl) (inr (inl refl)) (omega arith)
