-- ===== src/Ospf/FindPath/Follow.antt =====
-- NetworkProtocols/OSPF.cpp, findPath: the loop, along true tables.
use network_os_simulation.Shared.{
  ℕ, zero, suc, ◌≤◌, ◌<◌, ◌≡◌, refl, ap, sym, subst, ◌∙◌, ◌≢◌, inl, inr, List, [], ◌∷◌, ◌++◌, map,
  Option, none, some, arith, ==_iff, ℕ_discrete, append_assoc, append_nil,
}
use network_os_simulation.Shared.Tests.{equals_itself, not_equal}
use network_os_simulation.Shared.Dict.{lookup}
use network_os_simulation.Shared.Lists.{In}
use network_os_simulation.Ospf.Router.{Network, id_of, links_of, get_router_by_id}
use network_os_simulation.Ospf.Dijkstra.{infinity}
use network_os_simulation.Ospf.Dijkstra.Walks.{Live, Walk, here, step, IsNetwork}
use network_os_simulation.Ospf.Table.Update.{Tells}
use network_os_simulation.Ospf.Manage.Tables.{HasTables, table_at}
use network_os_simulation.Ospf.FindPath.{route, follow}

-- The routers lead from the first along links to `finish`, which is not among them.
pub data Chain (net : Network) (finish : ℕ) : ℕ → List ℕ → Type 0 where
  arrived : Chain net finish finish []
  hop :
      {a : ℕ} {rs : List ℕ} (b w : ℕ)
      → In (b, w) (links_of net a)
      → Chain net finish b rs
      → Chain net finish a (a ∷ rs)

abbrev pub Positive : Network → Type 0
Positive net = (a b w : ℕ) → Live net a → In (b, w) (links_of net a) → 0 < w

pub get_router_by_id-id_of :
    (net : Network) (a : ℕ) (rs : List ℕ)
    → In a rs
    → ((b : ℕ) → In b rs → id_of net b ≡ id_of net a → b ≡ a)
    → get_router_by_id (id_of net a) net rs ≡ some a
unfolding get_router_by_id
get_router_by_id-id_of net a [] i ids = elim i [ ]
get_router_by_id-id_of net a (b ∷ rs) i ids = elim (ℕ_discrete (id_of net b) (id_of net a)) [
  | yes e ↦
      rw (get_router_by_id, (==_iff (id_of net b) (id_of net a)).1 e) (ap some (ids b (inl refl) e))
  | no ne ↦ elim i [
    | inl q ↦ absurd (ne (ap (id_of net) (sym q)))
    | inr j ↦
        rw (get_router_by_id, not_equal (id_of net b) (id_of net a) ne)
          (get_router_by_id-id_of net a rs j (λ c k. ids c (inr k)))
  ]
]

pub with_fuel :
    (m : ℕ) (P : ℕ → Type 0) → ((k : ℕ) → m ≤ k → P (suc k)) → (fuel : ℕ) → suc m ≤ fuel → P fuel
with_fuel m P f zero h = absurd (omega arith)
with_fuel m P f (suc k) h = f k (omega arith)

module _ (net : Network) (wf : IsNetwork net) (positive : Positive net)
    (tables : HasTables net net.routers) where
  Live-Walk : {a b w : ℕ} → Live net a → Walk net a b w → Live net b
  Live-Walk la here = la
  Live-Walk la (step {u} v w walk link) = wf.closed u v w (Live-Walk la walk) link

  Walk-positive : {a b w : ℕ} → Live net a → Walk net a b w → b ≢ a → 0 < w
  Walk-positive la here ne = absurd (ne refl)
  Walk-positive la (step {u} {d} v w walk link) ne =
      omega (arith, positive u v w (Live-Walk la walk) link)

  router_of : (a : ℕ) → Live net a → get_router_by_id (id_of net a) net net.routers ≡ some a
  router_of a la = get_router_by_id-id_of net a net.routers la (λ b lb e. wf.ids b a lb la e)

  follow-arrived :
      (fuel a : ℕ) (v : List (Option ℕ))
      → follow (suc fuel) (id_of net a) (id_of net a) net v ≡ (route v, net)
  unfolding follow
  follow-arrived fuel a v = rw (follow, equals_itself (id_of net a))

  follow-hop :
      (fuel a b h : ℕ) (v : List (Option ℕ))
      → Live net a
      → id_of net a ≢ id_of net b
      → lookup ℕ_discrete (id_of net b) (table_at net a) ≡ some (some h)
      → follow (suc fuel) (id_of net a) (id_of net b) net v
        ≡ follow fuel (id_of net h) (id_of net b) net (v ++ some a ∷ [])
  unfolding follow
  follow-hop fuel a b h v la ne found =
      rw (follow, not_equal (id_of net a) (id_of net b) ne, router_of a la, found)

  pub follow-none :
      (fuel a b : ℕ) (v : List (Option ℕ))
      → Live net a
      → id_of net a ≢ id_of net b
      → lookup ℕ_discrete (id_of net b) (table_at net a) ≡ some none
      → follow (suc fuel) (id_of net a) (id_of net b) net v ≡ (route [], net)
  unfolding follow
  follow-none fuel a b v la ne found =
      rw (follow, not_equal (id_of net a) (id_of net b) ne, router_of a la, found)

  pub ids_differ : (a b : ℕ) → Live net a → Live net b → a ≢ b → id_of net a ≢ id_of net b
  ids_differ a b la lb ne e = ne (wf.ids a b la lb e)

  -- The loop comes from `a` to the end of a chain, given fuel from `m` on.
  abbrev Arrives : ℕ → ℕ → ℕ → Type 0
  Arrives m a b =
      (rs : List ℕ) × Chain net b a rs
      × ((fuel : ℕ) (v : List (Option ℕ))
          → m ≤ fuel
          → follow fuel (id_of net a) (id_of net b) net v
            ≡ (route (v ++ map (λ r. some r) rs), net))

  follow_entry :
      (m a b w : ℕ)
      → Live net a
      → Live net b
      → a ≢ b
      → Walk net a b w
      → w < infinity
      → w < suc m
      → Tells net a (table_at net a) b
      → ((h u : ℕ) → Live net h → Walk net h b u → u < infinity → u < m → Arrives m h b)
      → Arrives (suc m) a b
  follow_entry m a b w la lb ne walk near lt (none, found, (other, far)) next =
      absurd (omega (arith, far w walk))
  follow_entry m a b w la lb ne walk near lt (some h, found, inl (q, _)) next = absurd (ne (sym q))
  follow_entry m a b w la lb ne walk near lt (some h, found, inr ((l, link), _, on)) next =
      let least = on.least w walk in
      let shorter = Walk-positive la on.first on.apart in
      let (rs, chain, runs) = next h on.after on.live on.rest (omega arith) (omega arith) in
      (
        a ∷ rs,
        hop h l link chain,
        λ fuel v.
            with_fuel m
              (λ k.
                follow k (id_of net a) (id_of net b) net v
                ≡ (route (v ++ map (λ r. some r) (a ∷ rs)), net))
              (λ k enough.
                follow-hop k a b h v la (ids_differ a b la lb ne) found
                ∙ runs k (v ++ some a ∷ []) enough
                ∙ ap (λ l. (route l, net)) (append_assoc v (some a ∷ []) (map (λ r. some r) rs)))
              fuel,
      )

  -- With more fuel than a walk weighs, the loop comes to its end.
  pub follow-Chain :
      (m a b w : ℕ)
      → Live net a
      → Live net b
      → Walk net a b w
      → w < infinity
      → w < m
      → Arrives m a b
  follow-Chain zero a b w la lb walk near lt = absurd (omega arith)
  follow-Chain (suc m) a b w la lb walk near lt = elim (ℕ_discrete a b) [
    | yes q ↦
        subst (λ c. Arrives (suc m) a c) q
          (
            [],
            arrived,
            λ fuel v.
                with_fuel m
                  (λ k. follow k (id_of net a) (id_of net a) net v ≡ (route (v ++ []), net))
                  (λ k enough. follow-arrived k a v ∙ ap (λ l. (route l, net)) (sym (append_nil v)))
                  fuel,
          )
    | no ne ↦
        follow_entry m a b w la lb ne walk near lt (tables a b la lb)
          (λ h u lh next close less. follow-Chain m h b u lh lb next close less)
  ]
