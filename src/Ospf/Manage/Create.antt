-- ===== src/Ospf/Manage/Create.antt =====
-- NetworkProtocols/OSPF.cpp, createRouter: the operations that it is made of.
use network_os_simulation.Shared.{
  ℕ, ◌≤◌, ◌≡◌, refl, sym, subst, ap, ◌∙◌, ◌≢◌, ◌⊎◌, ◌↔◌, ◌++◌, ◌==◌, inl, inr, List, [], ◌∷◌,
  Option, none, some, arith, Distinct, All, Bool-cases, leb, if_pos, if_neg, ℕ_discrete,
}
use network_os_simulation.Shared.Lists.{In}
use network_os_simulation.Ospf.Router.{Router, Network, id_of, get_router_by_id, add_neighbor}
use network_os_simulation.Ospf.Dijkstra.Walks.{Live, IsNetwork}
use network_os_simulation.Ospf.Manage.{Outcome, changed, insert_router, new_router}
use network_os_simulation.Ospf.Manage.Tables.{HasTables}

-- What is found by an ID is in the set and has the ID; what is not found is not there.
pub Live-get_router_by_id :
    (i : ℕ) (net : Network) (rs : List ℕ) (r : ℕ)
    → get_router_by_id i net rs ≡ some r
    → In r rs × (id_of net r ≡ i)
unfolding get_router_by_id
Live-get_router_by_id i net [] r e = absurd (ground arith)
Live-get_router_by_id i net (x ∷ rs) r e = elim (Bool-cases (id_of net x == i)) [
  | inl here ↦ (inl (ground arith), ground arith)
  | inr there ↦ ground (arith, Live-get_router_by_id i net rs r)
]

pub id-ne-get_router_by_id :
    (i : ℕ) (net : Network) (rs : List ℕ) (x : ℕ)
    → get_router_by_id i net rs ≡ none
    → In x rs
    → id_of net x ≢ i
unfolding get_router_by_id
id-ne-get_router_by_id i net [] x e m = elim m [ ]
id-ne-get_router_by_id i net (y ∷ rs) x e m = elim (Bool-cases (id_of net y == i)) [
  | inl here ↦ absurd (ground arith)
  | inr there ↦ ground (arith, id-ne-get_router_by_id i net rs x)
]

-- The router is the new one or one of the set.
abbrev pub Member : Network → ℕ → ℕ → Type 0
Member net a x = (x ≡ a) ⊎ Live net x

pub In-append_one : (e f : ℕ × ℕ) (es : List (ℕ × ℕ)) → In e (es ++ f ∷ []) ↔ (In e es ⊎ (e ≡ f))
In-append_one e f [] =
    (λ h. elim h [ inl q ↦ inr q | inr i ↦ inl i ], λ h. elim h [ inl i ↦ inr i | inr q ↦ inl q ])
In-append_one e f (x ∷ es) = ground (arith, In-append_one e f es)

module _ (r b w : ℕ) (net : Network) where
  pub id-add_neighbor : (x : ℕ) → id_of (add_neighbor r b w net) x ≡ id_of net x
  unfolding add_neighbor
  id-add_neighbor x = elim (ℕ_discrete r x) [
    | yes e ↦ ap (λ (n : Router). n.router_id) (if_pos (ℕ_discrete r x) e _ _) ∙ ap (id_of net) e
    | no e ↦ ap (λ (n : Router). n.router_id) (if_neg (ℕ_discrete r x) e _ _)
  ]

pub In-insert_router : (a x : ℕ) (bs : List ℕ) → In x (insert_router a bs) → (x ≡ a) ⊎ In x bs
unfolding insert_router
In-insert_router a x [] (inl q) = inl q
In-insert_router a x [] (inr i) = elim i [ ]
In-insert_router a x (b ∷ bs) i = elim (Bool-cases (leb a b)) [
  | inl e ↦ ground (arith, e)
  | inr e ↦ ground (arith, e, In-insert_router a x bs)
]

pub In-insert_router_back : (a x : ℕ) (bs : List ℕ) → (x ≡ a) ⊎ In x bs → In x (insert_router a bs)
unfolding insert_router
In-insert_router_back a x [] m = m
In-insert_router_back a x (b ∷ bs) m = elim (Bool-cases (leb a b)) [
  | inl e ↦ rw (e) m
  | inr e ↦ rw (e) (ground (arith, In-insert_router_back a x bs))
]

pub All-ne-In : (x : ℕ) (bs : List ℕ) → ¬ In x bs → All (λ y. x ≢ y) bs
All-ne-In x [] n = tt
All-ne-In x (b ∷ bs) n = (λ e. n (inl e), All-ne-In x bs (λ i. n (inr i)))

pub All-ne-In_back : (x : ℕ) (bs : List ℕ) → All (λ y. x ≢ y) bs → ¬ In x bs
All-ne-In_back x [] h i = elim i [ ]
All-ne-In_back x (b ∷ bs) h (inl e) = h.0 e
All-ne-In_back x (b ∷ bs) h (inr i) = All-ne-In_back x bs h.1 i

pub Distinct-insert_router :
    (a : ℕ) (bs : List ℕ) → ¬ In a bs → Distinct bs → Distinct (insert_router a bs)
unfolding insert_router
Distinct-insert_router a [] n d = (tt, tt)
Distinct-insert_router a (b ∷ bs) n d = elim (Bool-cases (leb a b)) [
  | inl e ↦ rw (e) (All-ne-In a (b ∷ bs) n, d)
  | inr e ↦ rw (e) (
    All-ne-In b (insert_router a bs) (λ i. elim (In-insert_router a b bs i) [
      | inl q ↦ n (inl (sym q))
      | inr j ↦ All-ne-In_back b bs d.0 j
    ]),
    Distinct-insert_router a bs (λ i. n (inr i)) d.1,
  )
]

module _ (a i : ℕ) (net : Network) where
  pub new_router_other :
      (x : ℕ) → ¬ Live net a → Live net x → (new_router a i net).node x ≡ net.node x
  unfolding new_router
  new_router_other x fresh l = if_neg (ℕ_discrete a x) (λ e. fresh (subst (Live net) (sym e) l)) _ _

  pub new_router_self :
      (new_router a i net).node a ≡ record { router_id = i; neighbors = []; routing_table = [] }
  unfolding new_router
  new_router_self = if_pos (ℕ_discrete a a) refl _ _

-- The result of a call that changes the network: it ends for every fuel from a bound on, and the
-- network is well formed with a true table at every router.
pub record Rebuilds (run : ℕ → Option (Network × Outcome)) : Type 0 where
  pub bound : ℕ
  pub after : Network
  pub runs : (fuel : ℕ) → bound ≤ fuel → run fuel ≡ some (after, changed)
  pub wf : IsNetwork after
  pub tables : HasTables after after.routers
