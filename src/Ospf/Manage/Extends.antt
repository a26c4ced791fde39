-- ===== src/Ospf/Manage/Extends.antt =====
-- -- NetworkProtocols/OSPF.cpp, createRouter: the loops that add links, and no others.
use network_os_simulation.Shared.{
  ℕ, ◌≡◌, refl, sym, subst, ap, ap₂, ◌∙◌, ◌⊎◌, ◌↔◌, inl, inr, List, [], ◌∷◌, ◌++◌, none, some,
  arith, Option-cases, if_pos, if_neg, ℕ_discrete,
}
use network_os_simulation.Shared.Lists.{In}
use network_os_simulation.Ospf.Router.{
  Router, Network, id_of, links_of, add_neighbor, get_router_by_id,
}
use network_os_simulation.Ospf.Dijkstra.Walks.{Live}
use network_os_simulation.Ospf.Manage.{add_incoming, add_outgoing}
use network_os_simulation.Ospf.Manage.Create.{
  Live-get_router_by_id, id-ne-get_router_by_id, id-add_neighbor, In-append_one,
}

-- The routers and their IDs are the same, and the links that satisfy `P` have come.
pub record Extends (net after : Network) (P : ℕ → ℕ → ℕ → Type 0) : Type 0 where
  pub routers : after.routers ≡ net.routers
  pub ids : (x : ℕ) → id_of after x ≡ id_of net x
  pub links : (x b w : ℕ) → In (b, w) (links_of after x) ↔ (In (b, w) (links_of net x) ⊎ P x b w)

-- A router of the set that the user names, with a weight.
abbrev pub Named : Network → List (ℕ × ℕ) → ℕ → ℕ → Type 0
Named net es y w = Live net y × In (id_of net y, w) es

abbrev pub Unique : Network → Type 0
Unique net = (x y : ℕ) → Live net x → Live net y → id_of net x ≡ id_of net y → x ≡ y

pair_of : (a b c d : ℕ) → a ≡ c → b ≡ d → ◌≡◌ {A = ℕ × ℕ} (a, b) (c, d)
pair_of a b c d p q = ap₂ (λ x y. let e : ℕ × ℕ = (x, y) in e) p q

module _ (i v : ℕ) (es : List (ℕ × ℕ)) (net : Network) (y w : ℕ) where
  Named-found :
      (r : ℕ)
      → get_router_by_id i net net.routers ≡ some r
      → Unique net
      → Named net ((i, v) ∷ es) y w ↔ (((y ≡ r) × (w ≡ v)) ⊎ Named net es y w)
  Named-found r e u =
      let (l, is) = Live-get_router_by_id i net net.routers r e in
      (
        λ h. elim h.1 [
          | inl q ↦
              inl (u y r h.0 l (ap (λ (p : ℕ × ℕ). p.0) q ∙ sym is), ap (λ (p : ℕ × ℕ). p.1) q)
          | inr m ↦ inr (h.0, m)
        ],
        λ h. elim h [
          | inl q ↦ (
            subst (Live net) (sym q.0) l,
            inl (pair_of (id_of net y) w i v (ap (id_of net) q.0 ∙ is) q.1),
          )
          | inr m ↦ (m.0, inr m.1)
        ],
      )

  Named-missing :
      get_router_by_id i net net.routers ≡ none → Named net ((i, v) ∷ es) y w ↔ Named net es y w
  Named-missing e = (
    λ h. elim h.1 [
      | inl q ↦
          absurd (id-ne-get_router_by_id i net net.routers y e h.0 (ap (λ (p : ℕ × ℕ). p.0) q))
      | inr m ↦ (h.0, m)
    ],
    λ h. (h.0, inr h.1),
  )

pub Named-same :
    (net after : Network) (P : ℕ → ℕ → ℕ → Type 0) (es : List (ℕ × ℕ)) (y w : ℕ)
    → Extends net after P
    → Named after es y w ↔ Named net es y w
Named-same net after P es y w x = (
  λ h. (subst (In y) x.routers h.0, subst (λ k. In (k, w) es) (x.ids y) h.1),
  λ h. (subst (In y) (sym x.routers) h.0, subst (λ k. In (k, w) es) (sym (x.ids y)) h.1),
)

pub Unique-same :
    (net after : Network) (P : ℕ → ℕ → ℕ → Type 0) → Extends net after P → Unique net → Unique after
Unique-same net after P x u a b la lb e =
    u a b (subst (In a) x.routers la) (subst (In b) x.routers lb) (sym (x.ids a) ∙ e ∙ x.ids b)

add_neighbor-Extends :
    (r c v : ℕ) (net : Network)
    → Extends net (add_neighbor r c v net) (λ x b w. (x ≡ r) × (b ≡ c) × (w ≡ v))
unfolding add_neighbor
add_neighbor-Extends r c v net = record {
  routers = refl;
  ids = id-add_neighbor r c v net;
  links = links;
}
  where
    new_links :
        (b w : ℕ)
        → In (b, w) (links_of net r ++ (c, v) ∷ [])
          ↔ (In (b, w) (links_of net r) ⊎ ((r ≡ r) × (b ≡ c) × (w ≡ v)))
    new_links b w =
        let (there, back) = In-append_one (b, w) (c, v) (links_of net r) in
        (
          λ h. elim (there h) [
            | inl i ↦ inl i
            | inr q ↦ inr (refl, ap (λ (p : ℕ × ℕ). p.0) q, ap (λ (p : ℕ × ℕ). p.1) q)
          ],
          λ h. back (elim h [ inl i ↦ inl i | inr q ↦ inr (pair_of b w c v q.1 q.2) ]),
        )

    links :
        (x b w : ℕ)
        → In (b, w) (links_of (add_neighbor r c v net) x)
          ↔ (In (b, w) (links_of net x) ⊎ ((x ≡ r) × (b ≡ c) × (w ≡ v)))
    links x b w = elim (ℕ_discrete r x) [
      | yes q ↦
          subst
            (λ z.
              In (b, w) (links_of (add_neighbor r c v net) z)
              ↔ (In (b, w) (links_of net z) ⊎ ((z ≡ r) × (b ≡ c) × (w ≡ v))))
            q
            (subst
              (λ es. In (b, w) es ↔ (In (b, w) (links_of net r) ⊎ ((r ≡ r) × (b ≡ c) × (w ≡ v))))
              (sym (ap (λ (n : Router). n.neighbors) (if_pos (ℕ_discrete r r) refl _ _)))
              (new_links b w))
      | no ne ↦
          subst (λ es. In (b, w) es ↔ (In (b, w) (links_of net x) ⊎ ((x ≡ r) × (b ≡ c) × (w ≡ v))))
            (sym (ap (λ (n : Router). n.neighbors) (if_neg (ℕ_discrete r x) ne _ _)))
            (λ i. inl i, λ h. elim h [ inl i ↦ i | inr k ↦ absurd (ne (sym k.0)) ])
    ]

pub Extends-trans :
    (net mid after : Network) (P Q R : ℕ → ℕ → ℕ → Type 0)
    → Extends net mid P
    → Extends mid after Q
    → ((x b w : ℕ) → R x b w ↔ (P x b w ⊎ Q x b w))
    → Extends net after R
Extends-trans net mid after P Q R p q r = record {
  routers = q.routers ∙ p.routers;
  ids = λ x. q.ids x ∙ p.ids x;
  links = λ x b w. ground (arith, p.links x b w, q.links x b w, r x b w);
}

-- The loop over the incoming links adds those from the routers that the user names.
pub add_incoming-Extends :
    (new : ℕ) (es : List (ℕ × ℕ)) (net : Network)
    → Unique net
    → Extends net (add_incoming new es net) (λ x b w. (b ≡ new) × Named net es x w)
unfolding add_incoming
add_incoming-Extends new [] net u = record {
  routers = refl;
  ids = λ x. refl;
  links = λ x b w. (λ i. inl i, λ h. elim h [ inl i ↦ i | inr k ↦ elim k.1.1 [ ] ]);
}
add_incoming-Extends new ((i, v) ∷ es) net u =
    elim (Option-cases (get_router_by_id i net net.routers)) [
      | inl e ↦
          let x = add_incoming-Extends new es net u in
          rw (e) (record {
            routers = x.routers;
            ids = x.ids;
            links = λ y b w. ground (arith, x.links y b w, Named-missing i v es net y w e);
          })
      | inr (r, e) ↦
          let one = add_neighbor-Extends r new v net in
          let next = add_neighbor r new v net in
          let x = add_incoming-Extends new es next (Unique-same net next _ one u) in
          rw (e) (
            Extends-trans net next (add_incoming new es next) _ _ _ one x (λ y b w.
              ground (arith, Named-found i v es net y w r e u, Named-same net next _ es y w one)))
    ]

pub add_outgoing-Extends :
    (new : ℕ) (es : List (ℕ × ℕ)) (net : Network)
    → Unique net
    → Extends net (add_outgoing new es net) (λ x b w. (x ≡ new) × Named net es b w)
unfolding add_outgoing
add_outgoing-Extends new [] net u = record {
  routers = refl;
  ids = λ x. refl;
  links = λ x b w. (λ i. inl i, λ h. elim h [ inl i ↦ i | inr k ↦ elim k.1.1 [ ] ]);
}
add_outgoing-Extends new ((i, v) ∷ es) net u =
    elim (Option-cases (get_router_by_id i net net.routers)) [
      | inl e ↦
          let x = add_outgoing-Extends new es net u in
          rw (e) (record {
            routers = x.routers;
            ids = x.ids;
            links = λ y b w. ground (arith, x.links y b w, Named-missing i v es net b w e);
          })
      | inr (r, e) ↦
          let one = add_neighbor-Extends new r v net in
          let next = add_neighbor new r v net in
          let x = add_outgoing-Extends new es next (Unique-same net next _ one u) in
          rw (e) (
            Extends-trans net next (add_outgoing new es next) _ _ _ one x (λ y b w.
              ground (arith, Named-found i v es net b w r e u, Named-same net next _ es b w one)))
    ]
