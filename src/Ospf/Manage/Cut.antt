-- ===== src/Ospf/Manage/Cut.antt =====
-- NetworkProtocols/OSPF.cpp, deleteRouter: the loop that cuts the links to the deleted router.
use network_os_simulation.Shared.{
  ℕ, ◌≡◌, refl, sym, subst, ap, ◌∙◌, ◌≢◌, ◌↔◌, inl, inr, List, [], ◌∷◌, arith, Bool-cases, ◌==◌,
  ==_iff, update, if_pos, if_neg, ℕ_discrete, if◌then◌else◌,
}
use network_os_simulation.Shared.Lists.{In}
use network_os_simulation.Ospf.Router.{Router, Network, id_of, links_of}
use network_os_simulation.Ospf.Manage.{links_without, remove_links}

In-links_without :
    (gone : ℕ) (es : List (ℕ × ℕ)) (b w : ℕ)
    → In (b, w) (links_without gone es) ↔ (In (b, w) es × (b ≢ gone))
unfolding links_without
In-links_without gone [] b w = (λ i. elim i [ ], λ p. elim p.0 [ ])
In-links_without gone ((c, v) ∷ es) b w = elim (Bool-cases (c == gone)) [
  | inl e ↦ rw (e) (ground (arith, In-links_without gone es b w, e))
  | inr e ↦ rw (e) (ground (arith, In-links_without gone es b w, e))
]

-- One router's links are cut.
abbrev cut_at : ℕ → ℕ → Network → Network
cut_at gone r net = if r == gone then net else record net {
  node =
      update net.node r (record (net.node r) { neighbors = links_without gone (links_of net r) });
}

pub record Cuts (gone : ℕ) (rs : List ℕ) (net after : Network) : Type 0 where
  pub routers : after.routers ≡ net.routers
  pub ids : (x : ℕ) → id_of after x ≡ id_of net x
  pub fewer : (x b w : ℕ) → In (b, w) (links_of after x) → In (b, w) (links_of net x)
  pub clean : (x b w : ℕ) → In x rs → x ≢ gone → In (b, w) (links_of after x) → b ≢ gone
  pub kept : (x b w : ℕ) → b ≢ gone → In (b, w) (links_of net x) → In (b, w) (links_of after x)

module _ (gone r : ℕ) (net : Network) where
  cut_at_other : (x : ℕ) → r ≢ x → (cut_at gone r net).node x ≡ net.node x
  cut_at_other x ne = elim (Bool-cases (r == gone)) [
    | inl e ↦ rw e
    | inr e ↦ rw e (if_neg (ℕ_discrete r x) ne _ _)
  ]

  cut_at_self :
      r ≢ gone
      → (cut_at gone r net).node r
        ≡ record (net.node r) { neighbors = links_without gone (links_of net r) }
  cut_at_self ne = elim (Bool-cases (r == gone)) [
    | inl e ↦ absurd (ne ((==_iff r gone).0 e))
    | inr e ↦ rw e (if_pos (ℕ_discrete r r) refl _ _)
  ]

  cut_at-gone : r ≡ gone → cut_at gone r net ≡ net
  cut_at-gone e = rw ((==_iff r gone).1 e)

  links-cut_at :
      (x b w : ℕ)
      → (In (b, w) (links_of (cut_at gone r net) x) → In (b, w) (links_of net x))
        × (b ≢ gone → In (b, w) (links_of net x) → In (b, w) (links_of (cut_at gone r net) x))
  links-cut_at x b w = elim (ℕ_discrete r gone) [
    | yes g ↦ rw (cut_at-gone g) (λ i. i, λ ne i. i)
    | no g ↦ elim (ℕ_discrete r x) [
      | no o ↦
          let same = ap (λ (n : Router). n.neighbors) (cut_at_other x o) in
          (subst (In (b, w)) same, λ ne i. subst (In (b, w)) (sym same) i)
      | yes s ↦
          let here : links_of (cut_at gone r net) x ≡ links_without gone (links_of net x) =
            subst (λ z. links_of (cut_at gone r net) z ≡ links_without gone (links_of net z)) s
              (ap (λ (n : Router). n.neighbors) (cut_at_self g)) in
          (
            λ i. ((In-links_without gone (links_of net x) b w).0 (subst (In (b, w)) here i)).0,
            λ ne i.
                subst (In (b, w)) (sym here)
                  ((In-links_without gone (links_of net x) b w).1 (i, ne)),
          )
    ]
  ]

  clean-cut_at : (b w : ℕ) → r ≢ gone → In (b, w) (links_of (cut_at gone r net) r) → b ≢ gone
  clean-cut_at b w ne i =
      ((In-links_without gone (links_of net r) b w).0
        (subst (In (b, w)) (ap (λ (n : Router). n.neighbors) (cut_at_self ne)) i)).1

  id-cut_at : (x : ℕ) → id_of (cut_at gone r net) x ≡ id_of net x
  id-cut_at x = elim (ℕ_discrete r gone) [
    | yes g ↦ rw (cut_at-gone g)
    | no g ↦ elim (ℕ_discrete r x) [
      | no o ↦ ap (λ (n : Router). n.router_id) (cut_at_other x o)
      | yes s ↦
          subst (λ z. id_of (cut_at gone r net) z ≡ id_of net z) s
            (ap (λ (n : Router). n.router_id) (cut_at_self g))
    ]
  ]

  routers-cut_at : (cut_at gone r net).routers ≡ net.routers
  routers-cut_at = elim (Bool-cases (r == gone)) [ inl e ↦ rw e | inr e ↦ rw e ]

pub remove_links-Cuts :
    (gone : ℕ) (rs : List ℕ) (net : Network) → Cuts gone rs net (remove_links gone rs net)
unfolding remove_links
remove_links-Cuts gone [] net = record {
  routers = refl;
  ids = λ x. refl;
  fewer = λ x b w i. i;
  clean = λ x b w i. elim i [ ];
  kept = λ x b w ne i. i;
}
remove_links-Cuts gone (r ∷ rs) net =
    let c = remove_links-Cuts gone rs (cut_at gone r net) in
    record {
      routers = c.routers ∙ routers-cut_at gone r net;
      ids = λ x. c.ids x ∙ id-cut_at gone r net x;
      fewer = λ x b w i. (links-cut_at gone r net x b w).0 (c.fewer x b w i);
      clean = λ x b w i ne m. elim i [
        | inr j ↦ c.clean x b w j ne m
        | inl e ↦
            clean-cut_at gone r net b w (λ q. ne (e ∙ q))
              (subst (λ z. In (b, w) (links_of (cut_at gone r net) z)) e (c.fewer x b w m))
      ];
      kept = λ x b w ne i. c.kept x b w ne ((links-cut_at gone r net x b w).1 ne i);
    }
