-- ===== src/Ospf/Dijkstra/Work.antt =====
-- NetworkProtocols/OSPF.cpp, lines 47 to 61: a bound on the rounds that are left.
use network_os_simulation.Shared.{
  ℕ, suc, ◌+◌, ◌≤◌, ◌<◌, ◌≡◌, refl, subst, inl, inr, List, [], ◌∷◌, arith, length, Bool-cases, ltb,
}
use network_os_simulation.Shared.Lists.{In}
use network_os_simulation.Ospf.Router.{Network}
use network_os_simulation.Ospf.Dijkstra.{Search, relax, scan}
use network_os_simulation.Ospf.Dijkstra.Walks.{Live, IsNetwork}
use network_os_simulation.Ospf.Dijkstra.Relax.{dist, relax-Progress}

-- The distances of the routers, added up.
unfoldable pub total : Network → Search → List ℕ → ℕ
total net s [] = 0
total net s (r ∷ rs) = dist net s r + total net s rs

total-le :
    (net : Network) (s t : Search) (rs : List ℕ)
    → ((x : ℕ) → dist net t x ≤ dist net s x)
    → total net t rs ≤ total net s rs
unfolding total
total-le net s t [] h = omega arith
total-le net s t (r ∷ rs) h = omega (arith, h r, total-le net s t rs h)

total-lt :
    (net : Network) (s t : Search) (rs : List ℕ) (v : ℕ)
    → ((x : ℕ) → dist net t x ≤ dist net s x)
    → In v rs
    → dist net t v < dist net s v
    → total net t rs < total net s rs
unfolding total
total-lt net s t [] v h i lt = elim i [ ]
total-lt net s t (r ∷ rs) v h (inl e) lt =
    omega (arith, total-le net s t rs h, subst (λ x. dist net t x < dist net s x) e lt)
total-lt net s t (r ∷ rs) v h (inr m) lt = omega (arith, h r, total-lt net s t rs v h m lt)

-- The distances and the length of the queue: a link that is relaxed does not raise the sum.
abbrev pub work : Network → Search → ℕ
work net s = total net s net.routers + length s.pq

module _ (net : Network) (wf : IsNetwork net) where
  relax-work :
      (u : ℕ) (s : Search) (v w : ℕ)
      → Live net u
      → Live net v
      → work net (relax net u s (v, w)) ≤ work net s
  unfolding relax
  relax-work u s v w lu lv = elim (Bool-cases (ltb (dist net s u + w) (dist net s v))) [
    | inr far ↦ rw (far, relax) (omega arith)
    | inl near ↦
        let p = relax-Progress net wf u lu s v w lv in
        let t = relax net u s (v, w) in
        let falls : dist net t v < dist net s v = ground (arith, near) in
        let fewer = total-lt net s t net.routers v p.lower lv falls in
        let longer : length t.pq ≡ suc (length s.pq) = ground (arith, near) in
        omega (arith, fewer, longer)
  ]

  pub scan-work :
      (u : ℕ) (s : Search) (es : List (ℕ × ℕ))
      → Live net u
      → ((v w : ℕ) → In (v, w) es → Live net v)
      → work net (scan net u s es) ≤ work net s
  unfolding scan
  scan-work u s [] lu live = omega arith
  scan-work u s ((v, w) ∷ es) lu live = omega (
    arith,
    relax-work u s v w lu (live v w (inl refl)),
    scan-work u (relax net u s (v, w)) es lu (λ v' w' h. live v' w' (inr h)),
  )
