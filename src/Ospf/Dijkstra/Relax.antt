-- ===== src/Ospf/Dijkstra/Relax.antt =====
-- NetworkProtocols/OSPF.cpp, lines 51 to 60: what the loop over the links of one router changes.
use network_os_simulation.Shared.{
  ℕ, ◌+◌, ◌≤◌, ◌≡◌, refl, subst, ◌∙◌, ◌⊎◌, inl, inr, List, [], ◌∷◌, true, Bool-cases, arith, All,
  ltb, ltb→lt, if_pos, if_neg, ℕ_discrete,
}
use network_os_simulation.Shared.Lists.{In}
use network_os_simulation.Ospf.Router.{Network, id_of, links_of}
use network_os_simulation.Ospf.Dijkstra.{Search, infinity, relax, scan}
use network_os_simulation.Ospf.Dijkstra.Queue.{Queued}
use network_os_simulation.Ospf.Dijkstra.Walks.{Live, Walk, step, IsNetwork}

abbrev pub dist : Network → Search → ℕ → ℕ
dist net s a = s.distance (id_of net a)

-- From `s` to `t` distances fall, that of `u` stays, and a router whose distance fell is queued.
pub record Progress (net : Network) (u : ℕ) (s t : Search) : Type 0 where
  pub lower : (x : ℕ) → dist net t x ≤ dist net s x
  pub still : dist net t u ≡ dist net s u
  pub queue : (x : ℕ) → Queued x s.pq → Queued x t.pq
  pub changed : (x : ℕ) → Live net x → (dist net t x ≡ dist net s x) ⊎ Queued x t.pq

-- No link of the list leads to a router that could be nearer by it.
abbrev pub Settled : Network → Search → ℕ → List (ℕ × ℕ) → Type 0
Settled net s u es = All (λ e. dist net s e.0 ≤ dist net s u + e.1) es

Progress-refl : (net : Network) (u : ℕ) (s : Search) → Progress net u s s
Progress-refl net u s = record {
  lower = λ x. omega arith;
  still = refl;
  queue = λ x q. q;
  changed = λ x l. inl refl;
}

Progress-trans :
    (net : Network) (u : ℕ) (s t r : Search)
    → Progress net u s t
    → Progress net u t r
    → Progress net u s r
Progress-trans net u s t r p q = record {
  lower = λ x. omega (arith, p.lower x, q.lower x);
  still = q.still ∙ p.still;
  queue = λ x h. q.queue x (p.queue x h);
  changed = λ x l. ground (arith, p.changed x l, q.changed x l, q.queue x);
}

-- Settled links stay settled while the distance of `u` stays.
pub Settled-Progress :
    (net : Network) (u x : ℕ) (s t : Search) (es : List (ℕ × ℕ))
    → Progress net u s t
    → dist net t x ≡ dist net s x
    → Settled net s x es
    → Settled net t x es
Settled-Progress net u x s t [] p e h = tt
Settled-Progress net u x s t ((v, w) ∷ es) p e h =
    (omega (arith, p.lower v, h.0, e), Settled-Progress net u x s t es p e h.1)

module _ (net : Network) (wf : IsNetwork net) (u : ℕ) (lu : Live net u) where
  pub relax-Progress : (s : Search) (v w : ℕ) → Live net v → Progress net u s (relax net u s (v, w))
  unfolding relax
  relax-Progress s v w lv = record {
    lower = λ x. ground arith;
    still = ground arith;
    queue = λ x q. ground arith;
    changed = λ x lx. ground (arith, wf.ids x v lx lv);
  }

  relax-le : (s : Search) (v w : ℕ) → dist net (relax net u s (v, w)) v ≤ dist net s u + w
  unfolding relax
  relax-le s v w = ground arith

  -- All links of the router are settled by the loop.
  pub scan-Progress :
      (s : Search) (es : List (ℕ × ℕ))
      → ((v w : ℕ) → In (v, w) es → Live net v)
      → Progress net u s (scan net u s es) × Settled net (scan net u s es) u es
  unfolding scan
  scan-Progress s [] live = (Progress-refl net u s, tt)
  scan-Progress s ((v, w) ∷ es) live =
      let t = relax net u s (v, w) in
      let p = relax-Progress s v w (live v w (inl refl)) in
      let (q, settled) = scan-Progress t es (λ v' w' h. live v' w' (inr h)) in
      (
        Progress-trans net u s t (scan net u t es) p q,
        (omega (arith, q.lower v, relax-le s v w, q.still, p.still), settled),
      )

-- Every distance is the weight of a walk, or infinite; the queue holds routers of the set.
pub record IsKnown (net : Network) (src : ℕ) (s : Search) : Type 0 where
  pub root : dist net s src ≡ 0
  pub bounded : (x : ℕ) → Live net x → dist net s x ≤ infinity
  pub known : (x : ℕ) → Live net x → (dist net s x ≡ infinity) ⊎ Walk net src x (dist net s x)
  pub queued : (x : ℕ) → Queued x s.pq → Live net x

module _ (net : Network) (wf : IsNetwork net) (src u : ℕ) (lu : Live net u) where
  relax-known :
      (s : Search) (v w : ℕ)
      → In (v, w) (links_of net u)
      → Live net v
      → IsKnown net src s
      → (x : ℕ) → Live net x
      → (dist net (relax net u s (v, w)) x ≡ infinity)
        ⊎ Walk net src x (dist net (relax net u s (v, w)) x)
  unfolding relax
  relax-known s v w link lv k x lx = elim (Bool-cases (ltb (dist net s u + w) (dist net s v))) [
    | inr far ↦ rw (far, relax) (k.known x lx)
    | inl near ↦ elim (ℕ_discrete (id_of net v) (id_of net x)) [
      | no other ↦
          rw (near, relax)
            (rw (if_neg (ℕ_discrete (id_of net v) (id_of net x)) other _ _) (k.known x lx))
      | yes same ↦
          rw (near, relax)
            (rw (if_pos (ℕ_discrete (id_of net v) (id_of net x)) same _ _) (
              subst (λ y. (dist net s u + w ≡ infinity) ⊎ Walk net src y (dist net s u + w))
                (wf.ids v x lv lx same) (reached near)))
    ]
  ]
    where
      reached :
          ltb (dist net s u + w) (dist net s v) ≡ true
          → (dist net s u + w ≡ infinity) ⊎ Walk net src v (dist net s u + w)
      reached near = elim (k.known u lu) [
        | inl far ↦ absurd (omega (arith, ltb→lt _ _ near, k.bounded v lv, far))
        | inr walk ↦ inr (step v w walk link)
      ]

  relax-Queued :
      (s : Search) (v w x : ℕ) → Queued x (relax net u s (v, w)).pq → (x ≡ v) ⊎ Queued x s.pq
  unfolding relax
  relax-Queued s v w x q = ground arith

  pub relax-IsKnown :
      (s : Search) (v w : ℕ)
      → In (v, w) (links_of net u)
      → Live net v
      → IsKnown net src s
      → IsKnown net src (relax net u s (v, w))
  relax-IsKnown s v w link lv k =
      let p = relax-Progress net wf u lu s v w lv in
      record {
        root = omega (arith, p.lower src, k.root);
        bounded = λ x lx. omega (arith, p.lower x, k.bounded x lx);
        known = relax-known s v w link lv k;
        queued = λ x q. ground (arith, relax-Queued s v w x q, k.queued x);
      }

  pub scan-IsKnown :
      (s : Search) (es : List (ℕ × ℕ))
      → ((v w : ℕ) → In (v, w) es → In (v, w) (links_of net u))
      → IsKnown net src s
      → IsKnown net src (scan net u s es)
  unfolding scan
  scan-IsKnown s [] sub k = k
  scan-IsKnown s ((v, w) ∷ es) sub k =
      let link = sub v w (inl refl) in
      scan-IsKnown (relax net u s (v, w)) es (λ v' w' h. sub v' w' (inr h))
        (relax-IsKnown s v w link (wf.closed u v w lu link) k)
