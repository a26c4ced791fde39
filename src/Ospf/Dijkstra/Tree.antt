-- ===== src/Ospf/Dijkstra/Tree.antt =====
-- NetworkProtocols/OSPF.cpp, line 57: the routers that `next_hop` names form a tree below the
-- source, though it is the router before, and not the next one, that is stored.
use network_os_simulation.Shared.{
  ℕ, ◌+◌, ◌≤◌, ◌<◌, ◌≡◌, refl, ap, sym, subst, ◌∙◌, ◌≢◌, inl, inr, List, [], ◌∷◌, Option, none,
  some, arith, Bool-cases, Option-cases, ltb, ltb→lt, update, if_pos, if_neg, ℕ_discrete,
}
use network_os_simulation.Shared.Lists.{In}
use network_os_simulation.Ospf.Router.{Network, id_of, links_of}
use network_os_simulation.Ospf.Dijkstra.{Search, infinity, relax, scan}
use network_os_simulation.Ospf.Dijkstra.Walks.{Live, IsNetwork}
use network_os_simulation.Ospf.Dijkstra.Relax.{dist, IsKnown, relax-IsKnown}

pub some_eq : {a b : ℕ} → some a ≡ some b → a ≡ b
some_eq e = cc

pub none-ne-some : (u : ℕ) → ◌≡◌ {A = Option ℕ} none (some u) → ⊥
none-ne-some u e = cc

-- The stored routers lead back to the source.
pub data Rooted (nh : ℕ → Option ℕ) (src : ℕ) : ℕ → Type 0 where
  root : Rooted nh src src
  via : {v u : ℕ} → nh v ≡ some u → Rooted nh src u → Rooted nh src v

-- What a stored router `u` says of `v`.
pub record IsParent (net : Network) (src : ℕ) (s : Search) (v u : ℕ) : Type 0 where
  pub live : Live net u
  pub weight : ℕ
  pub link : In (v, weight) (links_of net u)
  pub below : dist net s u + weight ≤ dist net s v
  pub apart : u ≢ v
  pub finite : dist net s v < infinity
  pub rooted : Rooted s.next_hop src v

pub record IsTree (net : Network) (src : ℕ) (s : Search) : Type 0 where
  pub source : s.next_hop src ≡ none
  pub parent : (v u : ℕ) → Live net v → s.next_hop v ≡ some u → IsParent net src s v u
  pub unreached : (v : ℕ) → Live net v → v ≢ src → s.next_hop v ≡ none → dist net s v ≡ infinity

module _ (net : Network) (wf : IsNetwork net) (src u : ℕ) (lu : Live net u) (s : Search)
    (k : IsKnown net src s) (t : IsTree net src s) (v w : ℕ) (lv : Live net v)
    (link : In (v, w) (links_of net u)) where
  -- A router nearer than `v` keeps its way back when `v` gets another.
  Rooted-nearer :
      {x : ℕ}
      → Rooted s.next_hop src x
      → Live net x
      → dist net s x < dist net s v
      → Rooted (update s.next_hop v (some u)) src x
  Rooted-nearer root lx lt = root
  Rooted-nearer (via {v = x} {u = y} e r) lx lt =
      let p = t.parent x y lx e in
      via (if_neg (ℕ_discrete v x) (λ q. absurd (omega (arith, lt, ap (dist net s) q))) _ _ ∙ e)
        (Rooted-nearer r p.live (omega (arith, p.below)))

  -- Every other router keeps its way back, which may now lead through `u`.
  Rooted-update :
      {x : ℕ}
      → Rooted s.next_hop src x
      → Rooted (update s.next_hop v (some u)) src v
      → Rooted (update s.next_hop v (some u)) src x
  Rooted-update root rv = root
  Rooted-update (via {v = x} {u = y} e r) rv = elim (ℕ_discrete v x) [
    | yes q ↦ subst (Rooted (update s.next_hop v (some u)) src) q rv
    | no q ↦ via (if_neg (ℕ_discrete v x) q _ _ ∙ e) (Rooted-update r rv)
  ]

  module _ (near : dist net s u + w < dist net s v) where
    Rooted-u : Rooted s.next_hop src u
    Rooted-u = elim (Option-cases (s.next_hop u)) [
      | inr (y, e) ↦ (t.parent u y lu e).rooted
      | inl e ↦ elim (ℕ_discrete u src) [
        | yes q ↦ rw q root
        | no q ↦ absurd (omega (arith, near, t.unreached u lu q e, k.bounded v lv))
      ]
    ]

    Rooted-v : Rooted (update s.next_hop v (some u)) src v
    Rooted-v =
        via (if_pos (ℕ_discrete v v) refl _ _) (Rooted-nearer Rooted-u lu (omega (arith, near)))

    v≢src : v ≢ src
    v≢src q = absurd (omega (arith, near, k.root, ap (dist net s) q))

    -- The state that the relaxed link leaves.
    abbrev closer : Search
    closer = record {
      distance = update s.distance (id_of net v) (dist net s u + w);
      next_hop = update s.next_hop v (some u);
      pq = (dist net s u + w, v) ∷ s.pq;
    }

    closer_self : dist net closer v ≡ dist net s u + w
    closer_self = if_pos (ℕ_discrete (id_of net v) (id_of net v)) refl _ _

    closer_other : (x : ℕ) → Live net x → x ≢ v → dist net closer x ≡ dist net s x
    closer_other x lx ne =
        if_neg (ℕ_discrete (id_of net v) (id_of net x)) (λ e. ne (sym (wf.ids v x lv lx e))) _ _

    u≢v : u ≢ v
    u≢v q = absurd (omega (arith, near, ap (dist net s) q))

    IsParent-v : (y : ℕ) → u ≡ y → IsParent net src closer v y
    IsParent-v y e = subst (IsParent net src closer v) e (record {
      live = lu;
      weight = w;
      link = link;
      below = omega (arith, closer_self, closer_other u lu u≢v);
      apart = u≢v;
      finite = omega (arith, closer_self, near, k.bounded v lv);
      rooted = Rooted-v;
    })

    closer_le : (x : ℕ) → Live net x → dist net closer x ≤ dist net s x
    closer_le x lx = elim (ℕ_discrete x v) [
      | yes e ↦ rw e (omega (arith, closer_self, near))
      | no ne ↦ omega (arith, closer_other x lx ne)
    ]

    IsParent-other :
        (x y : ℕ) → Live net x → x ≢ v → s.next_hop x ≡ some y → IsParent net src closer x y
    IsParent-other x y lx ne e =
        let p = t.parent x y lx e in
        record {
          live = p.live;
          weight = p.weight;
          link = p.link;
          below = omega (arith, p.below, closer_le y p.live, closer_other x lx ne);
          apart = p.apart;
          finite = omega (arith, p.finite, closer_other x lx ne);
          rooted = Rooted-update p.rooted Rooted-v;
        }

    closer-IsTree : IsTree net src closer
    closer-IsTree = record {
      source = if_neg (ℕ_discrete v src) v≢src _ _ ∙ t.source;
      parent = λ x y lx e. elim (ℕ_discrete v x) [
        | yes q ↦
            subst (λ z. IsParent net src closer z y) q
              (IsParent-v y (some_eq (sym (if_pos (ℕ_discrete v x) q (some u) (s.next_hop x)) ∙ e)))
        | no q ↦
            IsParent-other x y lx (λ r. q (sym r))
              (sym (if_neg (ℕ_discrete v x) q (some u) (s.next_hop x)) ∙ e)
      ];
      unreached = λ x lx ne e. elim (ℕ_discrete v x) [
        | yes q ↦
            absurd (none-ne-some u (sym e ∙ if_pos (ℕ_discrete v x) q (some u) (s.next_hop x)))
        | no q ↦
            closer_other x lx (λ r. q (sym r))
            ∙ t.unreached x lx ne (sym (if_neg (ℕ_discrete v x) q (some u) (s.next_hop x)) ∙ e)
      ];
    }

  relax-IsTree : IsTree net src (relax net u s (v, w))
  unfolding relax
  relax-IsTree = elim (Bool-cases (ltb (dist net s u + w) (dist net s v))) [
    | inr far ↦ rw (far, relax) t
    | inl near ↦ rw (near, relax) (closer-IsTree (ltb→lt _ _ near))
  ]

module _ (net : Network) (wf : IsNetwork net) (src u : ℕ) (lu : Live net u) where
  pub scan-IsTree :
      (s : Search) (es : List (ℕ × ℕ))
      → ((v w : ℕ) → In (v, w) es → In (v, w) (links_of net u))
      → IsKnown net src s
      → IsTree net src s
      → IsTree net src (scan net u s es)
  unfolding scan
  scan-IsTree s [] sub k t = t
  scan-IsTree s ((v, w) ∷ es) sub k t =
      let link = sub v w (inl refl) in
      let lv = wf.closed u v w lu link in
      scan-IsTree (relax net u s (v, w)) es (λ v' w' h. sub v' w' (inr h))
        (relax-IsKnown net wf src u lu s v w link lv k)
        (relax-IsTree net wf src u lu s k t v w lv link)

-- The queue plays no part.
pub IsTree-pq :
    (net : Network) (src : ℕ) (s : Search) (q : List (ℕ × ℕ))
    → IsTree net src s
    → IsTree net src (record s { pq = q })
IsTree-pq net src s q t = record {
  source = t.source;
  parent = λ v u lv e.
      let p = t.parent v u lv e in
      record {
        live = p.live;
        weight = p.weight;
        link = p.link;
        below = p.below;
        apart = p.apart;
        finite = p.finite;
        rooted = p.rooted;
      };
  unreached = t.unreached;
}
