-- ===== src/CsmaCa/Hit.antt =====
-- NetworkProtocols/CSMA_CA_Simulation.cpp: the loop over the other nodes makes each that is ready
-- back off.
use network_os_simulation.Shared.{
  ℕ, suc, ◌+◌, ◌≤◌, ◌<◌, ◌≡◌, refl, sym, ap, ◌∙◌, ◌≢◌, ◌⊎◌, inl, inr, List, [], ◌∷◌, some, true,
  false, not, ◌&&◌, arith, ◌==◌, ==_iff, length, set, get_elem?, get_elem?-set_self,
  get_elem?-set_other, All, Bool-cases, get_elem?-lt, length-set,
}
use network_os_simulation.CsmaCa.State.{Node, Config, Hits, attempt_transmission, is_ready}
use network_os_simulation.CsmaCa.{hit_others}
use network_os_simulation.CsmaCa.Books.{IsBooked, IsBooked-same, IsBooked-from, IsBooked-collision}
use network_os_simulation.CsmaCa.Nodes.{HasIds, total, Bounded, perform_backoff_lem}

-- The node `me` is as it was; every other node is not ready, and has at most one more collision.
abbrev pub After : ℕ → ℕ → Node → Type 0
After me c n =
    ((n.id ≡ me) × (n.collision_count ≤ c))
    ⊎ ((n.id ≢ me) × (is_ready n ≡ false) × (n.collision_count ≤ suc c))

pub record IsHit (me c k : ℕ) (ns : List Node) (counts : List ℕ) (h : Hits) : Type 0 where
  pub ids : HasIds k h.nodes
  pub size : length h.nodes ≡ length ns
  pub counts_size : length h.count_collisions ≡ length counts
  pub same : total h.nodes ≡ total ns
  pub after : All (After me c) h.nodes
  pub earlier : (j : ℕ) → j < k → get_elem? h.count_collisions j ≡ get_elem? counts j
  pub books : All (IsBooked counts) ns → All (IsBooked h.count_collisions) h.nodes

backed_off : (q : ℕ) (n : Node) → is_ready (record n { backoff_interval = suc q }) ≡ false
unfolding is_ready attempt_transmission
backed_off q n = ground arith

not_hit :
    (me c : ℕ) (n : Node)
    → n.collision_count ≤ c
    → (not (me == n.id) && is_ready n) ≡ false
    → After me c n
not_hit me c n le e = elim (Bool-cases (me == n.id)) [
  | inl q ↦ inl (sym ((==_iff me n.id).0 q), le)
  | inr q ↦ inr (
    λ p. absurd (ground (arith, (==_iff me n.id).1 (sym p), q)),
    ground (arith, e, q),
    omega arith,
  )
]

hit : (me : ℕ) (n : Node) → (not (me == n.id) && is_ready n) ≡ true → n.id ≢ me
hit me n e p = absurd (ground (arith, (==_iff me n.id).1 (sym p), e))

pub hit_others-IsHit :
    (cfg : Config) (me c k : ℕ) (ns : List Node) (counts : List ℕ) (d : ℕ)
    → HasIds k ns
    → Bounded c ns
    → c < 30
    → cfg.max_backoff < 31
    → k + length ns ≤ length counts
    → (h : Hits) × (hit_others cfg me ns counts d ≡ some h) × IsHit me c k ns counts h
unfolding hit_others
hit_others-IsHit cfg me c k [] counts d ids b lt lt2 room = (
  record { nodes = []; count_collisions = counts; drawn = d; collisions = 0 },
  refl,
  record {
    ids = tt;
    size = refl;
    counts_size = refl;
    same = refl;
    after = tt;
    earlier = λ j lt3. refl;
    books = λ b1. b1;
  },
)
hit_others-IsHit cfg me c k (n ∷ ns) counts d ids b lt lt2 room =
    elim (Bool-cases (not (me == n.id) && is_ready n)) [
      | inr e ↦
          let (h, runs, v) =
            hit_others-IsHit cfg me c (suc k) ns counts d ids.1 b.1 lt lt2 (omega arith) in
          (
            record h { nodes = n ∷ h.nodes },
            rw (e, hit_others, runs) refl,
            record {
              ids = (ids.0, v.ids);
              size = ap suc v.size;
              counts_size = v.counts_size;
              same = omega (arith, v.same);
              after = (not_hit me c n b.0 e, v.after);
              earlier = λ j lt3. v.earlier j (omega arith);
              books = λ b1. (
                IsBooked-same counts h.count_collisions n (v.earlier n.id (omega (arith, ids.0)))
                    b1.0,
                v.books b1.1,
              );
            },
          )
      | inl e ↦
          let (x, got) = get_elem?-lt counts n.id (omega (arith, ids.0)) in
          let bumped : Node = record n { collision_count = suc n.collision_count } in
          let (q, off, le1, le2) =
            perform_backoff_lem cfg (cfg.rand d) bumped (omega (arith, b.0)) lt2 in
          let counts1 = set counts n.id (suc x) in
          let size1 = length-set counts n.id (suc x) in
          let others : (j : ℕ) → n.id ≢ j → get_elem? counts1 j ≡ get_elem? counts j =
            λ j ne. get_elem?-set_other counts n.id j (suc x) ne in
          let (h, runs, v) =
            hit_others-IsHit cfg me c (suc k) ns counts1 (suc d) ids.1 b.1 lt lt2
              (omega (arith, size1)) in
          (
            record h {
              nodes = record bumped { backoff_interval = suc q } ∷ h.nodes;
              collisions = suc h.collisions;
            },
            rw (e, hit_others, got, off, runs) refl,
            record {
              ids = (ids.0, v.ids);
              size = ap suc v.size;
              counts_size = v.counts_size ∙ size1;
              same = omega (arith, v.same);
              after = (inr (hit me n e, backed_off q bumped, omega (arith, b.0)), v.after);
              earlier =
                  λ j lt3. v.earlier j (omega arith) ∙ others j (λ p. omega (arith, p, lt3, ids.0));
              books = λ b1. (
                IsBooked-collision counts h.count_collisions n x (suc q) got
                    (v.earlier n.id (omega (arith, ids.0))
                      ∙ get_elem?-set_self counts n.id x (suc x) got)
                    b1.0,
                v.books (
                    IsBooked-from counts counts1 (suc k) ns ids.1
                      (λ j le. others j (λ p. omega (arith, p, le, ids.0))) b1.1),
              );
            },
          )
    ]
