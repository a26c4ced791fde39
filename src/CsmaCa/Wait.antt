-- ===== src/CsmaCa/Wait.antt =====
-- NetworkProtocols/CSMA_CA_Simulation.cpp: the loops that start and delay the nodes.
use network_os_simulation.Shared.{
  ℕ, suc, ◌%◌, ◌<◌, ◌≡◌, refl, ap, ◌∙◌, inl, inr, List, [], ◌∷◌, Option, some, true, false, ◌&&◌,
  arith, length, get_elem?, All, ◌>>=◌, Bool-cases,
}
use network_os_simulation.CsmaCa.State.{Node, Config, attempt_transmission, is_other, count_down}
use network_os_simulation.CsmaCa.{perform_busy_backoff, start_all, wait_one, wait_all}
use network_os_simulation.CsmaCa.Books.{IsBooked, recorded}
use network_os_simulation.CsmaCa.Nodes.{HasIds, total, Bounded, remainder-pos}

-- The nodes differ in the backoff, in whether they transmit, and in the recorded times at most.
abbrev pub SameNodes : List Node → List Node → Type 0
SameNodes [] [] = Unit
SameNodes [] (m ∷ ms) = ⊥
SameNodes (n ∷ ns) [] = ⊥
SameNodes (n ∷ ns) (m ∷ ms) =
    (m.id ≡ n.id)
    × (m.collision_count ≡ n.collision_count)
    × (m.successful_transmissions ≡ n.successful_transmissions)
    × (m.collisions_before_success ≡ n.collisions_before_success)
    × SameNodes ns ms

pub HasIds-SameNodes : (k : ℕ) (ns ms : List Node) → SameNodes ns ms → HasIds k ns → HasIds k ms
HasIds-SameNodes k [] [] s h = tt
HasIds-SameNodes k [] (m ∷ ms) s h = elim s [ ]
HasIds-SameNodes k (n ∷ ns) [] s h = elim s [ ]
HasIds-SameNodes k (n ∷ ns) (m ∷ ms) (i, c, t, r, s) h =
    (i ∙ h.0, HasIds-SameNodes (suc k) ns ms s h.1)

pub Bounded-SameNodes : (c : ℕ) (ns ms : List Node) → SameNodes ns ms → Bounded c ns → Bounded c ms
Bounded-SameNodes c [] [] s h = tt
Bounded-SameNodes c [] (m ∷ ms) s h = elim s [ ]
Bounded-SameNodes c (n ∷ ns) [] s h = elim s [ ]
Bounded-SameNodes c (n ∷ ns) (m ∷ ms) (i, e, t, r, s) h =
    (omega (arith, e, h.0), Bounded-SameNodes c ns ms s h.1)

pub total-SameNodes : (ns ms : List Node) → SameNodes ns ms → total ms ≡ total ns
total-SameNodes [] [] s = refl
total-SameNodes [] (m ∷ ms) s = elim s [ ]
total-SameNodes (n ∷ ns) [] s = elim s [ ]
total-SameNodes (n ∷ ns) (m ∷ ms) (i, e, t, r, s) = omega (arith, t, total-SameNodes ns ms s)

pub IsBooked-SameNodes :
    (counts : List ℕ) (ns ms : List Node)
    → SameNodes ns ms
    → All (IsBooked counts) ns
    → All (IsBooked counts) ms
IsBooked-SameNodes counts [] [] s h = tt
IsBooked-SameNodes counts [] (m ∷ ms) s h = elim s [ ]
IsBooked-SameNodes counts (n ∷ ns) [] s h = elim s [ ]
IsBooked-SameNodes counts (n ∷ ns) (m ∷ ms) (i, e, t, r, s) ((x, got, sum, len), h) = (
  (
    x,
    ap (get_elem? counts) i ∙ got,
    omega (arith, ap recorded r, sum, e),
    omega (arith, ap (length {A = ℕ}) r, len, t),
  ),
  IsBooked-SameNodes counts ns ms s h,
)

pub length-SameNodes : (ns ms : List Node) → SameNodes ns ms → length ms ≡ length ns
length-SameNodes [] [] s = refl
length-SameNodes [] (m ∷ ms) s = elim s [ ]
length-SameNodes (n ∷ ns) [] s = elim s [ ]
length-SameNodes (n ∷ ns) (m ∷ ms) (i, e, t, r, s) = ap suc (length-SameNodes ns ms s)

module _ (cfg : Config) where
  pub start_all-SameNodes : (ns : List Node) (d : ℕ) → SameNodes ns (start_all cfg ns d).0
  unfolding start_all
  start_all-SameNodes [] d = tt
  start_all-SameNodes (n ∷ ns) d = elim (Bool-cases n.is_transmitting) [
    | inl e ↦ rw (e) (refl, refl, refl, refl, start_all-SameNodes ns d)
    | inr e ↦ rw (e) (refl, refl, refl, refl, start_all-SameNodes ns (suc d))
  ]

  delayed :
      (n : Node) (r : ℕ)
      → 0 < cfg.backoff_channel_busy
      → perform_busy_backoff cfg r n
        ≡ some (record n { backoff_interval = suc (r % cfg.backoff_channel_busy) })
  unfolding perform_busy_backoff
  delayed n r lt = rw (remainder-pos r cfg.backoff_channel_busy lt) refl

  wait_one-delayed :
      (busy : Option ℕ) (n : Node) (d : ℕ) (new : Node)
      → (is_other busy n && attempt_transmission n) ≡ true
      → n.is_transmitting ≡ true
      → perform_busy_backoff cfg (cfg.rand d) n ≡ some new
      → wait_one cfg busy n d ≡ some (new, suc d)
  unfolding wait_one
  wait_one-delayed busy n d new e f runs = rw (e, wait_one, f, runs) refl

  wait_one-silent :
      (busy : Option ℕ) (n : Node) (d : ℕ) (same : Node)
      → (is_other busy n && attempt_transmission n) ≡ true
      → n.is_transmitting ≡ false
      → n ≡ same
      → wait_one cfg busy n d ≡ some (same, d)
  unfolding wait_one
  wait_one-silent busy n d same e f q =
      rw (e, wait_one, f) (ap (λ (m : Node). let p : Node × ℕ = (m, d) in some p) q)

  -- A node that waits differs in its backoff at most.
  wait_one-Same :
      (busy : Option ℕ) (n : Node) (d : ℕ)
      → 0 < cfg.backoff_channel_busy
      → (m : Node) × (e : ℕ) × (wait_one cfg busy n d ≡ some (m, e))
        × (m.id ≡ n.id)
        × (m.collision_count ≡ n.collision_count)
        × (m.successful_transmissions ≡ n.successful_transmissions)
        × (m.collisions_before_success ≡ n.collisions_before_success)
  unfolding wait_one count_down
  wait_one-Same busy n d lt = elim (Bool-cases (is_other busy n && attempt_transmission n)) [
    | inr e ↦ (count_down n, d, rw (e, wait_one) refl, refl, refl, refl, refl)
    | inl e ↦ elim (Bool-cases n.is_transmitting) [
      | inr f ↦ (n, d, wait_one-silent busy n d n e f refl, refl, refl, refl, refl)
      | inl f ↦
          let q = cfg.rand d % cfg.backoff_channel_busy in
          (
            record n { backoff_interval = suc q },
            suc d,
            wait_one-delayed busy n d _ e f (delayed n (cfg.rand d) lt),
            refl,
            refl,
            refl,
            refl,
          )
    ]
  ]

  pub wait_all-SameNodes :
      (busy : Option ℕ) (ns : List Node) (d : ℕ)
      → 0 < cfg.backoff_channel_busy
      → (ms : List Node) × (e : ℕ) × (wait_all cfg busy ns d ≡ some (ms, e)) × SameNodes ns ms
  unfolding wait_all
  wait_all-SameNodes busy [] d lt = ([], d, refl, tt)
  wait_all-SameNodes busy (n ∷ ns) d lt =
      let (m, e, runs, i, c, t, r) = wait_one-Same busy n d lt in
      let (ms, e2, runs2, s) = wait_all-SameNodes busy ns e lt in
      (m ∷ ms, e2, rw (runs, ◌>>=◌, runs2) refl, (i, c, t, r, s))
