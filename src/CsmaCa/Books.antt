-- ===== src/CsmaCa/Books.antt =====
-- NetworkProtocols/CSMA_CA_Simulation.cpp: the collisions that are recorded and counted.
use network_os_simulation.Shared.{
  ℕ, zero, suc, ◌+◌, ◌≤◌, ◌≡◌, ◌≢◌, refl, sym, ◌∙◌, List, [], ◌∷◌, ◌++◌, some, Bool, arith, length,
  get_elem?, set, All,
}
use network_os_simulation.CsmaCa.State.{Node}
use network_os_simulation.CsmaCa.Nodes.{HasIds}

-- The sum of the records.
abbrev pub recorded : List ℕ → ℕ
recorded [] = 0
recorded (x ∷ xs) = x + recorded xs

-- The recorded collisions of a node, one record for each success, and those counted since the last
-- one make up its counter of collisions.
abbrev pub IsBooked : List ℕ → Node → Type 0
IsBooked counts n =
    (x : ℕ) × (get_elem? counts n.id ≡ some x)
    × (recorded n.collisions_before_success + x ≡ n.collision_count)
    × (length n.collisions_before_success ≡ n.successful_transmissions)

recorded-append : (xs : List ℕ) (x : ℕ) → recorded (xs ++ x ∷ []) ≡ recorded xs + x
recorded-append [] x = omega arith
recorded-append (y ∷ xs) x = omega (arith, recorded-append xs x)

length-append_one : (xs : List ℕ) (x : ℕ) → length (xs ++ x ∷ []) ≡ suc (length xs)
length-append_one [] x = refl
length-append_one (y ∷ xs) x = omega (arith, length-append_one xs x)

module _ (counts after : List ℕ) where
  pub IsBooked-same :
      (n : Node)
      → get_elem? after n.id ≡ get_elem? counts n.id
      → IsBooked counts n
      → IsBooked after n
  IsBooked-same n e (x, got, sum, len) = (x, e ∙ got, sum, len)

  -- The counters of the nodes from `k` on are the same.
  pub IsBooked-from :
      (k : ℕ) (ns : List Node)
      → HasIds k ns
      → ((j : ℕ) → k ≤ j → get_elem? after j ≡ get_elem? counts j)
      → All (IsBooked counts) ns
      → All (IsBooked after) ns
  IsBooked-from k [] ids same b = tt
  IsBooked-from k (n ∷ ns) ids same b = (
    IsBooked-same n (same n.id (omega (arith, ids.0))) b.0,
    IsBooked-from (suc k) ns ids.1 (λ j le. same j (omega arith)) b.1,
  )

  -- One node is written, and only its counter may change.
  pub IsBooked-set :
      (k : ℕ) (ns : List Node) (i : ℕ) (new : Node)
      → HasIds k ns
      → ((j : ℕ) → j ≢ k + i → get_elem? after j ≡ get_elem? counts j)
      → IsBooked after new
      → All (IsBooked counts) ns
      → All (IsBooked after) (set ns i new)
  IsBooked-set k [] i new ids same own b = tt
  IsBooked-set k (n ∷ ns) zero new ids same own b =
      (own, IsBooked-from (suc k) ns ids.1 (λ j le. same j (λ e. omega arith)) b.1)
  IsBooked-set k (n ∷ ns) (suc i) new ids same own b = (
    IsBooked-same n (same n.id (λ e. omega (arith, e, ids.0))) b.0,
    IsBooked-set (suc k) ns i new ids.1 (λ j ne. same j (λ e. ne (omega (arith, e)))) own b.1,
  )

  -- A collision is counted.
  pub IsBooked-collision :
      (n : Node) (x q : ℕ)
      → get_elem? counts n.id ≡ some x
      → get_elem? after n.id ≡ some (suc x)
      → IsBooked counts n
      → IsBooked after (record n { collision_count = suc n.collision_count; backoff_interval = q })
  IsBooked-collision n x q got now (y, was, sum, len) =
      let same : some y ≡ some x = sym was ∙ got in (suc x, now, ground (arith, same, sum), len)

  -- A success records the collisions that were counted, and counts from 0 again.
  pub IsBooked-success :
      (n : Node) (x : ℕ) (again : Bool) (times : List ℕ)
      → get_elem? counts n.id ≡ some x
      → get_elem? after n.id ≡ some 0
      → IsBooked counts n
      → IsBooked after (record n {
        is_transmitting = again;
        collisions_before_success = n.collisions_before_success ++ x ∷ [];
        time_before_success = times;
        successful_transmissions = suc n.successful_transmissions;
      })
  IsBooked-success n x again times got now (y, was, sum, len) =
      let same : some y ≡ some x = sym was ∙ got in
      (
        0,
        now,
        ground (arith, same, sum, recorded-append n.collisions_before_success x),
        omega (arith, len, length-append_one n.collisions_before_success x),
      )
