-- ===== src/Ecommerce/Stats.antt =====
-- MultiThreading/Ecommerce.cpp: the sums of waiting and turnaround times, before the division by the
-- number of requests, and the count of the requests that waited.
use network_os_simulation.Shared.{
  ℕ, suc, ◌+◌, ◌≡◌, List, [], ◌∷◌, inl, inr, true, false, arith, if◌then◌else◌, Bool-cases, ap, ◌∙◌,
}
use network_os_simulation.Shared.Int.{
  ℤ, pos, negsuc, ◌+ℤ◌, ltb_ℤ, eqb_ℤ, pos_part, neg_part, eqb_ℤ_iff, int_laws,
}

unfoldable pub add_waits : List ℤ → ℤ × ℕ → ℤ × ℕ
add_waits [] (sum, waits) = (sum, waits)
add_waits (t ∷ ts) (sum, waits) =
    add_waits ts (if ltb_ℤ (pos 0) t then (sum +ℤ t, suc waits) else (sum, waits))

unfoldable pub all_waits : List (List ℤ) → ℤ × ℕ → ℤ × ℕ
unfolding add_waits
all_waits [] acc = acc
all_waits (ts ∷ rest) acc = all_waits rest (add_waits ts acc)

unfoldable pub add_turnarounds : List ℤ → ℤ → ℤ
add_turnarounds [] sum = sum
add_turnarounds (t ∷ ts) sum =
    add_turnarounds ts (if eqb_ℤ t (negsuc 0) then sum else sum +ℤ (t +ℤ pos 1))

unfoldable pub all_turnarounds : List (List ℤ) → ℤ → ℤ
unfolding add_turnarounds
all_turnarounds [] sum = sum
all_turnarounds (ts ∷ rest) sum = all_turnarounds rest (add_turnarounds ts sum)

-- Every time is a number of rounds, or -1 for a rejected request.
abbrev pub AreTimes : List ℤ → Type 0
AreTimes [] = Unit
AreTimes (pos n ∷ ts) = AreTimes ts
AreTimes (negsuc n ∷ ts) = (n ≡ 0) × AreTimes ts

abbrev pub AllAreTimes : List (List ℤ) → Type 0
AllAreTimes [] = Unit
AllAreTimes (ts ∷ rest) = AreTimes ts × AllAreTimes rest

-- The requests that are not rejected.
abbrev pub executed : List ℤ → ℕ
executed [] = 0
executed (pos n ∷ ts) = suc (executed ts)
executed (negsuc n ∷ ts) = executed ts

abbrev pub all_executed : List (List ℤ) → ℕ
all_executed [] = 0
all_executed (ts ∷ rest) = executed ts + all_executed rest

counts : (m : ℕ) → eqb_ℤ (pos m) (negsuc 0) ≡ false
counts m = elim (Bool-cases (eqb_ℤ (pos m) (negsuc 0))) [
  | inl e ↦ absurd (ground (arith, (eqb_ℤ_iff (pos m) (negsuc 0)).0 e))
  | inr e ↦ e
]

none_waited : (m : ℕ) → ltb_ℤ (pos 0) (pos m) ≡ false → m ≡ 0
none_waited m e = ground arith

add_turnarounds-add_waits :
    (ts : List ℤ) (sum sum2 : ℤ) (n waits : ℕ)
    → AreTimes ts
    → sum2 ≡ sum +ℤ pos n
    → add_turnarounds ts sum2 ≡ (add_waits ts (sum, waits)).0 +ℤ pos (n + executed ts)
unfolding add_turnarounds add_waits
add_turnarounds-add_waits [] sum sum2 n waits h e = e ∙ ap (λ k. sum +ℤ pos k) (omega arith)
add_turnarounds-add_waits (negsuc m ∷ ts) sum sum2 n waits (z, h) e =
    let skipped : eqb_ℤ (negsuc m) (negsuc 0) ≡ true =
      (eqb_ℤ_iff (negsuc m) (negsuc 0)).1 (ap negsuc z) in
    let short : ltb_ℤ (pos 0) (negsuc m) ≡ false = ground arith in
    rw (skipped, add_waits, short) (add_turnarounds-add_waits ts sum sum2 n waits h e)
add_turnarounds-add_waits (pos m ∷ ts) sum sum2 n waits h e =
    let counted : eqb_ℤ (pos m) (negsuc 0) ≡ false = counts m in
    elim (Bool-cases (ltb_ℤ (pos 0) (pos m))) [
      | inl waited ↦
          rw (counted, add_waits, waited)
            (add_turnarounds-add_waits ts (sum +ℤ pos m) (sum2 +ℤ (pos m +ℤ pos 1)) (suc n)
                (suc waits) h (omega (int_laws, ap pos_part e, ap neg_part e))
              ∙ ap (λ k. (add_waits ts (sum +ℤ pos m, suc waits)).0 +ℤ pos k) (omega arith))
      | inr at_once ↦
          rw (counted, add_waits, at_once)
            (add_turnarounds-add_waits ts sum (sum2 +ℤ (pos m +ℤ pos 1)) (suc n) waits h
                (omega (int_laws, ap pos_part e, ap neg_part e, none_waited m at_once))
              ∙ ap (λ k. (add_waits ts (sum, waits)).0 +ℤ pos k) (omega arith))
    ]

all_turnarounds-all_waits_from :
    (wt_time : List (List ℤ)) (sum sum2 : ℤ) (n waits : ℕ)
    → AllAreTimes wt_time
    → sum2 ≡ sum +ℤ pos n
    → all_turnarounds wt_time sum2
      ≡ (all_waits wt_time (sum, waits)).0 +ℤ pos (n + all_executed wt_time)
unfolding all_turnarounds all_waits
all_turnarounds-all_waits_from [] sum sum2 n waits h e = e ∙ ap (λ k. sum +ℤ pos k) (omega arith)
all_turnarounds-all_waits_from (ts ∷ rest) sum sum2 n waits (h, hs) e =
    let acc = add_waits ts (sum, waits) in
    all_turnarounds-all_waits_from rest acc.0 (add_turnarounds ts sum2) (n + executed ts) acc.1 hs
      (add_turnarounds-add_waits ts sum sum2 n waits h e)
    ∙ ap (λ k. (all_waits rest acc).0 +ℤ pos k) (omega arith)

-- Where every entry is a number of rounds or -1 for a rejected request, the sum of the turnaround
-- times is the sum of the waiting times and 1 for each request that is not rejected.
pub all_turnarounds-all_waits :
    (wt_time : List (List ℤ))
    → AllAreTimes wt_time
    → all_turnarounds wt_time (pos 0)
      ≡ (all_waits wt_time (pos 0, 0)).0 +ℤ pos (all_executed wt_time)
all_turnarounds-all_waits wt_time h =
    all_turnarounds-all_waits_from wt_time (pos 0) (pos 0) 0 0 h (omega int_laws)
    ∙ ap (λ k. (all_waits wt_time (pos 0, 0)).0 +ℤ pos k) (omega arith)
