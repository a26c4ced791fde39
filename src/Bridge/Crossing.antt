-- ===== src/Bridge/Crossing.antt =====
-- MultiThreading/Bridge.cpp: one traveller at a time, and all of them cross.
use network_os_simulation.Shared.{
  ℕ, zero, suc, ◌+◌, ◌≤◌, ◌≡◌, refl, ap, subst, inl, inr, List, [], ◌∷◌, Option, none, some, Bool,
  true, false, arith, get_elem?, set, length, Option-cases, ◌>>=◌,
}
use network_os_simulation.Bridge.{
  Place, arriving, travelling, completed, Traveller, Bridge, Move, lock, unlock, lock_bridge,
  unlock_bridge, move, moves, start,
}

-- How many are on the bridge.
abbrev pub on_bridge : Place → ℕ
on_bridge travelling = 1
on_bridge _ = 0

-- The moves that a traveller has before it.
abbrev pub to_do : Place → ℕ
to_do arriving = 2
to_do travelling = 1
to_do completed = 0

abbrev pub sum_of : (Place → ℕ) → List Traveller → ℕ
sum_of f [] = 0
sum_of f (t ∷ ts) = f t.place + sum_of f ts

sum_of-set :
    (f : Place → ℕ) (ts : List Traveller) (i : ℕ) (old new : Traveller)
    → get_elem? ts i ≡ some old
    → sum_of f (set ts i new) + f old.place ≡ sum_of f ts + f new.place
sum_of-set f [] i old new e = absurd (ground arith)
sum_of-set f (t ∷ ts) zero old new e =
    subst
      (λ (x : Traveller).
        f new.place + sum_of f ts + f x.place ≡ f t.place + sum_of f ts + f new.place)
      (same t old e) (omega arith)
  where
    same : (x y : Traveller) → some x ≡ some y → x ≡ y
    same x y q = ap (λ (o : Option Traveller). elim o [ some z ↦ z | none ↦ x ]) q
sum_of-set f (t ∷ ts) (suc i) old new e = omega (arith, sum_of-set f ts i old new e)

abbrev pub held_by : Bool → ℕ
held_by true = 1
held_by false = 0

-- One is on the bridge exactly if the mutex is held; `k` moves are still to do.
pub record IsCrossing (k : ℕ) (s : Bridge) : Type 0 where
  pub alone : sum_of on_bridge s.travellers ≡ held_by s.held
  pub work : sum_of to_do s.travellers ≡ k

locked : ℕ → Traveller → Bridge → Bridge
locked i x s = record {
  held = true;
  travellers = set s.travellers i (record x { place = travelling });
}

unlocked : ℕ → Traveller → Bridge → Bridge
unlocked i x s = record {
  held = false;
  travellers = set s.travellers i (record x { place = completed });
}

some-inj : (x y : Bridge) → some x ≡ some y → x ≡ y
some-inj x y q = ap (λ (o : Option Bridge). elim o [ some z ↦ z | none ↦ x ]) q

lock_bridge-some :
    (i : ℕ) (x : Traveller) (s t : Bridge)
    → lock_bridge i x s ≡ some t
    → (x.place ≡ arriving) × (s.held ≡ false) × (locked i x s ≡ t)
unfolding lock_bridge locked
lock_bridge-some i x s t = go x.place s.held
  where
    go :
        (p : Place) (b : Bool)
        → (elim p [
          | arriving ↦ elim b [ true ↦ none | false ↦ some (locked i x s) ]
          | travelling ↦ none
          | completed ↦ none
        ])
          ≡ some t
        → (p ≡ arriving) × (b ≡ false) × (locked i x s ≡ t)
    go arriving true e = absurd (ground arith)
    go arriving false e = (refl, refl, some-inj (locked i x s) t e)
    go travelling b e = absurd (ground arith)
    go completed b e = absurd (ground arith)

unlock_bridge-some :
    (i : ℕ) (x : Traveller) (s t : Bridge)
    → unlock_bridge i x s ≡ some t
    → (x.place ≡ travelling) × (unlocked i x s ≡ t)
unfolding unlock_bridge unlocked
unlock_bridge-some i x s t = go x.place
  where
    go :
        (p : Place)
        → (elim p [ arriving ↦ none | travelling ↦ some (unlocked i x s) | completed ↦ none ])
          ≡ some t
        → (p ≡ travelling) × (unlocked i x s ≡ t)
    go arriving e = absurd (ground arith)
    go travelling e = (refl, some-inj (unlocked i x s) t e)
    go completed e = absurd (ground arith)

-- A move of the traveller `i` does one of the things to do.
abbrev pub Advances : ℕ → Bridge → Type 0
Advances k t = (j : ℕ) × (k ≡ suc j) × IsCrossing j t

locked-Advances :
    (k i : ℕ) (s : Bridge) (x : Traveller)
    → IsCrossing k s
    → get_elem? s.travellers i ≡ some x
    → x.place ≡ arriving
    → s.held ≡ false
    → Advances k (locked i x s)
unfolding locked
locked-Advances k i s x v at p free =
    let new : Traveller = record x { place = travelling } in
    let a = sum_of-set on_bridge s.travellers i x new at in
    let w = sum_of-set to_do s.travellers i x new at in
    let a0 : on_bridge x.place ≡ 0 = ap on_bridge p in
    let w0 : to_do x.place ≡ 2 = ap to_do p in
    let h0 : held_by s.held ≡ 0 = ap held_by free in
    (
      sum_of to_do (set s.travellers i new),
      omega (arith, w, w0, v.work),
      record { alone = omega (arith, a, a0, h0, v.alone); work = refl },
    )

-- Who is on the bridge holds the mutex.
held_by-le : (b : Bool) → held_by b ≤ 1
held_by-le true = omega arith
held_by-le false = omega arith

unlocked-Advances :
    (k i : ℕ) (s : Bridge) (x : Traveller)
    → IsCrossing k s
    → get_elem? s.travellers i ≡ some x
    → x.place ≡ travelling
    → Advances k (unlocked i x s)
unfolding unlocked
unlocked-Advances k i s x v at p =
    let new : Traveller = record x { place = completed } in
    let a = sum_of-set on_bridge s.travellers i x new at in
    let w = sum_of-set to_do s.travellers i x new at in
    let a0 : on_bridge x.place ≡ 1 = ap on_bridge p in
    let w0 : to_do x.place ≡ 1 = ap to_do p in
    (
      sum_of to_do (set s.travellers i new),
      omega (arith, w, w0, v.work),
      record { alone = omega (arith, a, a0, held_by-le s.held, v.alone); work = refl },
    )

pub move-Advances :
    (m : Move) (k : ℕ) (s t : Bridge) → IsCrossing k s → move m s ≡ some t → Advances k t
unfolding move
move-Advances (lock i) k s t v e = elim (Option-cases (get_elem? s.travellers i)) [
  | inl q ↦ absurd (ground (arith, q, e))
  | inr (x, at) ↦
      let (p, free, q) =
        lock_bridge-some i x s t
          (subst (λ (o : Option Traveller). (o >>= λ y. lock_bridge i y s) ≡ some t) at e) in
      subst (Advances k) q (locked-Advances k i s x v at p free)
]
move-Advances (unlock i) k s t v e = elim (Option-cases (get_elem? s.travellers i)) [
  | inl q ↦ absurd (ground (arith, q, e))
  | inr (x, at) ↦
      let (p, q) =
        unlock_bridge-some i x s t
          (subst (λ (o : Option Traveller). (o >>= λ y. unlock_bridge i y s) ≡ some t) at e) in
      subst (Advances k) q (unlocked-Advances k i s x v at p)
]

moves-IsCrossing_from :
    (ms : List Move) (k : ℕ) (s t : Bridge)
    → IsCrossing k s
    → moves ms s ≡ some t
    → (j : ℕ) × (k ≡ j + length ms) × IsCrossing j t
unfolding moves
moves-IsCrossing_from [] k s t v e = (k, omega arith, subst (IsCrossing k) (some-inj s t e) v)
moves-IsCrossing_from (m ∷ ms) k s t v e = elim (Option-cases (move m s)) [
  | inl q ↦ absurd (ground (arith, q, e))
  | inr (s1, q) ↦
      let (j, less, v1) = move-Advances m k s s1 v q in
      let (i, more, v2) =
        moves-IsCrossing_from ms j s1 t v1
          (subst (λ (o : Option Bridge). (o >>= moves ms) ≡ some t) q e) in
      (i, omega (arith, less, more), v2)
]

-- After any moves of the 40 travellers one is on the bridge if the mutex is held, and none if it
-- is free; and as many of the 80 moves are still to do as were not made.
pub moves-IsCrossing :
    (ms : List Move) (t : Bridge)
    → moves ms start ≡ some t
    → (j : ℕ) × (80 ≡ j + length ms) × IsCrossing j t
unfolding start
moves-IsCrossing ms t e =
    moves-IsCrossing_from ms 80 start t (record { alone = refl; work = refl }) e
