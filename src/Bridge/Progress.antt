-- ===== src/Bridge/Progress.antt =====
-- MultiThreading/Bridge.cpp: some traveller can move until all have crossed, and so all can cross.
use network_os_simulation.Shared.{
  ℕ, zero, suc, ◌+◌, sym, subst, length, All, ◌<◌, ◌≡◌, refl, ap, ◌∙◌, List, [], ◌∷◌, Option, none,
  some, Bool, true, false, arith, get_elem?, set, ◌>>=◌, Bool-cases, inl, inr, ◌⊎◌,
}
use network_os_simulation.Bridge.{
  Place, arriving, travelling, completed, Traveller, Bridge, Move, lock, unlock, lock_bridge,
  unlock_bridge, move, moves, start,
}
use network_os_simulation.Bridge.Crossing.{
  on_bridge, to_do, sum_of, held_by, IsCrossing, move-Advances, moves-IsCrossing,
}

-- A traveller that is at a place.
abbrev Finds : Place → List Traveller → Type 0
Finds p ts = (i : ℕ) × (x : Traveller) × (get_elem? ts i ≡ some x) × (x.place ≡ p)

Place-cases : (p : Place) → (p ≡ arriving) ⊎ (p ≡ travelling) ⊎ (p ≡ completed)
Place-cases arriving = inl refl
Place-cases travelling = inr (inl refl)
Place-cases completed = inr (inr refl)

later : (p : Place) (t : Traveller) (ts : List Traveller) → Finds p ts → Finds p (t ∷ ts)
later p t ts (i, x, at, e) = (suc i, x, at, e)

find_travelling : (ts : List Traveller) → 0 < sum_of on_bridge ts → Finds travelling ts
find_travelling [] lt = absurd (omega arith)
find_travelling (t ∷ ts) lt = elim (Place-cases t.place) [
  | inl e ↦ later travelling t ts (find_travelling ts (omega (arith, lt, ap on_bridge e)))
  | inr (inl e) ↦ (0, t, refl, e)
  | inr (inr e) ↦ later travelling t ts (find_travelling ts (omega (arith, lt, ap on_bridge e)))
]

find_arriving :
    (ts : List Traveller) → sum_of on_bridge ts ≡ 0 → 0 < sum_of to_do ts → Finds arriving ts
find_arriving [] z lt = absurd (omega arith)
find_arriving (t ∷ ts) z lt = elim (Place-cases t.place) [
  | inl e ↦ (0, t, refl, e)
  | inr (inl e) ↦ absurd (omega (arith, z, ap on_bridge e))
  | inr (inr e) ↦
      later arriving t ts (find_arriving ts (omega arith) (omega (arith, lt, ap to_do e)))
]

can_lock :
    (i : ℕ) (s : Bridge) (x : Traveller)
    → get_elem? s.travellers i ≡ some x
    → x.place ≡ arriving
    → s.held ≡ false
    → (t : Bridge) × (move (lock i) s ≡ some t)
unfolding move lock_bridge
can_lock i s x at p free = (
  record { held = true; travellers = set s.travellers i (record x { place = travelling }) },
  ap (λ (o : Option Traveller). o >>= λ y. lock_bridge i y s) at
      ∙ (ap
            (λ (q : Place). elim q [
              | arriving ↦ elim s.held [
                | true ↦ none
                | false ↦ some (record {
                  held = true;
                  travellers = set s.travellers i (record x { place = travelling });
                })
              ]
              | travelling ↦ none
              | completed ↦ none
            ])
            p
          ∙ ap
              (λ (b : Bool). elim b [
                | true ↦ none
                | false ↦ some (record {
                  held = true;
                  travellers = set s.travellers i (record x { place = travelling });
                })
              ])
              free),
)

can_unlock :
    (i : ℕ) (s : Bridge) (x : Traveller)
    → get_elem? s.travellers i ≡ some x
    → x.place ≡ travelling
    → (t : Bridge) × (move (unlock i) s ≡ some t)
unfolding move unlock_bridge
can_unlock i s x at p =
    let t : Bridge = record {
      held = false;
      travellers = set s.travellers i (record x { place = completed });
    } in
    (
      t,
      ap (λ (o : Option Traveller). o >>= λ y. unlock_bridge i y s) at
          ∙ ap (λ (q : Place). elim q [ arriving ↦ none | travelling ↦ some t | completed ↦ none ])
              p,
    )

-- As long as a move is still to do, and one traveller is on the bridge exactly if the mutex is held,
-- some traveller can move.
move-enabled :
    (j : ℕ) (s : Bridge) → IsCrossing (suc j) s → (m : Move) × (t : Bridge) × (move m s ≡ some t)
move-enabled j s v = elim (Bool-cases s.held) [
  | inl e ↦
      let (i, x, at, p) = find_travelling s.travellers (omega (arith, v.alone, ap held_by e)) in
      let (t, e2) = can_unlock i s x at p in (unlock i, t, e2)
  | inr e ↦
      let (i, x, at, p) =
        find_arriving s.travellers (v.alone ∙ ap held_by e) (omega (arith, v.work)) in
      let (t, e2) = can_lock i s x at p e in (lock i, t, e2)
]

-- The moves that are still to do can be made.
finishes :
    (k : ℕ) (s : Bridge)
    → IsCrossing k s
    → (ms : List Move) × (t : Bridge) × (moves ms s ≡ some t) × (length ms ≡ k) × IsCrossing 0 t
unfolding moves
finishes zero s v = ([], s, refl, refl, v)
finishes (suc k) s v =
    let (m, s1, e) = move-enabled k s v in
    let (j, less, v1) = move-Advances m (suc k) s s1 v e in
    let (ms, t, run, size, v2) =
      finishes k s1 (subst (λ i. IsCrossing i s1) (omega (arith, less)) v1) in
    (m ∷ ms, t, rw (e) run, ap suc size, v2)

all_completed :
    (ts : List Traveller) → sum_of to_do ts ≡ 0 → All (λ (x : Traveller). x.place ≡ completed) ts
all_completed [] e = tt
all_completed (x ∷ ts) e = elim (Place-cases x.place) [
  | inl p ↦ absurd (omega (arith, e, ap to_do p))
  | inr (inl p) ↦ absurd (omega (arith, e, ap to_do p))
  | inr (inr p) ↦ (p, all_completed ts (omega (arith, e)))
]

none_on_bridge :
    (ts : List Traveller)
    → All (λ (x : Traveller). x.place ≡ completed) ts
    → sum_of on_bridge ts ≡ 0
none_on_bridge [] h = refl
none_on_bridge (x ∷ ts) h = omega (arith, ap on_bridge h.0, none_on_bridge ts h.1)

free_held : (b : Bool) → held_by b ≡ 0 → b ≡ false
free_held true e = absurd (omega (arith, e))
free_held false e = refl

-- Whatever moves the 40 travellers have made, moves that bring the number up to 80 can follow,
-- after which every traveller has crossed and the mutex is free.
pub moves-finish :
    (ms : List Move) (s : Bridge)
    → moves ms start ≡ some s
    → (rest : List Move) × (t : Bridge) × (moves rest s ≡ some t)
      × (length ms + length rest ≡ 80)
      × All (λ (x : Traveller). x.place ≡ completed) t.travellers
      × (t.held ≡ false)
moves-finish ms s e =
    let (k, left, v) = moves-IsCrossing ms s e in
    let (rest, t, run, size, v1) = finishes k s v in
    let crossed = all_completed t.travellers v1.work in
    (
      rest,
      t,
      run,
      omega (arith, left, size),
      crossed,
      free_held t.held (sym v1.alone ∙ none_on_bridge t.travellers crossed),
    )
