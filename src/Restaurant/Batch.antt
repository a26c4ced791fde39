-- ===== src/Restaurant/Batch.antt =====
-- MultiThreading/Restaurant.cpp: the count of the diners inside is true, and below the batch.
use network_os_simulation.Shared.{
  ℕ, suc, ◌+◌, ◌-◌, ◌≤◌, ◌<◌, ◌≡◌, refl, ap, subst, ltb→lt, Option, none, some, Bool, true, false,
  ◌&&◌, arith, ltb, ◌==◌, if◌then◌else◌, List, [], ◌∷◌, Bool-cases, Option-cases, inl, inr, ◌>>=◌,
}
use network_os_simulation.Restaurant.{
  Place, loop_head, wait_front, wait_back, wait_inside, Restaurant, batch, notify_front,
  notify_back, depart, diner_enter, diner_leave, check_inside, check_back, open_front, main_section,
  Move, enter, leave, main, wake_diner, wake_main, move, moves, closed,
}

-- Whenever the mutex is free.
pub record IsSeated (s : Restaurant) : Type 0 where
  pub inside : s.diners_inside ≡ s.asleep + s.awake
  pub all_diners : s.outside + s.diners_inside ≡ 20
  pub room : s.diners_inside < batch

depart-IsSeated :
    (s : Restaurant)
    → s.diners_inside ≡ suc (s.asleep + s.awake)
    → s.outside + s.diners_inside ≡ 20
    → s.diners_inside ≤ batch
    → IsSeated (depart s)
unfolding depart notify_back
depart-IsSeated s e all le = elim (Bool-cases (s.diners_inside - 1 == 0)) [
  | inl z ↦
      rw (depart, z) (record { inside = omega arith; all_diners = omega arith; room = omega arith })
  | inr z ↦
      rw (depart, z) (record { inside = omega arith; all_diners = omega arith; room = omega arith })
]

diner_enter-IsSeated : (s : Restaurant) → IsSeated s → 0 < s.outside → IsSeated (diner_enter s)
unfolding diner_enter notify_back notify_front
diner_enter-IsSeated s v lt = elim (Bool-cases (suc s.diners_inside == batch)) [
  | inl z ↦
      rw (diner_enter, z)
        (depart-IsSeated _ (omega (arith, v.inside)) (omega (arith, v.all_diners))
          (omega (arith, v.room)))
  | inr z ↦
      rw (diner_enter, z)
        (record {
          inside = omega (arith, v.inside);
          all_diners = omega (arith, v.all_diners);
          room = ground (arith, v.room, z);
        })
]

diner_leave-IsSeated : (s : Restaurant) → IsSeated s → 0 < s.awake → IsSeated (diner_leave s)
unfolding diner_leave
diner_leave-IsSeated s v lt =
    depart-IsSeated _ (omega (arith, v.inside)) v.all_diners (omega (arith, v.room))

-- The main thread changes neither the diners nor their count.
abbrev SameDiners : Restaurant → Restaurant → Type 0
SameDiners s t =
    (t.diners_inside ≡ s.diners_inside)
    × (t.outside ≡ s.outside)
    × (t.asleep ≡ s.asleep)
    × (t.awake ≡ s.awake)

IsSeated-SameDiners : (s t : Restaurant) → SameDiners s t → IsSeated s → IsSeated t
IsSeated-SameDiners s t (i, o, a, w) v = record {
  inside = omega (arith, i, a, w, v.inside);
  all_diners = omega (arith, i, o, v.all_diners);
  room = omega (arith, i, v.room);
}

check_inside-SameDiners : (s : Restaurant) → SameDiners s (check_inside s)
unfolding check_inside
check_inside-SameDiners s = elim (Bool-cases (ltb 0 s.diners_inside)) [
  | inl e ↦ rw (check_inside, e) (refl, refl, refl, refl)
  | inr e ↦ rw (check_inside, e) (refl, refl, refl, refl)
]

check_back-SameDiners : (s : Restaurant) → SameDiners s (check_back s)
unfolding check_back
check_back-SameDiners s = go s.back
  where
    go :
        (b : Bool)
        → SameDiners s (if b then check_inside s else record s { place = wait_back; woken = false })
    go true = check_inside-SameDiners s
    go false = (refl, refl, refl, refl)

open_front-SameDiners : (s : Restaurant) → SameDiners s (open_front s)
unfolding open_front notify_front
open_front-SameDiners s = go (ltb s.diners_inside batch)
  where
    opened : Restaurant
    opened = notify_front (record s { front = true })

    go :
        (b : Bool)
        → SameDiners s
            (if b then record opened { place = wait_front; woken = false } else check_back opened)
    go true = (refl, refl, refl, refl)
    go false = check_back-SameDiners opened

main_section-SameDiners : (s : Restaurant) → SameDiners s (main_section s)
unfolding main_section
main_section-SameDiners s = go s.place
  where
    go :
        (p : Place)
        → SameDiners s (elim p [
          | loop_head ↦ open_front s
          | wait_front ↦ check_back s
          | wait_back ↦ check_inside s
          | wait_inside ↦ record s { place = loop_head; woken = true }
        ])
    go loop_head = open_front-SameDiners s
    go wait_front = check_back-SameDiners s
    go wait_back = check_inside-SameDiners s
    go wait_inside = (refl, refl, refl, refl)

-- A guarded result that is there.
guard-some :
    (c : Bool) (x t : Restaurant) → (if c then some x else none) ≡ some t → (c ≡ true) × (x ≡ t)
guard-some true x t e = (refl, ap (λ (o : Option Restaurant). elim o [ some y ↦ y | none ↦ x ]) e)
guard-some false x t e = absurd (ground arith)

move-IsSeated : (m : Move) (s t : Restaurant) → IsSeated s → move m s ≡ some t → IsSeated t
unfolding move
move-IsSeated enter s t v e =
    let (c, q) = guard-some (s.front && ltb 0 s.outside) (diner_enter s) t e in
    subst IsSeated q (diner_enter-IsSeated s v (there s.front s.outside c))
  where
    there : (b : Bool) (n : ℕ) → (b && ltb 0 n) ≡ true → 0 < n
    there true n c = ground arith
    there false n c = absurd (ground arith)
move-IsSeated leave s t v e =
    let (c, q) = guard-some (ltb 0 s.awake) (diner_leave s) t e in
    subst IsSeated q (diner_leave-IsSeated s v (ltb→lt 0 s.awake c))
move-IsSeated main s t v e =
    let (c, q) = guard-some s.woken (main_section s) t e in
    subst IsSeated q (IsSeated-SameDiners s (main_section s) (main_section-SameDiners s) v)
move-IsSeated wake_diner s t v e =
    let (c, q) =
      guard-some (ltb 0 s.asleep) (record s { asleep = s.asleep - 1; awake = suc s.awake }) t e in
    let lt = ltb→lt 0 s.asleep c in
    subst IsSeated q
      (record { inside = omega (arith, v.inside, lt); all_diners = v.all_diners; room = v.room })
move-IsSeated wake_main s t v e =
    subst IsSeated (guard-some true (record s { woken = true }) t e).1
      (record { inside = v.inside; all_diners = v.all_diners; room = v.room })

moves-IsSeated_from :
    (ms : List Move) (s t : Restaurant) → IsSeated s → moves ms s ≡ some t → IsSeated t
unfolding moves
moves-IsSeated_from [] s t v e = subst IsSeated (guard-some true s t e).1 v
moves-IsSeated_from (m ∷ ms) s t v e = elim (Option-cases (move m s)) [
  | inl q ↦ absurd (ground (arith, q, e))
  | inr (s1, q) ↦
      moves-IsSeated_from ms s1 t (move-IsSeated m s s1 v q)
        (subst (λ (o : Option Restaurant). (o >>= moves ms) ≡ some t) q e)
]

-- After any moves of the threads, wake-ups without a notification included, the counter of diners
-- inside is the number of those who wait or were woken there, no diner is lost, and when the mutex
-- is free there are fewer diners inside than a batch.
pub moves-IsSeated : (ms : List Move) (t : Restaurant) → moves ms closed ≡ some t → IsSeated t
moves-IsSeated ms t e =
    moves-IsSeated_from ms closed t
      (record { inside = refl; all_diners = refl; room = omega arith }) e
