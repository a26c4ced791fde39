-- ===== src/Restaurant/Lost.antt =====
-- MultiThreading/Restaurant.cpp: a notification that is lost, after which no notified thread is left.
use network_os_simulation.Shared.{
  ℕ, zero, suc, ◌-◌, ◌≡◌, refl, ap, ◌∙◌, List, [], ◌∷◌, some, none, true, false, arith, ltb, ◌==◌,
  if◌then◌else◌, inl, inr, Bool-cases, ◌>>=◌,
}
use network_os_simulation.Restaurant.{
  wait_front, wait_back, Restaurant, Move, enter, leave, main, wake_diner, wake_main, move, moves,
  depart, diner_leave, notify_back, waits_back, main_section, check_back,
}

-- The front is shut, nobody was woken inside, and the main thread waits.
record IsStuck (s : Restaurant) : Type 0 where
  shut : s.front ≡ false
  none_awake : s.awake ≡ 0
  main_waits : s.woken ≡ false

-- A move that needs no wake-up without a notification.
abbrev pub IsNotified : Move → Type 0
IsNotified wake_diner = ⊥
IsNotified wake_main = ⊥
IsNotified _ = Unit

move-stuck : (m : Move) (s : Restaurant) → IsNotified m → IsStuck s → move m s ≡ none
unfolding move
move-stuck enter s n h = rw (h.shut) refl
move-stuck leave s n h = rw (h.none_awake) refl
move-stuck main s n h = rw (h.main_waits) refl
move-stuck wake_diner s n h = elim n [ ]
move-stuck wake_main s n h = elim n [ ]

-- The front is shut, `k` diners are inside, all of them woken, and the main thread, which was woken
-- at the front, does not have the mutex yet.
pub record IsServed (k : ℕ) (s : Restaurant) : Type 0 where
  pub shut : s.front ≡ false
  pub at_front : s.place ≡ wait_front
  pub main_woken : s.woken ≡ true
  pub none_asleep : s.asleep ≡ 0
  pub all_awake : s.awake ≡ k
  pub inside : s.diners_inside ≡ k

leave-IsServed :
    (k : ℕ) (s : Restaurant)
    → IsServed (suc k) s
    → (s1 : Restaurant) × (move leave s ≡ some s1) × IsServed k s1 × (k ≡ 0 → s1.back ≡ false)
unfolding move diner_leave depart notify_back waits_back
leave-IsServed k s h =
    let someone : ltb 0 s.awake ≡ true = ground (arith, h.all_awake) in
    elim (Bool-cases (s.diners_inside - 1 == 0)) [
      | inl z ↦ (
        diner_leave s,
        rw someone refl,
        rw (diner_leave, depart, z)
            (record {
              shut = h.shut;
              at_front = h.at_front;
              main_woken =
                  ap (λ p. if waits_back p then true else s.woken) h.at_front ∙ h.main_woken;
              none_asleep = refl;
              all_awake = omega (arith, h.all_awake, h.none_asleep);
              inside = omega (arith, h.inside);
            }),
        λ e. rw (diner_leave, depart, z) refl,
      )
      | inr z ↦ (
        diner_leave s,
        rw someone refl,
        rw (diner_leave, depart, z)
            (record {
              shut = h.shut;
              at_front = h.at_front;
              main_woken = h.main_woken;
              none_asleep = h.none_asleep;
              all_awake = omega (arith, h.all_awake);
              inside = omega (arith, h.inside);
            }),
        λ e. absurd (ground (arith, z, h.inside, e)),
      )
    ]

-- The main thread finds `back` false, and waits.
main-IsStuck :
    (s : Restaurant)
    → IsServed 0 s
    → s.back ≡ false
    → (t : Restaurant) × (move main s ≡ some t) × IsStuck t
unfolding move main_section check_back
main-IsStuck s h over = (
  record s { place = wait_back; woken = false },
  rw (h.main_woken, h.at_front, over) refl,
  record { shut = h.shut; none_awake = h.all_awake; main_waits = refl },
)

-- The moves of the diners that leave, and then of the main thread.
abbrev pub all_leave : ℕ → List Move
all_leave zero = main ∷ []
all_leave (suc k) = leave ∷ all_leave k

leaves-IsStuck :
    (k : ℕ) (s : Restaurant)
    → IsServed k s
    → (k ≡ 0 → s.back ≡ false)
    → (t : Restaurant) × (moves (all_leave k) s ≡ some t) × IsStuck t
unfolding moves
leaves-IsStuck zero s h over =
    let (t, runs, stuck) = main-IsStuck s h (over refl) in (t, rw (runs, ◌>>=◌) refl, stuck)
leaves-IsStuck (suc k) s h over =
    let (s1, first, h1, over1) = leave-IsServed k s h in
    let (t, rest, stuck) = leaves-IsStuck k s1 h1 over1 in (t, rw (first, ◌>>=◌) rest, stuck)

-- A notification is lost: where the front is shut and the main thread, woken there, does not have
-- the mutex yet, the diners inside, one or more and all woken, can all leave before it. It then
-- waits for the back, and no thread can move any more until a condition variable wakes one without
-- a notification.
pub leaves-stuck :
    (k : ℕ) (s : Restaurant)
    → IsServed (suc k) s
    → (t : Restaurant) × (moves (all_leave (suc k)) s ≡ some t)
      × ((m : Move) → IsNotified m → move m t ≡ none)
leaves-stuck k s h =
    let (t, runs, stuck) = leaves-IsStuck (suc k) s h (λ e. absurd (omega (arith, e))) in
    (t, runs, λ m n. move-stuck m t n stuck)
