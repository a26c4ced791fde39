-- ===== src/Restaurant.antt =====
-- MultiThreading/Restaurant.cpp: the diners and the main thread around one mutex.
-- A move is what one thread does from taking the mutex until it waits or gives the mutex back.
pub mod Batch
pub mod Lost
use network_os_simulation.Shared.{
  ℕ, zero, suc, ◌+◌, ◌-◌, ◌≡◌, Option, none, some, Bool, true, false, ◌&&◌, ltb, ◌==◌,
  if◌then◌else◌, List, [], ◌∷◌, ◌>>=◌,
}

-- `N`
abbrev pub batch : ℕ
batch = 10

-- Where the main thread goes on.
pub data Place : Type 0 where
  loop_head wait_front wait_back : Place
  wait_inside : Place

-- The globals; how many diners are outside, wait inside, or are woken there; and the main thread,
-- which runs if it is woken.
pub record Restaurant : Type 0 where
  pub front : Bool
  pub back : Bool
  pub diners_inside : ℕ
  pub diners_served : ℕ
  pub outside : ℕ
  pub asleep : ℕ
  pub awake : ℕ
  pub place : Place
  pub woken : Bool

unfoldable pub waits_front : Place → Bool
waits_front wait_front = true
waits_front _ = false

unfoldable pub waits_back : Place → Bool
waits_back wait_back = true
waits_back wait_inside = true
waits_back _ = false

-- `cv_front.notify_all()`: the diners outside look at `front` anyway.
unfoldable pub notify_front : Restaurant → Restaurant
unfolding waits_front
notify_front s = record s { woken = if waits_front s.place then true else s.woken }

-- `cv_back.notify_all()`
unfoldable pub notify_back : Restaurant → Restaurant
unfolding waits_back
notify_back s = record s {
  asleep = 0;
  awake = s.awake + s.asleep;
  woken = if waits_back s.place then true else s.woken;
}

-- The end of a diner's round.
unfoldable pub depart : Restaurant → Restaurant
unfolding notify_back
depart s =
    let s1 = record s {
      diners_inside = s.diners_inside - 1;
      diners_served = suc s.diners_served;
      outside = suc s.outside;
    } in
    if s1.diners_inside == 0
    then record (notify_back (record s1 { back = false })) { diners_served = 0 }
    else s1

-- A diner that finds `front` true: the last one of a batch serves and leaves at once.
unfoldable pub diner_enter : Restaurant → Restaurant
unfolding notify_front notify_back depart
diner_enter s =
    let s1 = record s { diners_inside = suc s.diners_inside; outside = s.outside - 1 } in
    if s1.diners_inside == batch
    then depart (notify_back (record (notify_front (record s1 { front = false })) { back = true }))
    else record s1 { asleep = suc s.asleep }

-- A diner that was woken inside.
unfoldable pub diner_leave : Restaurant → Restaurant
unfolding depart
diner_leave s = depart (record s { awake = s.awake - 1 })

unfoldable pub check_inside : Restaurant → Restaurant
check_inside s =
    if ltb 0 s.diners_inside
    then record s { place = wait_inside; woken = false }
    else record s { place = loop_head; woken = true }

unfoldable pub check_back : Restaurant → Restaurant
unfolding check_inside
check_back s = if s.back then check_inside s else record s { place = wait_back; woken = false }

unfoldable pub open_front : Restaurant → Restaurant
unfolding notify_front check_back
open_front s =
    let s1 = notify_front (record s { front = true }) in
    if ltb s1.diners_inside batch
    then record s1 { place = wait_front; woken = false }
    else check_back s1

-- The main thread from one wait to the next.
unfoldable pub main_section : Restaurant → Restaurant
unfolding open_front check_back check_inside
main_section s = elim s.place [
  | loop_head ↦ open_front s
  | wait_front ↦ check_back s
  | wait_back ↦ check_inside s
  | wait_inside ↦ record s { place = loop_head; woken = true }
]

-- The last two are wake-ups without a notification, which condition variables allow.
pub data Move : Type 0 where
  enter leave main : Move
  wake_diner wake_main : Move

unfoldable pub move : Move → Restaurant → Option Restaurant
unfolding diner_enter diner_leave main_section
move enter s = if s.front && ltb 0 s.outside then some (diner_enter s) else none
move leave s = if ltb 0 s.awake then some (diner_leave s) else none
move main s = if s.woken then some (main_section s) else none
move wake_diner s =
    if ltb 0 s.asleep then some (record s { asleep = s.asleep - 1; awake = suc s.awake }) else none
move wake_main s = some (record s { woken = true })

unfoldable pub moves : List Move → Restaurant → Option Restaurant
unfolding move
moves [] s = some s
moves (m ∷ ms) s = do s1 ← move m s; moves ms s1

-- 20 diners are outside, and the main thread starts.
abbrev pub closed : Restaurant
closed = record {
  front = false;
  back = false;
  diners_inside = 0;
  diners_served = 0;
  outside = 20;
  asleep = 0;
  awake = 0;
  place = loop_head;
  woken = true;
}
