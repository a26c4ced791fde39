-- ===== src/Tests/RestaurantTests.antt =====
-- MultiThreading/Restaurant.cpp: a first batch of diners.
use network_os_simulation.Shared.{
  ◌≡◌, refl, none, some, true, false, List, [], ◌∷◌, ◌++◌, replicate,
}
use network_os_simulation.Restaurant.{
  wait_front, wait_back, Restaurant, Move, enter, leave, main, move, moves, closed,
}
use network_os_simulation.Restaurant.Batch
use network_os_simulation.Restaurant.Batch.{IsSeated}
use network_os_simulation.Restaurant.Lost
use network_os_simulation.Restaurant.Lost.{IsNotified, all_leave}

-- The restaurant opens, ten diners enter, of whom the last leaves at once, and the other nine leave
-- before the main thread gets the mutex.
abbrev first_batch : List Move
first_batch = main ∷ (replicate 10 enter ++ (replicate 9 leave ++ main ∷ []))

-- The main thread then waits for a notification that was sent before.
abbrev lost : Restaurant
lost = record {
  front = false;
  back = false;
  diners_inside = 0;
  diners_served = 0;
  outside = 20;
  asleep = 0;
  awake = 0;
  place = wait_back;
  woken = false;
}

run_of_batch : moves first_batch closed ≡ some lost
unfolding moves
run_of_batch = refl

moves-IsSeated_example : IsSeated lost
moves-IsSeated_example = Batch.moves-IsSeated first_batch lost run_of_batch

-- The last of ten diners has entered and left again; the other nine are woken.
abbrev served : Restaurant
served = record {
  front = false;
  back = true;
  diners_inside = 9;
  diners_served = 1;
  outside = 11;
  asleep = 0;
  awake = 9;
  place = wait_front;
  woken = true;
}

run_to_served : moves (main ∷ replicate 10 enter) closed ≡ some served
unfolding moves
run_to_served = refl

leaves-stuck_example :
    (t : Restaurant) × (moves (all_leave 9) served ≡ some t)
    × ((m : Move) → IsNotified m → move m t ≡ none)
leaves-stuck_example = Lost.leaves-stuck 8 served (record {
  shut = refl;
  at_front = refl;
  main_woken = refl;
  none_asleep = refl;
  all_awake = refl;
  inside = refl;
})
