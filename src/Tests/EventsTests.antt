-- ===== src/Tests/EventsTests.antt =====
-- Inter Process Communication/Event_Reservation.cpp: queries at an office without bookings.
use network_os_simulation.Shared.{
  ℕ, zero, suc, ◌≡◌, refl, List, [], ◌∷◌, ◌++◌, none, some, false, update, get_elem?, ℕ_discrete,
  All, replicate, arith,
}
use network_os_simulation.Shared.Int.{ℤ, pos, negsuc, ◌≤ℤ◌, ◌+ℤ◌}
use network_os_simulation.Events.{Run, done, faults, ◌then◌, free_row, Draws, queries}
use network_os_simulation.Events.Threads.{World, Place, enquire, book, opening, moves}
use network_os_simulation.Events.Threads.Counted
use network_os_simulation.Events.Threads.Counted.{IsLocked, IsCounted, Undisturbed}
use network_os_simulation.Events.Threads.Race
use network_os_simulation.Events.Steps.{idle}
use network_os_simulation.Events.Turns
use network_os_simulation.Events.Turns.{IsOpen, EndsIdle}

abbrev no_seats : List ℤ
no_seats = replicate 100 (pos 0)

all_fit : (n : ℕ) → All (λ x. x ≤ℤ pos 500) (replicate n (pos 0))
all_fit zero = tt
all_fit (suc n) = (omega arith, all_fit n)

abbrev draw : ℕ → ℕ → ℕ → ℕ → Draws
draw k e n b = record { selector = k; event = e; seats = n; booking = b }

-- 300 seats of event 7, 300 more that are refused, and a cancellation.
queries-EndsIdle_example :
    EndsIdle (queries (draw 1 7 299 0 ∷ draw 1 7 299 0 ∷ draw 2 0 0 1 ∷ []) (idle no_seats [] []))
queries-EndsIdle_example =
    Turns.queries-EndsIdle (draw 1 7 299 0 ∷ draw 1 7 299 0 ∷ draw 2 0 0 1 ∷ []) no_seats [] []
      (record { size = refl; fits = all_fit 100; made = tt })

abbrev few : List ℤ
few = pos 0 ∷ pos 499 ∷ []

-- A booking of event 0 and two cancellations of it leave one seat less than none taken, and 501 seats
-- available.
negative :
    queries (draw 1 0 0 0 ∷ draw 2 0 0 0 ∷ draw 2 0 0 0 ∷ []) (idle few [] [])
    ≡ done (
        idle
          (negsuc 0 ∷ pos 499 ∷ [])
          (0 ∷ [])
          (pos 499 ∷ pos 499 ∷ pos 500 ∷ pos 500 ∷ pos 501 ∷ []))
unfolding queries
negative = refl

-- Thread 0 has entered a booking of 300 seats of event 7, and looks at the first row.
abbrev entered_world : World
entered_world = record {
  globals = record {
    office = record {
      events_arr = no_seats;
      concurrency = pos 1;
      shared_table = replicate 5 free_row;
      bookings = 7 ∷ [];
      shown = [];
    };
    locked = false;
  };
  place =
      update
        (update (update (λ _. Place.idle) 0 (Place.chosen (book 7 300))) 0
          (Place.raising (book 7 300) (pos 0)))
        0 (Place.first (book 7 300) 0 none);
}

abbrev entering : List (ℕ × Draws)
entering = replicate 3 (0, draw 1 7 299 0)

moves-entered : moves 20 entering opening ≡ done entered_world
unfolding moves opening ℕ_discrete
moves-entered = refl

entered_alone : Undisturbed 20 entering opening
unfolding moves opening ℕ_discrete
entered_alone = (tt, (tt, (refl, tt)))

moves-IsCounted_example : IsLocked 20 entered_world × IsCounted 20 entered_world × (pos 1 ≤ℤ pos 20)
moves-IsCounted_example =
    Counted.moves-IsCounted 20 entering entered_world moves-entered entered_alone

abbrev seen : World → Run (ℤ × Place × Place)
seen w = done (w.globals.office.concurrency, w.place 0, w.place 1)

-- Two threads read `concurrency` before one of them writes: it is 1 with two queries under way.
lost_update :
    (moves 20
        ((0, draw 0 7 0 0)
          ∷ (1, draw 0 8 0 0)
          ∷ (0, draw 0 7 0 0)
          ∷ (1, draw 0 8 0 0)
          ∷ (0, draw 0 7 0 0)
          ∷ (1, draw 0 8 0 0)
          ∷ [])
        opening
      then seen)
    ≡ done (pos 1, Place.first (enquire 7) 0 none, Place.first (enquire 8) 0 none)
unfolding moves opening ℕ_discrete
lost_update = refl

-- Two threads before the test for 300 seats of event 1 each.
abbrev both_acting : World
both_acting = record entered_world {
  globals = record {
    office = record entered_world.globals.office { events_arr = few; concurrency = pos 2 };
    locked = false;
  };
  place = λ i. Place.acting (book 0 300);
}

moves-overbooked_example :
    (w' : World) × (moves 2
        ((0, draw 0 0 0 0)
          ∷ (1, draw 0 0 0 0)
          ∷ (0, draw 0 0 0 0)
          ∷ (0, draw 0 0 0 0)
          ∷ (1, draw 0 0 0 0)
          ∷ (1, draw 0 0 0 0)
          ∷ [])
        both_acting
      ≡ done w')
    × (get_elem? w'.globals.office.events_arr 0 ≡ some ((pos 0 +ℤ pos 300) +ℤ pos 300))
unfolding ◌+ℤ◌
moves-overbooked_example =
    Race.moves-overbooked 2 0 1 both_acting 0 300 300 (pos 0) (draw 0 0 0 0) (omega arith)
      (omega arith) (λ e. omega (arith, e)) refl refl refl (omega arith) (omega arith)

-- From the beginning: both bookings of 300 seats of event 7 find the capacity of 500 free.
overbooked :
    (moves 2
        (replicate 9 (0, draw 1 7 299 0)
          ++ replicate 9 (1, draw 1 7 299 0)
          ++ replicate 6 (0, draw 1 7 299 0)
          ++ replicate 6 (1, draw 1 7 299 0)
          ++ (0, draw 1 7 299 0)
            ∷ (1, draw 1 7 299 0)
            ∷ (0, draw 1 7 299 0)
            ∷ (0, draw 1 7 299 0)
            ∷ (1, draw 1 7 299 0)
            ∷ (1, draw 1 7 299 0)
            ∷ [])
        opening
      then λ w. done w.globals.office.shown)
    ≡ done (pos 200 ∷ negsuc 99 ∷ [])
unfolding moves opening ℕ_discrete
overbooked = refl

-- The number of queries is tested before it is raised: six threads pass the test, and the sixth
-- finds no free row and writes out of bounds.
abbrev six : List (ℕ × Draws)
six =
    (0, draw 0 0 0 0)
    ∷ (1, draw 0 1 0 0)
    ∷ (2, draw 0 2 0 0)
    ∷ (3, draw 0 3 0 0)
    ∷ (4, draw 0 4 0 0)
    ∷ (5, draw 0 5 0 0)
    ∷ []

-- Each goes on up to its row.
abbrev one_by_one : List (ℕ × Draws) → List (ℕ × Draws)
one_by_one [] = []
one_by_one (m ∷ ms) = replicate 14 m ++ one_by_one ms

sixth_faults : moves 20 (six ++ one_by_one six) opening ≡ faults
unfolding moves opening ℕ_discrete
sixth_faults = refl
