-- ===== src/Events/Threads.antt =====
-- Inter Process Communication/Event_Reservation.cpp: the worker threads, in any interleaving.
-- A step is one row of a search, which holds table_lock, or what a thread does between two points
-- where another can change what it reads: a `++`, `--` or `+=` of `concurrency` or of the seats of an
-- event reads in one step and writes in another; a write of a row is one step. A wait for a
-- condition may end at any time, by a signal or without one, and then tests the condition.
pub mod Change
pub mod Seats
pub mod Steps
pub mod Counted
pub mod Race
use network_os_simulation.Shared.{
  ℕ, zero, suc, ◌+◌, ◌%◌, List, [], ◌∷◌, ◌++◌, Option, none, some, Bool, true, false, ◌||◌, ltb,
  if◌then◌else◌, length, get_elem?, set, update, replicate,
}
use network_os_simulation.Shared.Int.{ℤ, pos, negsuc, ◌+ℤ◌, ◌-ℤ◌, leb_ℤ, ltb_ℤ, eqb_ℤ}
use network_os_simulation.Events.{
  Run, done, waits, faults, ◌then◌, there, Row, free_row, Office, max_queries, capacity,
  table_default, claim, show_seats, Draws,
}

-- A query that a thread has drawn: its event, and the seats of a booking.
pub data Query : Type 0 where
  enquire : ℕ → Query
  book : ℕ → ℕ → Query
  cancel : ℕ → Query

abbrev pub event_of : Query → ℕ
event_of (enquire e) = e
event_of (book e seats) = e
event_of (cancel e) = e

-- Where a thread is; a search has the next row and its result so far. `full` waits for `cond`,
-- `blocked` for `table_cond`; `adding` has passed the test of the capacity. `raising` and `lowering`
-- have read `concurrency`, `summing` and `returning` the seats of an event, and write next.
pub data Place : Type 0 where
  idle full : Place
  chosen acting leaving : Query → Place
  blocked : Query → ℕ → Place
  first free last : Query → ℕ → Option ℕ → Place
  adding : ℕ → ℕ → Place
  raising lowering : Query → ℤ → Place
  summing : ℕ → ℕ → ℤ → Place
  returning : ℕ → ℤ → Place

-- What the threads share; `locked` tells whether one holds concurrency_lock.
pub record Globals : Type 0 where
  pub office : Office
  pub locked : Bool

-- One of the bookings is cancelled, if there is one.
unfoldable pub pick : List ℕ → Draws → Globals → Run (Globals × Place)
pick [] d g = done (g, Place.idle)
pick (b ∷ bs) d g = there (get_elem? (b ∷ bs) (d.booking % length (b ∷ bs))) then λ e.
    done (g, Place.chosen (cancel e))

-- The query for `rand() % 3`, before `concurrency` is raised.
unfoldable pub choose : ℕ → Draws → Globals → Run (Globals × Place)
unfolding pick
choose zero d g = done (g, Place.chosen (enquire (d.event % 100)))
choose (suc zero) d g = done (g, Place.chosen (book (d.event % 100) (d.seats % 500 + 1)))
choose (suc (suc _)) d g = pick g.office.bookings d g

-- The write of `concurrency++`, where `c` was read, and `bookings.push_back`.
unfoldable pub begin : Query → ℤ → Office → Office
unfolding ◌+ℤ◌
begin (book e seats) c o = record o { concurrency = c +ℤ pos 1; bookings = o.bookings ++ e ∷ [] }
begin (enquire e) c o = record o { concurrency = c +ℤ pos 1 }
begin (cancel e) c o = record o { concurrency = c +ℤ pos 1 }

-- One row of event_finder.
unfoldable pub seek : ℤ → ℕ → Option ℕ → Office → Option ℕ
unfolding eqb_ℤ
seek event i res o = elim (get_elem? o.shared_table i) [
  | some row ↦ if eqb_ℤ row.event event then some i else res
  | none ↦ res
]

-- After the first search.
unfoldable pub found : Query → Option ℕ → Globals → Run (Globals × Place)
unfolding eqb_ℤ ◌+ℤ◌ show_seats
found q none g = done (g, Place.free q 0 none)
found (enquire e) (some entry) g = there (get_elem? g.office.shared_table entry) then λ row.
    if eqb_ℤ row.kind (pos 1)
    then done (g, Place.blocked (enquire e) entry)
    else show_seats e (record g.office {
      shared_table =
          set g.office.shared_table entry (record row { queries = row.queries +ℤ pos 1 });
    })
      then λ o. done (record g { office = o }, Place.leaving (enquire e))
found (book e seats) (some entry) g = done (g, Place.blocked (book e seats) entry)
found (cancel e) (some entry) g = done (g, Place.blocked (cancel e) entry)

-- The condition of the wait, and where it ends.
unfoldable pub busy : Query → Row → Bool
unfolding eqb_ℤ
busy (enquire e) row = eqb_ℤ row.kind (pos 1)
busy (book e seats) row = eqb_ℤ row.kind (pos 1) || eqb_ℤ row.kind (pos 0)
busy (cancel e) row = eqb_ℤ row.kind (pos 1) || eqb_ℤ row.kind (pos 0)

unfoldable pub after_wait : Query → Place
after_wait (enquire e) = Place.leaving (enquire e)
after_wait (book e seats) = Place.free (book e seats) 0 none
after_wait (cancel e) = Place.free (cancel e) 0 none

abbrev pub kind_of : Query → ℤ
kind_of (enquire e) = pos 0
kind_of (book e seats) = pos 1
kind_of (cancel e) = pos 1

-- The row that the second search found is taken; without one the program writes out of bounds.
unfoldable pub take_row : Query → Option ℕ → Globals → Run (Globals × Place)
unfolding ◌+ℤ◌
take_row q res g = there res then λ index. there (get_elem? g.office.shared_table index) then λ row.
    done (
      record g {
        office = record g.office {
          shared_table = set g.office.shared_table index (record {
            event = pos (event_of q);
            kind = kind_of q;
            queries = row.queries +ℤ pos 1;
          });
        };
      },
      Place.acting q,
    )

unfoldable pub act : Query → Globals → Run (Globals × Place)
unfolding capacity show_seats ◌+ℤ◌
act (enquire e) g =
    show_seats e g.office then λ o. done (record g { office = o }, Place.leaving (enquire e))
act (book e seats) g = there (get_elem? g.office.events_arr e) then λ x.
    if leb_ℤ (x +ℤ pos seats) capacity
    then done (g, Place.adding e seats)
    else done (g, Place.leaving (book e seats))
act (cancel e) g = show_seats e g.office then λ o.
    there (get_elem? o.events_arr e) then λ x. done (record g { office = o }, Place.returning e x)

-- The write of `events_arr[event_no]--`, where `x` was read.
unfoldable pub return_seat : ℕ → ℤ → Globals → Run (Globals × Place)
unfolding show_seats ◌-ℤ◌
return_seat e x g = there (get_elem? g.office.events_arr e) then λ _.
    show_seats e (record g.office { events_arr = set g.office.events_arr e (x -ℤ pos 1) }) then λ o.
    done (record g { office = o }, Place.leaving (cancel e))

-- The write of `events_arr[event_no] += total_seats`, where `x` was read.
unfoldable pub add_seats : ℕ → ℕ → ℤ → Globals → Run (Globals × Place)
unfolding show_seats ◌+ℤ◌
add_seats e seats x g = there (get_elem? g.office.events_arr e) then λ _.
    show_seats e (record g.office { events_arr = set g.office.events_arr e (x +ℤ pos seats) })
    then λ o. done (record g { office = o }, Place.leaving (book e seats))

-- The row that the last search found is free again, and the lock is released.
unfoldable pub finish : Option ℕ → Globals → Globals
unfolding table_default
finish none g = record g { locked = false }
finish (some entry) g = record { office = table_default entry g.office; locked = false }

unfoldable pub step : Draws → Place → Globals → Run (Globals × Place)
unfolding choose begin seek found busy after_wait take_row act add_seats return_seat finish ◌-ℤ◌
step d Place.idle g =
    if ltb_ℤ g.office.concurrency (pos max_queries)
    then choose (d.selector % 3) d g
    else done (g, Place.full)
step d Place.full g =
    if g.locked || leb_ℤ (pos max_queries) g.office.concurrency then waits else done (g, Place.idle)
step d (Place.chosen q) g = done (g, Place.raising q g.office.concurrency)
step d (Place.raising q c) g = done (record g { office = begin q c g.office }, Place.first q 0 none)
step d (Place.first q i res) g =
    if ltb i 5
    then done (g, Place.first q (suc i) (seek (pos (event_of q)) i res g.office))
    else found q res g
step d (Place.blocked q entry) g = there (get_elem? g.office.shared_table entry) then λ row.
    if busy q row then waits else done (g, after_wait q)
step d (Place.free q i res) g =
    if ltb i 5
    then done (g, Place.free q (suc i) (seek (negsuc 0) i res g.office))
    else take_row q res g
step d (Place.acting q) g = act q g
step d (Place.adding e seats) g =
    there (get_elem? g.office.events_arr e) then λ x. done (g, Place.summing e seats x)
step d (Place.summing e seats x) g = add_seats e seats x g
step d (Place.returning e x) g = return_seat e x g
step d (Place.leaving q) g =
    if g.locked
    then waits
    else done (record g { locked = true }, Place.lowering q g.office.concurrency)
step d (Place.lowering q c) g =
    done (record g { office = record g.office { concurrency = c -ℤ pos 1 } }, Place.last q 0 none)
step d (Place.last q i res) g =
    if ltb i 5
    then done (g, Place.last q (suc i) (seek (pos (event_of q)) i res g.office))
    else done (finish res g, Place.idle)

pub record World : Type 0 where
  pub globals : Globals
  pub place : ℕ → Place

-- Before the threads run.
unfoldable pub opening : World
opening = record {
  globals = record {
    office = record {
      events_arr = replicate 100 (pos 0);
      concurrency = pos 0;
      shared_table = replicate 5 free_row;
      bookings = [];
      shown = [];
    };
    locked = false;
  };
  place = λ _. Place.idle;
}

module _ (worker_threads : ℕ) where
  -- A step of thread `i`; a thread whose time is over makes none.
  unfoldable pub move : ℕ → Draws → World → Run World
  unfolding step
  move i d w =
      if ltb i worker_threads
      then (step d (w.place i) w.globals then λ r.
          done (record { globals = r.0; place = update w.place i r.1 }))
      else waits

  unfoldable pub moves : List (ℕ × Draws) → World → Run World
  unfolding move
  moves [] w = done w
  moves ((i, d) ∷ ms) w = move i d w then moves ms
