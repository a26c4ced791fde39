-- ===== src/Events.antt =====
-- Inter Process Communication/Event_Reservation.cpp: the queries, where one runs at a time.
-- A query that would wait for another thread `waits`; an access out of bounds `faults`.
pub mod Steps
pub mod Alone
pub mod Turns
pub mod Threads
use network_os_simulation.Shared.{
  ℕ, zero, suc, ◌+◌, ◌%◌, List, [], ◌∷◌, ◌++◌, Option, none, some, Bool, true, false, ◌||◌, ltb,
  ◌==◌, if◌then◌else◌, length, get_elem?, set,
}
use network_os_simulation.Shared.Int.{ℤ, pos, negsuc, ◌+ℤ◌, ◌-ℤ◌, leb_ℤ, ltb_ℤ, eqb_ℤ}

pub data Run (A : Type 0) : Type 0 where
  done : A → Run A
  waits : Run A
  faults : Run A

infixl 5 ◌then◌
abbrev pub ◌then◌ : {A B : Type 0} → Run A → (A → Run B) → Run B
done a then f = f a
waits then f = waits
faults then f = faults

-- A value that is there, or a fault.
abbrev pub there : {A : Type 0} → Option A → Run A
there none = faults
there (some a) = done a

-- A row of `shared_table`: event, kind of the query, and number of queries.
pub record Row : Type 0 where
  pub event : ℤ
  pub kind : ℤ
  pub queries : ℤ

abbrev pub free_row : Row
free_row = record { event = negsuc 0; kind = negsuc 0; queries = negsuc 0 }

-- The globals of the program; `shown` has the numbers of seats that are printed.
pub record Office : Type 0 where
  pub events_arr : List ℤ
  pub concurrency : ℤ
  pub shared_table : List Row
  pub bookings : List ℕ
  pub shown : List ℤ

abbrev pub max_queries : ℕ
max_queries = 5

unfoldable pub capacity : ℤ
capacity = pos 500

unfoldable pub table_default : ℕ → Office → Office
table_default row_no s = record s { shared_table = set s.shared_table row_no free_row }

-- The last row for the event, from row `i` on, or `res`.
unfoldable pub finder : ℤ → List Row → ℕ → Option ℕ → Option ℕ
unfolding eqb_ℤ
finder event_no [] i res = res
finder event_no (row ∷ rows) i res =
    finder event_no rows (suc i) (if eqb_ℤ row.event event_no then some i else res)

unfoldable pub event_finder : ℤ → Office → Option ℕ
unfolding finder
event_finder event_no s = finder event_no s.shared_table 0 none

-- The query takes a free row.
unfoldable pub claim : ℕ → ℤ → Office → Run Office
unfolding event_finder ◌+ℤ◌
claim event_no kind s = there (event_finder (negsuc 0) s) then λ index.
    there (get_elem? s.shared_table index) then λ row. done (record s {
      shared_table =
          set s.shared_table index
            (record { event = pos event_no; kind = kind; queries = row.queries +ℤ pos 1 });
    })

-- The end of each query: the row of the event is free again.
unfoldable pub leave : ℕ → Office → Office
unfolding event_finder table_default ◌-ℤ◌
leave event_no s =
    let s1 = record s { concurrency = s.concurrency -ℤ pos 1 } in
    elim (event_finder (pos event_no) s1) [ some entry ↦ table_default entry s1 | none ↦ s1 ]

-- Prints the seats that are left.
unfoldable pub show_seats : ℕ → Office → Run Office
unfolding ◌-ℤ◌
show_seats event_no s = there (get_elem? s.events_arr event_no) then λ seats.
    done (record s { shown = s.shown ++ (pos 500 -ℤ seats) ∷ [] })

unfoldable pub enquiry : ℕ → Office → Run Office
unfolding event_finder claim leave show_seats eqb_ℤ
enquiry event_no s =
    (elim (event_finder (pos event_no) s) [
      | some entry ↦ there (get_elem? s.shared_table entry) then λ row.
          if eqb_ℤ row.kind (pos 1)
          then waits
          else show_seats event_no (record s {
            shared_table = set s.shared_table entry (record row { queries = row.queries +ℤ pos 1 });
          })
      | none ↦ claim event_no (pos 0) s then show_seats event_no
    ])
    then λ s1. done (leave event_no s1)

-- A booking and a cancellation wait while a query for the event is under way.
unfoldable pub wait_for : ℕ → Office → Run Office
unfolding event_finder eqb_ℤ
wait_for event_no s = elim (event_finder (pos event_no) s) [
  | none ↦ done s
  | some entry ↦ there (get_elem? s.shared_table entry) then λ row.
      if eqb_ℤ row.kind (pos 1) || eqb_ℤ row.kind (pos 0) then waits else done s
]

unfoldable pub reserve : ℕ → ℕ → Office → Run Office
unfolding capacity show_seats ◌+ℤ◌
reserve event_no total_seats s = there (get_elem? s.events_arr event_no) then λ seats.
    if leb_ℤ (seats +ℤ pos total_seats) capacity
    then show_seats event_no
        (record s { events_arr = set s.events_arr event_no (seats +ℤ pos total_seats) })
    else done s

unfoldable pub book_tickets : ℕ → ℕ → Office → Run Office
unfolding wait_for claim reserve leave
book_tickets event_no total_seats s =
    wait_for event_no s then claim event_no (pos 1) then reserve event_no total_seats then λ s1.
    done (leave event_no s1)

-- One seat less, without a test.
unfoldable pub give_back : ℕ → Office → Run Office
unfolding ◌-ℤ◌
give_back event_no s = there (get_elem? s.events_arr event_no) then λ seats.
    done (record s { events_arr = set s.events_arr event_no (seats -ℤ pos 1) })

unfoldable pub cancel_ticket : ℕ → Office → Run Office
unfolding wait_for claim show_seats give_back leave
cancel_ticket event_no s =
    wait_for event_no s
    then claim event_no (pos 1)
    then show_seats event_no
    then give_back event_no
    then show_seats event_no
    then λ s1. done (leave event_no s1)

-- The results of `rand` in one turn of query_function.
pub record Draws : Type 0 where
  pub selector : ℕ
  pub event : ℕ
  pub seats : ℕ
  pub booking : ℕ

unfoldable pub enter : Office → Office
unfolding ◌+ℤ◌
enter s = record s { concurrency = s.concurrency +ℤ pos 1 }

-- The query for `rand() % 3`.
unfoldable pub turn : ℕ → Draws → Office → Run Office
unfolding enter enquiry book_tickets cancel_ticket
turn zero d s = enquiry (d.event % 100) (enter s)
turn (suc zero) d s =
    book_tickets (d.event % 100) (d.seats % 500 + 1)
      (enter (record s { bookings = s.bookings ++ (d.event % 100) ∷ [] }))
turn (suc (suc _)) d s = elim s.bookings [
  | [] ↦ done s
  | b ∷ bs ↦ there (get_elem? s.bookings (d.booking % length s.bookings)) then λ chosen.
      cancel_ticket chosen (enter s)
]

unfoldable pub query : Draws → Office → Run Office
unfolding turn
query d s = if ltb_ℤ s.concurrency (pos max_queries) then turn (d.selector % 3) d s else waits

unfoldable pub queries : List Draws → Office → Run Office
unfolding query
queries [] s = done s
queries (d ∷ ds) s = query d s then queries ds
