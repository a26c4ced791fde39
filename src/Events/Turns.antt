-- ===== src/Events/Turns.antt =====
-- Inter Process Communication/Event_Reservation.cpp: the turns of one thread that runs alone.
use native.Mathlib.Nat.{mod-lt}
use network_os_simulation.Shared.{
  ℕ, zero, suc, ◌+◌, ◌%◌, ◌<◌, ◌≡◌, refl, ap, ◌∙◌, inl, inr, List, [], ◌∷◌, ◌++◌, arith, length,
  set, All, All-append, All-get_elem?, All-set, get_elem?-lt, length-set,
}
use network_os_simulation.Shared.Int.{ℤ, pos, ◌+ℤ◌, ◌-ℤ◌, ◌≤ℤ◌, -ℤ_parts}
use network_os_simulation.Events.{
  Run, done, ◌then◌, there, Office, enquiry, book_tickets, cancel_ticket, Draws, turn, query,
  queries,
}
use network_os_simulation.Events.Steps.{idle, started, enter-idle}
use network_os_simulation.Events.Alone.{enquiry-idle, book_tickets-idle, cancel_ticket-idle}

-- The 100 events have no more seats taken than there are, and bookings are for these events.
pub record IsOpen (arr : List ℤ) (books : List ℕ) : Type 0 where
  pub size : length arr ≡ 100
  pub fits : All (λ x. x ≤ℤ pos 500) arr
  pub made : All (λ b. b < 100) books

-- The run ends with no query under way.
abbrev pub EndsIdle : Run Office → Type 0
EndsIdle run =
    (arr : List ℤ) × (books : List ℕ) × (shown : List ℤ) × (run ≡ done (idle arr books shown))
    × IsOpen arr books

IsOpen-set :
    (arr : List ℤ) (books : List ℕ) (e : ℕ) (x : ℤ)
    → IsOpen arr books
    → x ≤ℤ pos 500
    → IsOpen (set arr e x) books
IsOpen-set arr books e x o le = record {
  size = length-set arr e x ∙ o.size;
  fits = All-set (λ y. y ≤ℤ pos 500) arr e x o.fits le;
  made = o.made;
}

cancel-EndsIdle :
    (arr : List ℤ) (books : List ℕ) (shown : List ℤ) (e : ℕ)
    → IsOpen arr books
    → e < 100
    → EndsIdle (cancel_ticket e (started arr books shown))
cancel-EndsIdle arr books shown e o lt =
    let (x, at) = get_elem?-lt arr e (omega (arith, o.size)) in
    let le : x ≤ℤ pos 500 = All-get_elem? (λ y. y ≤ℤ pos 500) arr e x o.fits at in
    (
      set arr e (x -ℤ pos 1),
      books,
      (shown ++ (pos 500 -ℤ x) ∷ []) ++ (pos 500 -ℤ (x -ℤ pos 1)) ∷ [],
      cancel_ticket-idle arr books shown e x at,
      IsOpen-set arr books e (x -ℤ pos 1) o (omega (arith, le, -ℤ_parts x (pos 1))),
    )

turn-EndsIdle :
    (k : ℕ) (d : Draws) (arr : List ℤ) (books : List ℕ) (shown : List ℤ)
    → IsOpen arr books
    → EndsIdle (turn k d (idle arr books shown))
unfolding turn
turn-EndsIdle zero d arr books shown o =
    let e = d.event % 100 in
    let small : e < 100 = mod-lt d.event (omega arith) in
    let (x, at) = get_elem?-lt arr e (omega (arith, o.size, small)) in
    (
      arr,
      books,
      shown ++ (pos 500 -ℤ x) ∷ [],
      ap (enquiry e) (enter-idle arr books shown) ∙ enquiry-idle arr books shown e x at,
      o,
    )
turn-EndsIdle (suc zero) d arr books shown o =
    let e = d.event % 100 in
    let t = d.seats % 500 + 1 in
    let small : e < 100 = mod-lt d.event (omega arith) in
    let books1 = books ++ e ∷ [] in
    let (x, at) = get_elem?-lt arr e (omega (arith, o.size, small)) in
    let o1 : IsOpen arr books1 = record {
      size = o.size;
      fits = o.fits;
      made = All-append (λ b. b < 100) books (e ∷ []) o.made (small, tt);
    } in
    elim (book_tickets-idle arr books1 shown e t x at) [
      | inl (le, r) ↦ (
        set arr e (x +ℤ pos t),
        books1,
        shown ++ (pos 500 -ℤ (x +ℤ pos t)) ∷ [],
        ap (book_tickets e t) (enter-idle arr books1 shown) ∙ r,
        IsOpen-set arr books1 e (x +ℤ pos t) o1 le,
      )
      | inr (gt, r) ↦
          (arr, books1, shown, ap (book_tickets e t) (enter-idle arr books1 shown) ∙ r, o1)
    ]
turn-EndsIdle (suc (suc k)) d arr [] shown o = (arr, [], shown, refl, o)
turn-EndsIdle (suc (suc k)) d arr (b ∷ bs) shown o =
    let i = d.booking % length (b ∷ bs) in
    let (e, chosen) = get_elem?-lt (b ∷ bs) i (mod-lt d.booking (omega arith)) in
    let small : e < 100 = All-get_elem? (λ y. y < 100) (b ∷ bs) i e o.made chosen in
    let (arr1, books1, shown1, r, o1) = cancel-EndsIdle arr (b ∷ bs) shown e o small in
    (
      arr1,
      books1,
      shown1,
      rw (chosen, there, ◌then◌) (ap (cancel_ticket e) (enter-idle arr (b ∷ bs) shown) ∙ r),
      o1,
    )

-- Where no query is under way, no event is overbooked, and all bookings are for the 100 events,
-- any sequence of queries of one thread that runs alone ends: no query waits for ever or leaves
-- the arrays. After it no query is under way, the table is free, and still no event is overbooked.
pub queries-EndsIdle :
    (ds : List Draws) (arr : List ℤ) (books : List ℕ) (shown : List ℤ)
    → IsOpen arr books
    → EndsIdle (queries ds (idle arr books shown))
unfolding queries query
queries-EndsIdle [] arr books shown o = (arr, books, shown, refl, o)
queries-EndsIdle (d ∷ ds) arr books shown o =
    let (arr1, books1, shown1, r1, o1) = turn-EndsIdle (d.selector % 3) d arr books shown o in
    let (arr2, books2, shown2, r2, o2) = queries-EndsIdle ds arr1 books1 shown1 o1 in
    (arr2, books2, shown2, rw (r1, ◌then◌) r2, o2)
