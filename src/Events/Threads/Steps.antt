-- ===== src/Events/Threads/Steps.antt =====
-- Inter Process Communication/Event_Reservation.cpp: what one step of a thread changes.
use network_os_simulation.Shared.{
  ℕ, zero, suc, ◌+◌, ◌%◌, ◌≤◌, ◌≡◌, refl, ap, sym, ◌∙◌, inl, List, [], ◌∷◌, Option, none, some,
  true, false, ◌||◌, arith, ltb, get_elem?, length,
}
use network_os_simulation.Shared.Int.{
  ℤ, pos, pos_part, neg_part, ◌+ℤ◌, ◌-ℤ◌, leb_ℤ, ltb_ℤ, +ℤ_parts, -ℤ_parts, eq_of_parts,
}
use network_os_simulation.Events.{there, max_queries, Draws, table_default}
use network_os_simulation.Events.Threads.{
  Query, enquire, book, cancel, Place, Globals, pick, choose, begin, busy, after_wait, finish, step,
}
use network_os_simulation.Events.Threads.Change.{
  holds, held, SeatsAfter, Change, Gives, Gives-then, Changes, still, Gives-if,
}
use network_os_simulation.Events.Threads.Seats.{
  found-Change, take_row-Change, act-Change, add_seats-Change, return_seat-Change, summing-Change,
  locked_of_held,
}

pick-Change : (bs : List ℕ) (d : Draws) (g : Globals) → Gives (Changes Place.idle g) (pick bs d g)
unfolding pick
pick-Change [] d g = still Place.idle g Place.idle refl refl (λ e. refl) (λ h. h)
pick-Change (b ∷ bs) d g =
    Gives-then (Changes Place.idle g) (there (get_elem? (b ∷ bs) (d.booking % length (b ∷ bs)))) _
      λ e _. still Place.idle g (Place.chosen (cancel e)) refl refl (λ e1. refl) (λ h. omega arith)

choose-Change : (k : ℕ) (d : Draws) (g : Globals) → Gives (Changes Place.idle g) (choose k d g)
unfolding choose
choose-Change zero d g =
    still Place.idle g (Place.chosen (enquire (d.event % 100))) refl refl (λ e. refl)
      (λ h. omega arith)
choose-Change (suc zero) d g =
    still Place.idle g (Place.chosen (book (d.event % 100) (d.seats % 500 + 1))) refl refl
      (λ e. refl) (λ h. omega arith)
choose-Change (suc (suc k)) d g = pick-Change g.office.bookings d g

one_more : (c : ℤ) → (c +ℤ pos 1) +ℤ pos 0 ≡ c +ℤ pos 1
one_more c = omega (arith, +ℤ_parts, eq_of_parts)

begin-Change :
    (q : Query) (c : ℤ) (g : Globals)
    → Change (Place.raising q c) g (Place.first q 0 none) (record g { office = begin q c g.office })
unfolding begin
begin-Change q c g = record { counted = entered q; lock = refl; seats = kept q; fits = λ h. h }
  where
    entered :
        (r : Query)
        → g.office.concurrency ≡ c
        → (begin r c g.office).concurrency +ℤ pos 0 ≡ g.office.concurrency +ℤ pos 1
    entered (enquire e) is = one_more c ∙ ap (λ k. k +ℤ pos 1) (sym is)
    entered (book e seats) is = one_more c ∙ ap (λ k. k +ℤ pos 1) (sym is)
    entered (cancel e) is = one_more c ∙ ap (λ k. k +ℤ pos 1) (sym is)

    kept :
        (r : Query)
        → g.office.concurrency ≡ c
        → SeatsAfter
            (Place.raising r c)
            g.office.events_arr
            (Place.first r 0 none)
            (begin r c g.office).events_arr
    kept (enquire e) is e1 x' at = (x', at, inl (omega arith))
    kept (book e seats) is e1 x' at = (x', at, inl (omega arith))
    kept (cancel e) is e1 x' at = (x', at, inl (omega arith))

finish-Change :
    (q : Query) (i : ℕ) (res found_row : Option ℕ) (g : Globals)
    → g.locked ≡ true
    → Change (Place.last q i res) g Place.idle (finish found_row g)
unfolding finish table_default
finish-Change q i res none g held_now = record {
  counted = λ _. refl;
  lock = ap (λ b. 0 + held b) held_now;
  seats = λ _ e x' at. (x', at, inl (omega arith));
  fits = λ h. omega arith;
}
finish-Change q i res (some entry) g held_now = record {
  counted = λ _. refl;
  lock = ap (λ b. 0 + held b) held_now;
  seats = λ _ e x' at. (x', at, inl (omega arith));
  fits = λ h. omega arith;
}

leave-Change :
    (q : Query) (g : Globals)
    → g.locked ≡ false
    → Change
        (Place.leaving q)
        g
        (Place.lowering q g.office.concurrency)
        (record g { locked = true })
leave-Change q g unlocked = record {
  counted = λ _. refl;
  lock = ap (λ b. 1 + held b) unlocked;
  seats = λ _ e x' at. (x', at, inl (omega arith));
  fits = λ h. h;
}

lower-Change :
    (q : Query) (c : ℤ) (g : Globals)
    → Change
        (Place.lowering q c)
        g
        (Place.last q 0 none)
        (record g { office = record g.office { concurrency = c -ℤ pos 1 } })
lower-Change q c g = record {
  counted = λ is. omega (arith, +ℤ_parts, -ℤ_parts, eq_of_parts, ap pos_part is, ap neg_part is);
  lock = refl;
  seats = λ _ e x' at. (x', at, inl (omega arith));
  fits = λ h. h;
}

blocked-Change :
    (q : Query) (entry : ℕ) (g : Globals) → Change (Place.blocked q entry) g (after_wait q) g
unfolding after_wait
blocked-Change (enquire e) entry g =
    still (Place.blocked (enquire e) entry) g (Place.leaving (enquire e)) refl refl (λ e1. refl)
      (λ h. h)
blocked-Change (book e seats) entry g =
    still (Place.blocked (book e seats) entry) g (Place.free (book e seats) 0 none) refl refl
      (λ e1. refl) (λ h. h)
blocked-Change (cancel e) entry g =
    still (Place.blocked (cancel e) entry) g (Place.free (cancel e) 0 none) refl refl (λ e1. refl)
      (λ h. h)

-- Every step of a thread, where a thread that has the lock finds it held.
pub step-Change :
    (d : Draws) (p : Place) (g : Globals)
    → holds p ≤ held g.locked
    → Gives (Changes p g) (step d p g)
unfolding step
step-Change d Place.idle g h =
    Gives-if (Changes Place.idle g) (ltb_ℤ g.office.concurrency (pos max_queries)) _ _
      (λ _. choose-Change (d.selector % 3) d g)
      (λ _. still Place.idle g Place.full refl refl (λ e. refl) (λ k. k))
step-Change d Place.full g h =
    Gives-if (Changes Place.full g) (g.locked || leb_ℤ (pos max_queries) g.office.concurrency) _ _
      (λ _. tt) (λ _. still Place.full g Place.idle refl refl (λ e. refl) (λ k. k))
step-Change d (Place.chosen q) g h =
    still (Place.chosen q) g (Place.raising q g.office.concurrency) refl refl (λ e. refl) (λ k. k)
step-Change d (Place.raising q c) g h = begin-Change q c g
step-Change d (Place.lowering q c) g h = lower-Change q c g
step-Change d (Place.first q i res) g h =
    let p = Place.first q i res in
    Gives-if (Changes p g) (ltb i 5) _ _
      (λ _. still p g (Place.first q (suc i) _) refl refl (λ e. refl) (λ k. k))
      (λ _. found-Change q i res g)
step-Change d (Place.blocked q entry) g h =
    let p = Place.blocked q entry in
    Gives-then (Changes p g) (there (get_elem? g.office.shared_table entry)) _
      λ row _. Gives-if (Changes p g) (busy q row) _ _ (λ _. tt) (λ _. blocked-Change q entry g)
step-Change d (Place.free q i res) g h =
    let p = Place.free q i res in
    Gives-if (Changes p g) (ltb i 5) _ _
      (λ _. still p g (Place.free q (suc i) _) refl refl (λ e. refl) (λ k. k))
      (λ _. take_row-Change q i res g)
step-Change d (Place.acting q) g h = act-Change q g
step-Change d (Place.adding e seats) g h =
    Gives-then (Changes (Place.adding e seats) g) (there (get_elem? g.office.events_arr e)) _
      λ x _. summing-Change e seats x g
step-Change d (Place.summing e seats x) g h = add_seats-Change e seats x g
step-Change d (Place.returning e x) g h = return_seat-Change e x g
step-Change d (Place.leaving q) g h =
    Gives-if (Changes (Place.leaving q) g) g.locked _ _ (λ _. tt)
      (λ unlocked. leave-Change q g unlocked)
step-Change d (Place.last q i res) g h =
    let p = Place.last q i res in
    Gives-if (Changes p g) (ltb i 5) _ _
      (λ _. still p g (Place.last q (suc i) _) refl refl (λ e. refl) (λ k. k))
      (λ _. finish-Change q i res res g (locked_of_held g.locked h))
