-- ===== src/Events/Threads/Seats.antt =====
-- Inter Process Communication/Event_Reservation.cpp: the steps that read or write seats.
use network_os_simulation.Shared.{
  ℕ, ◌≤◌, ◌≡◌, refl, sym, ap, subst, ◌∙◌, inl, inr, Option, none, some, Bool, true, false, arith,
  get_elem?, set, ◌≢◌, ℕ_discrete,
}
use network_os_simulation.Shared.Int.{
  ℤ, pos, pos_part, neg_part, ◌+ℤ◌, ◌-ℤ◌, ◌≤ℤ◌, leb_ℤ, eqb_ℤ, +ℤ_parts, -ℤ_parts, leb_ℤ_iff,
}
use network_os_simulation.Events.{there, Office, capacity, show_seats}
use network_os_simulation.Events.Threads.{
  Query, enquire, book, cancel, Place, Globals, found, take_row, act, add_seats, return_seat,
}
use network_os_simulation.Events.Threads.Change.{
  held, pending, Change, Gives, Gives-then, show_seats-SameCounts, Changes, quiet, still, Gives-if,
  there-done, set_cases,
}

pub found-Change :
    (q : Query) (i : ℕ) (res : Option ℕ) (g : Globals)
    → Gives (Changes (Place.first q i res) g) (found q res g)
unfolding found
found-Change q i none g =
    still (Place.first q i none) g (Place.free q 0 none) refl refl (λ e. refl) (λ h. h)
found-Change (enquire e) i (some entry) g =
    let p = Place.first (enquire e) i (some entry) in
    Gives-then (Changes p g) (there (get_elem? g.office.shared_table entry)) _ λ row _.
      Gives-if (Changes p g) (eqb_ℤ row.kind (pos 1)) _ _
        (λ _. still p g (Place.blocked (enquire e) entry) refl refl (λ e1. refl) (λ h. h))
        (λ _. Gives-then (Changes p g) (show_seats e _) _ λ o shown.
          let same = show_seats-SameCounts e _ o shown in
          quiet p g (Place.leaving (enquire e)) (record g { office = o })
            (record { arr = same.arr; conc = same.conc }) refl refl refl (λ e1. refl) (λ h. h))
found-Change (book e seats) i (some entry) g =
    still (Place.first (book e seats) i (some entry)) g (Place.blocked (book e seats) entry) refl
      refl (λ e1. refl) (λ h. h)
found-Change (cancel e) i (some entry) g =
    still (Place.first (cancel e) i (some entry)) g (Place.blocked (cancel e) entry) refl refl
      (λ e1. refl) (λ h. h)

pub take_row-Change :
    (q : Query) (i : ℕ) (res : Option ℕ) (g : Globals)
    → Gives (Changes (Place.free q i res) g) (take_row q res g)
unfolding take_row
take_row-Change q i res g =
    let p = Place.free q i res in
    Gives-then (Changes p g) (there res) _ λ index _.
      Gives-then (Changes p g) (there (get_elem? g.office.shared_table index)) _ λ row _.
        quiet p g (Place.acting q) _ (record { arr = refl; conc = refl }) refl refl refl (λ e. refl)
          (λ h. h)

less_by_one : (x : ℤ) → (x -ℤ pos 1) +ℤ pos 0 ≤ℤ x +ℤ pos 0
less_by_one x = omega (arith, +ℤ_parts, -ℤ_parts)

canceled :
    (e : ℕ) (x : ℤ) (g : Globals) (o : Office)
    → o.events_arr ≡ set g.office.events_arr e (x -ℤ pos 1)
    → o.concurrency ≡ g.office.concurrency
    → Change (Place.returning e x) g (Place.leaving (cancel e)) (record g { office = o })
canceled e x g o arr conc = record {
  counted = λ _. ap (λ c. c +ℤ pos 1) conc;
  lock = refl;
  seats = λ before e2 x' at.
      elim (set_cases g.office.events_arr e x (x -ℤ pos 1) e2 x' before
        (ap (λ l. get_elem? l e2) (sym arr) ∙ at)) [
          | inl (same, is) ↦ (
            x,
            ap (get_elem? g.office.events_arr) same ∙ before,
            inl (subst (λ y. y +ℤ pos 0 ≤ℤ x +ℤ pos 0) (sym is) (less_by_one x)),
          )
          | inr (ne, there_before) ↦ (x', there_before, inl (omega arith))
        ];
  fits = λ h. omega arith;
}

-- What is pending of a booking that is to be added to an event.
pending_self : (e e1 seats : ℕ) → e1 ≡ e → pending e1 (Place.adding e seats) ≡ seats
pending_self e e1 seats q = ground (arith, q)

pending_other : (e e1 seats : ℕ) → e1 ≢ e → pending e1 (Place.adding e seats) ≡ 0
pending_other e e1 seats ne = ground (arith, ne)

-- The test of the capacity was passed.
admitted :
    (e seats : ℕ) (g : Globals) (x : ℤ)
    → get_elem? g.office.events_arr e ≡ some x
    → x +ℤ pos seats ≤ℤ pos 500
    → Change (Place.acting (book e seats)) g (Place.adding e seats) g
admitted e seats g x got le = record {
  counted = λ _. refl;
  lock = refl;
  seats = λ _ e1 x' at. (
    x',
    at,
    (elim (ℕ_discrete e1 e) [
      | yes q ↦
          let is : x' ≡ x = ground (arith, sym at ∙ ap (get_elem? g.office.events_arr) q ∙ got) in
          inr
            (omega (arith, +ℤ_parts, le, pending_self e e1 seats q, ap pos_part is, ap neg_part is))
      | no ne ↦ inl (omega (arith, +ℤ_parts, pending_other e e1 seats ne))
    ]),
  );
  fits = λ h. h;
}

-- The seats of the event are read.
pub summing-Change :
    (e seats : ℕ) (x : ℤ) (g : Globals)
    → Change (Place.adding e seats) g (Place.summing e seats x) g
summing-Change e seats x g = record {
  counted = λ _. refl;
  lock = refl;
  seats = λ _ e1 x' at. (x', at, inl (omega arith));
  fits = λ h. h;
}

-- The seats that were pending are added.
added :
    (e seats : ℕ) (x : ℤ) (g : Globals) (o : Office)
    → o.events_arr ≡ set g.office.events_arr e (x +ℤ pos seats)
    → o.concurrency ≡ g.office.concurrency
    → Change (Place.summing e seats x) g (Place.leaving (book e seats)) (record g { office = o })
added e seats x g o arr conc = record {
  counted = λ _. ap (λ c. c +ℤ pos 1) conc;
  lock = refl;
  seats = λ got e2 x' at.
      elim (set_cases g.office.events_arr e x (x +ℤ pos seats) e2 x' got
        (ap (λ l. get_elem? l e2) (sym arr) ∙ at)) [
          | inl (same, is) ↦ (
            x,
            ap (get_elem? g.office.events_arr) same ∙ got,
            inl (
                omega
                  (arith, +ℤ_parts, pending_self e e2 seats same, ap pos_part is, ap neg_part is)),
          )
          | inr (ne, there_before) ↦
              (x', there_before, inl (omega (arith, +ℤ_parts, pending_other e e2 seats ne)))
        ];
  fits = λ h. h;
}

pub act-Change : (q : Query) (g : Globals) → Gives (Changes (Place.acting q) g) (act q g)
unfolding act capacity
act-Change (enquire e) g =
    let p = Place.acting (enquire e) in
    Gives-then (Changes p g) (show_seats e g.office) _ λ o shown.
      quiet p g (Place.leaving (enquire e)) (record g { office = o })
        (show_seats-SameCounts e g.office o shown) refl refl refl (λ e1. refl) (λ h. h)
act-Change (book e seats) g =
    let p = Place.acting (book e seats) in
    Gives-then (Changes p g) (there (get_elem? g.office.events_arr e)) _ λ x got.
      Gives-if (Changes p g) (leb_ℤ (x +ℤ pos seats) capacity) _ _
        (λ le.
          admitted e seats g x (there-done (get_elem? g.office.events_arr e) x got)
            ((leb_ℤ_iff (x +ℤ pos seats) (pos 500)).0 le))
        (λ _. still p g (Place.leaving (book e seats)) refl refl (λ e1. refl) (λ h. h))
act-Change (cancel e) g =
    let p = Place.acting (cancel e) in
    Gives-then (Changes p g) (show_seats e g.office) _ λ o shown.
      Gives-then (Changes p g) (there (get_elem? o.events_arr e)) _ λ x got.
        quiet p g (Place.returning e x) (record g { office = o })
          (show_seats-SameCounts e g.office o shown) refl refl refl (λ e1. refl) (λ h. h)

pub add_seats-Change :
    (e seats : ℕ) (x : ℤ) (g : Globals)
    → Gives (Changes (Place.summing e seats x) g) (add_seats e seats x g)
unfolding add_seats
add_seats-Change e seats x g =
    let p = Place.summing e seats x in
    Gives-then (Changes p g) (there (get_elem? g.office.events_arr e)) _ λ y got.
      Gives-then (Changes p g) (show_seats e _) _ λ o shown.
        let same = show_seats-SameCounts e _ o shown in added e seats x g o same.arr same.conc

pub return_seat-Change :
    (e : ℕ) (x : ℤ) (g : Globals) → Gives (Changes (Place.returning e x) g) (return_seat e x g)
unfolding return_seat
return_seat-Change e x g =
    let p = Place.returning e x in
    Gives-then (Changes p g) (there (get_elem? g.office.events_arr e)) _ λ y got.
      Gives-then (Changes p g) (show_seats e _) _ λ o shown.
        let same = show_seats-SameCounts e _ o shown in canceled e x g o same.arr same.conc

pub locked_of_held : (b : Bool) → 1 ≤ held b → b ≡ true
locked_of_held true h = refl
locked_of_held false h = absurd (omega (arith, h))
