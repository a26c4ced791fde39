-- ===== src/Events/Threads/Counted.antt =====
-- Inter Process Communication/Event_Reservation.cpp: what holds in every interleaving of the threads.
use network_os_simulation.Shared.{
  ℕ, zero, suc, ◌*◌, ◌<◌, ◌≤◌, ◌≡◌, refl, sym, ap, subst, inl, inr, List, [], ◌∷◌, some, arith, ltb,
  update, replicate, get_elem?, ℕ_discrete, if_pos, if_neg,
}
use network_os_simulation.Shared.Int.{ℤ, pos, pos_part, neg_part, ◌+ℤ◌, ◌≤ℤ◌, +ℤ_parts, eq_of_parts}
use network_os_simulation.Events.{done, Draws}
use network_os_simulation.Events.Threads.{Place, Globals, World, step, opening, move, moves}
use network_os_simulation.Shared.Sums.{sum, sum-update, sum-zero, sum-le, sum-others-le}
use network_os_simulation.Events.Threads.Change.{
  inside, holds, held, pending, seats_of, Current, Change, Gives, Gives-then, Gives-done, Changes,
  Gives-if,
}
use network_os_simulation.Events.Threads.Steps.{step-Change}

-- The lock is held exactly while one thread is in its section.
pub record IsLocked (n : ℕ) (w : World) : Type 0 where
  pub lock : sum holds n w.place ≡ held w.globals.locked
  pub fits : (i : ℕ) → i < n → seats_of (w.place i) ≤ 500

-- The globals of `n` threads tell where the threads are.
pub record IsCounted (n : ℕ) (w : World) : Type 0 where
  pub counted : w.globals.office.concurrency ≡ pos (sum inside n w.place)
  pub seats :
      (e : ℕ) (x : ℤ)
      → get_elem? w.globals.office.events_arr e ≡ some x
      → x +ℤ pos (sum (pending e) n w.place) ≤ℤ pos (500 * n)

-- No thread writes after a value that it read was changed by another.
abbrev pub Undisturbed : ℕ → List (ℕ × Draws) → World → Type 0
Undisturbed n [] w = Unit
Undisturbed n ((i, d) ∷ ms) w =
    Current (w.place i) w.globals × Gives (Undisturbed n ms) (move n i d w)

pending-le : (e : ℕ) (p : Place) → pending e p ≤ seats_of p
pending-le e (Place.adding e1 seats) = ground arith
pending-le e (Place.summing e1 seats x) = ground arith
pending-le e _ = omega arith

opening-IsLocked : (n : ℕ) → IsLocked n opening
unfolding opening
opening-IsLocked n = record { lock = sum-zero holds n Place.idle refl; fits = λ i lt. omega arith }

opening-IsCounted : (n : ℕ) → IsCounted n opening
unfolding opening
opening-IsCounted n = record {
  counted = ap pos (sym (sum-zero inside n Place.idle refl));
  seats =
      λ e x at. omega (arith, +ℤ_parts, sum-zero (pending e) n Place.idle refl, nothing 100 e x at);
}
  where
    nothing : (k e : ℕ) (x : ℤ) → get_elem? (replicate k (pos 0)) e ≡ some x → pos_part x ≤ 0
    nothing zero e x at = absurd (ground (arith, at))
    nothing (suc k) zero x at = ground (arith, at)
    nothing (suc k) (suc e) x at = nothing k e x at

module _ (n i : ℕ) (w : World) (lt : i < n) (l : IsLocked n w) (p' : Place) (g' : Globals)
    (ch : Change (w.place i) w.globals p' g') where
  moved-fits : (j : ℕ) → j < n → seats_of (update w.place i p' j) ≤ 500
  moved-fits j lj = elim (ℕ_discrete i j) [
    | yes e ↦
        subst (λ q. seats_of q ≤ 500) (sym (if_pos (ℕ_discrete i j) e p' (w.place j)))
          (ch.fits (l.fits i lt))
    | no ne ↦
        subst (λ q. seats_of q ≤ 500) (sym (if_neg (ℕ_discrete i j) ne p' (w.place j)))
          (l.fits j lj)
  ]

  moved-IsLocked : IsLocked n (record { globals = g'; place = update w.place i p' })
  moved-IsLocked = record {
    lock = omega (arith, sum-update holds n i p' w.place lt, l.lock, ch.lock);
    fits = moved-fits;
  }

  moved-seats :
      IsCounted n w
      → Current (w.place i) w.globals
      → (e : ℕ) (x' : ℤ) → get_elem? g'.office.events_arr e ≡ some x'
      → x' +ℤ pos (sum (pending e) n (update w.place i p')) ≤ℤ pos (500 * n)
  moved-seats c now e x' at =
      let (x, before, cases) = ch.seats now e x' at in
      let others = sum-update (pending e) n i p' w.place lt in
      let old = c.seats e x before in
      elim cases [
        | inl le ↦ omega (arith, +ℤ_parts, others, old, le)
        | inr le ↦
            let here : update w.place i p' i ≡ p' = if_pos (ℕ_discrete i i) refl p' (w.place i) in
            let small =
              sum-others-le (pending e) n 500 i (update w.place i p')
                (λ j lj. omega (arith, pending-le e (update w.place i p' j), moved-fits j lj)) lt in
            omega (arith, +ℤ_parts, small, le, ap (pending e) here)
      ]

  moved-IsCounted :
      IsCounted n w
      → Current (w.place i) w.globals
      → IsCounted n (record { globals = g'; place = update w.place i p' })
  moved-IsCounted c now = record {
    counted = omega (
      arith,
      eq_of_parts,
      +ℤ_parts,
      ap pos_part (ch.counted now),
      ap neg_part (ch.counted now),
      ap pos_part c.counted,
      ap neg_part c.counted,
      sum-update inside n i p' w.place lt,
    );
    seats = moved-seats c now;
  }

-- A thread that has the lock finds it held.
holds-le-held :
    (n i : ℕ) (w : World) → i < n → IsLocked n w → holds (w.place i) ≤ held w.globals.locked
holds-le-held n i w lt l = omega (arith, sum-update holds n i Place.idle w.place lt, l.lock)

-- A move is a change of the globals and of one place.
move-Gives :
    (P : World → Type 0) (n i : ℕ) (d : Draws) (w : World)
    → IsLocked n w
    → ((p' : Place) (g' : Globals)
        → i < n
        → Change (w.place i) w.globals p' g'
        → P (record { globals = g'; place = update w.place i p' }))
    → Gives P (move n i d w)
unfolding move
move-Gives P n i d w l f =
    Gives-if P (ltb i n) _ _
      (λ q.
        let lt : i < n = ground (arith, q) in
        Gives-then P (step d (w.place i) w.globals) _ λ r made. f r.1 r.0 lt (
          Gives-done (Changes (w.place i) w.globals) (step d (w.place i) w.globals) r
            (step-Change d (w.place i) w.globals (holds-le-held n i w lt l)) made))
      (λ _. tt)

move-IsLocked : (n i : ℕ) (d : Draws) (w : World) → IsLocked n w → Gives (IsLocked n) (move n i d w)
move-IsLocked n i d w l =
    move-Gives (IsLocked n) n i d w l λ p' g' lt ch. moved-IsLocked n i w lt l p' g' ch

-- What holds after each move of an undisturbed run.
abbrev Both : ℕ → World → Type 0
Both n w = IsLocked n w × IsCounted n w

move-Both :
    (n i : ℕ) (d : Draws) (w : World)
    → Both n w
    → Current (w.place i) w.globals
    → Gives (Both n) (move n i d w)
move-Both n i d w (l, c) now =
    move-Gives (Both n) n i d w l
      λ p' g' lt ch. (moved-IsLocked n i w lt l p' g' ch, moved-IsCounted n i w lt l p' g' ch c now)

moves-Both :
    (n : ℕ) (ms : List (ℕ × Draws)) (w : World)
    → Both n w
    → Undisturbed n ms w
    → Gives (Both n) (moves n ms w)
unfolding moves
moves-Both n [] w b u = b
moves-Both n ((i, d) ∷ ms) w b u = Gives-then (Both n) (move n i d w) (moves n ms) λ w1 made.
    moves-Both n ms w1 (Gives-done (Both n) (move n i d w) w1 (move-Both n i d w b u.0) made)
      (Gives-done (Undisturbed n ms) (move n i d w) w1 u.1 made)

moves-IsLocked_from :
    (n : ℕ) (ms : List (ℕ × Draws)) (w : World) → IsLocked n w → Gives (IsLocked n) (moves n ms w)
unfolding moves
moves-IsLocked_from n [] w l = l
moves-IsLocked_from n ((i, d) ∷ ms) w l =
    Gives-then (IsLocked n) (move n i d w) (moves n ms) λ w1 made.
      moves-IsLocked_from n ms w1
        (Gives-done (IsLocked n) (move n i d w) w1 (move-IsLocked n i d w l) made)

-- Whatever the order of the steps, concurrency_lock is held exactly while one thread is in its
-- section, and never by two.
moves-IsLocked :
    (n : ℕ) (ms : List (ℕ × Draws)) (w : World) → moves n ms opening ≡ done w → IsLocked n w
moves-IsLocked n ms w made =
    Gives-done (IsLocked n) (moves n ms opening) w
      (moves-IsLocked_from n ms opening (opening-IsLocked n)) made

inside-le-one : (p : Place) → inside p ≤ 1
inside-le-one Place.idle = omega arith
inside-le-one _ = omega arith

-- In every run of the steps of `n` threads, in any order in which no thread writes `concurrency`
-- or the seats of an event after another has changed the value that it read: `concurrency` is the
-- number of the threads between its increment and its decrement, and at most `n`; concurrency_lock
-- is held exactly while one thread is in its section, and never by two; and the seats taken for an
-- event, with those that bookings which passed the test of the capacity still have to add, are at
-- most 500 * n.
pub moves-IsCounted :
    (n : ℕ) (ms : List (ℕ × Draws)) (w : World)
    → moves n ms opening ≡ done w
    → Undisturbed n ms opening
    → IsLocked n w × IsCounted n w × (w.globals.office.concurrency ≤ℤ pos n)
moves-IsCounted n ms w made calm =
    let (_, c) =
      Gives-done (Both n) (moves n ms opening) w
        (moves-Both n ms opening (opening-IsLocked n, opening-IsCounted n) calm) made in
    (
      moves-IsLocked n ms w made,
      c,
      omega (
        arith,
        ap pos_part c.counted,
        ap neg_part c.counted,
        sum-le inside n 1 w.place (λ i lt. inside-le-one (w.place i)),
      ),
    )
