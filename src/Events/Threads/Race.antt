-- ===== src/Events/Threads/Race.antt =====
-- Inter Process Communication/Event_Reservation.cpp: two bookings of one event at the same time.
use network_os_simulation.Shared.{
  ℕ, ◌<◌, ◌≡◌, ◌≢◌, refl, sym, ap, ◌∙◌, List, [], ◌∷◌, ◌++◌, some, true, arith, ltb, update, set,
  get_elem?, get_elem?-set_self, ℕ_discrete, if_pos, if_neg, if◌then◌else◌,
}
use network_os_simulation.Shared.Int.{ℤ, pos, ◌+ℤ◌, ◌-ℤ◌, ◌≤ℤ◌, leb_ℤ, leb_ℤ_iff}
use network_os_simulation.Events.{Run, done, waits, faults, ◌then◌, Draws, show_seats, capacity}
use network_os_simulation.Events.Threads.{
  book, Place, Globals, World, act, add_seats, step, move, moves,
}

move-step :
    (n i : ℕ) (d : Draws) (w : World) (r : Globals × Place)
    → i < n
    → step d (w.place i) w.globals ≡ done r
    → move n i d w ≡ done (record { globals = r.0; place = update w.place i r.1 })
unfolding move
move-step n i d w r lt e = let below : ltb i n ≡ true = ground (arith, lt) in rw (below, e) refl

act-room :
    (e seats : ℕ) (d : Draws) (p : Place) (g : Globals) (x : ℤ)
    → p ≡ Place.acting (book e seats)
    → get_elem? g.office.events_arr e ≡ some x
    → x +ℤ pos seats ≤ℤ pos 500
    → step d p g ≡ done (g, Place.adding e seats)
unfolding step act capacity
act-room e seats d p g x is at le =
    let room : leb_ℤ (x +ℤ pos seats) (pos 500) ≡ true =
      (leb_ℤ_iff (x +ℤ pos seats) (pos 500)).1 le in
    ap (λ q. step d q g) is ∙ rw (at, room) refl

-- The globals after the seats were added to `x` others.
abbrev with_seats : ℕ → ℤ → Globals → Globals
with_seats e x g = record g {
  office = record g.office {
    events_arr = set g.office.events_arr e x;
    shown = g.office.shown ++ (pos 500 -ℤ x) ∷ [];
  };
}

sum-with_seats :
    (e seats : ℕ) (d : Draws) (p : Place) (g : Globals) (x : ℤ)
    → p ≡ Place.summing e seats x
    → get_elem? g.office.events_arr e ≡ some x
    → step d p g ≡ done (with_seats e (x +ℤ pos seats) g, Place.leaving (book e seats))
unfolding step add_seats show_seats
sum-with_seats e seats d p g x is at =
    let after = get_elem?-set_self g.office.events_arr e x (x +ℤ pos seats) at in
    ap (λ q. step d q g) is ∙ rw (at, after) refl

add-summing :
    (e seats : ℕ) (d : Draws) (p : Place) (g : Globals) (x : ℤ)
    → p ≡ Place.adding e seats
    → get_elem? g.office.events_arr e ≡ some x
    → step d p g ≡ done (g, Place.summing e seats x)
unfolding step
add-summing e seats d p g x is at = ap (λ q. step d q g) is ∙ rw (at) refl

done-inj : (x y : World) → done x ≡ done y → x ≡ y
done-inj x y q = ap (λ (r : Run World). elim r [ done z ↦ z | waits ↦ x | faults ↦ x ]) q

module _ (n i j : ℕ) (w : World) (li : i < n) (lj : j < n) (ne : i ≢ j) where
  first_two :
      (e a b : ℕ) (x : ℤ) (d : Draws)
      → w.place i ≡ Place.acting (book e a)
      → w.place j ≡ Place.acting (book e b)
      → get_elem? w.globals.office.events_arr e ≡ some x
      → x +ℤ pos a ≤ℤ pos 500
      → x +ℤ pos b ≤ℤ pos 500
      → moves n ((i, d) ∷ (j, d) ∷ []) w
        ≡ done
            (record w { place = update (update w.place i (Place.adding e a)) j (Place.adding e b) })
  unfolding moves
  first_two e a b x d pi pj at la lb =
      let still : update w.place i (Place.adding e a) j ≡ Place.acting (book e b) =
        if_neg (ℕ_discrete i j) ne _ _ ∙ pj in
      rw
        (
          move-step n i d w (w.globals, Place.adding e a) li
              (act-room e a d (w.place i) w.globals x pi at la),
          move-step n j d (record w { place = update w.place i (Place.adding e a) })
              (w.globals, Place.adding e b) lj
              (act-room e b d (update w.place i (Place.adding e a) j) w.globals x still at lb),
        )
        refl

-- The world after thread `k` added its seats to `x` others.
abbrev added : ℕ → ℕ → ℕ → ℤ → World → World
added k e a x w = record {
  globals = with_seats e (x +ℤ pos a) w.globals;
  place = update (update w.place k (Place.summing e a x)) k (Place.leaving (book e a));
}

moves-added :
    (n k : ℕ) (w : World) (e a : ℕ) (x : ℤ) (d : Draws)
    → k < n
    → w.place k ≡ Place.adding e a
    → get_elem? w.globals.office.events_arr e ≡ some x
    → moves n ((k, d) ∷ (k, d) ∷ []) w ≡ done (added k e a x w)
unfolding moves
moves-added n k w e a x d lk pk at =
    let now : update w.place k (Place.summing e a x) k ≡ Place.summing e a x =
      if_pos (ℕ_discrete k k) refl _ _ in
    rw
      (
        move-step n k d w (w.globals, Place.summing e a x) lk
            (add-summing e a d (w.place k) w.globals x pk at),
        move-step n k d (record w { place = update w.place k (Place.summing e a x) })
            (with_seats e (x +ℤ pos a) w.globals, Place.leaving (book e a)) lk
            (sum-with_seats e a d (update w.place k (Place.summing e a x) k) w.globals x now at),
      )
      refl

moves-append :
    (n : ℕ) (ms ks : List (ℕ × Draws)) (w w1 : World)
    → moves n ms w ≡ done w1
    → moves n (ms ++ ks) w ≡ moves n ks w1
unfolding moves
moves-append n [] ks w w1 e = ap (moves n ks) (done-inj w w1 e)
moves-append n ((i, d) ∷ ms) ks w w1 e = go (move n i d w) (λ v q. moves-append n ms ks v w1 q) e
  where
    go :
        (r : Run World)
        → ((v : World) → moves n ms v ≡ done w1 → moves n (ms ++ ks) v ≡ moves n ks w1)
        → (r then moves n ms) ≡ done w1
        → (r then moves n (ms ++ ks)) ≡ moves n ks w1
    go (done v) rest q = rest v q
    go waits rest q = absurd (ground (arith, q))
    go faults rest q = absurd (ground (arith, q))

-- Two threads that are about to test the capacity for bookings of one event: where each booking
-- fits by itself, there is an order of their steps in which both are made, also where the event
-- has no room for both.
pub moves-overbooked :
    (n i j : ℕ) (w : World) (e a b : ℕ) (x : ℤ) (d : Draws)
    → i < n
    → j < n
    → i ≢ j
    → w.place i ≡ Place.acting (book e a)
    → w.place j ≡ Place.acting (book e b)
    → get_elem? w.globals.office.events_arr e ≡ some x
    → x +ℤ pos a ≤ℤ pos 500
    → x +ℤ pos b ≤ℤ pos 500
    → (w' : World) × (moves n ((i, d) ∷ (j, d) ∷ (i, d) ∷ (i, d) ∷ (j, d) ∷ (j, d) ∷ []) w
        ≡ done w')
      × (get_elem? w'.globals.office.events_arr e ≡ some ((x +ℤ pos a) +ℤ pos b))
moves-overbooked n i j w e a b x d li lj ne pi pj at la lb =
    let w2 = record w {
      place = update (update w.place i (Place.adding e a)) j (Place.adding e b);
    } in
    let at_i : w2.place i ≡ Place.adding e a =
      if_neg (ℕ_discrete j i) (λ q. ne (sym q)) _ _ ∙ if_pos (ℕ_discrete i i) refl _ _ in
    let at_j : w2.place j ≡ Place.adding e b = if_pos (ℕ_discrete j j) refl _ _ in
    let w3 = added i e a x w2 in
    let still_j : w3.place j ≡ Place.adding e b =
      if_neg (ℕ_discrete i j) ne _ _ ∙ if_neg (ℕ_discrete i j) ne _ _ ∙ at_j in
    let once = get_elem?-set_self w.globals.office.events_arr e x (x +ℤ pos a) at in
    let two = (j, d) ∷ (j, d) ∷ [] in
    (
      _,
      moves-append n ((i, d) ∷ (j, d) ∷ []) ((i, d) ∷ (i, d) ∷ two) w w2
            (first_two n i j w li lj ne e a b x d pi pj at la lb)
          ∙ moves-append n ((i, d) ∷ (i, d) ∷ []) two w2 w3 (moves-added n i w2 e a x d li at_i at)
          ∙ moves-added n j w3 e b (x +ℤ pos a) d lj still_j once,
      get_elem?-set_self (set w.globals.office.events_arr e (x +ℤ pos a)) e (x +ℤ pos a)
          ((x +ℤ pos a) +ℤ pos b) once,
    )
