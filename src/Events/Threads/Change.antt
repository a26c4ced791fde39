-- ===== src/Events/Threads/Change.antt =====
-- Inter Process Communication/Event_Reservation.cpp: the quantities that a step of a thread changes.
use network_os_simulation.Shared.{
  ℕ, ◌+◌, ◌≤◌, ◌≡◌, refl, sym, ap, ap₂, subst, ◌∙◌, ◌⊎◌, inl, inr, List, Option, none, some, Bool,
  true, false, arith, ◌==◌, if◌then◌else◌, get_elem?, set, ◌≢◌, ℕ_discrete, get_elem?-set_self,
  get_elem?-set_other,
}
use network_os_simulation.Shared.Int.{ℤ, pos, ◌+ℤ◌, ◌≤ℤ◌, +ℤ_parts}
use network_os_simulation.Events.{Run, done, waits, faults, ◌then◌, there, Office, show_seats}
use network_os_simulation.Events.Threads.{Query, book, Place, Globals}

-- Between the writes of `concurrency++` and `concurrency--`.
abbrev pub inside : Place → ℕ
inside Place.idle = 0
inside Place.full = 0
inside (Place.chosen q) = 0
inside (Place.raising q c) = 0
inside (Place.last q i res) = 0
inside _ = 1

-- Holding concurrency_lock.
abbrev pub holds : Place → ℕ
holds (Place.last q i res) = 1
holds (Place.lowering q c) = 1
holds _ = 0

abbrev pub held : Bool → ℕ
held true = 1
held false = 0

-- The seats that passed the test of the capacity and are not added yet.
abbrev pub pending : ℕ → Place → ℕ
pending e (Place.adding e1 seats) = if e1 == e then seats else 0
pending e (Place.summing e1 seats x) = if e1 == e then seats else 0
pending e _ = 0

abbrev pub seats_of_query : Query → ℕ
seats_of_query (book e seats) = seats
seats_of_query _ = 0

abbrev pub seats_of : Place → ℕ
seats_of Place.idle = 0
seats_of Place.full = 0
seats_of (Place.chosen q) = seats_of_query q
seats_of (Place.acting q) = seats_of_query q
seats_of (Place.leaving q) = seats_of_query q
seats_of (Place.blocked q entry) = seats_of_query q
seats_of (Place.first q i res) = seats_of_query q
seats_of (Place.free q i res) = seats_of_query q
seats_of (Place.last q i res) = seats_of_query q
seats_of (Place.adding e seats) = seats
seats_of (Place.raising q c) = seats_of_query q
seats_of (Place.lowering q c) = seats_of_query q
seats_of (Place.summing e seats x) = seats
seats_of (Place.returning e x) = 0

-- What a thread has read and is about to write over is still there.
abbrev pub Current : Place → Globals → Type 0
Current (Place.raising q c) g = g.office.concurrency ≡ c
Current (Place.lowering q c) g = g.office.concurrency ≡ c
Current (Place.summing e seats x) g = get_elem? g.office.events_arr e ≡ some x
Current (Place.returning e x) g = get_elem? g.office.events_arr e ≡ some x
Current _ g = Unit

-- The seats of an event with those that a thread will add: they do not grow, or fit the capacity.
abbrev pub SeatsAfter : Place → List ℤ → Place → List ℤ → Type 0
SeatsAfter p arr p' arr' =
    (e : ℕ) (x' : ℤ)
    → get_elem? arr' e ≡ some x'
    → (x : ℤ) × (get_elem? arr e ≡ some x)
      × ((x' +ℤ pos (pending e p') ≤ℤ x +ℤ pos (pending e p))
          ⊎ (x' +ℤ pos (pending e p') ≤ℤ pos 500))

pub record Change (p : Place) (g : Globals) (p' : Place) (g' : Globals) : Type 0 where
  pub counted :
      Current p g
      → g'.office.concurrency +ℤ pos (inside p) ≡ g.office.concurrency +ℤ pos (inside p')
  pub lock : holds p' + held g.locked ≡ holds p + held g'.locked
  pub seats : Current p g → SeatsAfter p g.office.events_arr p' g'.office.events_arr
  pub fits : seats_of p ≤ 500 → seats_of p' ≤ 500

-- A predicate of what a run gives, if it gives something.
abbrev pub Gives : {A : Type 0} → (A → Type 0) → Run A → Type 0
Gives P (done a) = P a
Gives P waits = Unit
Gives P faults = Unit

pub Gives-then :
    {A B : Type 0} (P : B → Type 0) (r : Run A) (f : A → Run B)
    → ((a : A) → r ≡ done a → Gives P (f a))
    → Gives P (r then f)
Gives-then P (done a) f h = h a refl
Gives-then P waits f h = tt
Gives-then P faults f h = tt

pub Gives-done : {A : Type 0} (P : A → Type 0) (r : Run A) (a : A) → Gives P r → r ≡ done a → P a
Gives-done P r a h e = subst (Gives P) e h

-- The seats of the events and the number of the queries stay.
pub record SameCounts (o o' : Office) : Type 0 where
  pub arr : o'.events_arr ≡ o.events_arr
  pub conc : o'.concurrency ≡ o.concurrency

pub show_seats-SameCounts : (e : ℕ) (o o' : Office) → show_seats e o ≡ done o' → SameCounts o o'
unfolding show_seats
show_seats-SameCounts e o o' h = record { arr = ground (arith, h); conc = ground (arith, h) }

module _ (p : Place) (g : Globals) where
  -- What a step of the thread leads to.
  abbrev pub Changes : Globals × Place → Type 0
  Changes r = Change p g r.1 r.0

  -- A step that adds no seats.
  pub quiet :
      (p' : Place) (g' : Globals)
      → SameCounts g.office g'.office
      → g'.locked ≡ g.locked
      → inside p' ≡ inside p
      → holds p' ≡ holds p
      → ((e : ℕ) → pending e p' ≡ 0)
      → (seats_of p ≤ 500 → seats_of p' ≤ 500)
      → Change p g p' g'
  quiet p' g' same locks ins hol none_pending fits = record {
    counted = λ _. ap₂ (λ c n. c +ℤ pos n) same.conc (sym ins);
    lock = ap₂ (λ a b. a + held b) hol (sym locks);
    seats = λ _ e x' at. (
      x',
      ap (λ l. get_elem? l e) (sym same.arr) ∙ at,
      inl (omega (arith, none_pending e, +ℤ_parts)),
    );
    fits = fits;
  }

  -- A step that changes no global.
  pub still :
      (p' : Place)
      → inside p' ≡ inside p
      → holds p' ≡ holds p
      → ((e : ℕ) → pending e p' ≡ 0)
      → (seats_of p ≤ 500 → seats_of p' ≤ 500)
      → Change p g p' g
  still p' = quiet p' g (record { arr = refl; conc = refl }) refl

pub Gives-if :
    {A : Type 0} (P : A → Type 0) (b : Bool) (r s : Run A)
    → (b ≡ true → Gives P r)
    → (b ≡ false → Gives P s)
    → Gives P (if b then r else s)
Gives-if P true r s h k = h refl
Gives-if P false r s h k = k refl

pub there-done : {A : Type 0} (o : Option A) (a : A) → there o ≡ done a → o ≡ some a
there-done none a e = absurd (ground (arith, e))
there-done (some b) a e = ground (arith, e)

-- A value after a write.
pub set_cases :
    (arr : List ℤ) (e : ℕ) (x y : ℤ) (e2 : ℕ) (x' : ℤ)
    → get_elem? arr e ≡ some x
    → get_elem? (set arr e y) e2 ≡ some x'
    → ((e2 ≡ e) × (x' ≡ y)) ⊎ ((e2 ≢ e) × (get_elem? arr e2 ≡ some x'))
set_cases arr e x y e2 x' at after = elim (ℕ_discrete e2 e) [
  | yes q ↦ inl (
    q,
    ground (
      arith,
      sym (get_elem?-set_self arr e x y at)
          ∙ subst (λ k. get_elem? (set arr e y) k ≡ some x') q after,
    ),
  )
  | no ne ↦ inr (ne, sym (get_elem?-set_other arr e e2 y (λ q. ne (sym q))) ∙ after)
]
