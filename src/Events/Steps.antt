-- ===== src/Events/Steps.antt =====
-- Inter Process Communication/Event_Reservation.cpp: the steps of a query that runs alone.
use network_os_simulation.Shared.{
  ℕ, ◌≡◌, refl, inl, inr, List, [], ◌∷◌, ◌++◌, none, some, false, arith, get_elem?, set, replicate,
  Bool-cases,
}
use network_os_simulation.Shared.Int.{ℤ, pos, negsuc, ◌+ℤ◌, ◌-ℤ◌, eqb_ℤ, eqb_ℤ-refl, eqb_ℤ_iff}
use network_os_simulation.Events.{
  done, Row, free_row, Office, table_default, finder, event_finder, claim, leave, show_seats,
  wait_for, give_back, enter,
}

abbrev pub free_table : List Row
free_table = replicate 5 free_row

-- The table after the claim of a row.
abbrev pub claimed : ℕ → ℤ → List Row
claimed e kind =
    free_row
    ∷ free_row
    ∷ free_row
    ∷ free_row
    ∷ record { event = pos e; kind = kind; queries = pos 0 }
    ∷ []

free_ne : (e : ℕ) → eqb_ℤ (negsuc 0) (pos e) ≡ false
free_ne e = elim (Bool-cases (eqb_ℤ (negsuc 0) (pos e))) [
  | inl q ↦ absurd (ground (arith, (eqb_ℤ_iff (negsuc 0) (pos e)).0 q))
  | inr q ↦ q
]

finder-free : (e : ℕ) → finder (pos e) free_table 0 none ≡ none
unfolding finder
finder-free e = rw (free_ne e) refl

finder-claimed : (e : ℕ) (kind : ℤ) → finder (pos e) (claimed e kind) 0 none ≡ some 4
unfolding finder
finder-claimed e kind = rw (free_ne e, eqb_ℤ-refl (pos e)) refl

abbrev pub office : List ℤ → ℤ → List ℕ → List ℤ → List Row → Office
office arr c books shown table = record {
  events_arr = arr;
  concurrency = c;
  shared_table = table;
  bookings = books;
  shown = shown;
}

-- No query is under way.
abbrev pub idle : List ℤ → List ℕ → List ℤ → Office
idle arr books shown = office arr (pos 0) books shown free_table

-- One query has entered.
abbrev pub started : List ℤ → List ℕ → List ℤ → Office
started arr books shown = office arr (pos 1) books shown free_table

pub enter-idle :
    (arr : List ℤ) (books : List ℕ) (shown : List ℤ)
    → enter (idle arr books shown) ≡ started arr books shown
unfolding enter ◌+ℤ◌
enter-idle arr books shown = refl

module _ (arr : List ℤ) (books : List ℕ) (shown : List ℤ) (e : ℕ) where
  pub claim-free :
      (c kind : ℤ)
      → claim e kind (office arr c books shown free_table)
        ≡ done (office arr c books shown (claimed e kind))
  unfolding claim
  claim-free c kind = refl

  pub leave-claimed :
      (kind : ℤ) → leave e (office arr (pos 1) books shown (claimed e kind)) ≡ idle arr books shown
  unfolding leave event_finder table_default ◌-ℤ◌
  leave-claimed kind = rw (leave, event_finder, finder-claimed e kind) refl

  pub event_finder-free :
      (c : ℤ) → event_finder (pos e) (office arr c books shown free_table) ≡ none
  unfolding event_finder
  event_finder-free c = finder-free e

  pub wait_for-free :
      (c : ℤ)
      → wait_for e (office arr c books shown free_table)
        ≡ done (office arr c books shown free_table)
  unfolding wait_for
  wait_for-free c = rw (wait_for, event_finder-free c) refl

  pub show_seats-there :
      (c x : ℤ) (table : List Row)
      → get_elem? arr e ≡ some x
      → show_seats e (office arr c books shown table)
        ≡ done (office arr c books (shown ++ (pos 500 -ℤ x) ∷ []) table)
  unfolding show_seats
  show_seats-there c x table at = rw (show_seats, at) refl

  pub give_back-there :
      (c x : ℤ) (table : List Row)
      → get_elem? arr e ≡ some x
      → give_back e (office arr c books shown table)
        ≡ done (office (set arr e (x -ℤ pos 1)) c books shown table)
  unfolding give_back
  give_back-there c x table at = rw (give_back, at) refl
