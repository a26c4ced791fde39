-- ===== src/Events/Alone.antt =====
-- Inter Process Communication/Event_Reservation.cpp: queries that run one after the other.
use network_os_simulation.Shared.{
  ℕ, ◌≡◌, refl, ap, ◌∙◌, ◌⊎◌, inl, inr, List, [], ◌∷◌, ◌++◌, none, some, arith, get_elem?, set,
  get_elem?-set_self, if◌then◌else◌, Bool-cases,
}
use network_os_simulation.Shared.Int.{ℤ, pos, ◌+ℤ◌, ◌-ℤ◌, ◌≤ℤ◌, leb_ℤ, leb_ℤ_iff}
use network_os_simulation.Events.{
  done, ◌then◌, there, Row, Office, capacity, event_finder, claim, leave, show_seats, enquiry,
  wait_for, reserve, book_tickets, give_back, cancel_ticket,
}
use network_os_simulation.Events.Steps.{
  claimed, office, idle, started, claim-free, leave-claimed, event_finder-free, wait_for-free,
  show_seats-there, give_back-there,
}

enquiry-steps :
    (e : ℕ) (s : Office)
    → event_finder (pos e) s ≡ none
    → enquiry e s ≡ (claim e (pos 0) s then show_seats e then λ s1. done (leave e s1))
unfolding enquiry
enquiry-steps e s free = rw (enquiry, free) refl

book_tickets-steps :
    (e total : ℕ) (s : Office)
    → book_tickets e total s
      ≡ (wait_for e s then claim e (pos 1) then reserve e total then λ s1. done (leave e s1))
unfolding book_tickets
book_tickets-steps e total s = refl

cancel_ticket-steps :
    (e : ℕ) (s : Office)
    → cancel_ticket e s ≡ (
        wait_for e s
        then claim e (pos 1)
        then show_seats e
        then give_back e
        then show_seats e
        then λ s1. done (leave e s1))
unfolding cancel_ticket
cancel_ticket-steps e s = refl

module _ (arr : List ℤ) (books : List ℕ) (shown : List ℤ) (e : ℕ) where
  -- An enquiry that runs alone shows the seats that are left, and changes nothing else.
  pub enquiry-idle :
      (x : ℤ)
      → get_elem? arr e ≡ some x
      → enquiry e (started arr books shown) ≡ done (idle arr books (shown ++ (pos 500 -ℤ x) ∷ []))
  enquiry-idle x at =
      enquiry-steps e (started arr books shown) (event_finder-free arr books shown e (pos 1))
      ∙ rw
          (
            claim-free arr books shown e (pos 1) (pos 0),
            ◌then◌,
            show_seats-there arr books shown e (pos 1) x (claimed e (pos 0)) at,
            leave-claimed arr books (shown ++ (pos 500 -ℤ x) ∷ []) e (pos 0),
          )
          refl

  reserve-there :
      (total : ℕ) (x : ℤ) (table : List Row)
      → get_elem? arr e ≡ some x
      → ((x +ℤ pos total ≤ℤ pos 500)
          × (reserve e total (office arr (pos 1) books shown table)
              ≡ done (
                  office
                    (set arr e (x +ℤ pos total))
                    (pos 1)
                    books
                    (shown ++ (pos 500 -ℤ (x +ℤ pos total)) ∷ [])
                    table)))
        ⊎ (¬ (x +ℤ pos total ≤ℤ pos 500)
            × (reserve e total (office arr (pos 1) books shown table)
                ≡ done (office arr (pos 1) books shown table)))
  unfolding reserve capacity
  reserve-there total x table at = elim (Bool-cases (leb_ℤ (x +ℤ pos total) (pos 500))) [
    | inl b ↦ inl (
      (leb_ℤ_iff (x +ℤ pos total) (pos 500)).0 b,
      rw (reserve, at, there, ◌then◌, b)
          (show_seats-there (set arr e (x +ℤ pos total)) books shown e (pos 1) (x +ℤ pos total)
            table (get_elem?-set_self arr e x (x +ℤ pos total) at)),
    )
    | inr b ↦ inr (
      λ le. absurd (ground (arith, (leb_ℤ_iff (x +ℤ pos total) (pos 500)).1 le, b)),
      rw (reserve, at, there, ◌then◌, b) refl,
    )
  ]

  -- A booking that runs alone, where `x` seats are taken: it takes the seats if there are enough, and
  -- else none, and the table is free again after it.
  pub book_tickets-idle :
      (total : ℕ) (x : ℤ)
      → get_elem? arr e ≡ some x
      → ((x +ℤ pos total ≤ℤ pos 500)
          × (book_tickets e total (started arr books shown)
              ≡ done (
                  idle
                    (set arr e (x +ℤ pos total))
                    books
                    (shown ++ (pos 500 -ℤ (x +ℤ pos total)) ∷ []))))
        ⊎ (¬ (x +ℤ pos total ≤ℤ pos 500)
            × (book_tickets e total (started arr books shown) ≡ done (idle arr books shown)))
  book_tickets-idle total x at =
      let begun : book_tickets e total (started arr books shown) ≡ (
          reserve e total (office arr (pos 1) books shown (claimed e (pos 1))) then λ s1.
          done (leave e s1)) =
        book_tickets-steps e total (started arr books shown)
        ∙ rw
            (
              wait_for-free arr books shown e (pos 1),
              ◌then◌,
              claim-free arr books shown e (pos 1) (pos 1),
            )
            refl in
      elim (reserve-there total x (claimed e (pos 1)) at) [
        | inl (le, r) ↦ inl (
          le,
          begun
              ∙ rw (r, ◌then◌)
                  (ap (λ s. done s)
                    (leave-claimed (set arr e (x +ℤ pos total)) books
                      (shown ++ (pos 500 -ℤ (x +ℤ pos total)) ∷ []) e (pos 1))),
        )
        | inr (gt, r) ↦ inr (
          gt,
          begun ∙ rw (r, ◌then◌) (ap (λ s. done s) (leave-claimed arr books shown e (pos 1))),
        )
      ]

  -- A cancellation that runs alone gives one seat back, whatever is taken.
  pub cancel_ticket-idle :
      (x : ℤ)
      → get_elem? arr e ≡ some x
      → cancel_ticket e (started arr books shown)
        ≡ done (
            idle
              (set arr e (x -ℤ pos 1))
              books
              ((shown ++ (pos 500 -ℤ x) ∷ []) ++ (pos 500 -ℤ (x -ℤ pos 1)) ∷ []))
  cancel_ticket-idle x at =
      cancel_ticket-steps e (started arr books shown)
      ∙ rw
          (
            wait_for-free arr books shown e (pos 1),
            ◌then◌,
            claim-free arr books shown e (pos 1) (pos 1),
            show_seats-there arr books shown e (pos 1) x (claimed e (pos 1)) at,
            give_back-there arr books (shown ++ (pos 500 -ℤ x) ∷ []) e (pos 1) x (claimed e (pos 1))
                at,
            show_seats-there (set arr e (x -ℤ pos 1)) books (shown ++ (pos 500 -ℤ x) ∷ []) e (pos 1)
                (x -ℤ pos 1) (claimed e (pos 1)) (get_elem?-set_self arr e x (x -ℤ pos 1) at),
            leave-claimed (set arr e (x -ℤ pos 1)) books
                ((shown ++ (pos 500 -ℤ x) ∷ []) ++ (pos 500 -ℤ (x -ℤ pos 1)) ∷ []) e (pos 1),
          )
          refl
