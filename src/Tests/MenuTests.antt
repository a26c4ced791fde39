-- ===== src/Tests/MenuTests.antt =====
-- NetworkProtocols/OSPF.cpp, main: two routers come, and a path is asked for.
use network_os_simulation.Shared.{
  ℕ, ◌≡◌, refl, ap, sym, subst, ◌∙◌, [], ◌∷◌, Option, none, some, inl, inr, arith,
}
use network_os_simulation.Shared.Dict.{lookup}
use network_os_simulation.Ospf.Router.{Network}
use network_os_simulation.Ospf.Menu.{Choice, create, find, delete, turn, menu}
use network_os_simulation.Ospf.Menu.WellBuilt.{WellBuilt, Permits, Ends, menu-WellBuilt}

abbrev none_yet : Network
none_yet = record {
  routers = [];
  node = λ a. record { router_id = 0; neighbors = []; routing_table = [] };
}

none_yet-WellBuilt : WellBuilt none_yet
none_yet-WellBuilt = record {
  wf = record {
    distinct = tt;
    ids = λ a b la lb e. elim la [ ];
    closed = λ a b w la i. elim la [ ];
  };
  positive = λ a b w la i. elim la [ ];
  tables = λ r dest i l. elim i [ ];
}

abbrev first : Choice
first = create 0 7 [] []

abbrev second : Choice
second = create 1 8 ((7, 3) ∷ []) []

abbrev or_none_yet : Option Network → Network
or_none_yet none = none_yet
or_none_yet (some net) = net

one : Network
unfolding turn
one = or_none_yet (turn 0 first none_yet)

two : Network
unfolding turn one
two = or_none_yet (turn 0 second one)

first_run : (fuel : ℕ) → turn fuel first none_yet ≡ some one
unfolding turn one
first_run fuel = refl

second_run : (fuel : ℕ) → turn fuel second one ≡ some two
unfolding turn two
second_run fuel = refl

-- The path leads along the new link, and the router goes again.
menu_run : menu 5 (first ∷ second ∷ find 7 8 ∷ []) none_yet ≡ some two
unfolding menu two lookup
menu_run = refl

choices-Permits : Permits (first ∷ second ∷ find 7 8 ∷ delete 7 ∷ []) none_yet
unfolding two
choices-Permits = (
  (λ i. elim i [ ], tt, tt),
  λ fuel next e.
      subst (Permits (second ∷ find 7 8 ∷ delete 7 ∷ []))
        (ap or_none_yet (sym (first_run fuel) ∙ e))
        (
          (
            λ i. elim i [ inl q ↦ absurd (omega (arith, q)) | inr j ↦ elim j [ ] ],
            (omega arith, tt),
            tt,
          ),
          λ fuel2 next2 e2.
              subst (Permits (find 7 8 ∷ delete 7 ∷ []))
                (ap or_none_yet (sym (second_run fuel2) ∙ e2))
                (
                  (0, 1, inl refl, inr (inl refl), refl, refl),
                  λ fuel3 next3 e3. (tt, λ fuel4 next4 e4. tt),
                ),
        ),
)

menu-WellBuilt_example :
    Ends (λ fuel. menu fuel (first ∷ second ∷ find 7 8 ∷ delete 7 ∷ []) none_yet)
menu-WellBuilt_example =
    menu-WellBuilt (first ∷ second ∷ find 7 8 ∷ delete 7 ∷ []) none_yet none_yet-WellBuilt
      choices-Permits
