-- ===== src/Tests/BridgeTests.antt =====
-- MultiThreading/Bridge.cpp: the first travellers.
use network_os_simulation.Shared.{
  ℕ, ◌+◌, ◌≡◌, refl, List, [], ◌∷◌, some, true, false, All, set, length,
}
use network_os_simulation.Bridge.{
  travelling, completed, north, south, Bridge, Traveller, Move, lock, unlock, moves, start,
}
use network_os_simulation.Bridge.Crossing
use network_os_simulation.Bridge.Crossing.{IsCrossing}
use network_os_simulation.Bridge.Progress

-- The first traveller of the south has crossed, and the first of the north is on the bridge.
abbrev crossed : List Move
crossed = lock 1 ∷ unlock 1 ∷ lock 0 ∷ []

middle : Bridge
unfolding start
middle = record {
  held = true;
  travellers =
      set (set start.travellers 1 (record { side = south; place = completed })) 0
        (record { side = north; place = travelling });
}

run_of_crossed : moves crossed start ≡ some middle
unfolding moves start middle
run_of_crossed = refl

moves-IsCrossing_example : (j : ℕ) × (80 ≡ j + length crossed) × IsCrossing j middle
moves-IsCrossing_example = Crossing.moves-IsCrossing crossed middle run_of_crossed

moves-finish_example :
    (rest : List Move) × (t : Bridge) × (moves rest middle ≡ some t)
    × (length crossed + length rest ≡ 80)
    × All (λ (x : Traveller). x.place ≡ completed) t.travellers
    × (t.held ≡ false)
moves-finish_example = Progress.moves-finish crossed middle run_of_crossed
