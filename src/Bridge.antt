-- ===== src/Bridge.antt =====
-- MultiThreading/Bridge.cpp: travellers from the north and the south around one mutex.
-- The mutex is a parameter of the language: `lock` waits while it is held.
pub mod Crossing
pub mod Progress
use network_os_simulation.Shared.{
  ℕ, zero, suc, List, [], ◌∷◌, ◌++◌, Option, none, some, Bool, true, false, get_elem?, set,
  replicate, ◌>>=◌,
}

pub data Side : Type 0 where
  north south : Side

-- Before the mutex, on the bridge, or after it.
pub data Place : Type 0 where
  arriving travelling : Place
  completed : Place

pub record Traveller : Type 0 where
  pub side : Side
  pub place : Place

-- `held`: a thread has the mutex.
pub record Bridge : Type 0 where
  pub held : Bool
  pub travellers : List Traveller

-- A traveller takes the mutex and is on the bridge, or leaves it and gives the mutex back.
pub data Move : Type 0 where
  lock unlock : ℕ → Move

unfoldable pub lock_bridge : ℕ → Traveller → Bridge → Option Bridge
lock_bridge i t s = elim t.place [
  | arriving ↦ elim s.held [
    | true ↦ none
    | false ↦
        some (record {
          held = true;
          travellers = set s.travellers i (record t { place = travelling });
        })
  ]
  | travelling ↦ none
  | completed ↦ none
]

unfoldable pub unlock_bridge : ℕ → Traveller → Bridge → Option Bridge
unlock_bridge i t s = elim t.place [
  | arriving ↦ none
  | travelling ↦
      some
        (record { held = false; travellers = set s.travellers i (record t { place = completed }) })
  | completed ↦ none
]

unfoldable pub move : Move → Bridge → Option Bridge
unfolding lock_bridge unlock_bridge
move (lock i) s = do t ← get_elem? s.travellers i; lock_bridge i t s
move (unlock i) s = do t ← get_elem? s.travellers i; unlock_bridge i t s

unfoldable pub moves : List Move → Bridge → Option Bridge
unfolding move
moves [] s = some s
moves (m ∷ ms) s = do s1 ← move m s; moves ms s1

-- One traveller of each side for each turn of the loop in main.
unfoldable pub create : ℕ → List Traveller
create zero = []
create (suc k) =
    record { side = north; place = arriving } ∷ record { side = south; place = arriving } ∷ create k

abbrev pub threads : ℕ
threads = 20

unfoldable pub start : Bridge
unfolding create
start = record { held = false; travellers = create threads }
