-- ===== src/Ospf/Dijkstra.antt =====
-- NetworkProtocols/OSPF.cpp, Router::updateRoutingTable, lines 31 to 61: the search for the
-- shortest distances from one router. The queue keeps the pairs that the code pushes with the
-- distance negated, so its top has the least distance, and among equals the greatest address.
pub mod Queue
pub mod Walks
pub mod Relax
pub mod Work
pub mod Tree
pub mod Correct
use network_os_simulation.Shared.{
  ℕ, zero, suc, ◌+◌, ◌*◌, List, [], ◌∷◌, Option, none, some, Bool, ◌&&◌, ◌||◌, ltb, ◌==◌, leb,
  if◌then◌else◌, update, length,
}
use network_os_simulation.Ospf.Router.{Network, id_of, links_of}

-- The distance that stands for "no route yet".
abbrev pub infinity : ℕ
infinity = 100000

pub record Search : Type 0 where
  pub distance : ℕ → ℕ  -- by ID
  pub next_hop : ℕ → Option ℕ  -- by address
  pub pq : List (ℕ × ℕ)  -- distance and address

-- Whether `a` comes out of the queue before `b`.
before : ℕ × ℕ → ℕ × ℕ → Bool
before (d, a) (e, b) = ltb d e || (d == e && leb b a)

-- `pq.top()` and the queue after `pq.pop()`, for a queue `x ∷ xs`.
unfoldable pub pop_top : ℕ × ℕ → List (ℕ × ℕ) → (ℕ × ℕ) × List (ℕ × ℕ)
unfolding before
pop_top x [] = (x, [])
pop_top x (y ∷ ys) =
    let first = before x y in
    let (top, rest) = pop_top (if first then x else y) ys in (top, (if first then y else x) ∷ rest)

module _ (net : Network) where
  -- The body of the loop over the links of `node`.
  unfoldable pub relax : ℕ → Search → ℕ × ℕ → Search
  relax node s (v, weight) =
      let d = s.distance (id_of net node) + weight in
      if ltb d (s.distance (id_of net v))
      then record {
        distance = update s.distance (id_of net v) d;
        next_hop = update s.next_hop v (some node);
        pq = (d, v) ∷ s.pq;
      }
      else s

  unfoldable pub scan : ℕ → Search → List (ℕ × ℕ) → Search
  scan node s [] = s
  scan node s (e ∷ es) = scan node (relax node s e) es

  -- One round of the `while` loop, for the queue `x ∷ xs`.
  unfoldable pub settle : Search → ℕ × ℕ → List (ℕ × ℕ) → Search
  settle s x xs =
      let (top, rest) = pop_top x xs in scan top.1 (record s { pq = rest }) (links_of net top.1)

  -- `none`: the fuel ran out.
  unfoldable pub run : ℕ → Search → Option Search
  run zero s = none
  run (suc fuel) s = elim s.pq [ [] ↦ some s | x ∷ xs ↦ run fuel (settle s x xs) ]

  -- `distance[router->getRouterID()] = 100000` for each router.
  unfoldable pub all_infinite : List ℕ → ℕ → ℕ
  all_infinite [] = λ _. 0
  all_infinite (r ∷ rs) = update (all_infinite rs) (id_of net r) infinity

  unfoldable pub start : ℕ → Search
  unfolding all_infinite
  start this = record {
    distance = update (all_infinite net.routers) (id_of net this) 0;
    next_hop = λ _. none;
    pq = (0, this) ∷ [];
  }

  -- Enough rounds: `Dijkstra.Ends` shows it.
  abbrev pub rounds : ℕ
  rounds = infinity * length net.routers + 2

  unfoldable pub search_from : ℕ → Option Search
  unfolding run start settle scan relax pop_top
  search_from this = run rounds (start this)
