-- ===== src/Lru/Start.antt =====
-- NetworkProtocols/LRU.cpp, the constructor of LRUCache, and capacity 0.
use network_os_simulation.Shared.{ℕ, ◌≡◌, refl, [], none, arith, ℕ_discrete}
use network_os_simulation.Shared.Text.{Text}
use network_os_simulation.Shared.Dict.{lookup}
use network_os_simulation.Lru.Memory.{delete_node}
use network_os_simulation.Lru.Cache.{init, put, make_room}
use network_os_simulation.Lru.Spec.{contents, find}
use network_os_simulation.Lru.Invariant.{Holds}

-- A new cache holds no entry.
pub init-Holds : (capacity : ℕ) → Holds (init capacity) []
unfolding init lookup find contents ℕ_discrete
init-Holds capacity = record {
  nodes = [];
  valid = record {
    chain = record {
      links = (refl, refl, tt);
      distinct = ((λ e. omega arith, tt), (tt, tt));
      below = (omega arith, (omega arith, tt));
    };
    keys = tt;
    index = λ q. refl;
    size = refl;
    unique = tt;
    blank = (refl, refl);
    end = refl;
  };
  entries = refl;
}

-- With capacity 0 the first `put` follows a pointer that was never assigned.
put-capacity_zero : (k v : Text) → put k v (init 0) ≡ none
unfolding put init make_room delete_node ℕ_discrete
put-capacity_zero k v = refl
