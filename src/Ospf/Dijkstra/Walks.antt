-- ===== src/Ospf/Dijkstra/Walks.antt =====
-- NetworkProtocols/OSPF.cpp: walks along the links, and when a network is well formed.
use network_os_simulation.Shared.{ℕ, ◌+◌, ◌≡◌, Distinct}
use network_os_simulation.Shared.Lists.{In}
use network_os_simulation.Ospf.Router.{Network, id_of, links_of}

abbrev pub Live : Network → ℕ → Type 0
Live net a = In a net.routers

-- From router `src` links lead to a router, at this total weight.
pub data Walk (net : Network) (src : ℕ) : ℕ → ℕ → Type 0 where
  here : Walk net src src 0
  step :
      {u d : ℕ} (v w : ℕ) → Walk net src u d → In (v, w) (links_of net u) → Walk net src v (d + w)

-- No two routers share an ID, and links lead to routers of the set.
pub record IsNetwork (net : Network) : Type 0 where
  pub distinct : Distinct net.routers
  pub ids : (a b : ℕ) → Live net a → Live net b → id_of net a ≡ id_of net b → a ≡ b
  pub closed : (a b w : ℕ) → Live net a → In (b, w) (links_of net a) → Live net b
