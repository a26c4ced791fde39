-- ===== src/Ospf/Menu/Weights.antt =====
-- NetworkProtocols/OSPF.cpp: the weights of the links stay positive when routers come and go.
use network_os_simulation.Shared.{ℕ, subst, ◌<◌, inl, inr, List, All}
use network_os_simulation.Shared.Lists.{In}
use network_os_simulation.Ospf.Router.{In-of_All, id_of, Network, links_of}
use network_os_simulation.Ospf.Manage.Links.{Joins}
use network_os_simulation.Ospf.Manage.Delete.{Parts}
use network_os_simulation.Ospf.FindPath.Follow.{Positive}

-- The weights that the user types.
abbrev pub Weights : List (ℕ × ℕ) → Type 0
Weights es = All (λ e. 0 < e.1) es

pub Positive-Joins :
    (a i : ℕ) (incoming outgoing : List (ℕ × ℕ)) (net after : Network)
    → Joins a i incoming outgoing net after
    → Weights incoming
    → Weights outgoing
    → Positive net
    → Positive after
Positive-Joins a i incoming outgoing net after j ws vs p x b w l m = elim ((j.live x).0 l) [
  | inl q ↦
      let (there, typed) = (j.leaving b w).0 (subst (λ z. In (b, w) (links_of after z)) q m) in
      In-of_All (λ e. 0 < e.1) outgoing (id_of net b) w vs typed
  | inr old ↦ elim ((j.links x b w old).0 m) [
    | inl before ↦ p x b w old before
    | inr (q, typed) ↦ In-of_All (λ e. 0 < e.1) incoming (id_of net x) w ws typed
  ]
]

pub Positive-Parts :
    (gone : ℕ) (net after : Network) → Parts gone net after → Positive net → Positive after
Positive-Parts gone net after parts p a b w la i =
    p a b w ((parts.live a).0 la).0 ((parts.links a b w la).0 i).0
