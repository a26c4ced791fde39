-- ===== src/Ospf/Router.antt =====
-- NetworkProtocols/OSPF.cpp, class Router and the set of all routers.
-- A `Router*` is an address, and NULL is `none`. An ID is used only as a key: it is the number that
-- the bits of the `int` stand for. A link weight is a cost, a natural number.
use network_os_simulation.Shared.Lists.{In}
use network_os_simulation.Shared.{
  ℕ, List, [], ◌∷◌, ◌++◌, Option, none, some, update, ◌==◌, if◌then◌else◌, refl, sym, subst, inl,
  inr, All,
}

pub record Router : Type 0 where
  pub router_id : ℕ
  pub neighbors : List (ℕ × ℕ)  -- address and weight
  pub routing_table : List (ℕ × Option ℕ)  -- by ID

-- `all_router_ptrs`, in the order of its iteration, and the routers by address.
pub record Network : Type 0 where
  pub routers : List ℕ
  pub node : ℕ → Router

abbrev pub id_of : Network → ℕ → ℕ
id_of net a = (net.node a).router_id

abbrev pub links_of : Network → ℕ → List (ℕ × ℕ)
links_of net a = (net.node a).neighbors

-- `r.addNeighbor(neighbor, weight)`
unfoldable pub add_neighbor : ℕ → ℕ → ℕ → Network → Network
add_neighbor r neighbor weight net = record net {
  node =
      update net.node r
        (record (net.node r) { neighbors = links_of net r ++ (neighbor, weight) ∷ [] });
}

unfoldable pub get_router_by_id : ℕ → Network → List ℕ → Option ℕ
get_router_by_id i net [] = none
get_router_by_id i net (r ∷ rs) = if id_of net r == i then some r else get_router_by_id i net rs

-- A property of all items, and of each item.
pub All-of_In :
    (P : ℕ × ℕ → Type 0) (es : List (ℕ × ℕ)) → ((v w : ℕ) → In (v, w) es → P (v, w)) → All P es
All-of_In P [] f = tt
All-of_In P ((v, w) ∷ es) f = (f v w (inl refl), All-of_In P es (λ v' w' h. f v' w' (inr h)))

pub In-of_All :
    (P : ℕ × ℕ → Type 0) (es : List (ℕ × ℕ)) (v w : ℕ) → All P es → In (v, w) es → P (v, w)
In-of_All P [] v w h i = elim i [ ]
In-of_All P (e ∷ es) v w h (inl q) = subst P (sym q) h.0
In-of_All P (e ∷ es) v w h (inr q) = In-of_All P es v w h.1 q

pub All-In {κ} : (xs : List ℕ) (x : ℕ) (P : ℕ → Type κ) → All P xs → In x xs → P x
All-In [] x P h i = elim i [ ]
All-In (y ∷ ys) x P h (inl q) = subst P (sym q) h.0
All-In (y ∷ ys) x P h (inr i) = All-In ys x P h.1 i
