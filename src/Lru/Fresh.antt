-- ===== src/Lru/Fresh.antt =====
-- NetworkProtocols/LRU.cpp, `new Node(key, value)` in put: a fresh node changes nothing of the list.
use network_os_simulation.Shared.{
  ℕ, ◌<◌, ◌≡◌, refl, ap₂, ◌≢◌, List, [], ◌∷◌, map, All, All-map, update, if_neg, ℕ_discrete, arith,
  some, ite,
}
use network_os_simulation.Shared.Text.{Text, text_discrete}
use network_os_simulation.Lru.Memory.{Memory, new_node}
use network_os_simulation.Lru.Chain.{Chain}
use network_os_simulation.Lru.Links.{Linked-next, Linked-prev}
use network_os_simulation.Lru.Spec.{contents, find}

pub fresh_of_below : (u : ℕ) (ps : List ℕ) → All (λ q. q < u) ps → All (λ q. u ≢ q) ps
fresh_of_below u ps h = All-map (λ q. q < u) (λ q lt e. omega arith) ps h

module _ (key : ℕ → Text) (u : ℕ) (k : Text) where
  map-update : (ps : List ℕ) → All (λ q. u ≢ q) ps → map (update key u k) ps ≡ map key ps
  map-update [] f = refl
  map-update (p ∷ ps) f = ap₂ ◌∷◌ (if_neg (ℕ_discrete u p) f.0 _ _) (map-update ps f.1)

  find-update :
      (q : Text) (ps : List ℕ) → All (λ q. u ≢ q) ps → find (update key u k) q ps ≡ find key q ps
  unfolding find
  find-update q [] f = refl
  find-update q (p ∷ ps) f =
      ap₂ (λ j o. ite (text_discrete q j) (some p) o) (if_neg (ℕ_discrete u p) f.0 k (key p))
        (find-update q ps f.1)

module _ (h : Memory) (k v : Text) where
  pub next-new_node : (q : ℕ) → h.used ≢ q → (new_node k v h).next q ≡ h.next q
  unfolding new_node
  next-new_node q f = if_neg (ℕ_discrete h.used q) f _ _

  pub val-new_node : (q : ℕ) → h.used ≢ q → (new_node k v h).val q ≡ h.val q
  unfolding new_node
  val-new_node q f = if_neg (ℕ_discrete h.used q) f _ _

  pub keys-new_node :
      (ps : List ℕ) → All (λ q. h.used ≢ q) ps → map (new_node k v h).key ps ≡ map h.key ps
  unfolding new_node
  keys-new_node ps f = map-update h.key h.used k ps f

  pub find-new_node :
      (q : Text) (ps : List ℕ)
      → All (λ q. h.used ≢ q) ps
      → find (new_node k v h).key q ps ≡ find h.key q ps
  unfolding new_node
  find-new_node q ps f = find-update h.key h.used k q ps f

  pub contents-new_node :
      (ps : List ℕ) → All (λ q. h.used ≢ q) ps → contents (new_node k v h) ps ≡ contents h ps
  unfolding new_node contents
  contents-new_node [] f = refl
  contents-new_node (p ∷ ps) f =
      ap₂ ◌∷◌
        (ap₂ (λ a b. (a, b)) (if_neg (ℕ_discrete h.used p) f.0 k (h.key p))
          (if_neg (ℕ_discrete h.used p) f.0 v (h.val p)))
        (contents-new_node ps f.1)

  pub Chain-new_node : (a : ℕ) (l : List ℕ) → Chain h a l → Chain (new_node k v h) a l
  unfolding new_node
  Chain-new_node a l c =
      let f = fresh_of_below h.used (a ∷ l) c.below in
      record {
        links =
            Linked-prev _ h.prev h.used _ a l f.1
              (Linked-next h.next h.prev h.used _ a l f.0 f.1 c.links);
        distinct = c.distinct;
        below = All-map (λ q. q < h.used) (λ q lt. omega arith) (a ∷ l) c.below;
      }
