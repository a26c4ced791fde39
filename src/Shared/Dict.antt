-- ===== src/Shared/Dict.antt =====
-- A `std::map` as an association list without repeated keys.
use Prim.Native.Nat.{suc}
use mathlib.Core.Path.{◌≡◌, refl, sym, subst}
use mathlib.Core.Logic.{◌≢◌, ite, if_pos, if_neg}
use mathlib.Core.List.{List, [], ◌∷◌, map}
use mathlib.Core.Option.{Option, none, some}
use native.Mathlib.Omega.{arith}
use network_os_simulation.Shared.Lists.{length, All, Distinct}

module _ {ℓ} {K V : Type ℓ} (dec : Discrete K) where
  unfoldable pub lookup : K → List (K × V) → Option V
  lookup k [] = none
  lookup k ((j, v) ∷ m) = ite (dec k j) (some v) (lookup k m)

  -- `m[k] = v`
  unfoldable pub insert : K → V → List (K × V) → List (K × V)
  insert k v [] = (k, v) ∷ []
  insert k v ((j, w) ∷ m) = ite (dec k j) ((k, v) ∷ m) ((j, w) ∷ insert k v m)

  -- `m.erase(k)`
  unfoldable pub erase : K → List (K × V) → List (K × V)
  erase k [] = []
  erase k ((j, w) ∷ m) = ite (dec k j) m ((j, w) ∷ erase k m)

  pub lookup-insert :
      (q k : K) (v : V) (m : List (K × V))
      → lookup q (insert k v m) ≡ ite (dec q k) (some v) (lookup q m)
  unfolding lookup insert
  lookup-insert q k v [] = refl
  lookup-insert q k v ((j, w) ∷ m) = ground (arith, lookup-insert q k v m)

  pub length-insert_new :
      (k : K) (v : V) (m : List (K × V))
      → lookup k m ≡ none
      → length (insert k v m) ≡ suc (length m)
  unfolding lookup insert
  length-insert_new k v [] h = refl
  length-insert_new k v ((j, w) ∷ m) h = ground (arith, length-insert_new k v m)

  pub length-insert_old :
      (k : K) (v w : V) (m : List (K × V)) → lookup k m ≡ some w → length (insert k v m) ≡ length m
  unfolding lookup insert
  length-insert_old k v w [] h = cc
  length-insert_old k v w ((j, u) ∷ m) h = ground (arith, length-insert_old k v w m)

  pub length-erase :
      (k : K) (w : V) (m : List (K × V)) → lookup k m ≡ some w → suc (length (erase k m)) ≡ length m
  unfolding lookup erase
  length-erase k w [] h = cc
  length-erase k w ((j, u) ∷ m) h = ground (arith, length-erase k w m)

  pub lookup-erase_ne : (q k : K) (m : List (K × V)) → q ≢ k → lookup q (erase k m) ≡ lookup q m
  unfolding lookup erase
  lookup-erase_ne q k [] h = refl
  lookup-erase_ne q k ((j, w) ∷ m) h = ground (arith, lookup-erase_ne q k m)

abbrev pub keys {ℓ} : {K V : Type ℓ} → List (K × V) → List K
keys m = map (λ e. e.0) m

module _ {ℓ} {K V : Type ℓ} (dec : Discrete K) where
  lookup-absent : (k : K) (m : List (K × V)) → All (λ y. k ≢ y) (keys m) → lookup dec k m ≡ none
  unfolding lookup
  lookup-absent k [] h = refl
  lookup-absent k ((j, w) ∷ m) h = ground (arith, lookup-absent k m h.1)

  pub lookup-erase_self :
      (k : K) (m : List (K × V)) → Distinct (keys m) → lookup dec k (erase dec k m) ≡ none
  unfolding lookup erase
  lookup-erase_self k [] d = refl
  lookup-erase_self k ((j, w) ∷ m) d = elim (dec k j) [
    | yes e ↦
        rw (if_pos (dec k j) e _ _)
          (lookup-absent k m (subst (λ i. All (λ y. i ≢ y) (keys m)) (sym e) d.0))
    | no e ↦ rw (if_neg (dec k j) e _ _) (rw (if_neg (dec k j) e _ _) (lookup-erase_self k m d.1))
  ]

  All-insert :
      (P : K → Type ℓ) (k : K) (v : V) (m : List (K × V))
      → P k
      → All P (keys m)
      → All P (keys (insert dec k v m))
  unfolding insert
  All-insert P k v [] p h = (p, tt)
  All-insert P k v ((j, w) ∷ m) p h = elim (dec k j) [
    | yes e ↦ rw (if_pos (dec k j) e _ _) (p, h.1)
    | no e ↦ rw (if_neg (dec k j) e _ _) (h.0, All-insert P k v m p h.1)
  ]

  -- A write keeps the keys distinct.
  pub Distinct-insert :
      (k : K) (v : V) (m : List (K × V)) → Distinct (keys m) → Distinct (keys (insert dec k v m))
  unfolding insert
  Distinct-insert k v [] d = (tt, tt)
  Distinct-insert k v ((j, w) ∷ m) d = elim (dec k j) [
    | yes e ↦ rw (if_pos (dec k j) e _ _) (subst (λ i. All (λ y. i ≢ y) (keys m)) (sym e) d.0, d.1)
    | no e ↦
        rw (if_neg (dec k j) e _ _)
          (All-insert (λ y. j ≢ y) k v m (λ q. e (sym q)) d.0, Distinct-insert k v m d.1)
  ]

  All-erase :
      (P : K → Type ℓ) (k : K) (m : List (K × V)) → All P (keys m) → All P (keys (erase dec k m))
  unfolding erase
  All-erase P k [] h = tt
  All-erase P k ((j, w) ∷ m) h = elim (dec k j) [
    | yes e ↦ rw (if_pos (dec k j) e _ _) h.1
    | no e ↦ rw (if_neg (dec k j) e _ _) (h.0, All-erase P k m h.1)
  ]

  -- An erasure keeps the keys distinct.
  pub Distinct-erase :
      (k : K) (m : List (K × V)) → Distinct (keys m) → Distinct (keys (erase dec k m))
  unfolding erase
  Distinct-erase k [] d = tt
  Distinct-erase k ((j, w) ∷ m) d = elim (dec k j) [
    | yes e ↦ rw (if_pos (dec k j) e _ _) d.1
    | no e ↦ rw (if_neg (dec k j) e _ _) (All-erase (λ y. j ≢ y) k m d.0, Distinct-erase k m d.1)
  ]
