-- ===== src/Shared/Lists.antt =====
-- Lists measured and indexed by native numbers, predicates on lists, and updates of functions.
use Prim.Native.Nat.{ℕ, zero, suc, ◌+◌, ◌<◌}
use mathlib.Core.Path.{◌≡◌, refl, sym, ap}
use mathlib.Core.Logic.{◌≢◌, ◌⊎◌, inl, inr, ite}
use mathlib.Core.List.{List, [], ◌∷◌, ◌++◌, map}
use mathlib.Core.Option.{Option, none, some}
use native.Mathlib.Omega.{arith}
use native.Mathlib.Decide.{ℕ_discrete}

module _ {ℓ} {A : Type ℓ} where
  abbrev pub length : List A → ℕ
  length [] = 0
  length (x ∷ xs) = suc (length xs)

  abbrev pub get_elem? : List A → ℕ → Option A
  get_elem? [] i = none
  get_elem? (x ∷ xs) zero = some x
  get_elem? (x ∷ xs) (suc i) = get_elem? xs i

  abbrev pub get_or : List A → ℕ → A → A
  get_or [] i d = d
  get_or (x ∷ xs) zero d = x
  get_or (x ∷ xs) (suc i) d = get_or xs i d

  -- A write out of bounds changes nothing.
  abbrev pub set : List A → ℕ → A → List A
  set [] i v = []
  set (x ∷ xs) zero v = v ∷ xs
  set (x ∷ xs) (suc i) v = x ∷ set xs i v

  abbrev pub replicate : ℕ → A → List A
  replicate zero a = []
  replicate (suc n) a = a ∷ replicate n a

  -- The list without its last item.
  unfoldable pub drop_last : List A → List A
  drop_last [] = []
  drop_last (x ∷ []) = []
  drop_last (x ∷ y ∷ xs) = x ∷ drop_last (y ∷ xs)

  -- The last item, or `d` of the empty list.
  abbrev pub last_or : A → List A → A
  last_or d [] = d
  last_or d (x ∷ xs) = last_or x xs

  pub length-append : (xs ys : List A) → length (xs ++ ys) ≡ length xs + length ys
  length-append [] ys = omega arith
  length-append (x ∷ xs) ys = omega (arith, length-append xs ys)

  pub length-set : (xs : List A) (i : ℕ) (v : A) → length (set xs i v) ≡ length xs
  length-set [] i v = refl
  length-set (x ∷ xs) zero v = refl
  length-set (x ∷ xs) (suc i) v = ap suc (length-set xs i v)

  pub get_elem?-set_self :
      (xs : List A) (i : ℕ) (x y : A) → get_elem? xs i ≡ some x → get_elem? (set xs i y) i ≡ some y
  get_elem?-set_self [] i x y e = absurd (ground arith)
  get_elem?-set_self (z ∷ xs) zero x y e = refl
  get_elem?-set_self (z ∷ xs) (suc i) x y e = get_elem?-set_self xs i x y e

  pub get_elem?-set_other :
      (xs : List A) (i j : ℕ) (y : A) → i ≢ j → get_elem? (set xs i y) j ≡ get_elem? xs j
  get_elem?-set_other [] i j y ne = refl
  get_elem?-set_other (z ∷ xs) zero zero y ne = absurd (ne refl)
  get_elem?-set_other (z ∷ xs) zero (suc j) y ne = refl
  get_elem?-set_other (z ∷ xs) (suc i) zero y ne = refl
  get_elem?-set_other (z ∷ xs) (suc i) (suc j) y ne =
      get_elem?-set_other xs i j y (λ e. ne (ap suc e))

  -- A read in bounds has a value, and a read that has a value is in bounds.
  pub get_elem?-lt : (xs : List A) (i : ℕ) → i < length xs → (a : A) × (get_elem? xs i ≡ some a)
  get_elem?-lt [] i lt = absurd (omega arith)
  get_elem?-lt (x ∷ xs) zero lt = (x, refl)
  get_elem?-lt (x ∷ xs) (suc i) lt = get_elem?-lt xs i (omega arith)

  pub lt-get_elem? : (xs : List A) (i : ℕ) (a : A) → get_elem? xs i ≡ some a → i < length xs
  lt-get_elem? [] i a e = absurd (ground arith)
  lt-get_elem? (x ∷ xs) zero a e = omega arith
  lt-get_elem? (x ∷ xs) (suc i) a e = omega (arith, lt-get_elem? xs i a e)

  pub append_assoc : (xs ys zs : List A) → (xs ++ ys) ++ zs ≡ xs ++ (ys ++ zs)
  append_assoc [] ys zs = refl
  append_assoc (x ∷ xs) ys zs = ap (◌∷◌ x) (append_assoc xs ys zs)

  pub append_nil : (xs : List A) → xs ++ [] ≡ xs
  append_nil [] = refl
  append_nil (x ∷ xs) = ap (◌∷◌ x) (append_nil xs)

  pub length-drop_last : (xs : List A) → 0 < length xs → suc (length (drop_last xs)) ≡ length xs
  unfolding drop_last
  length-drop_last [] lt = absurd (omega arith)
  length-drop_last (x ∷ []) lt = refl
  length-drop_last (x ∷ y ∷ xs) lt = ap suc (length-drop_last (y ∷ xs) (omega arith))

  pub drop_last-concat : (xs : List A) (x : A) → drop_last (xs ++ x ∷ []) ≡ xs
  unfolding drop_last
  drop_last-concat [] x = refl
  drop_last-concat (y ∷ []) x = refl
  drop_last-concat (y ∷ z ∷ xs) x = ap (◌∷◌ y) (drop_last-concat (z ∷ xs) x)

  pub last_or-concat : (d : A) (xs : List A) (x : A) → last_or d (xs ++ x ∷ []) ≡ x
  last_or-concat d [] x = refl
  last_or-concat d (y ∷ xs) x = last_or-concat y xs x

  pub List-cases : (xs : List A) → (xs ≡ []) ⊎ ((x : A) × (rest : List A) × (xs ≡ x ∷ rest))
  List-cases [] = inl refl
  List-cases (x ∷ xs) = inr (x, xs, refl)

  -- A list that is not empty, by its last item.
  pub split_last : (x : A) (xs : List A) → (init : List A) × (z : A) × (x ∷ xs ≡ init ++ z ∷ [])
  split_last x [] = ([], x, refl)
  split_last x (y ∷ xs) = let (init, z, e) = split_last y xs in (x ∷ init, z, ap (◌∷◌ x) e)

pub length-map {ℓ κ} :
    {A : Type ℓ} {B : Type κ} (f : A → B) (xs : List A) → length (map f xs) ≡ length xs
length-map f [] = refl
length-map f (x ∷ xs) = ap suc (length-map f xs)

abbrev pub All {ℓ κ} : {A : Type ℓ} → (A → Type κ) → List A → Type κ
All P [] = Unit
All P (x ∷ xs) = P x × All P xs

-- No two items are equal.
abbrev pub Distinct {ℓ} : {A : Type ℓ} → List A → Type ℓ
Distinct [] = Unit
Distinct (x ∷ xs) = All (λ y. x ≢ y) xs × Distinct xs

module _ {ℓ κ} {A : Type ℓ} (P : A → Type κ) where
  pub All-append : (xs ys : List A) → All P xs → All P ys → All P (xs ++ ys)
  All-append [] ys hx hy = hy
  All-append (x ∷ xs) ys hx hy = (hx.0, All-append xs ys hx.1 hy)

  pub All-left : (xs ys : List A) → All P (xs ++ ys) → All P xs
  All-left [] ys h = tt
  All-left (x ∷ xs) ys h = (h.0, All-left xs ys h.1)

  pub All-right : (xs ys : List A) → All P (xs ++ ys) → All P ys
  All-right [] ys h = h
  All-right (x ∷ xs) ys h = All-right xs ys h.1

  pub All-map : {Q : A → Type κ} → ((a : A) → P a → Q a) → (xs : List A) → All P xs → All Q xs
  All-map f [] h = tt
  All-map f (x ∷ xs) h = (f x h.0, All-map f xs h.1)

  pub All-get_elem? : (xs : List A) (i : ℕ) (a : A) → All P xs → get_elem? xs i ≡ some a → P a
  All-get_elem? [] i a h e = absurd (ground arith)
  All-get_elem? (x ∷ xs) zero a h e = ground (arith, h.0)
  All-get_elem? (x ∷ xs) (suc i) a h e = All-get_elem? xs i a h.1 e

  pub All-set : (xs : List A) (i : ℕ) (a : A) → All P xs → P a → All P (set xs i a)
  All-set [] i a h p = tt
  All-set (x ∷ xs) zero a h p = (p, h.1)
  All-set (x ∷ xs) (suc i) a h p = (h.0, All-set xs i a h.1 p)

module _ {ℓ} {A : Type ℓ} where
  -- Dropping an item from the middle keeps the others distinct.
  pub Distinct-drop :
      (xs : List A) (x : A) (ys : List A) → Distinct (xs ++ x ∷ ys) → Distinct (xs ++ ys)
  Distinct-drop [] x ys d = d.1
  Distinct-drop (a ∷ xs) x ys d = (
    All-append (λ y. a ≢ y) xs ys (All-left (λ y. a ≢ y) xs (x ∷ ys) d.0)
        (All-right (λ y. a ≢ y) xs (x ∷ ys) d.0).1,
    Distinct-drop xs x ys d.1,
  )

  -- An item in the middle differs from those before and after it.
  pub Distinct-middle :
      (xs : List A) (x : A) (ys : List A) → Distinct (xs ++ x ∷ ys) → All (λ y. x ≢ y) (xs ++ ys)
  Distinct-middle [] x ys d = d.0
  Distinct-middle (a ∷ xs) x ys d =
      (λ e. (All-right (λ y. a ≢ y) xs (x ∷ ys) d.0).0 (sym e), Distinct-middle xs x ys d.1)

-- `f` with a new value at one number.
abbrev pub update {ℓ} : {A : Type ℓ} → (ℕ → A) → ℕ → A → ℕ → A
update f i a j = ite (ℕ_discrete i j) a (f j)

-- `a` is among the items.
abbrev pub In : {A : Type 0} → A → List A → Type 0
In a [] = ⊥
In a (x ∷ xs) = (a ≡ x) ⊎ In a xs
