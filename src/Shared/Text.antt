-- ===== src/Shared/Text.antt =====
-- A `std::string` as the list of its bytes.
use Prim.Native.Nat.{ℕ}
use Prim.Native.Char.{code}
use Prim.Native.String.{String}
use mathlib.Core.Path.{◌≡◌, refl, ap₂}
use mathlib.Core.List.{List, [], ◌∷◌}
use native.Mathlib.Decide.{ℕ_discrete}

abbrev pub Text : Type 0
Text = List ℕ

-- The bytes of an ASCII literal.
abbrev pub codes : String → Text
codes String.[] = []
codes (String.◌∷◌ c s) = code c ∷ codes s

tail_eq : {a b : ℕ} {s t : Text} → a ∷ s ≡ b ∷ t → s ≡ t
tail_eq h = cc

head_eq : {a b : ℕ} {s t : Text} → a ∷ s ≡ b ∷ t → a ≡ b
head_eq h = cc

decide_cons : {a b : ℕ} {s t : Text} → Dec (a ≡ b) → Dec (s ≡ t) → Dec (a ∷ s ≡ b ∷ t)
decide_cons (yes p) (yes q) = yes (ap₂ ◌∷◌ p q)
decide_cons (yes p) (no q) = no (λ h. q (tail_eq h))
decide_cons (no p) d = no (λ h. p (head_eq h))

unfoldable pub text_discrete : Discrete Text
unfolding ℕ_discrete decide_cons tail_eq head_eq
text_discrete [] [] = yes refl
text_discrete [] (b ∷ t) = no (λ h. cc)
text_discrete (a ∷ s) [] = no (λ h. cc)
text_discrete (a ∷ s) (b ∷ t) = decide_cons (ℕ_discrete a b) (text_discrete s t)
