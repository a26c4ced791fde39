-- ===== src/Shared/Words.antt =====
-- `stream >> word` for a `std::string`: white space is skipped, and the bytes up to the next white
-- space are the word. `none`: the stream has no word left.
use Prim.Native.Nat.{ℕ, ◌+◌, ◌<◌, ◌≤◌}
use mathlib.Core.Path.{◌≡◌, refl, ap, sym, ◌∙◌}
use mathlib.Core.Bool.{Bool, true, false, ◌&&◌, ◌||◌}
use mathlib.Core.List.{[], ◌∷◌, ◌++◌}
use mathlib.Core.Option.{Option, none, some}
use native.Mathlib.Omega.{arith}
use network_os_simulation.Shared.Tests.{leb, ◌==◌, if◌then◌else◌}
use network_os_simulation.Shared.Lists.{length, All, append_nil}
use network_os_simulation.Shared.Text.{Text}

-- Blank, tab, line feed, vertical tab, form feed and carriage return.
unfoldable pub is_space : ℕ → Bool
is_space c = c == 32 || (leb 9 c && leb c 13)

unfoldable pub skip_spaces : Text → Text
unfolding is_space
skip_spaces [] = []
skip_spaces (c ∷ s) = if is_space c then skip_spaces s else c ∷ s

unfoldable pub take_word : Text → Text × Text
unfolding is_space
take_word [] = ([], [])
take_word (c ∷ s) = let (w, r) = take_word s in if is_space c then ([], c ∷ s) else (c ∷ w, r)

-- A word that is not empty.
abbrev found : Text × Text → Option (Text × Text)
found ([], r) = none
found (c ∷ w, r) = some (c ∷ w, r)

unfoldable pub read_word : Text → Option (Text × Text)
unfolding skip_spaces take_word
read_word s = found (take_word (skip_spaces s))

abbrev pub NoSpace : Text → Type 0
NoSpace w = All (λ c. is_space c ≡ false) w

abbrev pub IsWord : Text → Type 0
IsWord [] = ⊥
IsWord (c ∷ w) = NoSpace (c ∷ w)

-- Nothing follows, or white space.
abbrev pub Stops : Text → Type 0
Stops [] = Unit
Stops (c ∷ s) = is_space c ≡ true

take_word-append : (w r : Text) → NoSpace w → Stops r → take_word (w ++ r) ≡ (w, r)
unfolding take_word
take_word-append [] [] n s = refl
take_word-append [] (c ∷ r) n s = rw s
take_word-append (c ∷ w) r n s = rw (n.0, take_word-append w r n.1 s)

-- A word that is followed by nothing or by white space is read whole.
pub read_word-append : (w r : Text) → IsWord w → Stops r → read_word (w ++ r) ≡ some (w, r)
unfolding read_word skip_spaces
read_word-append [] r n s = elim n [ ]
read_word-append (c ∷ w) r n s = rw (n.0, take_word-append (c ∷ w) r n s)

-- White space before a word does not matter.
pub read_word-space : (c : ℕ) (s : Text) → is_space c ≡ true → read_word (c ∷ s) ≡ read_word s
unfolding read_word skip_spaces
read_word-space c s e = rw e

pub read_word-nil : read_word [] ≡ none
unfolding read_word
read_word-nil = refl

length-skip_spaces : (s : Text) → length (skip_spaces s) ≤ length s
unfolding skip_spaces
length-skip_spaces [] = omega arith
length-skip_spaces (c ∷ s) = ground (arith, length-skip_spaces s)

length-take_word : (s : Text) → length (take_word s).0 + length (take_word s).1 ≡ length s
unfolding take_word
length-take_word [] = omega arith
length-take_word (c ∷ s) = ground (arith, length-take_word s)

found-some : (p : Text × Text) (w r : Text) → found p ≡ some (w, r) → (0 < length p.0) × (p.1 ≡ r)
found-some ([], q) w r e = cc
found-some (c ∷ v, q) w r e = (omega arith, ground arith)

-- What is left is shorter.
pub length-read_word : (s w r : Text) → read_word s ≡ some (w, r) → length r < length s
unfolding read_word
length-read_word s w r e =
    let (pos, same) = found-some (take_word (skip_spaces s)) w r e in
    omega (arith, length-skip_spaces s, length-take_word (skip_spaces s), ap length same)

-- A word alone is read whole.
pub read_word_all : (w : Text) → IsWord w → read_word w ≡ some (w, [])
read_word_all w n = ap read_word (sym (append_nil w)) ∙ read_word-append w [] n tt
