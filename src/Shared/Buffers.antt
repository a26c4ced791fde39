-- ===== src/Shared/Buffers.antt =====
-- Texts that a buffer of a C program holds, up to the first NUL.
use mathlib.Core.Path.{◌≡◌, refl}
use mathlib.Core.Logic.{◌≢◌}
use mathlib.Core.List.{[], ◌∷◌}
use native.Mathlib.Omega.{arith}
use network_os_simulation.Shared.Tests.{◌==◌, if◌then◌else◌}
use network_os_simulation.Shared.Lists.{All}
use network_os_simulation.Shared.Text.{Text}

-- The bytes before the first NUL: what `s += buffer` appends.
unfoldable pub c_string : Text → Text
c_string [] = []
c_string (c ∷ s) = let rest = c_string s in if c == 0 then [] else c ∷ rest

abbrev pub NoNul : Text → Type 0
NoNul s = All (λ c. c ≢ 0) s

pub c_string-NoNul : (s : Text) → NoNul s → c_string s ≡ s
unfolding c_string
c_string-NoNul [] n = refl
c_string-NoNul (c ∷ s) n = ground (arith, c_string-NoNul s n.1)
