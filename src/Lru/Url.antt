-- ===== src/Lru/Url.antt =====
-- NetworkProtocols/LRU.cpp, ExtractHostAndPath: the match of "^(http?://)?([^/]+)(/.*)?$".
-- The matcher tries the optional scheme first and does without it if the rest fails. `[^/]+` takes
-- all up to the first '/', since with less the rest starts with no '/'; `.` is any byte but a line
-- end.
pub mod Sound
use network_os_simulation.Shared.{
  ℕ, ◌≡◌, refl, ◌≢◌, [], ◌∷◌, ◌++◌, Option, none, some, Bool, true, arith, not, ◌&&◌, ◌==◌,
  if◌then◌else◌, All,
}
use network_os_simulation.Shared.Text.{Text, codes}

abbrev slash : ℕ
slash = b'/'

-- `[^/]+`, greedy, and what follows it.
span_host : Text → Text × Text
span_host [] = ([], [])
span_host (c ∷ s) =
    let (host, rest) = span_host s in if c == slash then ([], c ∷ s) else (c ∷ host, rest)

abbrev is_dot : ℕ → Bool
is_dot c = not (c == 10) && not (c == 13)

all_dots : Text → Bool
all_dots [] = true
all_dots (c ∷ s) = is_dot c && all_dots s

strip_prefix : Text → Text → Option Text
strip_prefix [] s = some s
strip_prefix (p ∷ ps) [] = none
strip_prefix (p ∷ ps) (c ∷ s) = let rest = strip_prefix ps s in if p == c then rest else none

-- `(/.*)?$`, and the path that the code takes from it.
match_path : Text → Option Text
match_path [] = some (codes "/")
match_path (c ∷ s) = if all_dots s then some (c ∷ s) else none

-- The two groups, from what `[^/]+` would take: it takes at least one byte.
match_groups : Text → Text → Option (Text × Text)
unfolding match_path all_dots
match_groups [] rest = none
match_groups (c ∷ host) rest = elim (match_path rest) [
  | none ↦ none
  | some path ↦ some (c ∷ host, path)
]

-- `([^/]+)(/.*)?$`
match_rest : Text → Option (Text × Text)
unfolding span_host match_groups
match_rest s = let (host, rest) = span_host s in match_groups host rest

abbrev or_else {ℓ} : {A : Type ℓ} → Option A → Option A → Option A
or_else none o = o
or_else (some a) o = some a

-- `none` is the result `false`, `some` the host and the path of the result `true`.
unfoldable pub extract_host_and_path : Text → Option (Text × Text)
unfolding strip_prefix match_rest
extract_host_and_path url = elim (strip_prefix (codes "http://") url) [
  | some rest ↦ or_else (match_rest rest) (match_rest url)
  | none ↦ elim (strip_prefix (codes "htt://") url) [
    | some rest ↦ or_else (match_rest rest) (match_rest url)
    | none ↦ match_rest url
  ]
]

abbrev pub NoSlash : Text → Type 0
NoSlash s = All (λ c. c ≢ slash) s

abbrev pub OneLine : Text → Type 0
OneLine s = All (λ c. is_dot c ≡ true) s

span_host-append : (h rest : Text) → NoSlash h → span_host (h ++ slash ∷ rest) ≡ (h, slash ∷ rest)
unfolding span_host
span_host-append [] rest n = refl
span_host-append (c ∷ h) rest n = ground (arith, span_host-append h rest n.1)

span_host-all : (h : Text) → NoSlash h → span_host h ≡ (h, [])
unfolding span_host
span_host-all [] n = refl
span_host-all (c ∷ h) n = ground (arith, span_host-all h n.1)

all_dots_of_OneLine : (s : Text) → OneLine s → all_dots s ≡ true
unfolding all_dots
all_dots_of_OneLine [] h = refl
all_dots_of_OneLine (c ∷ s) h = rw (h.0) (all_dots_of_OneLine s h.1)

match_rest-append :
    (c : ℕ) (h rest : Text)
    → NoSlash (c ∷ h)
    → OneLine rest
    → match_rest (c ∷ h ++ slash ∷ rest) ≡ some (c ∷ h, slash ∷ rest)
unfolding match_rest
match_rest-append c h rest n o = rw (
  span_host-append (c ∷ h) rest n,
  match_rest,
  match_groups,
  match_path,
  all_dots_of_OneLine rest o,
)

match_rest-all : (c : ℕ) (h : Text) → NoSlash (c ∷ h) → match_rest (c ∷ h) ≡ some (c ∷ h, codes "/")
unfolding match_rest
match_rest-all c h n = rw (span_host-all (c ∷ h) n, match_rest)

-- A URL of the scheme http, with a path on one line: the host is what stands between the scheme
-- and the next '/', and the path is the rest, or "/" where there is none.
pub extract_host_and_path-http :
    (c : ℕ) (h rest : Text)
    → NoSlash (c ∷ h)
    → OneLine rest
    → (extract_host_and_path (codes "http://" ++ c ∷ h ++ slash ∷ rest)
        ≡ some (c ∷ h, slash ∷ rest))
      × (extract_host_and_path (codes "http://" ++ c ∷ h) ≡ some (c ∷ h, codes "/"))
unfolding extract_host_and_path
extract_host_and_path-http c h rest n o =
    (rw (match_rest-append c h rest n o), rw (match_rest-all c h n))

-- Every URL of the scheme https is split wrongly: its host is "https:", and the path keeps the
-- rest of the URL.
extract_host_and_path-https :
    (rest : Text)
    → OneLine rest
    → extract_host_and_path (codes "https://" ++ rest) ≡ some (codes "https:", codes "//" ++ rest)
unfolding extract_host_and_path
extract_host_and_path-https rest o = rw (all_dots_of_OneLine rest o)
