-- ===== src/Lru/Url/Sound.antt =====
-- NetworkProtocols/LRU.cpp, ExtractHostAndPath: what it returns are parts of the URL.
use network_os_simulation.Shared.{
  ◌≡◌, refl, ap, ◌∙◌, subst, ◌≢◌, ◌⊎◌, inl, inr, [], ◌∷◌, ◌++◌, Option, none, some, arith, ◌==◌,
  Bool-cases, Option-cases,
}
use network_os_simulation.Shared.Text.{Text, codes}
use network_os_simulation.Lru.Url.{
  slash, NoSlash, span_host, match_path, match_groups, match_rest, strip_prefix, or_else,
  extract_host_and_path,
}

-- How a URL is put together.
pub record IsSplit (url host path : Text) : Type 0 where
  pub scheme : Text
  pub rest : Text
  pub url_parts : url ≡ scheme ++ (host ++ rest)
  pub schemes : (scheme ≡ []) ⊎ ((scheme ≡ codes "htt://") ⊎ (scheme ≡ codes "http://"))
  pub host_bytes : NoSlash host
  pub host_some : host ≢ []
  pub path_start : (t : Text) × (path ≡ slash ∷ t)
  pub path_rest : (path ≡ rest) ⊎ ((rest ≡ []) × (path ≡ codes "/"))

record Spanned (s : Text) : Type 0 where
  whole : s ≡ (span_host s).0 ++ (span_host s).1
  clean : NoSlash (span_host s).0
  stop : ((span_host s).1 ≡ []) ⊎ ((t : Text) × ((span_host s).1 ≡ slash ∷ t))

span_host-Spanned : (s : Text) → Spanned s
unfolding span_host
span_host-Spanned [] = record { whole = refl; clean = tt; stop = inl refl }
span_host-Spanned (c ∷ s) =
    let r = span_host-Spanned s in
    elim (Bool-cases (c == slash)) [
      | inl e ↦ record { whole = rw e; clean = rw e tt; stop = inr (s, ground arith) }
      | inr e ↦ record {
        whole = ground (arith, r.whole);
        clean = rw e (ground arith, r.clean);
        stop = ground (arith, r.stop);
      }
    ]

record Groups (host rest h p : Text) : Type 0 where
  same : host ≡ h
  some_host : h ≢ []
  start : (t : Text) × (p ≡ slash ∷ t)
  from_rest : (p ≡ rest) ⊎ ((rest ≡ []) × (p ≡ codes "/"))

match_groups-Groups :
    (host rest h p : Text)
    → (rest ≡ []) ⊎ ((t : Text) × (rest ≡ slash ∷ t))
    → match_groups host rest ≡ some (h, p)
    → Groups host rest h p
unfolding match_groups match_path
match_groups-Groups [] rest h p stop e = cc
match_groups-Groups (c ∷ host) rest h p (inl none_left) e = record {
  same = ground arith;
  some_host = ground arith;
  start = ([], ground arith);
  from_rest = inr (none_left, ground arith);
}
match_groups-Groups (c ∷ host) rest h p (inr (t, left)) e = record {
  same = ground arith;
  some_host = ground arith;
  start = (t, ground arith);
  from_rest = inl (ground arith);
}

strip_prefix-append : (p s r : Text) → strip_prefix p s ≡ some r → s ≡ p ++ r
unfolding strip_prefix
strip_prefix-append [] s r e = ground arith
strip_prefix-append (p ∷ ps) [] r e = cc
strip_prefix-append (p ∷ ps) (c ∷ s) r e = ground (arith, strip_prefix-append ps s r)

-- A match of what follows a scheme is a split of the URL.
match_rest-IsSplit :
    (scheme url s host path : Text)
    → (scheme ≡ []) ⊎ ((scheme ≡ codes "htt://") ⊎ (scheme ≡ codes "http://"))
    → url ≡ scheme ++ s
    → match_rest s ≡ some (host, path)
    → IsSplit url host path
unfolding match_rest
match_rest-IsSplit scheme url s host path k whole e =
    let sp = span_host-Spanned s in
    let g = match_groups-Groups (span_host s).0 (span_host s).1 host path sp.stop e in
    record {
      scheme = scheme;
      rest = (span_host s).1;
      url_parts = whole ∙ ap (λ t. scheme ++ t) (sp.whole ∙ ap (λ h. h ++ (span_host s).1) g.same);
      schemes = k;
      host_bytes = subst (λ h. NoSlash h) g.same sp.clean;
      host_some = g.some_host;
      path_start = g.start;
      path_rest = g.from_rest;
    }

or_else_cases :
    (o o' : Option (Text × Text)) {r : Text × Text}
    → or_else o o' ≡ some r
    → (o ≡ some r) ⊎ (o' ≡ some r)
or_else_cases none o' e = inr e
or_else_cases (some a) o' e = inl e

module _ (url host path : Text) where
  after_scheme :
      (scheme rest : Text)
      → (scheme ≡ codes "htt://") ⊎ (scheme ≡ codes "http://")
      → strip_prefix scheme url ≡ some rest
      → or_else (match_rest rest) (match_rest url) ≡ some (host, path)
      → IsSplit url host path
  after_scheme scheme rest k strip e = elim (or_else_cases (match_rest rest) (match_rest url) e) [
    | inl with_it ↦
        match_rest-IsSplit scheme url rest host path (inr k)
          (strip_prefix-append scheme url rest strip) with_it
    | inr without ↦ match_rest-IsSplit [] url url host path (inl refl) refl without
  ]

  -- Where ExtractHostAndPath returns true, the URL is an optional scheme ("http://" or "htt://"),
  -- the host and a rest; the host is not empty and has no '/'; the path starts with '/', and is
  -- the rest, or "/" where the rest is empty.
  pub extract_host_and_path-IsSplit :
      extract_host_and_path url ≡ some (host, path) → IsSplit url host path
  unfolding extract_host_and_path
  extract_host_and_path-IsSplit e = elim (Option-cases (strip_prefix (codes "http://") url)) [
    | inr (rest, s) ↦ after_scheme (codes "http://") rest (inr refl) s (ground arith)
    | inl n ↦ elim (Option-cases (strip_prefix (codes "htt://") url)) [
      | inr (rest, s) ↦ after_scheme (codes "htt://") rest (inl refl) s (ground arith)
      | inl n' ↦ match_rest-IsSplit [] url url host path (inl refl) refl (ground arith)
    ]
  ]
