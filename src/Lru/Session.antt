-- ===== src/Lru/Session.antt =====
-- NetworkProtocols/LRU.cpp, main: what the loop does with a URL, from its splitting to the page.
use network_os_simulation.Shared.{
  ℕ, ◌<◌, ◌≡◌, ◌≢◌, ap, ap₂, ◌∙◌, sym, subst, Option, none, some, Option-cases, arith, ◌>>=◌, inl,
  inr, false,
}
use network_os_simulation.Shared.Text.{Text, text_discrete}
use network_os_simulation.Shared.Dict.{lookup}
use network_os_simulation.Lru.Cache.{LruCache, missing, get, put}
use network_os_simulation.Lru.Fetch.{
  Network, failed, send_http_get_request, send_http_get_request-failed,
}
use network_os_simulation.Lru.Spec.{Entries, answer, touch, touch-miss, store, lookup-store}
use network_os_simulation.Lru.Invariant.{Holds}
use network_os_simulation.Lru.GetRefines.{get-Holds}
use network_os_simulation.Lru.PutHolds.{put-Holds}
use network_os_simulation.Lru.Url.{extract_host_and_path}

-- What the user sees: the message about a bad URL, or the page.
pub data Reply : Type 0 where
  bad_url : Reply
  page : Text → Reply

-- The round after the URL was split; `gt` is what the cache answered.
serve_split : Network → Text → Text → Text → LruCache → Option (LruCache × Reply)
serve_split net s host path c = do
  (c1, gt) ← get s c
  elim (text_discrete gt missing) [
    | yes _ ↦ do
      let ans = send_http_get_request net host path
      c2 ← put s ans c1
      some (c2, page ans)
    | no _ ↦ some (c1, page gt)
  ]

unfoldable pub serve : Network → Text → LruCache → Option (LruCache × Reply)
unfolding serve_split
serve net s c = elim (extract_host_and_path s) [
  | none ↦ some (c, bad_url)
  | some (host, path) ↦ serve_split net s host path c
]

-- What the user is shown, from what is stored and what is fetched.
abbrev pub shown : Option Text → Text → Text
shown none fetched = fetched
shown (some v) fetched = v

-- The entries after the round.
abbrev pub entries_after : Option Text → ℕ → Text → Text → Entries → Entries
entries_after none cap s fetched l = store cap s fetched l
entries_after (some v) cap s fetched l = touch s l

pub record ServeRuns (net : Network) (s host path : Text) (c : LruCache) (l : Entries)
    : Type 0 where
  pub after : LruCache
  pub runs :
      serve net s c
      ≡ some (after, page (shown (lookup text_discrete s l) (send_http_get_request net host path)))
  pub holds :
      Holds after
        (entries_after (lookup text_discrete s l) c.cap s (send_http_get_request net host path) l)
  pub cap : after.cap ≡ c.cap

module _ (net : Network) (s host path : Text) (c : LruCache) where
  serve_split-stored :
      (c1 : LruCache) (v : Text)
      → get s c ≡ some (c1, v)
      → v ≢ missing
      → serve_split net s host path c ≡ some (c1, page v)
  unfolding serve_split
  serve_split-stored c1 v e real = ground (arith, e)

  serve_split-fetched :
      (c1 c2 : LruCache)
      → get s c ≡ some (c1, missing)
      → put s (send_http_get_request net host path) c1 ≡ some c2
      → serve_split net s host path c ≡ some (c2, page (send_http_get_request net host path))
  unfolding serve_split
  serve_split-fetched c1 c2 e p = ground (arith, e, p)

  serve-split :
      extract_host_and_path s ≡ some (host, path) → serve net s c ≡ serve_split net s host path c
  unfolding serve
  serve-split split = rw (split, serve)

  serve_hit :
      (l : Entries) (v : Text)
      → extract_host_and_path s ≡ some (host, path)
      → Holds c l
      → lookup text_discrete s l ≡ some v
      → v ≢ missing
      → ServeRuns net s host path c l
  serve_hit l v split h hit real =
      let g = get-Holds c l s h in
      let fetched = send_http_get_request net host path in
      record {
        after = g.after;
        runs =
            serve-split split
            ∙ serve_split-stored g.after v (g.runs ∙ ap (λ o. some (g.after, answer o)) hit) real
            ∙ ap (λ o. some (g.after, page (shown o fetched))) (sym hit);
        holds = subst (λ o. Holds g.after (entries_after o c.cap s fetched l)) (sym hit) g.holds;
        cap = g.cap;
      }

  serve_miss :
      (l : Entries)
      → extract_host_and_path s ≡ some (host, path)
      → Holds c l
      → 0 < c.cap
      → lookup text_discrete s l ≡ none
      → ServeRuns net s host path c l
  serve_miss l split h pos miss =
      let g = get-Holds c l s h in
      let fetched = send_http_get_request net host path in
      let kept = subst (Holds g.after) (touch-miss s l miss) g.holds in
      let p = put-Holds g.after l s fetched kept (subst (λ n. 0 < n) (sym g.cap) pos) miss in
      record {
        after = p.after;
        runs =
            serve-split split
            ∙ serve_split-fetched g.after p.after (g.runs ∙ ap (λ o. some (g.after, answer o)) miss)
                p.runs
            ∙ ap (λ o. some (p.after, page (shown o fetched))) (sym miss);
        holds =
            subst (λ o. Holds p.after (entries_after o c.cap s fetched l)) (sym miss)
              (subst (λ n. Holds p.after (store n s fetched l)) g.cap p.holds);
        cap = p.cap ∙ g.cap;
      }

-- A URL that can be split: the page is shown, and the cache holds the entries after it.
pub serve-ServeRuns :
    (net : Network) (s host path : Text) (c : LruCache) (l : Entries)
    → extract_host_and_path s ≡ some (host, path)
    → Holds c l
    → 0 < c.cap
    → lookup text_discrete s l ≢ some missing
    → ServeRuns net s host path c l
serve-ServeRuns net s host path c l split h pos real =
    elim (Option-cases (lookup text_discrete s l)) [
      | inl miss ↦ serve_miss net s host path c l split h pos miss
      | inr (v, hit) ↦ serve_hit net s host path c l v split h hit (λ e. real (hit ∙ ap some e))
    ]

failed≢missing : failed ≢ missing
failed≢missing e = cc

-- A page that could not be fetched is stored like any other: where the host does not resolve or
-- refuses the connection, and the URL is not stored, the round shows "1", and a later round for
-- the URL shows "1" again, whatever the network then answers.
pub serve-failed_twice :
    (net later : Network) (s host path : Text) (c : LruCache) (l : Entries)
    → extract_host_and_path s ≡ some (host, path)
    → Holds c l
    → 0 < c.cap
    → lookup text_discrete s l ≡ none
    → ((addr : ℕ) → net.gethostbyname host ≡ some addr → net.connect addr ≡ false)
    → (c1 : LruCache) × (c2 : LruCache) × (serve net s c ≡ some (c1, page failed))
      × (serve later s c1 ≡ some (c2, page failed))
serve-failed_twice net later s host path c l split h pos miss unreached =
    let r = serve_miss net s host path c l split h pos miss in
    let fetched = send_http_get_request-failed net host path unreached in
    let stored : Holds r.after (store c.cap s failed l) =
      subst (λ o. Holds r.after (entries_after o c.cap s failed l)) miss
        (subst (λ t. Holds r.after (entries_after (lookup text_discrete s l) c.cap s t l)) fetched
          r.holds) in
    let again = lookup-store c.cap s failed l in
    let r2 =
      serve_hit later s host path r.after (store c.cap s failed l) failed split stored again
        failed≢missing in
    (
      r.after,
      r2.after,
      r.runs ∙ ap₂ (λ o t. some (r.after, page (shown o t))) miss fetched,
      r2.runs
          ∙ ap (λ o. some (r2.after, page (shown o (send_http_get_request later host path)))) again,
    )
