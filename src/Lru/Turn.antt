-- ===== src/Lru/Turn.antt =====
-- NetworkProtocols/LRU.cpp, main: one turn of the loop, from the word that is read to the listing.
use network_os_simulation.Shared.{
  ℕ, suc, ◌<◌, ◌≡◌, ◌≢◌, refl, ap, ◌∙◌, Option, some, ◌>>=◌, length, if_neg, ite,
}
use network_os_simulation.Shared.Text.{Text, codes, text_discrete}
use network_os_simulation.Shared.Dict.{lookup}
use network_os_simulation.Lru.Memory.{Ptr}
use network_os_simulation.Lru.Cache.{LruCache, missing}
use network_os_simulation.Lru.Fetch.{Network, send_http_get_request}
use network_os_simulation.Lru.Spec.{Entries}
use network_os_simulation.Lru.Invariant.{Holds}
use network_os_simulation.Lru.Url.{extract_host_and_path}
use network_os_simulation.Lru.Session.{
  Reply, bad_url, page, serve, shown, entries_after, serve-ServeRuns,
}
use network_os_simulation.Lru.Listing.{Listing, print, numbered, print-Holds}

-- The loop is left, the URL is refused, or a page is shown and the cache listed.
pub data Turn : Type 0 where
  exiting : Turn
  refused : LruCache → Turn
  answered : LruCache → Text → Listing → Turn

-- The listing is given after `rounds` rounds of its loop, with the pointer that it then tests.
unfoldable pub answer_with : ℕ → LruCache × Reply → Turn
unfolding print
answer_with rounds (c, bad_url) = refused c
answer_with rounds (c, page t) = answered c t (print rounds 1 c.mem (Ptr.at c.head))

unfoldable pub turn : ℕ → Network → Text → LruCache → Option Turn
unfolding serve answer_with
turn rounds net s c =
    ite (text_discrete s (codes "exit")) (some exiting)
      (do r ← serve net s c; some (answer_with rounds r))

-- The turn shows the page and lists the entries; the loop of the listing then stands at a pointer
-- that was never assigned.
pub record TurnAnswers (net : Network) (s host path : Text) (c : LruCache) (l : Entries)
    : Type 0 where
  pub after : LruCache
  pub entries : Entries
  pub same :
      entries
      ≡ entries_after (lookup text_discrete s l) c.cap s (send_http_get_request net host path) l
  pub holds : Holds after entries
  pub runs :
      turn (suc (suc (length entries))) net s c
      ≡ some (
          answered after
            (shown (lookup text_discrete s l) (send_http_get_request net host path))
            (record { lines = numbered 1 entries; ptr = Ptr.wild }))
  pub cap : after.cap ≡ c.cap

turn-page :
    (rounds : ℕ) (net : Network) (s : Text) (c c1 : LruCache) (t : Text)
    → s ≢ codes "exit"
    → serve net s c ≡ some (c1, page t)
    → turn rounds net s c ≡ some (answered c1 t (print rounds 1 c1.mem (Ptr.at c1.head)))
unfolding turn answer_with
turn-page rounds net s c c1 t ne e =
    if_neg (text_discrete s (codes "exit")) ne _ _
    ∙ ap (λ o. o >>= (λ r. some (answer_with rounds r))) e

-- One turn of the loop for a URL other than "exit" that can be split, on a cache with room that
-- holds `l` and has no page "-1" stored for the URL: it shows the stored page, without the
-- network, or fetches the page and shows it; the cache then holds `l` with the URL's entry in
-- front, and a full cache has dropped its least recently used entry for a new one. After the lines
-- of these entries the loop of the listing stands at a pointer that was never assigned, which it
-- tests.
pub turn-TurnAnswers :
    (net : Network) (s host path : Text) (c : LruCache) (l : Entries)
    → s ≢ codes "exit"
    → extract_host_and_path s ≡ some (host, path)
    → Holds c l
    → 0 < c.cap
    → lookup text_discrete s l ≢ some missing
    → TurnAnswers net s host path c l
turn-TurnAnswers net s host path c l ne split h pos real =
    let r = serve-ServeRuns net s host path c l split h pos real in
    let fetched = send_http_get_request net host path in
    let entries = entries_after (lookup text_discrete s l) c.cap s fetched l in
    let t = shown (lookup text_discrete s l) fetched in
    record {
      after = r.after;
      entries = entries;
      same = refl;
      holds = r.holds;
      runs =
          turn-page (suc (suc (length entries))) net s c r.after t ne r.runs
          ∙ ap (λ p. some (answered r.after t p)) (print-Holds r.after entries r.holds);
      cap = r.cap;
    }
