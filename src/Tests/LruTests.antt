-- ===== src/Tests/LruTests.antt =====
-- NetworkProtocols/LRU.cpp: runs of the cache, and its theorems at concrete inputs.
use mathlib.Core.Option
use network_os_simulation.Shared.{
  ℕ, List, ◌<◌, ◌≡◌, refl, sym, subst, [], ◌∷◌, Option, some, none, arith, ◌>>=◌, true,
}
use network_os_simulation.Shared.Text.{Text, codes, text_discrete}
use network_os_simulation.Shared.Dict.{lookup, insert, erase}
use network_os_simulation.Lru.Listing
use network_os_simulation.Lru.Listing.{print, numbered}
use network_os_simulation.Lru.Memory.{at, wild, new_node, add_node, delete_node}
use network_os_simulation.Lru.Cache.{LruCache, missing, init, get, put, make_room}
use network_os_simulation.Lru.Spec.{store, touch}
use network_os_simulation.Lru.History
use network_os_simulation.Lru.History.{CacheCall, get_call, put_call, PutsNew, promised, Keeps}
use network_os_simulation.Shared.Lists.{drop_last}
use network_os_simulation.Lru.Invariant.{Holds}
use network_os_simulation.Lru.GetRefines
use network_os_simulation.Lru.GetRefines.{GetRuns}
use network_os_simulation.Lru.PutHolds
use network_os_simulation.Lru.PutHolds.{PutRuns}
use network_os_simulation.Lru.Start
use network_os_simulation.Lru.Url
use network_os_simulation.Lru.Url.Sound
use network_os_simulation.Lru.Url.Sound.{IsSplit}
use network_os_simulation.Lru.Url.{extract_host_and_path}
use network_os_simulation.Lru.Fetch
use network_os_simulation.Lru.Fetch.{Network, http_request, send_http_get_request, failed}
use network_os_simulation.Lru.Session
use network_os_simulation.Lru.Session.{serve, page}
use network_os_simulation.Lru.Turn
use network_os_simulation.Lru.Turn.{TurnAnswers, turn, exiting}

-- All that a run of the cache computes with.
program : Unit {0}
unfolding text_discrete lookup insert erase new_node add_node delete_node init get put make_room
program = tt

-- `a` and `b` are stored, `a` is read, and `c` pushes `b` out.
abbrev session : Option (LruCache × Text)
session = do
  c1 ← put (codes "a") (codes "1") (init 2)
  c2 ← put (codes "b") (codes "2") c1
  (c3, _) ← get (codes "a") c2
  c4 ← put (codes "c") (codes "3") c3
  get (codes "b") c4

evicts_least_recent : Option.map (λ (r : LruCache × Text). r.1) session ≡ some (codes "-1")
unfolding program
evicts_least_recent = refl

init-cap : 0 < (init 2).cap
unfolding init
init-cap = omega arith

-- A cache of two that holds one page.
abbrev key : Text
key = codes "www.a.org/x"

abbrev body : Text
body = codes "hello"

one_page : PutRuns (init 2) [] key body
unfolding lookup
one_page = PutHolds.put-Holds (init 2) [] key body (Start.init-Holds 2) init-cap refl

put-Holds_example : PutRuns (init 2) [] key body
unfolding lookup
put-Holds_example = PutHolds.put-Holds (init 2) [] key body (Start.init-Holds 2) init-cap refl

get-Holds_example : GetRuns one_page.after (store (init 2).cap key body []) key
get-Holds_example =
    GetRefines.get-Holds one_page.after (store (init 2).cap key body []) key one_page.holds

init-Holds_example : Holds (init 3) []
init-Holds_example = Start.init-Holds 3

print-Holds_example :
    print 3 1 one_page.after.mem (at one_page.after.head)
    ≡ record { lines = (1, key) ∷ []; ptr = wild }
unfolding program store numbered
print-Holds_example =
    Listing.print-Holds one_page.after (store (init 2).cap key body []) one_page.holds

-- `a` is not there, and is stored; `b` and `c` push it out of a cache of two.
abbrev history : List CacheCall
history =
    get_call (codes "a")
    ∷ put_call (codes "a") (codes "1")
    ∷ put_call (codes "b") (codes "2")
    ∷ get_call (codes "a")
    ∷ put_call (codes "c") (codes "3")
    ∷ get_call (codes "b")
    ∷ []

history-PutsNew : PutsNew 2 history []
unfolding text_discrete lookup erase touch store drop_last
history-PutsNew = (refl, (refl, (refl, tt)))

history_answers : (promised 2 history []).1 ≡ codes "-1" ∷ codes "1" ∷ codes "-1" ∷ []
unfolding text_discrete lookup erase touch store drop_last
history_answers = refl

calls-Keeps_example : Keeps 2 history [] (init 2)
calls-Keeps_example = History.calls-Keeps 2 history (omega arith) history-PutsNew

-- Three pages, one of them "-1".
abbrev listed : Option (List (ℕ × Text))
listed = do
  c1 ← put (codes "a") (codes "1") (init 3)
  c2 ← put (codes "b") missing c1
  c3 ← put (codes "c") (codes "3") c2
  some (print 9 1 c3.mem (at c3.head)).lines

skips_blank : listed ≡ some ((1, codes "c") ∷ (2, codes "a") ∷ [])
unfolding program print
skips_blank = refl

-- A network in which one host answers with two buffers, and another that does not resolve.
abbrev net : Network
net = record {
  gethostbyname = λ h. some 7;
  socket = true;
  connect = λ a. true;
  send = λ a r. true;
  recv = λ a r. codes "hel" ∷ codes "lo" ∷ [];
}

abbrev no_net : Network
no_net = record net { gethostbyname = λ h. none }

split_key : extract_host_and_path key ≡ some (codes "www.a.org", codes "/x")
unfolding extract_host_and_path
split_key = refl

-- The page is stored; it is shown and listed.
turn-TurnAnswers_example :
    TurnAnswers net key
      (codes "www.a.org")
      (codes "/x")
      one_page.after
      (store (init 2).cap key body [])
unfolding lookup store text_discrete init
turn-TurnAnswers_example =
    Turn.turn-TurnAnswers net key (codes "www.a.org") (codes "/x") one_page.after
      (store (init 2).cap key body []) (λ e. cc) split_key one_page.holds
      (subst (λ n. 0 < n) (sym one_page.cap) init-cap) (λ e. cc)

-- The word that ends the program.
exits : turn 5 net (codes "exit") (init 2) ≡ some exiting
unfolding turn text_discrete
exits = refl

serve-failed_twice_example :
    (c1 : LruCache) × (c2 : LruCache) × (serve no_net key (init 2) ≡ some (c1, page failed))
    × (serve net key c1 ≡ some (c2, page failed))
unfolding lookup
serve-failed_twice_example =
    Session.serve-failed_twice no_net net key (codes "www.a.org") (codes "/x") (init 2) [] split_key
      (Start.init-Holds 2) init-cap refl (λ addr e. cc)

send_http_get_request-join_example :
    send_http_get_request net (codes "a") (codes "/") ≡ codes "hello"
send_http_get_request-join_example =
    Fetch.send_http_get_request-join net (codes "a") (codes "/") 7
      (record { resolved = refl; created = refl; connected = refl; sent = refl }) (omega arith)

send_http_get_request-failed_example : send_http_get_request no_net (codes "a") (codes "/") ≡ failed
send_http_get_request-failed_example =
    Fetch.send_http_get_request-failed no_net (codes "a") (codes "/") (λ addr e. cc)

extract_host_and_path-http_example :
    (extract_host_and_path (codes "http://a.b/c") ≡ some (codes "a.b", codes "/c"))
    × (extract_host_and_path (codes "http://a.b") ≡ some (codes "a.b", codes "/"))
extract_host_and_path-http_example =
    Url.extract_host_and_path-http b'a' (codes ".b") (codes "c") (omega arith) (refl, tt)

extract_host_and_path-IsSplit_example : IsSplit key (codes "www.a.org") (codes "/x")
extract_host_and_path-IsSplit_example =
    Sound.extract_host_and_path-IsSplit key (codes "www.a.org") (codes "/x") split_key
