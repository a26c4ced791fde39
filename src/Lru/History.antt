-- ===== src/Lru/History.antt =====
-- NetworkProtocols/LRU.cpp, class LRUCache: the calls that a client makes from the constructor on.
use network_os_simulation.Shared.{
  ℕ, ◌≤◌, ◌<◌, ◌≡◌, refl, subst, sym, ◌∙◌, inl, inr, List, [], ◌∷◌, Option, none, some, arith,
  length, length-drop_last, ◌==◌, ==_iff, ◌>>=◌, Bool-cases, Option-cases,
}
use network_os_simulation.Shared.Text.{Text, text_discrete}
use network_os_simulation.Shared.Dict.{lookup, length-erase}
use network_os_simulation.Lru.Cache.{LruCache, init, get, put}
use network_os_simulation.Lru.Spec.{Entries, answer, touch, store}
use network_os_simulation.Lru.Invariant.{Holds}
use network_os_simulation.Lru.Start.{init-Holds}
use network_os_simulation.Lru.GetRefines.{get-Holds}
use network_os_simulation.Lru.PutHolds.{put-Holds}

pub data CacheCall : Type 0 where
  get_call : Text → CacheCall
  put_call : Text → Text → CacheCall

-- The calls, with the texts that `get` returns.
unfoldable pub calls : List CacheCall → LruCache → Option (LruCache × List Text)
calls [] c = some (c, [])
calls (get_call k ∷ cs) c = do one ← get k c; more ← calls cs one.0; some (more.0, one.1 ∷ more.1)
calls (put_call k v ∷ cs) c = do c1 ← put k v c; calls cs c1

-- What the calls do to the list of the entries.
abbrev pub promised : ℕ → List CacheCall → Entries → Entries × List Text
promised cap [] l = (l, [])
promised cap (get_call k ∷ cs) l =
    let more = promised cap cs (touch k l) in (more.0, answer (lookup text_discrete k l) ∷ more.1)
promised cap (put_call k v ∷ cs) l = promised cap cs (store cap k v l)

-- Every `put` is of a key that is not stored, as in `main`, which calls `get` first.
abbrev pub PutsNew : ℕ → List CacheCall → Entries → Type 0
PutsNew cap [] l = Unit
PutsNew cap (get_call k ∷ cs) l = PutsNew cap cs (touch k l)
PutsNew cap (put_call k v ∷ cs) l =
    (lookup text_discrete k l ≡ none) × PutsNew cap cs (store cap k v l)

length-touch : (k : Text) (l : Entries) → length (touch k l) ≡ length l
unfolding touch
length-touch k l = elim (Option-cases (lookup text_discrete k l)) [
  | inl miss ↦ rw (miss, touch)
  | inr (v, hit) ↦ rw (hit, touch) (length-erase text_discrete k v l hit)
]

length-store :
    (cap : ℕ) (k v : Text) (l : Entries) → 0 < cap → length l ≤ cap → length (store cap k v l) ≤ cap
unfolding store
length-store cap k v l pos le = elim (Bool-cases (length l == cap)) [
  | inl full ↦
      let all : length l ≡ cap = (==_iff (length l) cap).0 full in
      rw (full) (omega (arith, all, length-drop_last l (omega (arith, all))))
  | inr room ↦ rw (room) (ground (arith, room))
]

-- The cache after the calls, which run, and the bound on its entries.
pub record Keeps (cap : ℕ) (cs : List CacheCall) (l : Entries) (c : LruCache) : Type 0 where
  pub after : LruCache
  pub runs : calls cs c ≡ some (after, (promised cap cs l).1)
  pub holds : Holds after (promised cap cs l).0
  pub bound : length (promised cap cs l).0 ≤ cap

calls-Keeps_from :
    (cap : ℕ) (cs : List CacheCall) (l : Entries) (c : LruCache)
    → 0 < cap
    → c.cap ≡ cap
    → Holds c l
    → length l ≤ cap
    → PutsNew cap cs l
    → Keeps cap cs l c
unfolding calls
calls-Keeps_from cap [] l c pos is h le new = record {
  after = c;
  runs = refl;
  holds = h;
  bound = le;
}
calls-Keeps_from cap (get_call k ∷ cs) l c pos is h le new =
    let g = get-Holds c l k h in
    let r =
      calls-Keeps_from cap cs (touch k l) g.after pos (g.cap ∙ is) g.holds
        (subst (λ n. n ≤ cap) (sym (length-touch k l)) le) new in
    record { after = r.after; runs = rw (g.runs, r.runs); holds = r.holds; bound = r.bound }
calls-Keeps_from cap (put_call k v ∷ cs) l c pos is h le new =
    let p = put-Holds c l k v h (subst (λ n. 0 < n) (sym is) pos) new.0 in
    let r =
      calls-Keeps_from cap cs (store cap k v l) p.after pos (p.cap ∙ is)
        (subst (λ n. Holds p.after (store n k v l)) is p.holds) (length-store cap k v l pos le)
        new.1 in
    record { after = r.after; runs = rw (p.runs) r.runs; holds = r.holds; bound = r.bound }

-- From the constructor on with a capacity above 0, any calls of `get` and `put` run without a
-- fault, if each `put` is of a key that is not stored. The texts that `get` returns and the
-- entries of the cache are those that a list of entries gives, where a hit moves to the front and
-- a new entry of a full cache takes the place of the last; and the cache never ends with more
-- entries than its capacity.
pub calls-Keeps :
    (cap : ℕ) (cs : List CacheCall) → 0 < cap → PutsNew cap cs [] → Keeps cap cs [] (init cap)
unfolding init
calls-Keeps cap cs pos new =
    calls-Keeps_from cap cs [] (init cap) pos refl (init-Holds cap) (omega arith) new
