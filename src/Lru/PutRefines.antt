-- ===== src/Lru/PutRefines.antt =====
-- NetworkProtocols/LRU.cpp, LRUCache::put: room is made at the end, the new entry stands in front.
use mathlib.Core.List.{append_assoc, append-nil, map-append}
use network_os_simulation.Shared.{
  ℕ, ◌<◌, ◌≡◌, refl, sym, ap, ◌∙◌, ◌≢◌, inl, inr, List, [], ◌∷◌, ◌++◌, none, some, arith, map,
  subst, length, length-append, Distinct, All, true, false, Bool-cases, ==_iff, ◌==◌, if◌then◌else◌,
  last_or-concat, split_last, drop_last, drop_last-concat, length-map,
}
use network_os_simulation.Shared.Text.{Text, text_discrete}
use network_os_simulation.Shared.Dict.{
  lookup, erase, lookup-erase_self, lookup-erase_ne, length-erase, Distinct-erase,
}
use network_os_simulation.Lru.Memory.{Memory, Ptr}
use network_os_simulation.Lru.Cache.{LruCache, make_room}
use network_os_simulation.Lru.Chain.{Chain, Chain-delete, Chain-last}
use network_os_simulation.Lru.Spec.{Entries, contents, find, find-drop_ne, find-absent}
use network_os_simulation.Lru.Invariant.{IsCache, Holds, Distinct-front, find-middle, contents-data}

-- The cache after the node `z` was evicted.
abbrev evicted : LruCache → ℕ → Memory → LruCache
evicted c z h = record c { m = erase text_discrete (c.mem.key z) c.m; mem = h }

record Evicts (c : LruCache) (init : List ℕ) (z : ℕ) : Type 0 where
  mem : Memory
  runs : make_room c ≡ some (evicted c z mem)
  chain : Chain mem c.head (init ++ c.tail ∷ [])
  keys : mem.key ≡ c.mem.key
  vals : mem.val ≡ c.mem.val
  end : mem.next c.tail ≡ c.mem.next c.tail

make_room_full :
    (c : LruCache) (init : List ℕ) (z : ℕ)
    → IsCache c (init ++ z ∷ [])
    → (length c.m == c.cap) ≡ true
    → Evicts c init z
unfolding make_room
make_room_full c init z v full =
    let d = Chain-delete c.mem c.head init z c.tail [] (subst (Chain c.mem c.head) assoc v.chain) in
    let last : c.mem.prev c.tail ≡ Ptr.at z =
      Chain-last c.mem c.head (init ++ z ∷ []) c.tail v.chain
      ∙ ap Ptr.at (last_or-concat c.head init z) in
    record {
      mem = d.after;
      runs = rw (full, make_room, last, d.runs);
      chain = d.chain;
      keys = d.same.keys;
      vals = d.same.vals;
      end = subst (λ q. d.after.next q ≡ c.mem.next q) (last_or-concat c.head init c.tail) d.end;
    }
  where
    assoc : (init ++ z ∷ []) ++ c.tail ∷ [] ≡ init ++ z ∷ c.tail ∷ []
    assoc = append_assoc init (z ∷ []) (c.tail ∷ [])

absent_last :
    (key : ℕ → Text) (init : List ℕ) (z : ℕ)
    → Distinct (map key (init ++ z ∷ []))
    → find key (key z) init ≡ none
absent_last key init z d =
    let apart = (Distinct-front key init z [] d).0 in
    find-absent key (key z) init
      (subst (λ l. All (λ y. key z ≢ y) (map key l)) (append-nil init) apart)

evicted-IsCache :
    (c : LruCache) (init : List ℕ) (z : ℕ)
    → IsCache c (init ++ z ∷ [])
    → (r : Evicts c init z) → IsCache (evicted c z r.mem) init
evicted-IsCache c init z v r = record {
  chain = r.chain;
  keys =
      subst (λ f. Distinct (map f init)) (sym r.keys)
        (subst (λ l. Distinct (map c.mem.key l)) (append-nil init)
          (Distinct-drop_key init z [] v.keys));
  index = λ q. index q (text_discrete q (c.mem.key z)) ∙ ap (λ f. find f q init) (sym r.keys);
  size = omega (
    arith,
    length-erase text_discrete (c.mem.key z) z c.m stored,
    v.size,
    length-append init (z ∷ []),
  );
  unique = Distinct-erase text_discrete (c.mem.key z) c.m v.unique;
  blank = (ap (λ f. f c.head) r.vals ∙ v.blank.0, ap (λ f. f c.tail) r.vals ∙ v.blank.1);
  end = r.end ∙ v.end;
}
  where
    stored : lookup text_discrete (c.mem.key z) c.m ≡ some z
    stored = v.index (c.mem.key z) ∙ find-middle c.mem.key (c.mem.key z) init z [] v.keys refl

    Distinct-drop_key :
        (pre : List ℕ) (x : ℕ) (post : List ℕ)
        → Distinct (map c.mem.key (pre ++ x ∷ post))
        → Distinct (map c.mem.key (pre ++ post))
    Distinct-drop_key pre x post d = (Distinct-front c.mem.key pre x post d).1

    index :
        (q : Text)
        → Dec (q ≡ c.mem.key z)
        → lookup text_discrete q (erase text_discrete (c.mem.key z) c.m) ≡ find c.mem.key q init
    index q (yes e) = rw e (
        lookup-erase_self text_discrete (c.mem.key z) c.m v.unique
        ∙ sym (absent_last c.mem.key init z v.keys))
    index q (no e) =
        lookup-erase_ne text_discrete q (c.mem.key z) c.m e
        ∙ v.index q
        ∙ find-drop_ne c.mem.key q init z [] e
        ∙ ap (find c.mem.key q) (append-nil init)

-- The entries that stay when room is made.
abbrev pub kept : ℕ → Entries → Entries
kept cap l = if length l == cap then drop_last l else l

pub record Roomy (c : LruCache) (l : Entries) (k : Text) : Type 0 where
  pub after : LruCache
  pub runs : make_room c ≡ some after
  pub holds : Holds after (kept c.cap l)
  pub absent : lookup text_discrete k after.m ≡ none
  pub cap : after.cap ≡ c.cap

length-contents : (h : Memory) (ps : List ℕ) → length (contents h ps) ≡ length ps
unfolding contents
length-contents h ps = length-map _ ps

make_room_spare :
    (c : LruCache) (l : Entries) (k : Text)
    → Holds c l
    → lookup text_discrete k c.m ≡ none
    → length c.m ≡ length l
    → (length l == c.cap) ≡ false
    → Roomy c l k
unfolding make_room
make_room_spare c l k v new sizes spare = record {
  after = c;
  runs = rw (sizes, spare);
  holds = rw spare v;
  absent = new;
  cap = refl;
}

drop_last-contents :
    (h : Memory) (init : List ℕ) (z : ℕ) → drop_last (contents h (init ++ z ∷ [])) ≡ contents h init
unfolding contents
drop_last-contents h init z =
    ap drop_last (map-append (λ p. (h.key p, h.val p)) init (z ∷ []))
    ∙ drop_last-concat (contents h init) (h.key z, h.val z)

absent-evicted :
    (c : LruCache) (init : List ℕ) (z : ℕ) (k : Text)
    → IsCache c (init ++ z ∷ [])
    → lookup text_discrete k c.m ≡ none
    → lookup text_discrete k (erase text_discrete (c.mem.key z) c.m) ≡ none
absent-evicted c init z k v new =
    lookup-erase_ne text_discrete k (c.mem.key z) c.m (λ e. cc (taken e)) ∙ new
  where
    taken : k ≡ c.mem.key z → none ≡ some z
    taken e =
        sym new
        ∙ ap (λ q. lookup text_discrete q c.m) e
        ∙ v.index (c.mem.key z)
        ∙ find-middle c.mem.key (c.mem.key z) init z [] v.keys refl

make_room_full-Roomy :
    (c : LruCache) (k : Text) (init : List ℕ) (z : ℕ)
    → IsCache c (init ++ z ∷ [])
    → lookup text_discrete k c.m ≡ none
    → (length (contents c.mem (init ++ z ∷ [])) == c.cap) ≡ true
    → Roomy c (contents c.mem (init ++ z ∷ [])) k
make_room_full-Roomy c k init z v new full =
    let sizes : length c.m ≡ length (contents c.mem (init ++ z ∷ [])) =
      v.size ∙ sym (length-contents c.mem (init ++ z ∷ [])) in
    let r = make_room_full c init z v (ap (λ n. n == c.cap) sizes ∙ full) in
    record {
      after = evicted c z r.mem;
      runs = r.runs;
      holds = rw full (record {
        nodes = init;
        valid = evicted-IsCache c init z v r;
        entries =
            contents-data r.mem c.mem init r.keys r.vals ∙ sym (drop_last-contents c.mem init z);
      });
      absent = absent-evicted c init z k v new;
      cap = refl;
    }

pub make_room-Roomy :
    (c : LruCache) (l : Entries) (k : Text)
    → Holds c l
    → 0 < c.cap
    → lookup text_discrete k c.m ≡ none
    → Roomy c l k
make_room-Roomy c l k v pos new = elim (Bool-cases (length l == c.cap)) [
  | inr spare ↦ make_room_spare c l k v new sizes spare
  | inl full ↦
      let (init, z, split) =
        last_node v.nodes (omega (arith, sizes, v.valid.size, (==_iff (length l) c.cap).0 full)) in
      subst (λ l. Roomy c l k) (ap (contents c.mem) (sym split) ∙ v.entries)
        (make_room_full-Roomy c k init z (subst (IsCache c) split v.valid) new
          (ap (λ l. length l == c.cap) (ap (contents c.mem) (sym split) ∙ v.entries) ∙ full))
]
  where
    sizes : length c.m ≡ length l
    sizes = v.valid.size ∙ sym (length-contents c.mem v.nodes) ∙ ap length v.entries

    last_node : (ps : List ℕ) → 0 < length ps → (init : List ℕ) × (z : ℕ) × (ps ≡ init ++ z ∷ [])
    last_node [] h = absurd (omega arith)
    last_node (p ∷ ps) h = split_last p ps
