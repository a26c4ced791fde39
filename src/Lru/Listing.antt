-- ===== src/Lru/Listing.antt =====
-- NetworkProtocols/LRU.cpp, print: the listing of the cache. Its loop ends at a null pointer, but
-- the program makes none: the listing is given round by round, with the pointer it stands at.
use network_os_simulation.Shared.{
  ℕ, ◌+◌, zero, suc, ◌≡◌, ◌≢◌, ap, ap₂, ◌∙◌, sym, List, [], ◌∷◌, ◌++◌, ite, length, if_pos, if_neg,
  length-map, arith,
}
use network_os_simulation.Shared.Text.{Text, text_discrete}
use network_os_simulation.Lru.Memory.{Ptr, Memory}
use network_os_simulation.Lru.Cache.{LruCache, missing}
use network_os_simulation.Lru.Links.{Linked}
use network_os_simulation.Lru.Spec.{Entries, contents}
use network_os_simulation.Lru.Invariant.{Holds}

-- The lines printed, each a number and a URL, and the pointer after the last round.
pub record Listing : Type 0 where
  pub lines : List (ℕ × Text)
  pub ptr : Ptr

-- At most `rounds` rounds of the loop; it cannot go on from a pointer that was never assigned.
unfoldable pub print : ℕ → ℕ → Memory → Ptr → Listing
print zero i h p = record { lines = []; ptr = p }
print (suc rounds) i h Ptr.wild = record { lines = []; ptr = Ptr.wild }
print (suc rounds) i h (Ptr.at p) = elim (text_discrete (h.val p) missing) [
  | yes _ ↦ print rounds i h (h.next p)
  | no _ ↦
      let rest = print rounds (i + 1) h (h.next p) in
      record { lines = (i, h.key p) ∷ rest.lines; ptr = rest.ptr }
]

-- The lines for entries, most recently used first: a page "-1" has none.
unfoldable pub numbered : ℕ → Entries → List (ℕ × Text)
numbered i [] = []
numbered i ((k, v) ∷ l) = ite (text_discrete v missing) (numbered i l) ((i, k) ∷ numbered (i + 1) l)

print-blank :
    (rounds i : ℕ) (h : Memory) (p : ℕ)
    → h.val p ≡ missing
    → print (suc rounds) i h (Ptr.at p) ≡ print rounds i h (h.next p)
unfolding print
print-blank rounds i h p e = ground (arith, e)

-- A line in front of a listing.
abbrev with_line : ℕ → Text → Listing → Listing
with_line i k r = record { lines = (i, k) ∷ r.lines; ptr = r.ptr }

print-line :
    (rounds i : ℕ) (h : Memory) (p : ℕ)
    → h.val p ≢ missing
    → print (suc rounds) i h (Ptr.at p) ≡ with_line i (h.key p) (print rounds (i + 1) h (h.next p))
unfolding print
print-line rounds i h p e = ground (arith, e)

-- Linked nodes are listed in their order, and the loop then stands after the sentinel `z`.
print-Linked :
    (h : Memory) (a z i : ℕ) (ps : List ℕ)
    → Linked h.next h.prev a (ps ++ z ∷ [])
    → h.val z ≡ missing
    → print (suc (length ps)) i h (h.next a)
      ≡ record { lines = numbered i (contents h ps); ptr = h.next z }
unfolding numbered contents print
print-Linked h a z i [] (n, _, _) blank = ap (print 1 i h) n ∙ print-blank 0 i h z blank
print-Linked h a z i (p ∷ ps) (n, _, k) blank =
    ap (print (suc (suc (length ps))) i h) n ∙ (elim (text_discrete (h.val p) missing) [
      | yes e ↦
          print-blank (suc (length ps)) i h p e
          ∙ print-Linked h p z i ps k blank
          ∙ ap (λ ls. record { lines = ls; ptr = h.next z })
              (sym (if_pos (text_discrete (h.val p) missing) e _ _))
      | no e ↦
          print-line (suc (length ps)) i h p e
          ∙ ap (with_line i (h.key p)) (print-Linked h p z (i + 1) ps k blank)
          ∙ ap (λ ls. record { lines = ls; ptr = h.next z })
              (sym (if_neg (text_discrete (h.val p) missing) e _ _))
    ])

length-contents : (h : Memory) (ps : List ℕ) → length (contents h ps) ≡ length ps
unfolding contents
length-contents h ps = length-map _ ps

-- On a cache that holds `l`, as many rounds as there are nodes print the URLs of `l` in their
-- order, numbered from 1, but for pages "-1", and the loop then tests a pointer that was never
-- assigned.
pub print-Holds :
    (c : LruCache) (l : Entries)
    → Holds c l
    → print (suc (suc (length l))) 1 c.mem (Ptr.at c.head)
      ≡ record { lines = numbered 1 l; ptr = Ptr.wild }
print-Holds c l h =
    let nodes : length l ≡ length h.nodes =
      ap length (sym h.entries) ∙ length-contents c.mem h.nodes in
    ap (λ n. print (suc (suc n)) 1 c.mem (Ptr.at c.head)) nodes
    ∙ print-blank (suc (length h.nodes)) 1 c.mem c.head h.valid.blank.0
    ∙ print-Linked c.mem c.head c.tail 1 h.nodes h.valid.chain.links h.valid.blank.1
    ∙ ap₂ (λ es q. record { lines = numbered 1 es; ptr = q }) h.entries h.valid.end
