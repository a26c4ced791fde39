-- ===== src/Lru/Chain.antt =====
-- NetworkProtocols/LRU.cpp: addNode and deleteNode on a list of distinct, allocated nodes.
use network_os_simulation.Shared.{
  ℕ, ◌<◌, ◌≡◌, refl, sym, ◌≢◌, List, [], ◌∷◌, ◌++◌, some, All, Distinct, All-append, All-left,
  All-right, Distinct-drop, Distinct-middle, last_or, ◌∙◌, update,
}
use network_os_simulation.Lru.Memory.{Ptr, Memory, add_node, delete_node}
use network_os_simulation.Lru.Links.{
  Linked, last_or-before, last_or-ne, update_other, Linked-unlink, Linked-linked_in, unlinked,
  linked_in, delete_node-unlinked, add_node-linked_in,
}

-- The nodes `l` follow the node `a`; `a` and `l` are distinct and allocated.
pub record Chain (h : Memory) (a : ℕ) (l : List ℕ) : Type 0 where
  pub links : Linked h.next h.prev a l
  pub distinct : Distinct (a ∷ l)
  pub below : All (λ q. q < h.used) (a ∷ l)

-- Only pointers differ.
pub record SameData (h h' : Memory) : Type 0 where
  pub keys : h'.key ≡ h.key
  pub vals : h'.val ≡ h.val
  pub used : h'.used ≡ h.used

drop_below :
    (P : ℕ → Type 0) (pre : List ℕ) (x : ℕ) (rest : List ℕ)
    → All P (pre ++ x ∷ rest)
    → P x × All P (pre ++ rest)
drop_below P pre x rest b =
    let r = All-right P pre (x ∷ rest) b in
    (r.0, All-append P pre rest (All-left P pre (x ∷ rest) b) r.1)

-- A deleted node leaves the list, the rest stays a list, and what follows its last node stays.
pub record Deleted (h : Memory) (a x : ℕ) (l : List ℕ) : Type 0 where
  pub after : Memory
  pub runs : delete_node x h ≡ some after
  pub chain : Chain after a l
  pub same : SameData h after
  pub end : after.next (last_or a l) ≡ h.next (last_or a l)
  pub outside : All (λ q. x ≢ q) (a ∷ l)
  pub allocated : x < after.used

pub Chain-delete :
    (h : Memory) (a : ℕ) (pre : List ℕ) (x n : ℕ) (post : List ℕ)
    → Chain h a (pre ++ x ∷ n ∷ post)
    → Deleted h a x (pre ++ n ∷ post)
Chain-delete h a pre x n post c =
    let rest = n ∷ post in
    let below = drop_below (λ q. q < h.used) (a ∷ pre) x rest c.below in
    record {
      after = unlinked (last_or a pre) n h;
      runs = delete_node-unlinked h a pre x n post c.links;
      chain = record {
        links = Linked-unlink h.next h.prev a pre x n post c.distinct c.links;
        distinct = Distinct-drop (a ∷ pre) x rest c.distinct;
        below = below.1;
      };
      same = record { keys = refl; vals = refl; used = refl };
      end =
          update_other h.next (last_or a pre) (last_or a (pre ++ rest)) (Ptr.at n)
            (last_or-before a pre n post (Distinct-drop (a ∷ pre) x rest c.distinct));
      outside = Distinct-middle (a ∷ pre) x rest c.distinct;
      allocated = below.0;
    }

-- An added node stands first.
pub record Added (h : Memory) (a x : ℕ) (l : List ℕ) : Type 0 where
  pub after : Memory
  pub runs : add_node a x h ≡ some after
  pub chain : Chain after a (x ∷ l)
  pub same : SameData h after
  pub end : after.next (last_or a l) ≡ h.next (last_or a l)

pub Chain-add :
    (h : Memory) (a x n : ℕ) (post : List ℕ)
    → Chain h a (n ∷ post)
    → All (λ q. x ≢ q) (a ∷ n ∷ post)
    → x < h.used
    → Added h a x (n ∷ post)
Chain-add h a x n post c f u = record {
  after = linked_in a x n h;
  runs = add_node-linked_in h a x n post c.links;
  chain = record {
    links = Linked-linked_in h a x n post c.distinct f c.links;
    distinct = ((λ e. f.0 (sym e), c.distinct.0), (f.1, c.distinct.1));
    below = (c.below.0, (u, c.below.1));
  };
  same = record { keys = refl; vals = refl; used = refl };
  end =
      update_other (update h.next a (Ptr.at x)) x (last_or n post) (Ptr.at n)
        (last_or-ne (λ q. x ≢ q) n post f.1)
      ∙ update_other h.next a (last_or n post) (Ptr.at x)
          (last_or-ne (λ q. a ≢ q) n post c.distinct.0);
}

-- The last node of a list.
Linked-last :
    (nx pv : ℕ → Ptr) (a : ℕ) (pre : List ℕ) (z : ℕ)
    → Linked nx pv a (pre ++ z ∷ [])
    → pv z ≡ Ptr.at (last_or a pre)
Linked-last nx pv a [] z k = k.1
Linked-last nx pv a (b ∷ pre) z k = Linked-last nx pv b pre z k.2

pub Chain-last :
    (h : Memory) (a : ℕ) (pre : List ℕ) (z : ℕ)
    → Chain h a (pre ++ z ∷ [])
    → h.prev z ≡ Ptr.at (last_or a pre)
Chain-last h a pre z c = Linked-last h.next h.prev a pre z c.links
