-- ===== src/Lru/Links.antt =====
-- NetworkProtocols/LRU.cpp: a doubly linked list in memory, and what addNode and deleteNode do
-- to it.
use network_os_simulation.Shared.{
  ℕ, ◌≡◌, refl, sym, ◌≢◌, List, [], ◌∷◌, ◌++◌, some, All, Distinct, All-right, last_or, update,
  if_pos, if_neg, ℕ_discrete,
}
use network_os_simulation.Lru.Memory.{Ptr, Memory, add_node, delete_node}

-- From the node `a` the pointers lead through `l`, forth and back.
abbrev pub Linked : (ℕ → Ptr) → (ℕ → Ptr) → ℕ → List ℕ → Type 0
Linked nx pv a [] = Unit
Linked nx pv a (b ∷ l) = (nx a ≡ Ptr.at b) × (pv b ≡ Ptr.at a) × Linked nx pv b l

pub update_other : (f : ℕ → Ptr) (p q : ℕ) (v : Ptr) → p ≢ q → update f p v q ≡ f q
update_other f p q v h = if_neg (ℕ_discrete p q) h v (f q)

-- Pointers of other nodes may change.
pub Linked-next :
    (nx pv : ℕ → Ptr) (p : ℕ) (v : Ptr) (a : ℕ) (l : List ℕ)
    → p ≢ a
    → All (λ q. p ≢ q) l
    → Linked nx pv a l
    → Linked (update nx p v) pv a l
Linked-next nx pv p v a [] h hs k = tt
Linked-next nx pv p v a (b ∷ l) h hs (n, r, k) =
    (rw (update_other nx p a v h) n, r, Linked-next nx pv p v b l hs.0 hs.1 k)

pub Linked-prev :
    (nx pv : ℕ → Ptr) (p : ℕ) (v : Ptr) (a : ℕ) (l : List ℕ)
    → All (λ q. p ≢ q) l
    → Linked nx pv a l
    → Linked nx (update pv p v) a l
Linked-prev nx pv p v a [] hs k = tt
Linked-prev nx pv p v a (b ∷ l) hs (n, r, k) =
    (n, rw (update_other pv p b v hs.0) r, Linked-prev nx pv p v b l hs.1 k)

-- The neighbours of a node in the middle.
pub Linked-middle :
    (nx pv : ℕ → Ptr) (a : ℕ) (pre : List ℕ) (x n : ℕ) (post : List ℕ)
    → Linked nx pv a (pre ++ x ∷ n ∷ post)
    → (pv x ≡ Ptr.at (last_or a pre)) × (nx x ≡ Ptr.at n)
Linked-middle nx pv a [] x n post (_, r, (s, _, _)) = (r, s)
Linked-middle nx pv a (b ∷ pre) x n post (_, _, k) = Linked-middle nx pv b pre x n post k

last_or-All {ℓ} :
    (P : ℕ → Type ℓ) (b : ℕ) (pre rest : List ℕ) → All P (b ∷ pre ++ rest) → P (last_or b pre)
last_or-All P b [] rest h = h.0
last_or-All P b (c ∷ pre) rest h = last_or-All P c pre rest h.1

pub last_or-ne : (P : ℕ → Type 0) (b : ℕ) (l : List ℕ) → All P (b ∷ l) → P (last_or b l)
last_or-ne P b [] h = h.0
last_or-ne P b (c ∷ l) h = last_or-ne P c l h.1

-- The last of distinct nodes is none before it.
pub last_or-before :
    (a : ℕ) (pre : List ℕ) (n : ℕ) (post : List ℕ)
    → Distinct (a ∷ pre ++ n ∷ post)
    → last_or a pre ≢ last_or a (pre ++ n ∷ post)
last_or-before a [] n post d = last_or-ne (λ q. a ≢ q) n post d.0
last_or-before a (b ∷ pre) n post d = last_or-before b pre n post d.1

-- To unlink a node is to skip it.
pub Linked-unlink :
    (nx pv : ℕ → Ptr) (a : ℕ) (pre : List ℕ) (x n : ℕ) (post : List ℕ)
    → Distinct (a ∷ pre ++ x ∷ n ∷ post)
    → Linked nx pv a (pre ++ x ∷ n ∷ post)
    → Linked
        (update nx (last_or a pre) (Ptr.at n))
        (update pv n (Ptr.at (last_or a pre)))
        a
        (pre ++ n ∷ post)
Linked-unlink nx pv a [] x n post d (_, _, (_, _, k)) = (
  if_pos (ℕ_discrete a a) refl _ _,
  if_pos (ℕ_discrete n n) refl _ _,
  Linked-prev _ pv n _ n post d.1.1.0 (Linked-next nx pv a _ n post d.0.1.0 d.0.1.1 k),
)
Linked-unlink nx pv a (b ∷ pre) x n post d (s, r, k) = (
  rw
      (update_other nx (last_or b pre) a (Ptr.at n)
        (λ e. last_or-All (λ q. a ≢ q) b pre (x ∷ n ∷ post) d.0 (sym e)))
      s,
  rw
      (update_other pv n b (Ptr.at (last_or b pre))
        (λ e. (All-right (λ q. b ≢ q) pre (x ∷ n ∷ post) d.1.0).1.0 (sym e)))
      r,
  Linked-unlink nx pv b pre x n post d.1 k,
)

-- The memory after a node between `p` and `n` is unlinked.
abbrev pub unlinked : ℕ → ℕ → Memory → Memory
unlinked p n h = record h { next = update h.next p (Ptr.at n); prev = update h.prev n (Ptr.at p) }

-- The memory after the node `x` is linked between `a` and `n`.
abbrev pub linked_in : ℕ → ℕ → ℕ → Memory → Memory
linked_in a x n h = record h {
  next = update (update h.next a (Ptr.at x)) x (Ptr.at n);
  prev = update (update h.prev x (Ptr.at a)) n (Ptr.at x);
}

pub delete_node-unlinked :
    (h : Memory) (a : ℕ) (pre : List ℕ) (x n : ℕ) (post : List ℕ)
    → Linked h.next h.prev a (pre ++ x ∷ n ∷ post)
    → delete_node x h ≡ some (unlinked (last_or a pre) n h)
unfolding delete_node
delete_node-unlinked h a pre x n post k =
    let (r, s) = Linked-middle h.next h.prev a pre x n post k in rw (r, s)

pub add_node-linked_in :
    (h : Memory) (a x n : ℕ) (post : List ℕ)
    → Linked h.next h.prev a (n ∷ post)
    → add_node a x h ≡ some (linked_in a x n h)
unfolding add_node
add_node-linked_in h a x n post (s, _, _) = rw s

pub Linked-linked_in :
    (h : Memory) (a x n : ℕ) (post : List ℕ)
    → Distinct (a ∷ n ∷ post)
    → All (λ q. x ≢ q) (a ∷ n ∷ post)
    → Linked h.next h.prev a (n ∷ post)
    → Linked (linked_in a x n h).next (linked_in a x n h).prev a (x ∷ n ∷ post)
Linked-linked_in h a x n post d f (s, r, k) = (
  rw (update_other (update h.next a (Ptr.at x)) x a (Ptr.at n) f.0)
      (if_pos (ℕ_discrete a a) refl _ _),
  rw (update_other (update h.prev x (Ptr.at a)) n x (Ptr.at x) (λ e. f.1.0 (sym e)))
      (if_pos (ℕ_discrete x x) refl _ _),
  (
    if_pos (ℕ_discrete x x) refl _ _,
    if_pos (ℕ_discrete n n) refl _ _,
    Linked-prev _ _ n _ n post d.1.0 (
        Linked-prev _ _ x _ n post f.1.1 (
          Linked-next _ h.prev x _ n post f.1.0 f.1.1
            (Linked-next h.next h.prev a _ n post d.0.0 d.0.1 k))),
  ),
)
