-- ===== src/Ospf/Table/Route.antt =====
-- NetworkProtocols/OSPF.cpp, lines 63 to 103: the loop that walks back ends at a router that the
-- owner of the table has a link to.
use network_os_simulation.Shared.{
  ℕ, zero, suc, ◌+◌, ◌≤◌, ◌≡◌, refl, ap, sym, subst, ◌≢◌, inl, inr, List, [], ◌∷◌, some, true,
  false, arith, Bool-cases, ◌==◌, ==_iff, ℕ_discrete,
}
use network_os_simulation.Shared.Lists.{In}
use network_os_simulation.Ospf.Router.{Network, links_of}
use network_os_simulation.Ospf.Dijkstra.{Search}
use network_os_simulation.Ospf.Dijkstra.Walks.{Live, Walk, here, step}
use network_os_simulation.Ospf.Dijkstra.Relax.{dist}
use network_os_simulation.Ospf.Dijkstra.Tree.{Rooted, root, via, IsTree, IsParent}
use network_os_simulation.Ospf.Table.{hop_of, is_neighbor, walk_back}

pub In-of_is_neighbor :
    (es : List (ℕ × ℕ)) (a : ℕ) → is_neighbor es a ≡ true → (w : ℕ) × In (a, w) es
unfolding is_neighbor
In-of_is_neighbor [] a h = absurd (cc)
In-of_is_neighbor ((b, w) ∷ es) a h = elim (Bool-cases (b == a)) [
  | inl e ↦ (w, inl (ap (λ x. (x, w)) (sym ((==_iff b a).0 e))))
  | inr e ↦ let (w', i) = In-of_is_neighbor es a (rw (e, is_neighbor) at h) in (w', inr i)
]

is_neighbor-of_In : (es : List (ℕ × ℕ)) (a w : ℕ) → In (a, w) es → is_neighbor es a ≡ true
unfolding is_neighbor
is_neighbor-of_In [] a w i = elim i [ ]
is_neighbor-of_In ((b, u) ∷ es) a w (inl e) = ground arith
is_neighbor-of_In ((b, u) ∷ es) a w (inr i) = ground (arith, is_neighbor-of_In es a w i)

-- The loop ends at a neighbour, given fuel from `bound` on. `Q` relates it to where the loop began.
pub record Ends (Q : ℕ → ℕ → Type 0) (es : List (ℕ × ℕ)) (hop : ℕ → ℕ) (a : ℕ) : Type 0 where
  pub bound : ℕ
  pub last : ℕ
  pub stops : (fuel : ℕ) → bound ≤ fuel → walk_back es hop fuel a ≡ some last
  pub neighbor : is_neighbor es last ≡ true
  pub holds : Q last a

module _ (Q : ℕ → ℕ → Type 0) (es : List (ℕ × ℕ)) (hop : ℕ → ℕ) (a : ℕ) where
  Ends-here : is_neighbor es a ≡ true → Q a a → Ends Q es hop a
  unfolding walk_back
  Ends-here h q = record {
    bound = 1;
    last = a;
    stops = λ fuel lt. stop fuel lt;
    neighbor = h;
    holds = q;
  }
    where
      stop : (fuel : ℕ) → 1 ≤ fuel → walk_back es hop fuel a ≡ some a
      stop zero lt = absurd (omega arith)
      stop (suc fuel) lt = rw (h, walk_back)

  Ends-step :
      (b : ℕ)
      → is_neighbor es a ≡ false
      → hop a ≡ b
      → ((l : ℕ) → Q l b → Q l a)
      → Ends Q es hop b
      → Ends Q es hop a
  unfolding walk_back
  Ends-step b h e f r = record {
    bound = suc r.bound;
    last = r.last;
    stops = λ fuel lt. stop fuel lt;
    neighbor = r.neighbor;
    holds = f r.last r.holds;
  }
    where
      stop : (fuel : ℕ) → suc r.bound ≤ fuel → walk_back es hop fuel a ≡ some r.last
      stop zero lt = absurd (omega arith)
      stop (suc fuel) lt = rw (h, walk_back, e) (r.stops fuel (omega arith))

-- From `h` the stored routers lead on to `x`, along a walk that the distances allow.
pub record LeadsTo (net : Network) (src : ℕ) (s : Search) (h x : ℕ) : Type 0 where
  pub live : Live net h
  pub apart : h ≢ src
  pub weight : ℕ
  pub walk : Walk net h x weight
  pub below : dist net s h + weight ≤ dist net s x

module _ (net : Network) (src : ℕ) (s : Search) (t : IsTree net src s) where
  pub LeadsTo-itself : (x : ℕ) → Live net x → x ≢ src → LeadsTo net src s x x
  LeadsTo-itself x lx ne = record {
    live = lx;
    apart = ne;
    weight = 0;
    walk = here;
    below = omega arith;
  }

  -- The way goes on from a stored router to the one it is stored for.
  pub LeadsTo-IsParent :
      (h u x : ℕ) → IsParent net src s x u → LeadsTo net src s h u → LeadsTo net src s h x
  LeadsTo-IsParent h u x p l = record {
    live = l.live;
    apart = l.apart;
    weight = l.weight + p.weight;
    walk = step x p.weight l.walk p.link;
    below = omega (arith, l.below, p.below);
  }

  pub LeadsTo-of_IsParent : (u x : ℕ) → IsParent net src s x u → u ≢ src → LeadsTo net src s u x
  LeadsTo-of_IsParent u x p ne = LeadsTo-IsParent u u x p (LeadsTo-itself u p.live ne)

  -- From any router with a way back, other than the source, the loop ends.
  pub walk_back-Ends :
      {x : ℕ}
      → Rooted s.next_hop src x
      → Live net x
      → x ≢ src
      → Ends (LeadsTo net src s) (links_of net src) (hop_of s.next_hop) x
  walk_back-Ends root lx ne = absurd (ne refl)
  walk_back-Ends (via {v = x} {u = y} e r) lx ne =
      let p = t.parent x y lx e in
      elim (Bool-cases (is_neighbor (links_of net src) x)) [
        | inl near ↦
            Ends-here (LeadsTo net src s) (links_of net src) (hop_of s.next_hop) x near
              (LeadsTo-itself x lx ne)
        | inr far ↦ elim (ℕ_discrete y src) [
          | yes q ↦ absurd (
              far_near far (
                is_neighbor-of_In (links_of net src) x p.weight
                  (subst (λ z. In (x, p.weight) (links_of net z)) q p.link)))
          | no q ↦
              Ends-step (LeadsTo net src s) (links_of net src) (hop_of s.next_hop) x y far
                (rw (e, hop_of)) (λ l leads. LeadsTo-IsParent l y x p leads)
                (walk_back-Ends r p.live q)
        ]
      ]
    where
      far_near :
          is_neighbor (links_of net src) x ≡ false → is_neighbor (links_of net src) x ≡ true → ⊥
      far_near a b = cc
