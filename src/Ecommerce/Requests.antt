-- ===== src/Ecommerce/Requests.antt =====
-- MultiThreading/Ecommerce.cpp, lines 96 to 103: the requests that are read, by their types.
use network_os_simulation.Shared.{
  ℕ, ◌<◌, ◌≡◌, refl, ap, sym, subst, ◌∙◌, List, [], ◌∷◌, ◌++◌, some, Bool, true, false, ◌==◌,
  if◌then◌else◌, length, get_elem?, set, All, arith, ◌>>=◌, ℕ_discrete, append_assoc, append_nil,
  length-set, get_elem?-set_self, get_elem?-set_other,
}
use network_os_simulation.Shared.Tests.{equals_itself, not_equal}
use network_os_simulation.Shared.Int.{ℤ}
use network_os_simulation.Ecommerce.{read_requests}

-- The requests of one type, in order.
abbrev pub of_service : ℕ → List (ℕ × ℤ) → List ℤ
of_service t [] = []
of_service t ((type, res) ∷ rest) = if type == t then res ∷ of_service t rest else of_service t rest

abbrev with_request : (ℕ → List ℤ) → ℕ → ℤ → ℕ → List ℤ
with_request old type res t = if type == t then old t ++ res ∷ [] else old t

-- The arrays hold these requests.
abbrev pub Holds : List (List ℤ) → (ℕ → List ℤ) → Type 0
Holds arr old = (t : ℕ) → t < length arr → get_elem? arr t ≡ some (old t)

Holds-set :
    (arr : List (List ℤ)) (old : ℕ → List ℤ) (type : ℕ) (res : ℤ)
    → type < length arr
    → Holds arr old
    → Holds (set arr type (old type ++ res ∷ [])) (with_request old type res)
Holds-set arr old type res lt h t below = elim (ℕ_discrete type t) [
  | yes e ↦
      subst
        (λ u.
          get_elem? (set arr type (old type ++ res ∷ [])) u ≡ some (with_request old type res u))
        e
        (rw (equals_itself type)
          (get_elem?-set_self arr type (old type) (old type ++ res ∷ []) (h type lt)))
  | no ne ↦ rw (not_equal type t ne) (
      get_elem?-set_other arr type t (old type ++ res ∷ []) ne
      ∙ h t (omega (arith, below, length-set arr type (old type ++ res ∷ []))))
]

concat_request :
    (b : Bool) (xs more : List ℤ) (res : ℤ)
    → (if b then xs ++ res ∷ [] else xs) ++ more ≡ xs ++ (if b then res ∷ more else more)
concat_request true xs more res = append_assoc xs (res ∷ []) more
concat_request false xs more res = refl

pub read_requests-Holds :
    (requests : List (ℕ × ℤ)) (arr : List (List ℤ)) (old : ℕ → List ℤ)
    → All (λ q. q.0 < length arr) requests
    → Holds arr old
    → (arr' : List (List ℤ)) × (read_requests requests arr ≡ some arr')
      × (length arr' ≡ length arr)
      × Holds arr' (λ t. old t ++ of_service t requests)
unfolding read_requests
read_requests-Holds [] arr old ok h =
    (arr, refl, refl, λ t lt. h t lt ∙ ap some (sym (append_nil (old t))))
read_requests-Holds ((type, res) ∷ rest) arr old ok h =
    let arr1 = set arr type (old type ++ res ∷ []) in
    let size = length-set arr type (old type ++ res ∷ []) in
    let (arr2, reads, kept, holds) =
      read_requests-Holds rest arr1 (with_request old type res)
        (subst (λ n. All (λ q. q.0 < n) rest) (sym size) ok.1)
        (Holds-set arr old type res ok.0 h) in
    (
      arr2,
      ap (λ o. o >>= λ reqs. read_requests rest (set arr type (reqs ++ res ∷ []))) (h type ok.0)
          ∙ reads,
      kept ∙ size,
      λ t lt. holds t lt ∙ ap some (concat_request (type == t) (old t) (of_service t rest) res),
    )
