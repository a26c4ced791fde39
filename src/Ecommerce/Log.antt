-- ===== src/Ecommerce/Log.antt =====
-- MultiThreading/Ecommerce.cpp: what the printed lines have to say of the requests.
use network_os_simulation.Shared.{
  ℕ, suc, ◌+◌, ◌<◌, ◌≡◌, refl, ap, subst, List, [], ◌∷◌, ◌++◌, arith, length,
}
use network_os_simulation.Shared.Int.{ℤ}
use network_os_simulation.Ecommerce.{WorkerThread, Event, executing, unavailable}
use network_os_simulation.Ecommerce.Fits.{Fits}

-- The line for the request with the number `c`, which needs the resources `r`.
abbrev pub Says : List WorkerThread → ℕ → ℤ → Event → Type 0
Says ws c r (executing n res place) = (n ≡ c) × (res ≡ r) × Fits ws r × (place < length ws)
Says ws c r (unavailable n res) = (n ≡ c) × (res ≡ r) × ¬ Fits ws r

-- One line for each request, in order, with the numbers from `c` on.
abbrev pub Reports : List WorkerThread → ℕ → List ℤ → List Event → Type 0
Reports ws c [] [] = Unit
Reports ws c [] (e ∷ log) = ⊥
Reports ws c (r ∷ rs) [] = ⊥
Reports ws c (r ∷ rs) (e ∷ log) = Says ws c r e × Reports ws (suc c) rs log

pub Reports-concat :
    (ws : List WorkerThread) (c : ℕ) (rs : List ℤ) (log : List Event) (r : ℤ) (e : Event)
    → Reports ws c rs log
    → Says ws (c + length rs) r e
    → Reports ws c (rs ++ r ∷ []) (log ++ e ∷ [])
Reports-concat ws c [] [] r e h s = (subst (λ n. Says ws n r e) (omega arith) s, tt)
Reports-concat ws c [] (f ∷ log) r e h s = elim h [ ]
Reports-concat ws c (q ∷ rs) [] r e h s = elim h [ ]
Reports-concat ws c (q ∷ rs) (f ∷ log) r e h s =
    (h.0, Reports-concat ws (suc c) rs log r e h.1 (subst (λ n. Says ws n r e) (omega arith) s))

abbrev pub rejections : List Event → ℕ
rejections [] = 0
rejections (executing n r place ∷ log) = rejections log
rejections (unavailable n r ∷ log) = suc (rejections log)

pub rejections-concat_executing :
    (log : List Event) (n : ℕ) (r : ℤ) (place : ℕ)
    → rejections (log ++ executing n r place ∷ []) ≡ rejections log
rejections-concat_executing [] n r place = refl
rejections-concat_executing (executing _ _ _ ∷ log) n r place =
    rejections-concat_executing log n r place
rejections-concat_executing (unavailable _ _ ∷ log) n r place =
    ap suc (rejections-concat_executing log n r place)

pub rejections-concat_unavailable :
    (log : List Event) (n : ℕ) (r : ℤ)
    → rejections (log ++ unavailable n r ∷ []) ≡ suc (rejections log)
rejections-concat_unavailable [] n r = refl
rejections-concat_unavailable (executing _ _ _ ∷ log) n r = rejections-concat_unavailable log n r
rejections-concat_unavailable (unavailable _ _ ∷ log) n r =
    ap suc (rejections-concat_unavailable log n r)
