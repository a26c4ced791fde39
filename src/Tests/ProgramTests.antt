-- ===== src/Tests/ProgramTests.antt =====
-- MultiThreading/Ecommerce.cpp: a run of the whole program, with an insertion sort.
use network_os_simulation.Shared.{
  ℕ, ◌≡◌, ◌<◌, refl, List, [], ◌∷◌, map, none, some, if◌then◌else◌, Bool-cases, inl, inr, arith,
  get_elem?,
}
use network_os_simulation.Shared.Int.{ℤ, pos, ◌≤ℤ◌}
use network_os_simulation.Ecommerce.{WorkerThread, comp_func}
use network_os_simulation.Ecommerce.Fits.{IsStaffed, AllNonneg}
use network_os_simulation.Ecommerce.Requests.{of_service}
use network_os_simulation.Ecommerce.Program.{
  Summary, program, AllReports, all_rejections, program-Reports,
}

abbrev worker : ℕ → ℕ → WorkerThread
worker priority resources = record { priority = pos priority; resources_available = pos resources }

insert_worker : WorkerThread → List WorkerThread → List WorkerThread
insert_worker w [] = w ∷ []
insert_worker w (v ∷ ws) =
    let rest = insert_worker w ws in if comp_func w v then w ∷ v ∷ ws else v ∷ rest

insertion_sort : List WorkerThread → List WorkerThread
unfolding insert_worker
insertion_sort [] = []
insertion_sort (w ∷ ws) = insert_worker w (insertion_sort ws)

AllNonneg-of_IsStaffed : (us : List WorkerThread) → IsStaffed us → AllNonneg us
AllNonneg-of_IsStaffed [] s = elim s [ ]
AllNonneg-of_IsStaffed (u ∷ us) s = s

insert_worker-IsStaffed :
    (w : WorkerThread) (ws : List WorkerThread)
    → pos 0 ≤ℤ w.resources_available
    → AllNonneg ws
    → IsStaffed (insert_worker w ws)
unfolding insert_worker
insert_worker-IsStaffed w [] h all = (h, all)
insert_worker-IsStaffed w (v ∷ ws) h all = elim (Bool-cases (comp_func w v)) [
  | inl e ↦ rw e (h, all)
  | inr e ↦
      rw e
        (all.0, AllNonneg-of_IsStaffed (insert_worker w ws) (insert_worker-IsStaffed w ws h all.1))
]

insertion_sort-AllNonneg : (ws : List WorkerThread) → AllNonneg ws → AllNonneg (insertion_sort ws)
unfolding insertion_sort
insertion_sort-AllNonneg [] all = all
insertion_sort-AllNonneg (w ∷ ws) all =
    AllNonneg-of_IsStaffed (insert_worker w (insertion_sort ws))
      (insert_worker-IsStaffed w (insertion_sort ws) all.0 (insertion_sort-AllNonneg ws all.1))

insertion_sort-IsStaffed : (ws : List WorkerThread) → IsStaffed ws → IsStaffed (insertion_sort ws)
unfolding insertion_sort
insertion_sort-IsStaffed [] s = elim s [ ]
insertion_sort-IsStaffed (w ∷ ws) s =
    insert_worker-IsStaffed w (insertion_sort ws) s.0 (insertion_sort-AllNonneg ws s.1)

abbrev services : List (List WorkerThread)
services = (worker 2 3 ∷ worker 5 4 ∷ []) ∷ (worker 1 1 ∷ []) ∷ []

abbrev orders : List (ℕ × ℤ)
orders = (1, pos 1) ∷ (0, pos 4) ∷ (1, pos 9) ∷ (0, pos 3) ∷ []

-- The worker of the higher priority comes first, and the request for 9 is rejected.
summary_run :
    elim (program insertion_sort 4 services orders) as (λ x. ℕ) [ none ↦ 7 | some s ↦ s.rejected ]
    ≡ 1
unfolding program insertion_sort comp_func
summary_run = refl

program-Reports_example :
    (arr : List (List ℤ)) × (summary : Summary) × (program insertion_sort 4 services orders
      ≡ some summary)
    × ((t : ℕ) → t < 2 → get_elem? arr t ≡ some (of_service t orders))
    × AllReports (map insertion_sort services) arr summary.served
    × (summary.rejected ≡ all_rejections summary.served)
program-Reports_example =
    program-Reports insertion_sort insertion_sort-IsStaffed 4 services orders
      ((omega arith, (omega arith, tt)), ((omega arith, tt), tt))
      (omega arith, (omega arith, (omega arith, (omega arith, tt)))) (omega arith)
