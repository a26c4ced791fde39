-- ===== src/Flows.antt =====
-- "Network Simulation using NS-3/WiredTCP.cc" and WirelessTCP.cc: the statistics of the flows at the
-- end of each simulation. A throughput is given as a multiple of some unit, in exact arithmetic.
use network_os_simulation.Shared.{
  ℕ, ◌+◌, ◌*◌, ◌-◌, ◌≤◌, ◌≡◌, subst, sym, List, [], ◌∷◌, ◌==◌, ◌||◌, if◌then◌else◌, length, arith,
  dec_le,
}

pub data Direction : Type 0 where
  forth back : Direction

pub data FlowType : Type 0 where
  westwood veno vegas other : FlowType

unfoldable pub direction : ℕ → Direction
direction flow_id = if flow_id == 1 || flow_id == 2 || flow_id == 3 then forth else back

unfoldable pub flow_type : ℕ → FlowType
flow_type flow_id =
    if flow_id == 1 || flow_id == 4
    then westwood
    else if flow_id == 2 || flow_id == 5
    then veno
    else if flow_id == 3 || flow_id == 6
    then vegas
    else other

-- The sum of the throughputs and of their squares.
unfoldable pub add_flows : List ℕ → ℕ × ℕ → ℕ × ℕ
add_flows [] sums = sums
add_flows (throughput ∷ flows) (throughput_sum, throughput_square_sum) =
    add_flows flows (throughput_sum + throughput, throughput_square_sum + throughput * throughput)

-- A fraction: its numerator and its denominator.
unfoldable pub fairness : List ℕ → ℕ × ℕ
unfolding add_flows
fairness flows =
    let (throughput_sum, throughput_square_sum) = add_flows flows (0, 0) in
    (throughput_sum * throughput_sum, 6 * throughput_square_sum)

unfoldable pub avg_throughput : List ℕ → ℕ × ℕ
unfolding add_flows
avg_throughput flows = ((add_flows flows (0, 0)).0, 6)

abbrev total : List ℕ → ℕ
total [] = 0
total (x ∷ xs) = x + total xs

abbrev squares : List ℕ → ℕ
squares [] = 0
squares (x ∷ xs) = x * x + squares xs

add_flows_lem :
    (flows : List ℕ) (a b : ℕ)
    → ((add_flows flows (a, b)).0 ≡ a + total flows)
      × ((add_flows flows (a, b)).1 ≡ b + squares flows)
unfolding add_flows
add_flows_lem [] a b = (omega arith, omega arith)
add_flows_lem (x ∷ xs) a b =
    let (sums, of_squares) = add_flows_lem xs (a + x) (b + x * x) in (omega arith, omega arith)

mean_above : (x d : ℕ) → 2 * (x * (x + d)) ≤ x * x + (x + d) * (x + d)
mean_above x d = omega arith

mean : (x y : ℕ) → 2 * (x * y) ≤ x * x + y * y
mean x y = elim (dec_le x y) [
  | yes le ↦ subst (λ z. 2 * (x * z) ≤ x * x + z * z) (the_difference x y le) (mean_above x (y - x))
  | no above ↦
      let other =
        subst (λ z. 2 * (y * z) ≤ y * y + z * z) (the_difference y x (omega arith))
          (mean_above y (x - y)) in
      omega arith
]
  where
    the_difference : (a b : ℕ) → a ≤ b → a + (b - a) ≡ b
    the_difference a b h = omega arith

products : (x : ℕ) (xs : List ℕ) → 2 * (x * total xs) ≤ length xs * (x * x) + squares xs
products x [] = omega arith
products x (y ∷ ys) = omega (arith, products x ys, mean x y)

total_squared : (xs : List ℕ) → total xs * total xs ≤ length xs * squares xs
total_squared [] = omega arith
total_squared (x ∷ xs) = omega (arith, total_squared xs, products x xs)

scaled : (s q t u n : ℕ) → s ≡ 0 + t → q ≡ 0 + u → t * t ≤ n * u → 6 * (s * s) ≤ n * (6 * q)
scaled s q t u n e f h =
    subst (λ x. 6 * (x * x) ≤ n * (6 * q)) (sym e)
      (subst (λ y. 6 * ((0 + t) * (0 + t)) ≤ n * (6 * y)) (sym f) (omega arith))

-- The fairness index times 6 is at most the number of flows: it is at most 1 for six flows, and
-- less for fewer, however equal their throughputs are.
pub fairness_le : (flows : List ℕ) → 6 * (fairness flows).0 ≤ length flows * (fairness flows).1
unfolding fairness
fairness_le flows =
    let (sums, of_squares) = add_flows_lem flows 0 0 in
    scaled _ _ (total flows) (squares flows) (length flows) sums of_squares (total_squared flows)
