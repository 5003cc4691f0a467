-- ===== src/Scheme/Distribution/Loads.antt =====
-- The greedy assignment of getLoadBalancedLevels on natural numbers, which its proofs are about:
-- Transfer shows that the code does the same for levels below 29.
use dis_co_tec.Prelude.{
  ℕ, suc, ◌+◌, ◌-◌, ◌*◌, ◌^◌, List, [], ◌∷◌, get_or, set, replicate, ltb, ◌==◌, if◌then◌else◌,
}
use dis_co_tec.Level.{LevelVector}
use dis_co_tec.Scheme.Distribution.{Share, push_task_at, nothing_yet, max_load}

-- The points of a grid in one dimension.
unfoldable pub points_in : ℕ → ℕ → ℕ
points_in l_i b = if ltb 0 l_i then 2 ^ l_i + b - 1 else b

unfoldable pub grid_points_loop : ℕ → LevelVector → List ℕ → ℕ
grid_points_loop num [] boundary = num
grid_points_loop num (l_i ∷ level) [] = num
grid_points_loop num (l_i ∷ level) (b ∷ boundary) =
    grid_points_loop (num * points_in l_i b) level boundary

-- The points of a grid: the product over its dimensions, in any number.
unfoldable pub grid_points : LevelVector → List ℕ → ℕ
unfolding grid_points_loop
grid_points level boundary = grid_points_loop 1 level boundary

unfoldable pub total_points : ℕ → List LevelVector → List ℕ → ℕ
total_points num [] boundary = num
total_points num (l ∷ combi_spaces) boundary =
    total_points (num + grid_points l boundary) combi_spaces boundary

unfoldable pub lightest_loop : ℕ → ℕ → ℕ → List ℕ → ℕ
lightest_loop group min_group min_load [] = min_group
lightest_loop group min_group min_load (load ∷ loads) =
    if ltb load min_load
    then lightest_loop (suc group) group load loads
    else lightest_loop (suc group) min_group min_load loads

unfoldable pub lightest_group : List ℕ → ℕ
unfolding lightest_loop
lightest_group loads = lightest_loop 0 0 max_load loads

unfoldable pub balanced_loop {ℓ} :
    {C : Type ℓ}
    → C
    → List LevelVector
    → List C
    → List ℕ
    → ℕ
    → List ℕ
    → List ℕ
    → Share C
    → List ℕ × Share C
unfolding lightest_group push_task_at
balanced_loop spare all_levels all_coeffs boundary my loads [] s = (loads, s)
balanced_loop spare all_levels all_coeffs boundary my loads (task_no ∷ task_ids) s =
    let g = lightest_group loads in
    balanced_loop spare all_levels all_coeffs boundary my
      (set loads g (get_or loads g 0 + grid_points (get_or all_levels task_no []) boundary))
      task_ids (if g == my then push_task_at spare all_levels all_coeffs task_no s else s)

unfoldable pub balanced_share {ℓ} :
    {C : Type ℓ} → C → List LevelVector → List C → List ℕ → List ℕ → ℕ → ℕ → Share C
unfolding balanced_loop
balanced_share spare all_levels all_coeffs boundary task_ids my total =
    (balanced_loop spare all_levels all_coeffs boundary my (replicate total 0) task_ids
      nothing_yet).1
