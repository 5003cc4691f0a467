-- ===== src/Scheme/Distribution.antt =====
-- The tasks of one process group out of a scheme: getAssignedLevels, getRoundRobinLevels and
-- getLoadBalancedLevels of src/combischeme/CombiMinMaxScheme.hpp. A task is its position in the
-- scheme. The type of the coefficients does not matter, so it is a parameter.
pub mod Shares
pub mod Assigned
pub mod RoundRobin
pub mod Loads
pub mod Search
pub mod Greedy
pub mod Transfer
pub mod LoadBalance
use mathlib.Core.Option
use dis_co_tec.Prelude.{
  ℕ, zero, suc, ◌+◌, ◌-◌, ◌*◌, ◌^◌, Bool, true, false, not, ◌||◌, Option, none, some, List, [], ◌∷◌,
  ◌++◌, map, length, get_or, set, replicate, ltb, leb, ◌&&◌, ◌==◌, if◌then◌else◌,
}
use dis_co_tec.Prelude.Int.{ℤ, pos, ◌+ℤ◌, ◌-ℤ◌, ◌*ℤ◌, ltb_ℤ, pos_part, neg_part}
use dis_co_tec.Level.{LevelVector, power_of_two}

-- The output vectors of one group.
pub record Share {ℓ} (C : Type ℓ) : Type ℓ where
  pub levels : List LevelVector
  pub coeffs : List C
  pub task_numbers : List ℕ

abbrev pub nothing_yet {ℓ} : {C : Type ℓ} → Share C
nothing_yet = record { levels = []; coeffs = []; task_numbers = [] }

-- The three push_back.
unfoldable pub push_task {ℓ} : {C : Type ℓ} → ℕ → LevelVector → C → Share C → Share C
push_task task_no l c s = record {
  levels = s.levels ++ l ∷ [];
  coeffs = s.coeffs ++ c ∷ [];
  task_numbers = s.task_numbers ++ task_no ∷ [];
}

-- The filter loop at task number task_no; the lists hold the tasks from there on.
unfoldable pub assigned_loop {ℓ} :
    {C : Type ℓ} → ℕ → ℕ → List ℕ → List LevelVector → List C → Share C → Share C
unfolding push_task
assigned_loop my task_no (p ∷ pg_numbers) (l ∷ levels) (c ∷ coeffs) s =
    assigned_loop my (suc task_no) pg_numbers levels coeffs
      (if p == my then push_task task_no l c s else s)
assigned_loop my task_no _ _ _ s = s

-- std::minmax_element: the least of m and the numbers.
unfoldable pub least_number : ℕ → List ℕ → ℕ
least_number m [] = m
least_number m (p ∷ ps) = least_number (if ltb p m then p else m) ps

-- The assertion that the least of the group numbers is 0.
unfoldable pub starts_with_0 : List ℕ → Bool
unfolding least_number
starts_with_0 [] = true
starts_with_0 (p ∷ ps) = least_number p ps == 0

-- A call returns, throws std::runtime_error, or stops at an assertion.
pub data Selection {ℓ} (A : Type ℓ) : Type ℓ where
  selects : A → Selection A
  runtime_error assertion_failed : Selection A

-- The scheme from a file is inconsistent if it has no group numbers, or not one for each task. The
-- second result is the number of all tasks.
unfoldable pub get_assigned_levels {ℓ} :
    {C : Type ℓ} → List ℕ → List LevelVector → List C → ℕ → Selection (Share C × ℕ)
unfolding assigned_loop starts_with_0
get_assigned_levels pg_numbers all_levels all_coeffs my =
    let same_sizes = length all_levels == length all_coeffs in
    let one_number = length pg_numbers == length all_coeffs in
    let inconsistent =
      (length pg_numbers == 0) || not one_number || not (length pg_numbers == length all_levels) in
    if not same_sizes || not one_number
    then assertion_failed
    else if inconsistent
    then runtime_error
    else if starts_with_0 pg_numbers
    then selects
        (assigned_loop my 0 pg_numbers all_levels all_coeffs nothing_yet, length all_levels)
    else assertion_failed

-- allCoeffs[i] and allLevels[i] for an index that is in range; `spare` is never read.
unfoldable pub push_task_at {ℓ} :
    {C : Type ℓ} → C → List LevelVector → List C → ℕ → Share C → Share C
unfolding push_task
push_task_at spare all_levels all_coeffs task_no s =
    push_task task_no (get_or all_levels task_no []) (get_or all_coeffs task_no spare) s

-- for (taskNo = myProcessGroupNumber; taskNo < size; taskNo += totalNumGroups); `none` when the fuel
-- runs out.
unfoldable pub round_robin_loop {ℓ} :
    {C : Type ℓ} → C → List LevelVector → List C → ℕ → ℕ → ℕ → Share C → Option (Share C)
unfolding push_task_at
round_robin_loop spare all_levels all_coeffs total zero task_no s = none
round_robin_loop spare all_levels all_coeffs total (suc fuel) task_no s =
    let rest =
      round_robin_loop spare all_levels all_coeffs total fuel (task_no + total)
        (push_task_at spare all_levels all_coeffs task_no s) in
    if ltb task_no (length all_levels) then rest else some s

-- One round more than there are tasks.
unfoldable pub get_round_robin_levels {ℓ} :
    {C : Type ℓ} → C → List LevelVector → List C → ℕ → ℕ → Option (Share C)
unfolding round_robin_loop
get_round_robin_levels spare all_levels all_coeffs my total =
    round_robin_loop spare all_levels all_coeffs total (suc (length all_levels)) my nothing_yet

-- The largest long long.
abbrev pub max_load : ℕ
max_load = 2 ^ 63 - 1

-- A sum or a product of long long; `none` when it overflows, which is undefined in C++.
unfoldable pub checked : ℤ → Option ℤ
checked z = if leb (pos_part z) max_load && leb (neg_part z) (suc max_load) then some z else none

-- The loop of getCombiDegreesOfFreedom; `none` when it reads past the 30 entries of the table, or when
-- the two vectors differ in length, which the source asserts not to happen. The table has a 0 at 29.
unfoldable pub combi_dof_loop : ℤ → LevelVector → List ℕ → Option ℤ
unfolding checked
combi_dof_loop num [] [] = some num
combi_dof_loop num (l_i ∷ level) (b ∷ boundary) =
    let factor = (if ltb 0 l_i then pos (power_of_two l_i) -ℤ pos 1 +ℤ pos b else pos b) in
    elim (if ltb l_i 30 then checked (num *ℤ factor) else none) [
      | none ↦ none
      | some num' ↦ combi_dof_loop num' level boundary
    ]
combi_dof_loop num _ _ = none

unfoldable pub get_combi_degrees_of_freedom : LevelVector → List ℕ → Option ℤ
unfolding combi_dof_loop
get_combi_degrees_of_freedom level boundary = combi_dof_loop (pos 1) level boundary

-- The sum that printCombiDegreesOfFreedom prints and returns.
unfoldable pub print_combi_degrees_of_freedom : ℤ → List LevelVector → List ℕ → Option ℤ
unfolding checked
print_combi_degrees_of_freedom num [] boundary = some num
print_combi_degrees_of_freedom num (l ∷ combi_spaces) boundary =
    elim (get_combi_degrees_of_freedom l boundary) [
      | none ↦ none
      | some dof ↦ elim (checked (num +ℤ dof)) [
        | none ↦ none
        | some num' ↦ print_combi_degrees_of_freedom num' combi_spaces boundary
      ]
    ]

-- The search for the group with the lowest load; the list holds the loads from `group` on.
unfoldable pub min_group_loop : ℕ → ℕ → ℤ → List ℤ → ℕ
min_group_loop group min_group min_load [] = min_group
min_group_loop group min_group min_load (load ∷ loads) =
    if ltb_ℤ load min_load
    then min_group_loop (suc group) group load loads
    else min_group_loop (suc group) min_group min_load loads

unfoldable pub find_min_group : List ℤ → ℕ
unfolding min_group_loop
find_min_group loads = min_group_loop 0 0 (pos max_load) loads

-- The loop over the sorted tasks; the first result are the loads of all groups.
unfoldable pub load_balanced_loop {ℓ} :
    {C : Type ℓ}
    → C
    → List LevelVector
    → List C
    → List ℕ
    → ℕ
    → List ℤ
    → List ℕ
    → Share C
    → Option (List ℤ × Share C)
unfolding checked find_min_group push_task_at
load_balanced_loop spare all_levels all_coeffs boundary my loads [] s = some (loads, s)
load_balanced_loop spare all_levels all_coeffs boundary my loads (task_no ∷ task_ids) s =
    let g = find_min_group loads in
    elim (get_combi_degrees_of_freedom (get_or all_levels task_no []) boundary) [
      | none ↦ none
      | some dof ↦ elim (checked (get_or loads g (pos 0) +ℤ dof)) [
        | none ↦ none
        | some load ↦
            load_balanced_loop spare all_levels all_coeffs boundary my (set loads g load) task_ids
              (if g == my then push_task_at spare all_levels all_coeffs task_no s else s)
      ]
    ]

-- `task_ids` are the task numbers as std::sort leaves them, by decreasing degrees of freedom; which
-- of several orders it takes is left open by the library. `none` also stands for a failed assertion.
unfoldable pub get_load_balanced_levels {ℓ} :
    {C : Type ℓ} → C → List LevelVector → List C → List ℕ → List ℕ → ℕ → ℕ → Option (Share C)
unfolding load_balanced_loop
get_load_balanced_levels spare all_levels all_coeffs boundary task_ids my total =
    if (length all_levels == length all_coeffs) && leb total (length all_levels)
    then Option.map (λ r. r.1)
        (load_balanced_loop spare all_levels all_coeffs boundary my (replicate total (pos 0))
          task_ids nothing_yet)
    else none
