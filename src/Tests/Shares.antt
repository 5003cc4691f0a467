-- ===== src/Tests/Shares.antt =====
-- Three tasks and two process groups, and a scheme with one space too many.
use dis_co_tec.Prelude.{
  ℕ, ◌+◌, ◌≤◌, ◌<◌, ◌≡◌, refl, ◌⊎◌, none, some, List, [], ◌∷◌, ◌++◌, map, arith, length, get_elem?,
  get_or, replicate, length-replicate, keep_if, All, ◌==◌,
}
use dis_co_tec.Prelude.Int.{ℤ, pos, negsuc, ◌+ℤ◌, ◌-ℤ◌, ◌*ℤ◌, sum_ℤ}
use dis_co_tec.Prelude.Loops.{for_range}
use dis_co_tec.Level.{LevelVector, leq, level_sum, subtract, power_of_two}
use dis_co_tec.Level.Truncated.{create_truncated_hierarchical_levels}
use dis_co_tec.Scheme.{Scheme, init}
use dis_co_tec.Scheme.Distribution.{
  get_assigned_levels, get_load_balanced_levels, selects, runtime_error, assertion_failed,
  get_combi_degrees_of_freedom,
}
use dis_co_tec.Scheme.Distribution.Shares.{numbers, share_of}
use dis_co_tec.Scheme.Distribution.Assigned.{get_assigned_levels-keep_if}
use dis_co_tec.Scheme.Distribution.LoadBalance.{Gets, load_balanced_spread}
use dis_co_tec.Scheme.Distribution.Transfer.{Fine}
use dis_co_tec.Scheme.Distribution.Loads.{grid_points, points_in}
use dis_co_tec.Scheme.ThirdLevel.{create_third_level_scheme, two_systems}
use dis_co_tec.Scheme.Classical.{
  classical_coefficient, compute_combi_coeffs_classical, select_classical_spaces,
}
use dis_co_tec.Scheme.Classical.Counter.{
  compute_combi_coeffs_classical-map, compute_combi_coeffs_classical-none,
}

abbrev spaces : List LevelVector
spaces = (1 ∷ 2 ∷ []) ∷ (2 ∷ 1 ∷ []) ∷ (1 ∷ 1 ∷ []) ∷ []

abbrev weights : List ℤ
weights = pos 1 ∷ pos 1 ∷ negsuc 0 ∷ []

abbrev group_numbers : List ℕ
group_numbers = 0 ∷ 1 ∷ 0 ∷ []

get_assigned_levels_example :
    ((length group_numbers ≡ 0)
      × (get_assigned_levels group_numbers spaces weights 0 ≡ runtime_error))
    ⊎ ((((k : ℕ) × (get_elem? group_numbers k ≡ some 0))
          × (get_assigned_levels group_numbers spaces weights 0
              ≡ selects (
                share_of
                    (pos 0)
                    spaces
                    weights
                    (keep_if (λ t. get_or group_numbers t 0 == 0) (numbers (length spaces) 0)),
                length spaces,
              )))
        ⊎ (((0 < length group_numbers) × All (λ p. 0 < p) group_numbers)
            × (get_assigned_levels group_numbers spaces weights 0 ≡ assertion_failed)))
get_assigned_levels_example =
    get_assigned_levels-keep_if (pos 0) group_numbers spaces weights 0 refl refl

-- Group numbers that start with 1.
starts_with_1 : get_assigned_levels (1 ∷ 2 ∷ 1 ∷ []) spaces weights 1 ≡ assertion_failed
unfolding get_assigned_levels
starts_with_1 = refl

abbrev one_point : List ℕ
one_point = 1 ∷ 1 ∷ []

counted_points :
    (grid_points (1 ∷ 2 ∷ []) one_point ≡ 8)
    × (grid_points (2 ∷ 1 ∷ []) one_point ≡ 8)
    × (grid_points (1 ∷ 1 ∷ []) one_point ≡ 4)
unfolding grid_points points_in
counted_points = (refl, refl, refl)

abbrev fine : (a b : ℕ) → a < 29 → b < 29 → Fine (a ∷ b ∷ []) one_point
fine a b ha hb = (ha, (omega arith, (hb, (omega arith, tt))))

load_balanced_spread_example :
    (m n : ℕ) × Gets
      (get_load_balanced_levels (pos 0) spaces weights one_point (0 ∷ 1 ∷ 2 ∷ []) 0 2)
      one_point
      m
    × Gets
        (get_load_balanced_levels (pos 0) spaces weights one_point (0 ∷ 1 ∷ 2 ∷ []) 1 2)
        one_point
        n
    × (m ≤ n + 8)
load_balanced_spread_example =
    load_balanced_spread (pos 0) spaces weights one_point (0 ∷ 1 ∷ 2 ∷ []) 2 0 1 8 (omega arith)
      (omega arith) refl (omega arith)
      (
        fine 1 2 (omega arith) (omega arith),
        (fine 2 1 (omega arith) (omega arith), (fine 1 1 (omega arith) (omega arith), tt)),
      )
      (
        omega (arith, counted_points.0),
        (omega (arith, counted_points.1), (omega (arith, counted_points.2), tt)),
      )
      (omega (arith, counted_points.0, counted_points.1, counted_points.2))

-- The end of the table: the last entry is 0, and the next is not there.
end_of_table :
    (get_combi_degrees_of_freedom (29 ∷ []) (0 ∷ []) ≡ some (negsuc 0))
    × (get_combi_degrees_of_freedom (30 ∷ []) (0 ∷ []) ≡ none)
unfolding get_combi_degrees_of_freedom power_of_two ◌*ℤ◌ ◌-ℤ◌ ◌+ℤ◌
end_of_table = (refl, refl)

two_systems_example :
    (first second : List LevelVector × List ℤ) × (create_third_level_scheme 1 spaces weights 0 2
      ≡ some first)
    × (create_third_level_scheme 1 spaces weights 1 2 ≡ some second)
    × (first.0 ++ second.0 ≡ spaces)
    × (first.1 ++ second.1 ≡ weights)
    × (length first.0 ≡ 1)
    × (length first.1 ≡ 1)
two_systems_example = two_systems 1 spaces weights (omega arith) (omega arith) refl

-- 1 choose 0 and 1 choose 1
abbrev ones : ℕ → ℕ → ℤ
ones n k = pos 1

abbrev with_spaces : List LevelVector → Scheme
with_spaces ls = record {
  n = 3;
  dim = 2;
  eff_dim = 2;
  lmin = 1 ∷ 1 ∷ [];
  lmax = 2 ∷ 2 ∷ [];
  levels = ls;
  combi_spaces = ls;
  coefficients = [];
}

compute_combi_coeffs_classical_example :
    compute_combi_coeffs_classical ones 256 (with_spaces spaces)
    ≡ some
        (record (with_spaces spaces) { coefficients = map (classical_coefficient ones 3 2) spaces })
compute_combi_coeffs_classical_example =
    compute_combi_coeffs_classical-map ones (with_spaces spaces) (omega arith)

abbrev too_many : List LevelVector
too_many = replicate 256 (1 ∷ 1 ∷ [])

compute_combi_coeffs_classical-none_example :
    compute_combi_coeffs_classical ones 1000 (with_spaces too_many) ≡ none
compute_combi_coeffs_classical-none_example =
    compute_combi_coeffs_classical-none ones 1000 (with_spaces too_many)
      (omega (arith, length-replicate {A = LevelVector} 256 (1 ∷ 1 ∷ [])))

-- The dummy dimension 2 has level 2 in lmin and lmax, and gets level 3.
dummy_dimension :
    (select_classical_spaces (init 3 (1 ∷ 1 ∷ 2 ∷ []) (3 ∷ 3 ∷ 2 ∷ []))).combi_spaces
    ≡ (1 ∷ 2 ∷ 3 ∷ [])
      ∷ (1 ∷ 3 ∷ 3 ∷ [])
      ∷ (2 ∷ 1 ∷ 3 ∷ [])
      ∷ (2 ∷ 2 ∷ 3 ∷ [])
      ∷ (3 ∷ 1 ∷ 3 ∷ [])
      ∷ []
unfolding select_classical_spaces init create_truncated_hierarchical_levels for_range ◌+ℤ◌ ◌-ℤ◌
    sum_ℤ leq level_sum subtract
dummy_dimension = refl
