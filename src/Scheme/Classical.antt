-- ===== src/Scheme/Classical.antt =====
-- createClassicalCombischeme and computeCombiCoeffsClassical of
-- src/combischeme/CombiMinMaxScheme.cpp. The binomial coefficient of Boost is an argument.
pub mod Counter
use dis_co_tec.Prelude.{
  ℕ, zero, suc, ◌+◌, ◌-◌, ◌%◌, Bool, true, false, ◌&&◌, ◌||◌, not, Option, none, some, List, [],
  ◌∷◌, ◌++◌, map, length, get_or, set, insert_at, ltb, leb, ◌==◌, if◌then◌else◌,
}
use dis_co_tec.Prelude.Int.{ℤ, pos, ◌*ℤ◌}
use dis_co_tec.Level.{LevelVector, Result, ok, runtime_error, level_sum, subtract}
use dis_co_tec.Level.Truncated.{create_truncated_hierarchical_levels}
use dis_co_tec.Scheme.{Scheme, power_of_minus_one, diagonal_spaces}

-- The coefficient of the space l.
unfoldable pub classical_coefficient : (ℕ → ℕ → ℤ) → ℕ → ℕ → LevelVector → ℤ
classical_coefficient binomial n eff_dim l =
    let p = n - level_sum l in power_of_minus_one p *ℤ binomial (eff_dim - 1) p

-- for (DimType i = 0; i < combiSpaces_.size(); ++i), where DimType is uint8_t; `none` when the fuel
-- runs out.
unfoldable pub classical_loop :
    (ℕ → ℕ → ℤ) → ℕ → ℕ → List LevelVector → ℕ → ℕ → List ℤ → Option (List ℤ)
unfolding classical_coefficient
classical_loop binomial n eff_dim spaces zero i coefficients = none
classical_loop binomial n eff_dim spaces (suc fuel) i coefficients =
    let rest =
      classical_loop binomial n eff_dim spaces fuel ((i + 1) % 256)
        (coefficients ++ classical_coefficient binomial n eff_dim (get_or spaces i []) ∷ []) in
    if ltb i (length spaces) then rest else some coefficients

unfoldable pub compute_combi_coeffs_classical : (ℕ → ℕ → ℤ) → ℕ → Scheme → Option Scheme
unfolding classical_loop
compute_combi_coeffs_classical binomial fuel s =
    elim (classical_loop binomial s.n s.eff_dim s.combi_spaces fuel 0 s.coefficients) [
      | none ↦ none
      | some coefficients ↦ some (record s { coefficients = coefficients })
    ]

-- The dimensions in which lmax and lmin agree, from dimension i on.
dummy_dims_from : ℕ → LevelVector → LevelVector → List ℕ
dummy_dims_from i (x ∷ lmax) (y ∷ lmin) =
    if x - y == 0 then i ∷ dummy_dims_from (suc i) lmax lmin else dummy_dims_from (suc i) lmax lmin
dummy_dims_from i _ _ = []

-- lmaxtmp and lmintmp, with these dimensions erased.
erase_dummies : LevelVector → LevelVector → LevelVector × LevelVector
erase_dummies (x ∷ lmax) (y ∷ lmin) =
    let (a, b) = erase_dummies lmax lmin in if x - y == 0 then (a, b) else (x ∷ a, y ∷ b)
erase_dummies _ _ = ([], [])

-- std::adjacent_find with std::not_equal_to reaches the end.
all_equal : List ℕ → Bool
all_equal [] = true
all_equal (x ∷ []) = true
all_equal (x ∷ y ∷ cv) = (x == y) && all_equal (y ∷ cv)

-- std::min_element
least_entry : ℕ → List ℕ → ℕ
least_entry least [] = least
least_entry least (x ∷ xs) = least_entry (if ltb x least then x else least) xs

-- The c with lmax - c >= lmin.
level_span : ℕ → LevelVector → ℕ
unfolding all_equal least_entry
level_span eff_dim [] = 0
level_span eff_dim (x ∷ cv) =
    if all_equal (x ∷ cv) then get_or (x ∷ cv) (eff_dim - 1) 0 else least_entry x cv

-- The loop that inserts the dummy dimensions again, at its round i: the value is lmax_[i].
insert_dummies :
    ℕ → LevelVector → List ℕ → List LevelVector → LevelVector → List LevelVector × LevelVector
insert_dummies i lmax [] levels lmin = (levels, lmin)
insert_dummies i lmax (d ∷ dummy_dims) levels lmin =
    insert_dummies (suc i) lmax dummy_dims (map (λ l. insert_at d (get_or lmax i 0) l) levels)
      (set lmin d (get_or lmax i 0))

-- The state when computeCombiCoeffsClassical is called.
unfoldable pub select_classical_spaces : Scheme → Scheme
unfolding dummy_dims_from erase_dummies level_span insert_dummies diagonal_spaces
select_classical_spaces s =
    let (lmax_tmp, lmin_tmp) = erase_dummies s.lmax s.lmin in
    let c = level_span s.eff_dim (subtract lmax_tmp lmin_tmp) in
    let created = create_truncated_hierarchical_levels lmax_tmp (map pos lmin_tmp) in
    let (levels, lmin) =
      insert_dummies 0 s.lmax (dummy_dims_from 0 s.lmax s.lmin) created (map (λ x. x - c) s.lmax) in
    let n = level_sum lmin + c in
    record s {
      n = n;
      lmin = lmin;
      levels = levels;
      combi_spaces = s.combi_spaces ++ diagonal_spaces s.eff_dim 0 n lmin levels;
    }

-- levels_ and coefficients_ are empty before, which the source asserts. If every dimension is a
-- dummy, there is one level and one coefficient, and no combination space.
unfoldable pub create_classical_combischeme : (ℕ → ℕ → ℤ) → ℕ → Scheme → Option (Result Scheme)
unfolding select_classical_spaces compute_combi_coeffs_classical erase_dummies
create_classical_combischeme binomial fuel s =
    if (length s.lmin == 0) || (length s.lmax == 0) || not (length s.lmin == length s.lmax)
    then some runtime_error
    else elim (erase_dummies s.lmax s.lmin).1 [
      | [] ↦ some (ok (record s { levels = s.lmin ∷ []; coefficients = pos 1 ∷ [] }))
      | x ∷ xs ↦ elim (compute_combi_coeffs_classical binomial fuel (select_classical_spaces s)) [
        | none ↦ none
        | some s' ↦ some (elim s'.levels [ [] ↦ runtime_error | l ∷ ls ↦ ok s' ])
      ]
    ]
