-- ===== src/Tests/Schemes.antt =====
-- The adaptive scheme between (1, 1) and (3, 3).
use dis_co_tec.Prelude.{◌≡◌, refl, [], ◌∷◌, keep_if, some, get_elem?, map}
use dis_co_tec.Prelude.Int.{pos, negsuc, ◌+ℤ◌, ◌-ℤ◌, neg_ℤ, sum_ℤ}
use dis_co_tec.Prelude.Loops.{for_range}
use dis_co_tec.Level.{LevelVector, ok, leq, add, subtract, level_sum}
use dis_co_tec.Level.Truncated.{create_truncated_hierarchical_levels}
use dis_co_tec.Scheme.{
  Scheme, init, select_adaptive_spaces, create_adaptive_combischeme, neighbour_sum,
  power_of_minus_one, compute_combi_coeffs_adaptive,
}
use dis_co_tec.Scheme.Adaptive.{
  compute_combi_coeffs_adaptive-keep_if, is_counted, coefficient, NonZero, Ascending,
}
use dis_co_tec.Scheme.CountOnce.{counted}
use dis_co_tec.Scheme.AdaptiveScheme.{adaptive_counts_once}

abbrev corner : LevelVector
corner = 1 ∷ 1 ∷ []

abbrev top : LevelVector
top = 3 ∷ 3 ∷ []

corner_selected :
    get_elem? (select_adaptive_spaces (init 2 corner top)).combi_spaces 0 ≡ some corner
unfolding select_adaptive_spaces init create_truncated_hierarchical_levels for_range ◌+ℤ◌ ◌-ℤ◌ sum_ℤ
    keep_if leq level_sum subtract
corner_selected = refl

adaptive_counts_once_example :
    (s : Scheme) × (create_adaptive_combischeme (init 2 corner top) ≡ ok s)
    × (counted corner s.combi_spaces s.coefficients ≡ pos 1)
adaptive_counts_once_example = adaptive_counts_once corner top 0 corner refl corner_selected

abbrev selected : Scheme
selected = record {
  n = 4;
  dim = 2;
  eff_dim = 2;
  lmin = corner;
  lmax = top;
  levels = [];
  combi_spaces = corner ∷ (1 ∷ 2 ∷ []) ∷ (2 ∷ 1 ∷ []) ∷ [];
  coefficients = [];
}

selected-NonZero : NonZero 2 selected.combi_spaces
unfolding leq
selected-NonZero = (refl, (refl, (refl, tt)))

selected-Ascending : Ascending selected.combi_spaces
unfolding leq
selected-Ascending = ((refl, (refl, tt)), ((refl, tt), (tt, tt)))

compute_combi_coeffs_adaptive_example : compute_combi_coeffs_adaptive selected ≡ record selected {
  combi_spaces = keep_if (is_counted 2 selected.combi_spaces) selected.combi_spaces;
  coefficients =
      map
        (coefficient 2 selected.combi_spaces)
        (keep_if (is_counted 2 selected.combi_spaces) selected.combi_spaces);
}
compute_combi_coeffs_adaptive_example =
    compute_combi_coeffs_adaptive-keep_if selected refl selected-NonZero selected-Ascending

-- The coefficients are -1, 1 and 1.
kept_coefficients :
    (compute_combi_coeffs_adaptive selected).coefficients ≡ negsuc 0 ∷ pos 1 ∷ pos 1 ∷ []
unfolding compute_combi_coeffs_adaptive neighbour_sum leq add subtract level_sum power_of_minus_one
    ◌+ℤ◌ neg_ℤ keep_if
kept_coefficients = refl
