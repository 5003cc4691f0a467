-- ===== src/Level/Truncated/Enumeration.antt =====
-- Runs of the enumeration on small inputs.
use dis_co_tec.Prelude.{◌≡◌, refl, [], ◌∷◌}
use dis_co_tec.Prelude.Int.{pos, ◌+ℤ◌, ◌-ℤ◌, sum_ℤ}
use dis_co_tec.Prelude.Loops.{for_range}
use dis_co_tec.Level.Truncated.{create_truncated_hierarchical_levels, get_all_k_out_of_d_dimensions}

two_of_three : get_all_k_out_of_d_dimensions 2 3 ≡ (0 ∷ 1 ∷ []) ∷ (0 ∷ 2 ∷ []) ∷ (1 ∷ 2 ∷ []) ∷ []
unfolding get_all_k_out_of_d_dimensions
two_of_three = refl

square :
    create_truncated_hierarchical_levels (3 ∷ 3 ∷ []) (pos 1 ∷ pos 1 ∷ [])
    ≡ (1 ∷ 1 ∷ []) ∷ (1 ∷ 2 ∷ []) ∷ (1 ∷ 3 ∷ []) ∷ (2 ∷ 1 ∷ []) ∷ (2 ∷ 2 ∷ []) ∷ (3 ∷ 1 ∷ []) ∷ []
unfolding create_truncated_hierarchical_levels for_range ◌+ℤ◌ ◌-ℤ◌ sum_ℤ
square = refl
