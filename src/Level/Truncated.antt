-- ===== src/Level/Truncated.antt =====
-- The truncated hierarchical levels of LevelSetUtils.cpp. `lmin` may be negative there (the adaptive
-- scheme passes lmax - n), so its entries are integers.
pub mod Closed
pub mod Enumeration
use dis_co_tec.Prelude.{
  ℕ, zero, suc, ◌+◌, ◌-◌, Bool, true, false, ◌&&◌, List, [], ◌∷◌, ◌++◌, map, all, length, get_or,
  sum, ltb, if◌then◌else◌,
}
use dis_co_tec.Prelude.Int.{ℤ, pos, pos_part, ◌+ℤ◌, ◌-ℤ◌, sum_ℤ, leb_ℤ}
use dis_co_tec.Prelude.Loops.{for_range}
use dis_co_tec.Level.{LevelVector}

-- The selectors with k of d entries set, in the order in which std::prev_permutation visits them
-- from 1…10…0 down.
unfoldable pub selectors : ℕ → ℕ → List (List Bool)
selectors zero zero = [] ∷ []
selectors (suc k) zero = []
selectors zero (suc d) = map (λ s. false ∷ s) (selectors zero d)
selectors (suc k) (suc d) =
    map (λ s. true ∷ s) (selectors k d) ++ map (λ s. false ∷ s) (selectors (suc k) d)

-- The indices, from i on, whose entry is set.
unfoldable pub selected_from : ℕ → List Bool → List ℕ
selected_from i [] = []
selected_from i (true ∷ s) = i ∷ selected_from (suc i) s
selected_from i (false ∷ s) = selected_from (suc i) s

unfoldable pub get_all_k_out_of_d_dimensions : ℕ → ℕ → List (List ℕ)
unfolding selectors selected_from
get_all_k_out_of_d_dimensions k d = map (selected_from 0) (selectors k d)

-- The sum of l over the dimensions is at most that of lmin plus n.
unfoldable pub combination_fits : ℕ → List ℤ → LevelVector → List ℕ → Bool
combination_fits n lmin l dims =
    leb_ℤ (pos (sum (map (λ i. get_or l i 0) dims)))
      (sum_ℤ (map (λ i. get_or lmin i (pos 0)) dims) +ℤ pos n)

unfoldable pub fits_from : ℕ → ℕ → ℕ → ℕ → List ℤ → LevelVector → Bool
unfolding combination_fits get_all_k_out_of_d_dimensions
fits_from zero k d n lmin l = true
fits_from (suc left) k d n lmin l =
    all (combination_fits n lmin l) (get_all_k_out_of_d_dimensions k d)
    && fits_from left (suc k) d n lmin l

-- pleaseAdd: all mixed dimension sums, for k = 2, …, d.
unfoldable pub please_add : ℕ → List ℤ → LevelVector → Bool
unfolding fits_from
please_add n lmin l = let d = length l in fits_from (d - 1) 2 d n lmin l

-- The levels left for one dimension: levelSum(lmin) + n - lsum, 0 if that is negative.
unfoldable pub budget : ℕ → List ℤ → LevelVector → ℕ
budget n lmin chosen = pos_part (sum_ℤ lmin +ℤ pos n -ℤ pos (sum chosen))

-- `chosen` is l up to dimension dim, which is its length; the list holds lmax from dim on. The
-- entries of l past dim are not read before they are set.
unfoldable pub create_truncated_rec :
    LevelVector → ℕ → List ℤ → LevelVector → List LevelVector → List LevelVector
unfolding budget please_add
create_truncated_rec [] n lmin chosen created = created
create_truncated_rec (lmax_d ∷ []) n lmin chosen created =
    for_range (budget n lmin chosen) 1
      (λ ldim acc.
        if ltb lmax_d ldim
        then acc
        else if please_add n lmin (chosen ++ ldim ∷ [])
        then acc ++ (chosen ++ ldim ∷ []) ∷ []
        else acc)
      created
create_truncated_rec (lmax_d ∷ lmax_e ∷ rest) n lmin chosen created =
    for_range (budget n lmin chosen) 1
      (λ ldim acc. elim (ltb lmax_d ldim) [
        | true ↦ acc
        | false ↦ create_truncated_rec (lmax_e ∷ rest) n lmin (chosen ++ ldim ∷ []) acc
      ])
      created

-- lmax - lmin, and its least entry
unfoldable pub level_difference : LevelVector → List ℤ → List ℤ
level_difference [] lmin = []
level_difference (x ∷ lmax) [] = []
level_difference (x ∷ lmax) (y ∷ lmin) = (pos x -ℤ y) ∷ level_difference lmax lmin

unfoldable pub min_element : ℤ → List ℤ → ℤ
min_element least [] = least
min_element least (x ∷ xs) = min_element (if leb_ℤ least x then least else x) xs

-- The difference is not negative, which the source asserts, so its positive part is itself.
unfoldable pub min_level_difference : LevelVector → List ℤ → ℕ
unfolding level_difference min_element
min_level_difference lmax lmin = elim (level_difference lmax lmin) [
  | [] ↦ 0
  | x ∷ xs ↦ pos_part (min_element x xs)
]

unfoldable pub create_truncated_hierarchical_levels : LevelVector → List ℤ → List LevelVector
unfolding create_truncated_rec min_level_difference
create_truncated_hierarchical_levels lmax lmin =
    let n = min_level_difference lmax lmin in
    create_truncated_rec lmax n (map (λ x. pos x -ℤ pos n) lmax) [] []
