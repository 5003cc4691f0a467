-- ===== src/Scheme.antt =====
-- The class CombiMinMaxScheme of src/combischeme/CombiMinMaxScheme.{hpp,cpp}: which component grids
-- a combination has, and their coefficients. The coefficients that the class computes are sums of
-- 1 and -1 and signed binomials, so they are integers here.
pub mod BoxSum
pub mod Weights
pub mod Adaptive
pub mod CountOnce
pub mod BoxOrder
pub mod AdaptiveScheme
pub mod Distribution
pub mod Classical
pub mod ThirdLevel
use dis_co_tec.Prelude.{
  ℕ, zero, suc, ◌+◌, ◌-◌, ◌*◌, ◌%◌, Bool, true, false, ◌&&◌, not, Option, none, some, List, [], ◌∷◌,
  ◌++◌, map, length, get_or, set, replicate, insert_at, all, ltb, leb, ◌==◌, if◌then◌else◌, keep_if,
}
use dis_co_tec.Prelude.Int.{ℤ, pos, negsuc, ◌+ℤ◌, ◌-ℤ◌, ◌*ℤ◌, neg_ℤ, ◌==ℤ◌}
use dis_co_tec.Prelude.Loops.{for_range}
use dis_co_tec.Level.{
  LevelVector, Result, ok, runtime_error, leq, geq, vector_eq, equals_with_size_check, add,
  subtract, level_sum,
}
use dis_co_tec.Level.Truncated.{create_truncated_hierarchical_levels}

pub record Scheme : Type 0 where
  pub n : ℕ
  pub dim : ℕ
  pub eff_dim : ℕ
  pub lmin : LevelVector
  pub lmax : LevelVector
  pub levels : List LevelVector
  pub combi_spaces : List LevelVector
  pub coefficients : List ℤ

count_zeros : List ℕ → ℕ
count_zeros [] = 0
count_zeros (i ∷ diff) = if i == 0 then suc (count_zeros diff) else count_zeros diff

-- The constructor; it asserts that 0 < lmin <= lmax in each of the dim entries.
unfoldable pub init : ℕ → LevelVector → LevelVector → Scheme
unfolding count_zeros
init dim lmin lmax = record {
  n = 0;
  dim = dim;
  eff_dim = dim - count_zeros (subtract lmax lmin);
  lmin = lmin;
  lmax = lmax;
  levels = [];
  combi_spaces = [];
  coefficients = [];
}

-- std::pow(-1, p)
unfoldable pub power_of_minus_one : ℕ → ℤ
power_of_minus_one zero = pos 1
power_of_minus_one (suc p) = neg_ℤ (power_of_minus_one p)

-- The first of the largest entries, with its index.
max_element_from : ℕ → ℕ → ℕ → List ℕ → ℕ × ℕ
max_element_from i best value [] = (best, value)
max_element_from i best value (x ∷ xs) =
    if ltb value x then max_element_from (suc i) i x xs else max_element_from (suc i) best value xs

max_element : List ℕ → ℕ × ℕ
unfolding max_element_from
max_element [] = (0, 0)
max_element (x ∷ xs) = max_element_from 1 0 x xs

unfoldable pub get_furthest_corner : LevelVector → LevelVector → LevelVector
unfolding max_element
get_furthest_corner lmax lmin =
    let index_max = (max_element (subtract lmax lmin)).0 in
    set lmin index_max (get_or lmax index_max 0)

-- The inner loop of computeCombiCoeffsAdaptive over the neighbours of `l`; `tmp` is l + (1, …, 1).
unfoldable pub neighbour_sum : ℤ → LevelVector → LevelVector → List LevelVector → ℤ
neighbour_sum coeff l tmp [] = coeff
neighbour_sum coeff l tmp (nbr ∷ spaces) =
    neighbour_sum
      (if geq nbr l && leq nbr tmp
        then coeff +ℤ power_of_minus_one (level_sum (subtract nbr l))
        else coeff)
      l tmp spaces

-- The outer loop at the first space of `rest`. A space whose coefficient is 0 is overwritten by the
-- zero vector at once, so later rounds see the flag in its place.
unfoldable pub adaptive_loop :
    ℕ → List LevelVector → List LevelVector → List ℤ → List LevelVector × List ℤ
unfolding neighbour_sum
adaptive_loop dim done [] coefficients = (done, coefficients)
adaptive_loop dim done (l ∷ rest) coefficients =
    let coeff = neighbour_sum (pos 0) l (add l (replicate dim 1)) (done ++ l ∷ rest) in
    let kept = if coeff ==ℤ pos 0 then replicate dim 0 else l in
    adaptive_loop dim (done ++ kept ∷ []) rest (coefficients ++ coeff ∷ [])

-- The loop, then the deletion of the flagged spaces and of the zero coefficients.
unfoldable pub compute_combi_coeffs_adaptive : Scheme → Scheme
unfolding adaptive_loop
compute_combi_coeffs_adaptive s =
    let (spaces, coefficients) = adaptive_loop s.dim [] s.combi_spaces s.coefficients in
    record s {
      combi_spaces = keep_if (λ l. not (equals_with_size_check l (replicate s.dim 0))) spaces;
      coefficients = keep_if (λ c. not (c ==ℤ pos 0)) coefficients;
    }

-- The state when createAdaptiveCombischeme calls computeCombiCoeffsAdaptive.
unfoldable pub select_adaptive_spaces : Scheme → Scheme
unfolding get_furthest_corner
select_adaptive_spaces s =
    let n = level_sum (get_furthest_corner s.lmax s.lmin) in
    let below = n - level_sum s.lmin in
    let levels =
      create_truncated_hierarchical_levels s.lmax (map (λ rl. pos rl -ℤ pos below) s.lmax) in
    record s {
      n = n;
      levels = levels;
      combi_spaces = s.combi_spaces ++ keep_if (λ l. geq l s.lmin && leb (level_sum l) n) levels;
    }

unfoldable pub create_adaptive_combischeme : Scheme → Result Scheme
unfolding select_adaptive_spaces compute_combi_coeffs_adaptive
create_adaptive_combischeme s =
    let s' = compute_combi_coeffs_adaptive (select_adaptive_spaces s) in
    elim s'.levels [ [] ↦ runtime_error | l ∷ ls ↦ ok s' ]

-- for (p = first; p < first + rounds; ++p) if (l >= lmin_ && levelSum(l) == n_ - p)
on_diagonals : ℕ → ℕ → ℕ → LevelVector → LevelVector → List LevelVector
on_diagonals zero p n lmin l = []
on_diagonals (suc rounds) p n lmin l =
    if geq l lmin && (level_sum l + p == n)
    then l ∷ on_diagonals rounds (suc p) n lmin l
    else on_diagonals rounds (suc p) n lmin l

diagonal_spaces : ℕ → ℕ → ℕ → LevelVector → List LevelVector → List LevelVector
unfolding on_diagonals
diagonal_spaces rounds p n lmin [] = []
diagonal_spaces rounds p n lmin (l ∷ levels) =
    on_diagonals rounds p n lmin l ++ diagonal_spaces rounds p n lmin levels

unfoldable pub make_fault_tolerant : Scheme → Scheme
unfolding diagonal_spaces
make_fault_tolerant s =
    let extra = diagonal_spaces 2 s.eff_dim s.n s.lmin s.levels in
    if vector_eq s.lmin s.lmax then s else record s {
      combi_spaces = s.combi_spaces ++ extra;
      coefficients = s.coefficients ++ replicate (length extra) (pos 0);
    }
