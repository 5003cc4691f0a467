-- ===== src/Level.antt =====
-- Level vectors and what the grids on them hold: src/utils/IndexVector.hpp, LevelVector.hpp,
-- PowerOfTwo.hpp and LevelSetUtils.hpp. Levels are at least 0 where the source asserts it, so a
-- level is a number. The vectors that are compared have one size, which the source asserts.
pub mod Vectors
pub mod DownSet
pub mod Dof
pub mod Truncated
use dis_co_tec.Prelude.{
  ℕ, zero, suc, ◌+◌, ◌-◌, ◌*◌, ◌^◌, Bool, true, false, ◌&&◌, List, [], ◌∷◌, ◌++◌, leb, ltb, ◌==◌,
  if◌then◌else◌,
}
use dis_co_tec.Prelude.Loops.{for_range}

abbrev pub LevelVector : Type 0
LevelVector = List ℕ

-- A function that may throw std::runtime_error.
pub data Result {ℓ} (A : Type ℓ) : Type ℓ where
  ok : A → Result A
  runtime_error : Result A

infixl 5 ◌>>=◌
abbrev pub ◌>>=◌ {ℓ κ} : {A : Type ℓ} {B : Type κ} → Result A → (A → Result B) → Result B
ok a >>= f = f a
runtime_error >>= f = runtime_error

-- operator<= and operator>= on vectors
unfoldable pub leq : LevelVector → LevelVector → Bool
leq [] m = true
leq (x ∷ l) [] = true
leq (x ∷ l) (y ∷ m) = leb x y && leq l m

abbrev pub geq : LevelVector → LevelVector → Bool
geq l m = leq m l

-- The template operator==: it walks the first vector and takes no account of the sizes.
unfoldable pub vector_eq : LevelVector → LevelVector → Bool
vector_eq [] m = true
vector_eq (x ∷ l) [] = false
vector_eq (x ∷ l) (y ∷ m) = (x == y) && vector_eq l m

-- With the size check in front.
unfoldable pub equals_with_size_check : LevelVector → LevelVector → Bool
equals_with_size_check [] [] = true
equals_with_size_check [] (y ∷ m) = false
equals_with_size_check (x ∷ l) [] = false
equals_with_size_check (x ∷ l) (y ∷ m) = (x == y) && equals_with_size_check l m

-- operator+ and operator- on vectors of one size
unfoldable pub add : LevelVector → LevelVector → LevelVector
add [] m = []
add (x ∷ l) [] = []
add (x ∷ l) (y ∷ m) = (x + y) ∷ add l m

-- The subtrahend is at most the minuend wherever levels are subtracted.
unfoldable pub subtract : LevelVector → LevelVector → LevelVector
subtract [] m = []
subtract (x ∷ l) [] = []
subtract (x ∷ l) (y ∷ m) = (x - y) ∷ subtract l m

unfoldable pub level_sum_from : ℕ → LevelVector → ℕ
level_sum_from acc [] = acc
level_sum_from acc (x ∷ l) = level_sum_from (acc + x) l

-- std::accumulate
unfoldable pub level_sum : LevelVector → ℕ
unfolding level_sum_from
level_sum l = level_sum_from 0 l

-- The level vectors from 1 to l in each dimension: `fixed` is the part of the vector that the
-- outer calls have chosen, and `rest` holds the dimensions still to choose.
unfoldable pub get_down_set_recursively :
    LevelVector → LevelVector → List LevelVector → List LevelVector
get_down_set_recursively [] fixed down_set = down_set ++ fixed ∷ []
get_down_set_recursively (l_d ∷ rest) fixed down_set =
    for_range l_d 1 (λ i acc. get_down_set_recursively rest (fixed ++ i ∷ []) acc) down_set

unfoldable pub get_down_set : LevelVector → List LevelVector
unfolding get_down_set_recursively
get_down_set l = get_down_set_recursively l [] []

-- 1 << x; the source asserts that x is less than the width.
abbrev pub power_of_two_by_bitshift : ℕ → ℕ
power_of_two_by_bitshift x = 2 ^ x

-- The table powerOfTwo[30] has 29 initialisers, so the last entry is 0.
unfoldable pub power_of_two : ℕ → ℕ
power_of_two i = if ltb i 29 then 2 ^ i else 0

-- The points of a one-dimensional grid; `boundary` is 0, 1 or 2 boundary points.
unfoldable pub get_num_dof_nodal : ℕ → ℕ → Result ℕ
get_num_dof_nodal l_i boundary =
    if ltb 0 l_i
    then ok (power_of_two_by_bitshift l_i + boundary - 1)
    else if boundary == 0
    then runtime_error
    else ok boundary

num_dof_nodal_loop : ℕ → LevelVector → List ℕ → Result ℕ
num_dof_nodal_loop num [] boundary = ok num
num_dof_nodal_loop num (l_i ∷ l) [] = ok num
num_dof_nodal_loop num (l_i ∷ l) (b ∷ boundary) = do
  n ← get_num_dof_nodal l_i b
  num_dof_nodal_loop (num * n) l boundary

-- The overload for one grid.
unfoldable pub get_num_dof_nodal_grid : LevelVector → List ℕ → Result ℕ
unfolding num_dof_nodal_loop get_num_dof_nodal
get_num_dof_nodal_grid l boundary = num_dof_nodal_loop 1 l boundary

num_dof_nodal_grids_loop : ℕ → List LevelVector → List ℕ → Result ℕ
num_dof_nodal_grids_loop num [] boundary = ok num
num_dof_nodal_grids_loop num (l ∷ ls) boundary = do
  n ← get_num_dof_nodal_grid l boundary
  num_dof_nodal_grids_loop (num + n) ls boundary

-- The overload for several grids.
unfoldable pub get_num_dof_nodal_grids : List LevelVector → List ℕ → Result ℕ
unfolding num_dof_nodal_grids_loop get_num_dof_nodal_grid
get_num_dof_nodal_grids ls boundary = num_dof_nodal_grids_loop 0 ls boundary

-- The points of a one-dimensional hierarchical subspace; the source asserts 0 < l_i.
unfoldable pub get_num_dof_hierarchical : ℕ → ℕ → ℕ
get_num_dof_hierarchical l_i boundary =
    if l_i == 1 then 1 + boundary else power_of_two_by_bitshift (l_i - 1)

num_dof_hierarchical_loop : ℕ → LevelVector → List ℕ → ℕ
num_dof_hierarchical_loop num [] boundary = num
num_dof_hierarchical_loop num (l_i ∷ l) [] = num
num_dof_hierarchical_loop num (l_i ∷ l) (b ∷ boundary) =
    num_dof_hierarchical_loop (num * get_num_dof_hierarchical l_i b) l boundary

unfoldable pub get_num_dof_hierarchical_subspace : LevelVector → List ℕ → ℕ
unfolding num_dof_hierarchical_loop get_num_dof_hierarchical
get_num_dof_hierarchical_subspace l boundary = num_dof_hierarchical_loop 1 l boundary

num_dof_hierarchical_subspaces_loop : ℕ → List LevelVector → List ℕ → ℕ
num_dof_hierarchical_subspaces_loop num [] boundary = num
num_dof_hierarchical_subspaces_loop num (l ∷ ls) boundary =
    num_dof_hierarchical_subspaces_loop (num + get_num_dof_hierarchical_subspace l boundary) ls
      boundary

unfoldable pub get_num_dof_hierarchical_subspaces : List LevelVector → List ℕ → ℕ
unfolding num_dof_hierarchical_subspaces_loop get_num_dof_hierarchical_subspace
get_num_dof_hierarchical_subspaces ls boundary = num_dof_hierarchical_subspaces_loop 0 ls boundary
