-- ===== src/Grid/Hierarchy.antt =====
-- The hierarchy on a partition of src/fullgrid/DistributedFullGrid.hpp: the level of a point, its
-- predecessors, and the points of a hierarchical subspace. Powers of two stay below 2^30, as the
-- source asserts of the levels, so that nothing overflows.
pub mod Progression
pub mod Levels
pub mod OneDimension
pub mod LevelIndices
pub mod Predecessors
pub mod Subspace
pub mod SubspacePoints
use dis_co_tec.Prelude.{
  ℕ, zero, suc, ◌+◌, ◌-◌, ◌*◌, ◌/◌, ◌%◌, Bool, ◌&&◌, ◌||◌, List, [], ◌∷◌, ◌++◌, Option, none, some,
  length, get_or, ltb, leb, ◌==◌, if◌then◌else◌,
}
use dis_co_tec.Prelude.Int.{ℤ, pos, negsuc, ◌-ℤ◌, ◌==ℤ◌, pos_part}
use dis_co_tec.Level.{LevelVector, power_of_two_by_bitshift}
use dis_co_tec.Tensor.{get_vector_index}
use dis_co_tec.Grid.{DistributedFullGrid, get_global_sizes, get_local_sizes}
use mathlib.Core.List.{foldl}

abbrev pub level_in : DistributedFullGrid → ℕ → ℕ
level_in g d = get_or g.levels d 0

abbrev pub boundary_in : DistributedFullGrid → ℕ → ℕ
boundary_in g d = get_or g.has_boundary_points d 0

-- __builtin_ctz, the number of zeros behind the last one, of a positive number; as many rounds as
-- the number are enough.
unfoldable pub ctz_loop : ℕ → ℕ → ℕ
ctz_loop zero x = 0
ctz_loop (suc fuel) x = let rest = ctz_loop fuel (x / 2) in if x % 2 == 1 then 0 else suc rest

unfoldable pub ctz : ℕ → ℕ
ctz x = ctz_loop x x

-- The level at a position, which is the index with the left boundary counted.
unfoldable pub level_at : ℕ → ℕ → ℤ
level_at lmax position = if position == 0 then pos 0 else pos lmax -ℤ pos (ctz position)

unfoldable pub get_level : DistributedFullGrid → ℕ → ℕ → ℤ
unfolding ctz
get_level g d idx_1d = level_at (level_in g d) (if boundary_in g d == 0 then suc idx_1d else idx_1d)

unfoldable pub get_left_predecessor : DistributedFullGrid → ℕ → ℕ → ℤ
get_left_predecessor g d idx_1d =
    let l = get_level g d idx_1d in
    if l ==ℤ pos 0
    then negsuc 0
    else pos idx_1d -ℤ pos (power_of_two_by_bitshift (pos_part (pos (level_in g d) -ℤ l)))

unfoldable pub get_right_predecessor : DistributedFullGrid → ℕ → ℕ → ℤ
get_right_predecessor g d idx_1d =
    let l = get_level g d idx_1d in
    let num_elements = get_or (get_global_sizes g) d 0 in
    let rpidx = idx_1d + power_of_two_by_bitshift (pos_part (pos (level_in g d) -ℤ l)) in
    if l ==ℤ pos 0
    then negsuc 0
    else if (boundary_in g d == 1) && (rpidx == num_elements)
    then pos num_elements
    else if leb num_elements rpidx
    then negsuc 0
    else pos rpidx

-- The condition that getLocalStartForThisLevel asserts of its first index: the index belongs to
-- level l, where the boundary points belong to level 1.
unfoldable pub is_of_level : DistributedFullGrid → ℕ → ℕ → ℕ → Bool
is_of_level g d l idx_1d =
    (get_level g d idx_1d ==ℤ pos l)
    || ((get_level g d idx_1d ==ℤ pos 0) && (ltb 0 (boundary_in g d) && (l == 1)))

unfoldable pub get_stride_for_this_level : DistributedFullGrid → ℕ → ℕ → ℕ
get_stride_for_this_level g l d =
    if (l == 1) && ltb 0 (boundary_in g d)
    then power_of_two_by_bitshift (level_in g d - 1)
    else power_of_two_by_bitshift (level_in g d - l + 1)

unfoldable pub offset_for_this_level : DistributedFullGrid → ℕ → ℕ → ℕ
offset_for_this_level g l d =
    if ltb 0 (boundary_in g d)
    then (if l == 1 then 0 else power_of_two_by_bitshift (level_in g d - l))
    else power_of_two_by_bitshift (level_in g d - l) - 1

unfoldable pub get_local_start_for_this_level : DistributedFullGrid → ℕ → ℕ → ℕ → ℕ
get_local_start_for_this_level g l d stride =
    let first = get_or g.my_partitions_lower_bounds d 0 in
    let offset = offset_for_this_level g l d in
    let first_global = (if ltb first offset then 0 else (first - offset + stride - 1) / stride) in
    first_global * stride + offset - first

-- The test is localSizes - 1 < localStart on signed numbers.
unfoldable pub get_num_points_on_this_partition : ℕ → ℕ → ℕ → ℕ
get_num_points_on_this_partition local_size local_start stride =
    if leb local_size local_start then 0 else (local_size - 1 - local_start) / stride + 1

unfoldable pub num_points_of_level : DistributedFullGrid → ℕ → ℕ → ℕ
num_points_of_level g l d =
    let stride = get_stride_for_this_level g l d in
    get_num_points_on_this_partition (get_or (get_local_sizes g) d 0)
      (get_local_start_for_this_level g l d stride) stride

-- std::generate with a running index
unfoldable pub generate : ℕ → ℕ → ℕ → List ℕ
generate zero start stride = []
generate (suc n) start stride = start ∷ generate n (start + stride) stride

unfoldable pub get_1d_indices_local : DistributedFullGrid → ℕ → ℕ → List ℕ
unfolding get_stride_for_this_level get_local_start_for_this_level get_num_points_on_this_partition
get_1d_indices_local g d l =
    let stride = get_stride_for_this_level g l d in
    let start = get_local_start_for_this_level g l d stride in
    if ltb (level_in g d) l
    then []
    else generate (get_num_points_on_this_partition (get_or (get_local_sizes g) d 0) start stride)
        start stride

-- The first loop of getFGPointsOfSubspace, from dimension d on; none where it returns early.
unfoldable pub one_d_indices_loop :
    DistributedFullGrid → LevelVector → ℕ → ℕ → Option (List (List ℕ))
one_d_indices_loop g l zero d = some []
one_d_indices_loop g l (suc n) d =
    let rest = one_d_indices_loop g l n (suc d) in
    if ltb (level_in g d) (get_or l d 0) then none else elim rest [
      | none ↦ none
      | some above ↦ some (get_1d_indices_local g d (get_or l d 0) ∷ above)
    ]

unfoldable pub get_fg_points_of_subspace_recursive :
    DistributedFullGrid → ℕ → ℕ → List (List ℕ) → List ℕ → List ℕ
get_fg_points_of_subspace_recursive g zero index_sum one_d_indices subspace_indices =
    foldl (λ found idx. found ++ (index_sum + get_or g.local_tensor.local_offsets 0 0 * idx) ∷ [])
      subspace_indices (get_or one_d_indices 0 [])
get_fg_points_of_subspace_recursive g (suc d) index_sum one_d_indices subspace_indices =
    foldl
      (λ found idx.
        get_fg_points_of_subspace_recursive g d
          (index_sum + get_or g.local_tensor.local_offsets (suc d) 0 * idx) one_d_indices found)
      subspace_indices (get_or one_d_indices (suc d) [])

unfoldable pub num_points_of_subspace : List (List ℕ) → ℕ
num_points_of_subspace [] = 1
num_points_of_subspace (indices ∷ above) = length indices * num_points_of_subspace above

unfoldable pub get_fg_points_of_subspace : DistributedFullGrid → LevelVector → List ℕ
get_fg_points_of_subspace g l = elim (one_d_indices_loop g l (length g.levels) 0) [
  | none ↦ []
  | some one_d_indices ↦
      if ltb 0 (num_points_of_subspace one_d_indices)
      then get_fg_points_of_subspace_recursive g (length g.levels - 1) 0 one_d_indices []
      else []
]
