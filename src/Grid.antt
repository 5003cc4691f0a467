-- ===== src/Grid.antt =====
-- The distributed full grid of src/fullgrid/DistributedFullGrid.hpp: the decomposition of its points
-- among the processes, and linear and vector indices, global and of the own partition. Its values,
-- which the template keeps through a pointer, and its coordinates are not modelled. A lookup out of bounds, which the source asserts not to happen, yields 0.
pub mod Decomposition
pub mod Owner
pub mod Bounds
pub mod Indices
pub mod Hierarchy
use dis_co_tec.Prelude.{
  ℕ, zero, suc, ◌+◌, ◌-◌, ◌*◌, ◌/◌, Bool, true, false, ◌&&◌, List, [], ◌∷◌, ◌++◌, Option, none,
  some, length, get_or, set, ltb, leb, ◌==◌, if◌then◌else◌,
}
use dis_co_tec.Prelude.Int.{ℤ, pos, negsuc, ◌-ℤ◌}
use dis_co_tec.Prelude.Doubles.{rounded, quotient, ceil, floor}
use dis_co_tec.Prelude.Loops.{for_range}
use dis_co_tec.Level
use dis_co_tec.Level.{
  LevelVector, Result, add, subtract, geq, get_num_dof_nodal, equals_with_size_check,
}
use dis_co_tec.Tensor
use dis_co_tec.Tensor.{TensorIndexer, sequential_index, get_vector_index, size}
use dis_co_tec.Cartesian
use dis_co_tec.Cartesian.{
  Communicator, MpiCartesianUtils, get_partition_coords_of_rank, get_rank_from_partition_coords,
  get_neighbor_1d_from_partition_index, get_cartesian_dimensions,
}

-- The exceptions that the constructor can leave with.
pub data Exception : Type 0 where
  runtime_error : Exception
  invalid_argument : Exception

pub data Attempt {ℓ} (A : Type ℓ) : Type ℓ where
  returns : A → Attempt A
  throws : Exception → Attempt A

infixl 5 ◌>>=◌
abbrev pub ◌>>=◌ {ℓ κ} : {A : Type ℓ} {B : Type κ} → Attempt A → (A → Attempt B) → Attempt B
returns a >>= f = f a
throws e >>= f = throws e

-- A call of what can only throw std::runtime_error.
abbrev pub attempt {ℓ} : {A : Type ℓ} → Result A → Attempt A
attempt (Level.ok a) = returns a
attempt Level.runtime_error = throws runtime_error

-- std::ceil and std::floor of n * j / p, where the product and the quotient are doubles.
unfoldable pub first_index : Bool → ℕ → ℕ → ℕ → ℕ
unfolding rounded quotient ceil floor
first_index true n p j = ceil (quotient (rounded (n * j)) p)
first_index false n p j = floor (quotient (rounded (n * j)) p)

unfoldable pub first_indices : Bool → ℕ → ℕ → ℕ → ℕ → List ℕ
first_indices forward n p zero j = []
first_indices forward n p (suc k) j =
    first_index forward n p j ∷ first_indices forward n p k (suc j)

unfoldable pub get_default_decomposition : List ℕ → List ℕ → Bool → Attempt (List (List ℕ))
get_default_decomposition [] procs forward = returns []
get_default_decomposition (n ∷ points) [] forward = returns []
get_default_decomposition (n ∷ points) (p ∷ procs) forward =
    let rest = get_default_decomposition points procs forward in
    if ltb n p
    then throws invalid_argument
    else (rest >>= λ above. returns (first_indices forward n p p 0 ∷ above))

pub record DistributedFullGrid : Type 0 where
  pub levels : LevelVector
  pub has_boundary_points : List ℕ
  pub cartesian_utils : MpiCartesianUtils
  pub decomposition : List (List ℕ)
  pub global_indexer : TensorIndexer
  pub my_partitions_lower_bounds : List ℕ
  pub my_partitions_upper_bounds : List ℕ
  pub my_partitions_first_global_index : ℕ
  pub local_tensor : TensorIndexer

-- getLowerBounds(r), the loop over the dimensions from i on
unfoldable pub lower_bounds_loop : List (List ℕ) → List ℕ → ℕ → ℕ → List ℕ
lower_bounds_loop decomposition coords zero i = []
lower_bounds_loop decomposition coords (suc n) i =
    get_or (get_or decomposition i []) (get_or coords i 0) 0
    ∷ lower_bounds_loop decomposition coords n (suc i)

unfoldable pub get_lower_bounds_of_rank : MpiCartesianUtils → List (List ℕ) → ℕ → ℕ → List ℕ
unfolding lower_bounds_loop
get_lower_bounds_of_rank utils decomposition dim r =
    lower_bounds_loop decomposition (get_partition_coords_of_rank utils r) dim 0

-- getUpperBounds(r): `coords` is a reference to the one buffer of TensorIndexer::getVectorIndex, and
-- the call of getLowerBounds(n) in the loop writes the coordinates of the neighbour n there. So the
-- buffer is passed on from round to round.
unfoldable pub upper_bound_round :
    MpiCartesianUtils → List (List ℕ) → List ℕ → ℕ → ℕ → List ℕ → List ℕ × ℕ
upper_bound_round utils decomposition sizes dim i buffer =
    let nc = set buffer i (suc (get_or buffer i 0)) in
    let n = get_rank_from_partition_coords utils nc in
    if ltb (get_or buffer i 0) (get_or (get_cartesian_dimensions utils) i 0 - 1)
    then (
      get_partition_coords_of_rank utils n,
      get_or (get_lower_bounds_of_rank utils decomposition dim n) i 0,
    )
    else (buffer, get_or sizes i 0)

unfoldable pub upper_bounds_loop :
    MpiCartesianUtils → List (List ℕ) → List ℕ → ℕ → ℕ → ℕ → List ℕ → List ℕ
upper_bounds_loop utils decomposition sizes dim zero i buffer = []
upper_bounds_loop utils decomposition sizes dim (suc k) i buffer =
    let round = upper_bound_round utils decomposition sizes dim i buffer in
    round.1 ∷ upper_bounds_loop utils decomposition sizes dim k (suc i) round.0

unfoldable pub get_upper_bounds_of_rank :
    MpiCartesianUtils → List (List ℕ) → List ℕ → ℕ → ℕ → List ℕ
unfolding upper_bounds_loop upper_bound_round
get_upper_bounds_of_rank utils decomposition sizes dim r =
    upper_bounds_loop utils decomposition sizes dim dim 0 (get_partition_coords_of_rank utils r)

-- InitMPI; the static MPICartesianUtils is that of the communicator either way.
unfoldable pub init_mpi : Communicator → List ℕ → Attempt MpiCartesianUtils
init_mpi comm procs = do
  utils ← attempt (Cartesian.make comm)
  if equals_with_size_check procs (get_cartesian_dimensions utils)
      then returns utils
      else throws runtime_error

unfoldable pub nr_points : LevelVector → List ℕ → Attempt (List ℕ)
nr_points [] boundary = returns []
nr_points (l ∷ levels) [] = returns []
nr_points (l ∷ levels) (b ∷ boundary) = do
  n ← attempt (get_num_dof_nodal l b)
  above ← nr_points levels boundary
  returns (n ∷ above)

unfoldable pub choose_decomposition :
    List ℕ → List ℕ → Bool → List (List ℕ) → Attempt (List (List ℕ))
choose_decomposition points dims forward [] = get_default_decomposition points dims forward
choose_decomposition points dims forward (d ∷ ds) = returns (d ∷ ds)

-- The rest of the constructor, from setDecomposition on.
unfoldable pub set_up :
    LevelVector → List ℕ → MpiCartesianUtils → List ℕ → List (List ℕ) → DistributedFullGrid
set_up levels boundary utils points decomposition =
    let dim = length levels in
    let indexer = Tensor.make points in
    let lower = get_lower_bounds_of_rank utils decomposition dim utils.rank in
    let upper = get_upper_bounds_of_rank utils decomposition points dim utils.rank in
    record {
      levels = levels;
      has_boundary_points = boundary;
      cartesian_utils = utils;
      decomposition = decomposition;
      global_indexer = indexer;
      my_partitions_lower_bounds = lower;
      my_partitions_upper_bounds = upper;
      my_partitions_first_global_index = sequential_index indexer lower;
      local_tensor = Tensor.make (subtract upper lower);
    }

unfoldable pub make :
    LevelVector
    → Communicator
    → List ℕ
    → List ℕ
    → Bool
    → List (List ℕ)
    → Attempt DistributedFullGrid
make levels comm boundary procs forward decomposition = do
  utils ← init_mpi comm procs
  points ← nr_points levels boundary
  chosen ← choose_decomposition points (get_cartesian_dimensions utils) forward decomposition
  returns (set_up levels boundary utils points chosen)

abbrev pub get_global_sizes : DistributedFullGrid → List ℕ
get_global_sizes g = g.global_indexer.extents

abbrev pub get_local_sizes : DistributedFullGrid → List ℕ
get_local_sizes g = g.local_tensor.extents

-- operator< on index vectors
unfoldable pub index_lt : List ℕ → List ℕ → Bool
index_lt [] m = true
index_lt (x ∷ l) [] = true
index_lt (x ∷ l) (y ∷ m) = ltb x y && index_lt l m

unfoldable pub is_global_index_here : DistributedFullGrid → List ℕ → Bool
is_global_index_here g global_vector_index =
    geq global_vector_index g.my_partitions_lower_bounds
    && index_lt global_vector_index g.my_partitions_upper_bounds

unfoldable pub get_global_vector_index : DistributedFullGrid → ℕ → List ℕ
get_global_vector_index g glob_lin_index = get_vector_index g.global_indexer glob_lin_index

-- From a local vector index.
unfoldable pub global_vector_index_of_local : DistributedFullGrid → List ℕ → List ℕ
global_vector_index_of_local g loc_axis_index = add g.my_partitions_lower_bounds loc_axis_index

unfoldable pub local_vector_index_of_linear : DistributedFullGrid → ℕ → List ℕ
local_vector_index_of_linear g loc_lin_index = get_vector_index g.local_tensor loc_lin_index

-- none where the source returns false
unfoldable pub get_local_vector_index : DistributedFullGrid → List ℕ → Option (List ℕ)
get_local_vector_index g glob_axis_index =
    if is_global_index_here g glob_axis_index
    then some (subtract glob_axis_index g.my_partitions_lower_bounds)
    else none

-- From a local linear index.
unfoldable pub get_global_linear_index : DistributedFullGrid → ℕ → ℕ
get_global_linear_index g loc_lin_index =
    g.my_partitions_first_global_index
    + sequential_index g.global_indexer (local_vector_index_of_linear g loc_lin_index)

unfoldable pub get_local_linear_index : DistributedFullGrid → ℕ → ℤ
get_local_linear_index g glob_lin_index =
    let glob_axis_index = get_global_vector_index g glob_lin_index in
    if is_global_index_here g glob_axis_index
    then pos (sequential_index g.local_tensor glob_axis_index)
      -ℤ pos g.my_partitions_first_global_index
    else negsuc 0

-- getPartitionCoords in one dimension: the last partition that starts at or before the index; -1 if
-- there is none.
unfoldable pub partition_coord_loop : ℕ → List ℕ → ℕ → ℕ → ℤ → ℤ
partition_coord_loop index decomposition zero i found = found
partition_coord_loop index decomposition (suc n) i found =
    partition_coord_loop index decomposition n (suc i)
      (if leb (get_or decomposition i 0) index then pos i else found)

unfoldable pub get_partition_coord : DistributedFullGrid → ℕ → ℕ → ℤ
unfolding partition_coord_loop
get_partition_coord g d index =
    partition_coord_loop index (get_or g.decomposition d [])
      (get_or (get_cartesian_dimensions g.cartesian_utils) d 0) 0 (negsuc 0)

-- std::lower_bound on an ascending vector, as a distance from begin()
unfoldable pub lower_bound : List ℕ → ℕ → ℕ
lower_bound [] value = 0
lower_bound (x ∷ xs) value = let rest = lower_bound xs value in if ltb x value then suc rest else 0

-- The index is not negative. The partition is lower_bound - 1, which is not negative for a
-- decomposition that starts at 0.
unfoldable pub get_neighbor_1d_from_axis_index : DistributedFullGrid → ℕ → ℕ → ℤ
unfolding lower_bound
get_neighbor_1d_from_axis_index g dim idx_1d =
    if ltb idx_1d (get_or (get_global_sizes g) dim 0)
    then pos (
        get_neighbor_1d_from_partition_index g.cartesian_utils dim
          (lower_bound (get_or g.decomposition dim []) (idx_1d + 1) - 1))
    else negsuc 0
