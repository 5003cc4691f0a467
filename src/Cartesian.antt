-- ===== src/Cartesian.antt =====
-- The cartesian grid of processes: MPICartesianUtils of src/mpi/MPICartesianUtils.hpp. What MPI
-- tells of a communicator is an argument. A rank or a coordinate is never negative here, and a
-- lookup out of bounds, which the source asserts not to happen, yields 0.
pub mod Ranks
pub mod Poles
use dis_co_tec.Prelude.{
  ℕ, zero, suc, ◌+◌, ◌-◌, Bool, List, [], ◌∷◌, ◌++◌, Option, none, some, product, get_or, set,
  replicate, ◌==◌, if◌then◌else◌,
}
use dis_co_tec.Prelude.Loops.{for_range}
use dis_co_tec.Level.{Result, ok, runtime_error}
use dis_co_tec.Tensor
use dis_co_tec.Tensor.{TensorIndexer, sequential_index, get_vector_index}

-- MPI_Topo_test with MPI_Cart_get (none if the communicator is not cartesian, else the number of
-- processes in each dimension and the own coordinates), MPI_Cart_coords, MPI_Comm_rank and
-- MPI_Comm_size.
pub record Communicator : Type 0 where
  pub cart : Option (List ℕ × List ℕ)
  pub cart_coords : ℕ → List ℕ
  pub comm_rank : ℕ
  pub comm_size : ℕ

pub record MpiCartesianUtils : Type 0 where
  pub rank : ℕ
  pub local_coords : List ℕ
  pub partition_coords : List ℕ
  pub partition_coords_tensor : TensorIndexer

-- partitionCoords_[sequentialIndex(coordinates of i)] = i
unfoldable pub fill_partition_coords : (ℕ → List ℕ) → TensorIndexer → ℕ → ℕ → List ℕ → List ℕ
fill_partition_coords cart_coords tensor n i partition_coords =
    for_range n i (λ i cells. set cells (sequential_index tensor (cart_coords i)) i)
      partition_coords

unfoldable pub make : Communicator → Result MpiCartesianUtils
make comm = elim comm.cart [
  | none ↦ runtime_error
  | some found ↦
      let tensor = Tensor.make found.0 in
      let size = product found.0 in
      let cells = fill_partition_coords comm.cart_coords tensor size 0 (replicate size 0) in
      if comm.comm_size == size
      then ok (record {
        rank = comm.comm_rank;
        local_coords = found.1;
        partition_coords = cells;
        partition_coords_tensor = tensor;
      })
      else runtime_error
]

-- std::find, as a distance from begin()
unfoldable pub find : ℕ → List ℕ → ℕ
find r [] = 0
find r (x ∷ xs) = let rest = find r xs in if x == r then 0 else suc rest

unfoldable pub get_partition_coords_of_rank : MpiCartesianUtils → ℕ → List ℕ
unfolding find
get_partition_coords_of_rank u r =
    get_vector_index u.partition_coords_tensor (find r u.partition_coords)

unfoldable pub get_rank_from_partition_coords : MpiCartesianUtils → List ℕ → ℕ
get_rank_from_partition_coords u coords =
    get_or u.partition_coords (sequential_index u.partition_coords_tensor coords) 0

unfoldable pub get_neighbor_1d_from_partition_index : MpiCartesianUtils → ℕ → ℕ → ℕ
get_neighbor_1d_from_partition_index u dim idx_1d =
    get_rank_from_partition_coords u (set u.local_coords dim idx_1d)

abbrev pub get_cartesian_dimensions : MpiCartesianUtils → List ℕ
get_cartesian_dimensions u = u.partition_coords_tensor.extents

unfoldable pub is_on_lower_boundary_in_dimension : MpiCartesianUtils → ℕ → Bool
is_on_lower_boundary_in_dimension u d = get_or u.local_coords d 0 == 0

unfoldable pub is_on_upper_boundary_in_dimension : MpiCartesianUtils → ℕ → Bool
is_on_upper_boundary_in_dimension u d =
    (get_or u.local_coords d 0 + 1) == get_or (get_cartesian_dimensions u) d 0

unfoldable pub push_pole_rank : MpiCartesianUtils → ℕ → ℕ → List ℕ → List ℕ
push_pole_rank u dim i ranks =
    ranks ++ get_rank_from_partition_coords u (set u.local_coords dim i) ∷ []

unfoldable pub get_all_my_pole_neighbor_ranks : MpiCartesianUtils → ℕ → List ℕ
unfolding push_pole_rank
get_all_my_pole_neighbor_ranks u dim =
    let own = get_or u.local_coords dim 0 in
    let below = for_range own 0 (push_pole_rank u dim) [] in
    for_range (get_or (get_cartesian_dimensions u) dim 0 - (own + 1)) (own + 1)
      (push_pole_rank u dim) below
