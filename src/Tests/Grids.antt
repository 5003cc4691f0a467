-- ===== src/Tests/Grids.antt =====
-- A process grid of two by two, and a full grid of five by three points on it.
use dis_co_tec.Prelude.{
  map, ℕ, zero, suc, ◌+◌, ◌-◌, ◌<◌, ◌≡◌, refl, subst, ◌↔◌, ◌⊎◌, true, false, some, List, [], ◌∷◌,
  arith, get_or, set, keep_if, ◌==◌, if◌then◌else◌,
}
use dis_co_tec.Prelude.Int.{pos, negsuc, ◌-ℤ◌}
use dis_co_tec.Prelude.Loops.{concat_range, for_range}
use dis_co_tec.Level.{ok, leq, subtract}
use dis_co_tec.Tensor
use dis_co_tec.Tensor.{sequential_index, get_vector_index, size}
use dis_co_tec.Tensor.RoundTrip.{
  get_vector_index-sequential_index, sequential_index-get_vector_index, sequential_index-lt,
}
use dis_co_tec.Cartesian
use dis_co_tec.Cartesian.{
  Communicator, MpiCartesianUtils, fill_partition_coords, get_partition_coords_of_rank,
  get_rank_from_partition_coords, get_cartesian_dimensions, get_all_my_pole_neighbor_ranks,
}
use dis_co_tec.Cartesian.Ranks.{Topology, make-rank_coords}
use dis_co_tec.Cartesian.Poles.{pole_neighbor_ranks}
use dis_co_tec.Grid.{
  DistributedFullGrid, returns, throws, invalid_argument, get_default_decomposition, set_up,
  lower_bound, get_partition_coord, get_lower_bounds_of_rank, get_upper_bounds_of_rank,
  get_global_vector_index, get_global_linear_index, global_vector_index_of_local,
  local_vector_index_of_linear, is_global_index_here, get_local_vector_index, index_lt,
  first_indices, first_index,
}
use dis_co_tec.Grid.Decomposition.{DecomposesAll, default_decomposition}
use dis_co_tec.Grid.Owner.{Owns, owner_unique}
use dis_co_tec.Grid.Bounds.{OneEach, part_ends, upper_bounds-part_ends}
use dis_co_tec.Grid.Indices.{Consistent, set_up-Consistent, local-global, global-local}
use dis_co_tec.Grid.Hierarchy.{
  is_of_level, get_1d_indices_local, get_level, level_at, ctz, ctz_loop, boundary_in,
  get_left_predecessor, get_right_predecessor, get_fg_points_of_subspace,
}
use dis_co_tec.Grid.Hierarchy.Predecessors.{
  OnLowerLevel, left_predecessor-OnLowerLevel, right_predecessor-OnLowerLevel,
}
use dis_co_tec.Grid.Hierarchy.Subspace.{vectors}
use dis_co_tec.Grid.Hierarchy.SubspacePoints.{
  Suits, level_indices, get_fg_points_of_subspace-vectors,
}
use dis_co_tec.Grid.Hierarchy.Progression.{indices}
use dis_co_tec.Grid.Hierarchy.LevelIndices.{get_1d_indices_local-keep_if}

abbrev two_by_two : Tensor.TensorIndexer
two_by_two = record { extents = 2 ∷ 2 ∷ []; local_offsets = 1 ∷ 2 ∷ [] }

-- MPI numbers the processes with the first coordinate running fastest.
abbrev comm : Communicator
comm = record {
  cart = some (2 ∷ 2 ∷ [], 1 ∷ 1 ∷ []);
  cart_coords = get_vector_index two_by_two;
  comm_rank = 3;
  comm_size = 4;
}

comm-Topology : Topology comm.cart_coords (sequential_index two_by_two) (2 ∷ 2 ∷ [])
unfolding Tensor.make size
comm-Topology = record {
  coords_in_range = λ r h. (sequential_index-get_vector_index (2 ∷ 2 ∷ []) r h).0;
  rank_in_range = λ v h. sequential_index-lt 2 (2 ∷ []) v h;
  rank_coords = λ r h. (sequential_index-get_vector_index (2 ∷ 2 ∷ []) r h).1;
  coords_rank = λ v h. get_vector_index-sequential_index (2 ∷ 2 ∷ []) v h;
}

make-rank_coords_example :
    (u : MpiCartesianUtils) × (Cartesian.make comm ≡ ok u)
    × (get_partition_coords_of_rank u 2 ≡ comm.cart_coords 2)
    × (get_rank_from_partition_coords u (comm.cart_coords 2) ≡ 2)
make-rank_coords_example =
    make-rank_coords comm 2 (2 ∷ []) (1 ∷ 1 ∷ []) 2 comm-Topology refl refl (omega arith)

abbrev utils : MpiCartesianUtils
utils = record {
  rank = 3;
  local_coords = 1 ∷ 1 ∷ [];
  partition_coords = 0 ∷ 1 ∷ 2 ∷ 3 ∷ [];
  partition_coords_tensor = two_by_two;
}

made : Cartesian.make comm ≡ ok utils
unfolding Cartesian.make fill_partition_coords Tensor.make for_range sequential_index
    get_vector_index
made = refl

pole_neighbor_ranks_example :
    get_all_my_pole_neighbor_ranks utils 1
    ≡ concat_range 2 0
        (λ i. if i == 1 then [] else sequential_index two_by_two (set (1 ∷ 1 ∷ []) 1 i) ∷ [])
pole_neighbor_ranks_example =
    pole_neighbor_ranks comm 2 (2 ∷ []) (1 ∷ 1 ∷ []) utils 1 comm-Topology refl made
      (omega arith, (omega arith, tt)) (omega arith)

default_decomposition_example :
    ((ds : List (List ℕ)) × (get_default_decomposition (5 ∷ 3 ∷ []) (2 ∷ 2 ∷ []) true ≡ returns ds)
      × DecomposesAll (5 ∷ 3 ∷ []) (2 ∷ 2 ∷ []) ds)
    ⊎ ((get_default_decomposition (5 ∷ 3 ∷ []) (2 ∷ 2 ∷ []) true ≡ throws invalid_argument)
        × ((d : ℕ) × (get_or (5 ∷ 3 ∷ []) d 0 < get_or (2 ∷ 2 ∷ []) d 0)))
default_decomposition_example =
    default_decomposition (5 ∷ 3 ∷ []) (2 ∷ 2 ∷ []) true (omega arith, (omega arith, tt))
      (omega arith, (omega arith, tt))

abbrev starts : List (List ℕ)
starts = (0 ∷ 3 ∷ []) ∷ (0 ∷ 2 ∷ []) ∷ []

-- Where the product leaves the 53 bits of a double, a part can be empty.
empty_part :
    (first_index false 1403902645 1403902645 116981022 ≡ 116981022)
    × (first_index false 1403902645 1403902645 116981023 ≡ 116981022)
    × (first_index true 1403902645 1403902645 116981025 ≡ 116981026)
    × (first_index true 1403902645 1403902645 116981026 ≡ 116981026)
unfolding first_index
empty_part = (refl, refl, refl, refl)

decomposed : get_default_decomposition (5 ∷ 3 ∷ []) (2 ∷ 2 ∷ []) true ≡ returns starts
unfolding get_default_decomposition first_indices first_index
decomposed = refl

-- The partition of rank 3: the indices 3 and 4 of the first dimension, and 2 of the second.
abbrev grid : DistributedFullGrid
grid = record {
  levels = 2 ∷ 2 ∷ [];
  has_boundary_points = 2 ∷ 0 ∷ [];
  cartesian_utils = utils;
  decomposition = starts;
  global_indexer = record { extents = 5 ∷ 3 ∷ []; local_offsets = 1 ∷ 5 ∷ [] };
  my_partitions_lower_bounds = 3 ∷ 2 ∷ [];
  my_partitions_upper_bounds = 5 ∷ 3 ∷ [];
  my_partitions_first_global_index = 13;
  local_tensor = record { extents = 2 ∷ 1 ∷ []; local_offsets = 1 ∷ 2 ∷ [] };
}

set_up-grid : set_up (2 ∷ 2 ∷ []) (2 ∷ 0 ∷ []) utils (5 ∷ 3 ∷ []) starts ≡ grid
unfolding set_up Tensor.make get_lower_bounds_of_rank get_upper_bounds_of_rank sequential_index
    get_partition_coords_of_rank subtract get_vector_index
set_up-grid = refl

grid-Consistent : Consistent (5 ∷ 3 ∷ []) grid
unfolding get_lower_bounds_of_rank get_upper_bounds_of_rank get_partition_coords_of_rank
    get_vector_index
grid-Consistent = subst (Consistent (5 ∷ 3 ∷ [])) set_up-grid (
    set_up-Consistent (2 ∷ 2 ∷ []) (2 ∷ 0 ∷ []) utils (5 ∷ 3 ∷ []) starts
      (omega arith, (omega arith, (omega arith, (omega arith, tt)))))

owner_unique_example :
    (k : ℕ) × ((j : ℕ) → Owns (0 ∷ 3 ∷ []) 5 4 j ↔ (j ≡ k))
    × (lower_bound (0 ∷ 3 ∷ []) (4 + 1) - 1 ≡ k)
    × (get_partition_coord grid 0 4 ≡ pos k)
owner_unique_example =
    owner_unique grid 0 5 4 (refl, (omega arith, (omega arith, (omega arith, omega arith)))) refl
      (omega arith)

starts-OneEach : OneEach (2 ∷ 2 ∷ []) starts
starts-OneEach zero h = refl
starts-OneEach (suc zero) h = refl
starts-OneEach (suc (suc d)) h = absurd (omega arith)

upper_bounds-part_ends_example :
    get_upper_bounds_of_rank utils starts (5 ∷ 3 ∷ []) 2 0
    ≡ part_ends starts (5 ∷ 3 ∷ []) (comm.cart_coords 0) 2 0
upper_bounds-part_ends_example =
    upper_bounds-part_ends comm 2 (2 ∷ []) (1 ∷ 1 ∷ []) utils starts (5 ∷ 3 ∷ []) 0 comm-Topology
      refl made starts-OneEach (omega arith)

one-lt-local : 1 < size grid.local_tensor
unfolding size
one-lt-local = omega arith

local-global_example :
    (get_global_vector_index grid (get_global_linear_index grid 1)
      ≡ global_vector_index_of_local grid (local_vector_index_of_linear grid 1))
    × (is_global_index_here grid (get_global_vector_index grid (get_global_linear_index grid 1))
        ≡ true)
    × (get_local_vector_index grid (get_global_vector_index grid (get_global_linear_index grid 1))
        ≡ some (local_vector_index_of_linear grid 1))
local-global_example = local-global (5 ∷ 3 ∷ []) grid 1 grid-Consistent one-lt-local

fourteen-lt-global : 14 < size grid.global_indexer
unfolding size
fourteen-lt-global = omega arith

fourteen-here : is_global_index_here grid (get_global_vector_index grid 14) ≡ true
unfolding is_global_index_here get_global_vector_index leq get_vector_index index_lt
fourteen-here = refl

global-local_example :
    (v : List ℕ) × (get_local_vector_index grid (get_global_vector_index grid 14) ≡ some v)
    × (sequential_index grid.local_tensor v < size grid.local_tensor)
    × (get_global_linear_index grid (sequential_index grid.local_tensor v) ≡ 14)
global-local_example =
    global-local 5 (3 ∷ []) grid 14 grid-Consistent fourteen-lt-global fourteen-here

get_1d_indices_local_example :
    get_1d_indices_local grid 0 1 ≡ keep_if (λ j. is_of_level grid 0 1 (3 + j)) (indices 2 0)
get_1d_indices_local_example =
    get_1d_indices_local-keep_if grid 0 1 (omega arith) (omega arith) (omega arith) (omega arith)

-- The index 2 of a dimension of five points with both boundary points is on level 1.
two-level : get_level grid 0 2 ≡ pos 1
unfolding get_level level_at ctz ctz_loop ◌-ℤ◌
two-level = refl

left_predecessor-OnLowerLevel_example :
    ((boundary_in grid 0 ≡ 0) × (get_left_predecessor grid 0 2 ≡ negsuc 0))
    ⊎ ((p : ℕ) × (get_left_predecessor grid 0 2 ≡ pos p) × (p < 2) × OnLowerLevel grid 0 2 1 p)
left_predecessor-OnLowerLevel_example =
    left_predecessor-OnLowerLevel grid 0 2 1 two-level (omega arith) (omega arith)

right_predecessor-OnLowerLevel_example :
    ((boundary_in grid 0 ≡ 0) × (get_right_predecessor grid 0 2 ≡ negsuc 0))
    ⊎ ((p : ℕ) × (get_right_predecessor grid 0 2 ≡ pos p) × (2 < p) × OnLowerLevel grid 0 2 1 p)
right_predecessor-OnLowerLevel_example =
    right_predecessor-OnLowerLevel grid 0 2 1 two-level (omega arith) (omega arith) (omega arith)
      refl

grid-Suits : (k : ℕ) → k < 2 → Suits grid (2 ∷ 1 ∷ []) k
grid-Suits zero h = (omega arith, (omega arith, (omega arith, omega arith)))
grid-Suits (suc zero) h = (omega arith, (omega arith, (omega arith, omega arith)))
grid-Suits (suc (suc k)) h = absurd (omega arith)

grid-local : grid.local_tensor ≡ Tensor.make (2 ∷ 1 ∷ [])
unfolding Tensor.make
grid-local = refl

get_fg_points_of_subspace-vectors_example :
    get_fg_points_of_subspace grid (2 ∷ 1 ∷ [])
    ≡ map (sequential_index grid.local_tensor) (vectors (level_indices grid (2 ∷ 1 ∷ []) 2 0))
get_fg_points_of_subspace-vectors_example =
    get_fg_points_of_subspace-vectors grid (2 ∷ 1 ∷ []) 1 (2 ∷ 1 ∷ []) refl refl grid-local
      grid-Suits
