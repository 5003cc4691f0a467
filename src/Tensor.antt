-- ===== src/Tensor.antt =====
-- TensorIndexer of src/fullgrid/Tensor.hpp: linear and vector indices of a box, the first dimension
-- running fastest.
pub mod RoundTrip
use dis_co_tec.Prelude.{ℕ, zero, suc, ◌+◌, ◌*◌, ◌/◌, ◌%◌, ◌≤◌, ◌<◌, List, [], ◌∷◌, product}

pub record TensorIndexer : Type 0 where
  pub extents : List ℕ
  pub local_offsets : List ℕ

-- The loop of the constructor, with nrElements as it enters.
unfoldable pub offsets_from : ℕ → List ℕ → List ℕ
offsets_from nr_elements [] = []
offsets_from nr_elements (e ∷ extents) = nr_elements ∷ offsets_from (nr_elements * e) extents

unfoldable pub make : List ℕ → TensorIndexer
unfolding offsets_from
make extents = record { extents = extents; local_offsets = offsets_from 1 extents }

unfoldable pub size : TensorIndexer → ℕ
size t = elim t.extents [ [] ↦ 0 | e ∷ es ↦ product (e ∷ es) ]

-- std::inner_product
unfoldable pub inner_product : ℕ → List ℕ → List ℕ → ℕ
inner_product acc [] offsets = acc
inner_product acc (i ∷ index) [] = acc
inner_product acc (i ∷ index) (o ∷ offsets) = inner_product (acc + i * o) index offsets

unfoldable pub sequential_index : TensorIndexer → List ℕ → ℕ
unfolding inner_product
sequential_index t index_vector = inner_product 0 index_vector t.local_offsets

-- The loop of getVectorIndex goes from the last dimension to the first; what is left of the index
-- when it reaches a dimension is the second result of the dimensions above.
vector_index_loop : List ℕ → ℕ → List ℕ × ℕ
vector_index_loop [] index = ([], index)
vector_index_loop (o ∷ offsets) index =
    let (above, left) = vector_index_loop offsets index in ((left / o) ∷ above, left % o)

unfoldable pub get_vector_index : TensorIndexer → ℕ → List ℕ
unfolding vector_index_loop
get_vector_index t index = (vector_index_loop t.local_offsets index).0
