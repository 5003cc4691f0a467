-- ===== src/Tests/Tensors.antt =====
-- A tensor of two by three entries.
use dis_co_tec.Prelude.{arith, ◌≡◌, ◌<◌, [], ◌∷◌}
use dis_co_tec.Tensor.{make, size, sequential_index, get_vector_index}
use dis_co_tec.Tensor.RoundTrip.{
  InRange, get_vector_index-sequential_index, sequential_index-get_vector_index,
  sequential_index-lt,
}

last-InRange : InRange (1 ∷ 2 ∷ []) (2 ∷ 3 ∷ [])
last-InRange = (omega arith, (omega arith, tt))

get_vector_index-sequential_index_example :
    get_vector_index (make (2 ∷ 3 ∷ [])) (sequential_index (make (2 ∷ 3 ∷ [])) (1 ∷ 2 ∷ []))
    ≡ 1 ∷ 2 ∷ []
get_vector_index-sequential_index_example =
    get_vector_index-sequential_index (2 ∷ 3 ∷ []) (1 ∷ 2 ∷ []) last-InRange

four-lt-size : 4 < size (make (2 ∷ 3 ∷ []))
unfolding size make
four-lt-size = omega arith

sequential_index-get_vector_index_example :
    InRange (get_vector_index (make (2 ∷ 3 ∷ [])) 4) (2 ∷ 3 ∷ [])
    × (sequential_index (make (2 ∷ 3 ∷ [])) (get_vector_index (make (2 ∷ 3 ∷ [])) 4) ≡ 4)
sequential_index-get_vector_index_example =
    sequential_index-get_vector_index (2 ∷ 3 ∷ []) 4 four-lt-size

sequential_index-lt_example :
    sequential_index (make (2 ∷ 3 ∷ [])) (1 ∷ 2 ∷ []) < size (make (2 ∷ 3 ∷ []))
sequential_index-lt_example = sequential_index-lt 2 (3 ∷ []) (1 ∷ 2 ∷ []) last-InRange
