-- ===== src/Grid/Indices.antt =====
-- Global and local indices of src/fullgrid/DistributedFullGrid.hpp, there and back.
use dis_co_tec.Prelude.{
  ℕ, ◌+◌, ◌-◌, ◌*◌, ◌≤◌, ◌<◌, ◌≡◌, refl, sym, ap, ◌∙◌, subst, true, some, List, [], ◌∷◌, arith,
  length, ltb, leb, ltb→lt, leb→le,
}
use dis_co_tec.Level.{add, subtract, geq, leq}
use dis_co_tec.Tensor
use dis_co_tec.Tensor.{TensorIndexer, sequential_index, get_vector_index, size, inner_product}
use dis_co_tec.Tensor.RoundTrip.{
  InRange, inner_product-acc, get_vector_index-sequential_index, sequential_index-get_vector_index,
  sequential_index-lt,
}
use dis_co_tec.Cartesian.{MpiCartesianUtils}
use dis_co_tec.Grid.{
  set_up, get_lower_bounds_of_rank, get_upper_bounds_of_rank, DistributedFullGrid, index_lt,
  is_global_index_here, get_global_vector_index, global_vector_index_of_local,
  local_vector_index_of_linear, get_local_vector_index, get_global_linear_index,
}

-- A box of indices inside the grid.
abbrev pub Box : List ℕ → List ℕ → List ℕ → Type 0
Box [] [] [] = Unit
Box [] [] (u ∷ upper) = ⊥
Box [] (l ∷ lower) upper = ⊥
Box (n ∷ points) [] upper = ⊥
Box (n ∷ points) (l ∷ lower) [] = ⊥
Box (n ∷ points) (l ∷ lower) (u ∷ upper) = ((l ≤ u) × ((u ≤ n) × Box points lower upper))

-- The fields that the constructor computes from the points and the bounds.
pub record Consistent (points : List ℕ) (g : DistributedFullGrid) : Type 0 where
  pub is_global : g.global_indexer ≡ Tensor.make points
  pub is_local :
      g.local_tensor
      ≡ Tensor.make (subtract g.my_partitions_upper_bounds g.my_partitions_lower_bounds)
  pub is_first :
      g.my_partitions_first_global_index
      ≡ sequential_index g.global_indexer g.my_partitions_lower_bounds
  pub is_box : Box points g.my_partitions_lower_bounds g.my_partitions_upper_bounds

inner_product-add :
    (points lower upper v os : List ℕ)
    → Box points lower upper
    → InRange v (subtract upper lower)
    → inner_product 0 (add lower v) os ≡ inner_product 0 lower os + inner_product 0 v os
unfolding inner_product add subtract
inner_product-add [] [] [] [] os b h = omega arith
inner_product-add [] [] [] (x ∷ v) os b h = elim h [ ]
inner_product-add [] [] (u ∷ upper) v os b h = elim b [ ]
inner_product-add [] (l ∷ lower) upper v os b h = elim b [ ]
inner_product-add (n ∷ points) [] upper v os b h = elim b [ ]
inner_product-add (n ∷ points) (l ∷ lower) [] v os b h = elim b [ ]
inner_product-add (n ∷ points) (l ∷ lower) (u ∷ upper) [] os b h = elim h [ ]
inner_product-add (n ∷ points) (l ∷ lower) (u ∷ upper) (x ∷ v) [] b h = omega arith
inner_product-add (n ∷ points) (l ∷ lower) (u ∷ upper) (x ∷ v) (o ∷ os) b h =
    let spread : (l + x) * o ≡ l * o + x * o = grind arith in
    omega (
      arith,
      spread,
      inner_product-add points lower upper v os b.1.1 h.1,
      inner_product-acc (0 + (l + x) * o) (add lower v) os,
      inner_product-acc (0 + l * o) lower os,
      inner_product-acc (0 + x * o) v os,
    )

-- A local vector index, shifted into the grid, is in the box, and shifts back.
shift-in :
    (points lower upper v : List ℕ)
    → Box points lower upper
    → InRange v (subtract upper lower)
    → InRange (add lower v) points
      × (geq (add lower v) lower ≡ true)
      × (index_lt (add lower v) upper ≡ true)
      × (subtract (add lower v) lower ≡ v)
unfolding add subtract leq index_lt
shift-in [] [] [] [] b h = (tt, refl, refl, refl)
shift-in [] [] [] (x ∷ v) b h = elim h [ ]
shift-in [] [] (u ∷ upper) v b h = elim b [ ]
shift-in [] (l ∷ lower) upper v b h = elim b [ ]
shift-in (n ∷ points) [] upper v b h = elim b [ ]
shift-in (n ∷ points) (l ∷ lower) [] v b h = elim b [ ]
shift-in (n ∷ points) (l ∷ lower) (u ∷ upper) [] b h = elim h [ ]
shift-in (n ∷ points) (l ∷ lower) (u ∷ upper) (x ∷ v) b h =
    let (in_range, above, below, back) = shift-in points lower upper v b.1.1 h.1 in
    let le : leb l (l + x) ≡ true = ground arith in
    let lt : ltb (l + x) u ≡ true = ground arith in
    let e : l + x - l ≡ x = omega arith in
    ((omega arith, in_range), rw (le, above) refl, rw (lt, below) refl, rw (e, back) refl)

-- An index in the box shifts to a local one.
shift-out :
    (points lower upper v : List ℕ)
    → Box points lower upper
    → InRange v points
    → geq v lower ≡ true
    → index_lt v upper ≡ true
    → InRange (subtract v lower) (subtract upper lower) × (add lower (subtract v lower) ≡ v)
unfolding add subtract leq index_lt
shift-out [] [] [] [] b h ge lt = (tt, refl)
shift-out [] [] [] (x ∷ v) b h ge lt = elim h [ ]
shift-out [] [] (u ∷ upper) v b h ge lt = elim b [ ]
shift-out [] (l ∷ lower) upper v b h ge lt = elim b [ ]
shift-out (n ∷ points) [] upper v b h ge lt = elim b [ ]
shift-out (n ∷ points) (l ∷ lower) [] v b h ge lt = elim b [ ]
shift-out (n ∷ points) (l ∷ lower) (u ∷ upper) [] b h ge lt = elim h [ ]
shift-out (n ∷ points) (l ∷ lower) (u ∷ upper) (x ∷ v) b h ge lt =
    let a : leb l x ≡ true = ground arith in
    let c : ltb x u ≡ true = ground arith in
    let rest = shift-out points lower upper v b.1.1 h.1 (rw a at ge) (rw c at lt) in
    let e : l + (x - l) ≡ x = omega (arith, leb→le l x a) in
    ((omega (arith, leb→le l x a, ltb→lt x u c), rest.0), rw (e, rest.1) refl)

sequential_index-add :
    (points lower upper v : List ℕ) (t : TensorIndexer)
    → Box points lower upper
    → InRange v (subtract upper lower)
    → sequential_index t (add lower v) ≡ sequential_index t lower + sequential_index t v
unfolding sequential_index
sequential_index-add points lower upper v t b h =
    inner_product-add points lower upper v t.local_offsets b h

local-lt :
    (n : ℕ) (points lower upper v : List ℕ)
    → Box (n ∷ points) lower upper
    → InRange v (subtract upper lower)
    → sequential_index (Tensor.make (subtract upper lower)) v
      < size (Tensor.make (subtract upper lower))
unfolding subtract
local-lt n points [] upper v b h = elim b [ ]
local-lt n points (l ∷ lower) [] v b h = elim b [ ]
local-lt n points (l ∷ lower) (u ∷ upper) v b h =
    sequential_index-lt (u - l) (subtract upper lower) v h

-- For a local linear index below the number of local points: the vector index of its global linear
-- index is its local vector index shifted by the lower bounds; it is in this partition, and
-- getLocalVectorIndex shifts it back.
pub local-global :
    (points : List ℕ) (g : DistributedFullGrid) (loc : ℕ)
    → Consistent points g
    → loc < size g.local_tensor
    → (get_global_vector_index g (get_global_linear_index g loc)
        ≡ global_vector_index_of_local g (local_vector_index_of_linear g loc))
      × (is_global_index_here g (get_global_vector_index g (get_global_linear_index g loc)) ≡ true)
      × (get_local_vector_index g (get_global_vector_index g (get_global_linear_index g loc))
          ≡ some (local_vector_index_of_linear g loc))
unfolding get_global_vector_index global_vector_index_of_local local_vector_index_of_linear
    get_local_vector_index get_global_linear_index is_global_index_here
local-global points g loc c lt =
    let lower = g.my_partitions_lower_bounds in
    let upper = g.my_partitions_upper_bounds in
    let extents = subtract upper lower in
    let small : loc < size (Tensor.make extents) = rw (← c.is_local) lt in
    let v = get_vector_index g.local_tensor loc in
    let v_in : InRange v extents =
      subst (λ t. InRange (get_vector_index t loc) extents) (sym c.is_local)
        (sequential_index-get_vector_index extents loc small).0 in
    let (shifted, above, below, back) = shift-in points lower upper v c.is_box v_in in
    let sum_eq : get_global_linear_index g loc ≡ sequential_index g.global_indexer (add lower v) =
      ap (λ f. f + sequential_index g.global_indexer v) c.is_first
      ∙ sym (sequential_index-add points lower upper v g.global_indexer c.is_box v_in) in
    let vector : get_global_vector_index g (get_global_linear_index g loc) ≡ add lower v =
      ap (get_vector_index g.global_indexer) sum_eq
      ∙ subst (λ t. get_vector_index t (sequential_index t (add lower v)) ≡ add lower v)
          (sym c.is_global) (get_vector_index-sequential_index points (add lower v) shifted) in
    let here : is_global_index_here g (get_global_vector_index g (get_global_linear_index g loc))
        ≡ true =
      ap (is_global_index_here g) vector ∙ rw (above, below) refl in
    (vector, here, rw here (ap (λ w. some (subtract w lower)) vector ∙ ap some back))

-- For a global linear index that is in this partition: the local linear index of its local vector
-- index is below the number of local points, and leads back to it.
pub global-local :
    (n : ℕ) (points : List ℕ) (g : DistributedFullGrid) (glob : ℕ)
    → Consistent (n ∷ points) g
    → glob < size g.global_indexer
    → is_global_index_here g (get_global_vector_index g glob) ≡ true
    → (v : List ℕ) × (get_local_vector_index g (get_global_vector_index g glob) ≡ some v)
      × (sequential_index g.local_tensor v < size g.local_tensor)
      × (get_global_linear_index g (sequential_index g.local_tensor v) ≡ glob)
unfolding get_global_vector_index local_vector_index_of_linear get_local_vector_index
    get_global_linear_index is_global_index_here
global-local n points g glob c lt here =
    let lower = g.my_partitions_lower_bounds in
    let upper = g.my_partitions_upper_bounds in
    let extents = subtract upper lower in
    let w = get_vector_index g.global_indexer glob in
    let small : glob < size (Tensor.make (n ∷ points)) = rw (← c.is_global) lt in
    let found : InRange w (n ∷ points) × (sequential_index g.global_indexer w ≡ glob) =
      subst
        (λ t.
          InRange (get_vector_index t glob) (n ∷ points)
          × (sequential_index t (get_vector_index t glob) ≡ glob))
        (sym c.is_global) (sequential_index-get_vector_index (n ∷ points) glob small) in
    let ge : geq w lower ≡ true = ground arith in
    let below : index_lt w upper ≡ true = ground arith in
    let (v_in, back) = shift-out (n ∷ points) lower upper w c.is_box found.0 ge below in
    let v = subtract w lower in
    let v-lt : sequential_index (Tensor.make extents) v < size (Tensor.make extents) =
      local-lt n points lower upper v c.is_box v_in in
    let again : get_vector_index g.local_tensor (sequential_index g.local_tensor v) ≡ v =
      subst (λ t. get_vector_index t (sequential_index t v) ≡ v) (sym c.is_local)
        (get_vector_index-sequential_index extents v v_in) in
    (
      v,
      rw here refl,
      subst (λ t. sequential_index t v < size t) (sym c.is_local) v-lt,
      ap (λ x. g.my_partitions_first_global_index + sequential_index g.global_indexer x) again
          ∙ (ap (λ f. f + sequential_index g.global_indexer v) c.is_first
              ∙ (sym
                    (sequential_index-add (n ∷ points) lower upper v g.global_indexer c.is_box v_in)
                  ∙ (ap (sequential_index g.global_indexer) back ∙ found.1))),
    )

-- What the constructor sets up is consistent, if its bounds are a box in the grid.
pub set_up-Consistent :
    (levels boundary : List ℕ) (u : MpiCartesianUtils) (points : List ℕ) (ds : List (List ℕ))
    → Box points
        (get_lower_bounds_of_rank u ds (length levels) u.rank)
        (get_upper_bounds_of_rank u ds points (length levels) u.rank)
    → Consistent points (set_up levels boundary u points ds)
unfolding set_up
set_up-Consistent levels boundary u points ds box = record {
  is_global = refl;
  is_local = refl;
  is_first = refl;
  is_box = box;
}
