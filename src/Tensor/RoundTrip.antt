-- ===== src/Tensor/RoundTrip.antt =====
-- Linear and vector indices of TensorIndexer, there and back.
use native.Mathlib.Nat.{
  zero-add, mul_assoc, mul_comm, mod-lt, div-add-mod, div-lt_iff_lt-mul, add-mul-div_right,
  add-mul-mod_self_right, mod-eq_of_lt, div-eq_of_lt,
}
use dis_co_tec.Prelude.{
  ℕ, ◌+◌, ◌*◌, ◌/◌, ◌%◌, ◌≤◌, ◌<◌, ◌≡◌, ap, ◌∙◌, List, [], ◌∷◌, arith, product,
}
use dis_co_tec.Tensor.{
  make, offsets_from, size, inner_product, sequential_index, vector_index_loop, get_vector_index,
}

-- A vector index in range.
abbrev pub InRange : List ℕ → List ℕ → Type 0
InRange [] [] = Unit
InRange [] (e ∷ es) = ⊥
InRange (i ∷ is) [] = ⊥
InRange (i ∷ is) (e ∷ es) = (i < e) × InRange is es

pub inner_product-acc :
    (acc : ℕ) (is os : List ℕ) → inner_product acc is os ≡ acc + inner_product 0 is os
unfolding inner_product
inner_product-acc acc [] os = omega arith
inner_product-acc acc (i ∷ is) [] = omega arith
inner_product-acc acc (i ∷ is) (o ∷ os) =
    omega (arith, inner_product-acc (acc + i * o) is os, inner_product-acc (0 + i * o) is os)

inner_product-lt :
    (nr : ℕ) (es is : List ℕ)
    → InRange is es
    → inner_product 0 is (offsets_from nr es) + nr ≤ nr * product es
unfolding inner_product offsets_from
inner_product-lt nr [] [] h = omega arith
inner_product-lt nr [] (i ∷ is) h = elim h [ ]
inner_product-lt nr (e ∷ es) [] h = elim h [ ]
inner_product-lt nr (e ∷ es) (i ∷ is) h =
    let rest : inner_product 0 is (offsets_from (nr * e) es) + nr * e ≤ nr * e * product es =
      inner_product-lt (nr * e) es is h.1 in
    let acc : inner_product (0 + i * nr) is (offsets_from (nr * e) es)
        ≡ 0 + i * nr + inner_product 0 is (offsets_from (nr * e) es) =
      inner_product-acc (0 + i * nr) is (offsets_from (nr * e) es) in
    let room : i * nr + nr ≤ nr * e = grind arith in
    omega (arith, rest, acc, room, mul_assoc nr e (product es))

digit : (nr r i : ℕ) → r < nr → ((r + i * nr) / nr ≡ i) × ((r + i * nr) % nr ≡ r)
digit nr r i h = (
  add-mul-div_right r i (omega arith) ∙ ap (λ (q : ℕ). q + i) (div-eq_of_lt h) ∙ zero-add i,
  add-mul-mod_self_right r i nr ∙ mod-eq_of_lt h,
)

quotient-lt : (nr e x : ℕ) → 0 < nr → x < nr * e → x / nr < e
quotient-lt nr e x h g = (div-lt_iff_lt-mul h).1 (rw (mul_comm e nr) g)

loop-inner_product :
    (nr r : ℕ) (es is : List ℕ)
    → r < nr
    → InRange is es
    → vector_index_loop (offsets_from nr es) (r + inner_product 0 is (offsets_from nr es)) ≡ (is, r)
unfolding inner_product offsets_from vector_index_loop
loop-inner_product nr r [] [] hr h = ap (λ (x : ℕ). ([], x)) (omega arith)
loop-inner_product nr r [] (i ∷ is) hr h = elim h [ ]
loop-inner_product nr r (e ∷ es) [] hr h = elim h [ ]
loop-inner_product nr r (e ∷ es) (i ∷ is) hr h =
    let os = offsets_from (nr * e) es in
    let room : r + i * nr < nr * e = grind arith in
    let regroup : r + inner_product (0 + i * nr) is os ≡ r + i * nr + inner_product 0 is os =
      omega (arith, inner_product-acc (0 + i * nr) is os) in
    let above : vector_index_loop os (r + i * nr + inner_product 0 is os) ≡ (is, r + i * nr) =
      loop-inner_product (nr * e) (r + i * nr) es is room h.1 in
    rw (regroup, above) λ j. ((digit nr r i hr).0 j ∷ is, (digit nr r i hr).1 j)

inner_product-loop :
    (nr : ℕ) (es : List ℕ) (index : ℕ)
    → 0 < nr
    → index < nr * product es
    → InRange (vector_index_loop (offsets_from nr es) index).0 es
      × ((vector_index_loop (offsets_from nr es) index).1 < nr)
      × (inner_product 0 (vector_index_loop (offsets_from nr es) index).0 (offsets_from nr es)
            + (vector_index_loop (offsets_from nr es) index).1
          ≡ index)
unfolding inner_product offsets_from vector_index_loop
inner_product-loop nr [] index hn h = (tt, omega arith, omega arith)
inner_product-loop nr (e ∷ es) index hn h =
    let os = offsets_from (nr * e) es in
    let x = (vector_index_loop os index).1 in
    let v = (vector_index_loop os index).0 in
    let size : index < nr * e * product es = omega (arith, mul_assoc nr e (product es)) in
    let pos_e : 0 < nr * e = grind arith in
    let (in_range, left, total) = inner_product-loop (nr * e) es index pos_e size in
    (
      (quotient-lt nr e x hn left, in_range),
      mod-lt x hn,
      omega (
        arith,
        inner_product-acc (0 + x / nr * nr) v os,
        div-add-mod x nr,
        mul_comm nr (x / nr),
        total,
      ),
    )

-- For a vector in range, getVectorIndex finds it from its sequential index.
pub get_vector_index-sequential_index :
    (extents index : List ℕ)
    → InRange index extents
    → get_vector_index (make extents) (sequential_index (make extents) index) ≡ index
unfolding get_vector_index sequential_index make
get_vector_index-sequential_index extents index h =
    let start : inner_product 0 index (offsets_from 1 extents)
        ≡ 0 + inner_product 0 index (offsets_from 1 extents) =
      omega arith in
    let p : vector_index_loop (offsets_from 1 extents)
          (inner_product 0 index (offsets_from 1 extents))
        ≡ (index, 0) =
      rw start (loop-inner_product 1 0 extents index (omega arith) h) in
    ap (λ (p : List ℕ × ℕ). p.0) p

-- Below the size of the tensor getVectorIndex is in range in every dimension, and sequentialIndex
-- takes it back.
pub sequential_index-get_vector_index :
    (extents : List ℕ) (index : ℕ)
    → index < size (make extents)
    → InRange (get_vector_index (make extents) index) extents
      × (sequential_index (make extents) (get_vector_index (make extents) index) ≡ index)
unfolding get_vector_index sequential_index make size
sequential_index-get_vector_index [] index h = absurd (omega arith)
sequential_index-get_vector_index (e ∷ es) index h =
    let (in_range, left, total) = inner_product-loop 1 (e ∷ es) index (omega arith) (omega arith) in
    (in_range, omega arith)

-- With at least one dimension, the sequential index of a vector in range is below the size.
pub sequential_index-lt :
    (e : ℕ) (es index : List ℕ)
    → InRange index (e ∷ es)
    → sequential_index (make (e ∷ es)) index < size (make (e ∷ es))
unfolding sequential_index make size
sequential_index-lt e es index h = omega (arith, inner_product-lt 1 (e ∷ es) index h)
