-- ===== src/Grid/Hierarchy/SubspacePoints.antt =====
-- The points of a hierarchical subspace on a partition, getFGPointsOfSubspace of
-- src/fullgrid/DistributedFullGrid.hpp.
use native.Mathlib.Nat.{mul-zero}
use dis_co_tec.Prelude.{
  ℕ, zero, suc, ◌+◌, ◌-◌, ◌*◌, ◌^◌, ◌≤◌, ◌<◌, ◌≡◌, refl, sym, ap, ◌∙◌, fun_ext, inl, inr, false,
  some, List, [], ◌∷◌, map, arith, length, get_or, take, length-append, length-map, keep_if, ltb,
  Bool-cases,
}
use dis_co_tec.Prelude.Joins.{join_map}
use dis_co_tec.Level.{LevelVector}
use dis_co_tec.Tensor
use dis_co_tec.Tensor.{TensorIndexer, sequential_index, inner_product, offsets_from}
use dis_co_tec.Grid.{DistributedFullGrid, get_local_sizes}
use dis_co_tec.Grid.Hierarchy.{
  level_in, boundary_in, is_of_level, one_d_indices_loop, get_fg_points_of_subspace_recursive,
  num_points_of_subspace, get_fg_points_of_subspace,
}
use dis_co_tec.Grid.Hierarchy.Progression.{indices}
use dis_co_tec.Grid.Hierarchy.LevelIndices.{get_1d_indices_local-keep_if}
use dis_co_tec.Grid.Hierarchy.Subspace.{vectors, points, points-vectors, recursive-points, take_all}

-- The local indices of level l in each of n dimensions from d on, by their levels.
unfoldable pub level_indices : DistributedFullGrid → LevelVector → ℕ → ℕ → List (List ℕ)
level_indices g l zero d = []
level_indices g l (suc n) d =
    keep_if (λ j. is_of_level g d (get_or l d 0) (get_or g.my_partitions_lower_bounds d 0 + j))
      (indices (get_or (get_local_sizes g) d 0) 0)
    ∷ level_indices g l n (suc d)

-- The level is one of the grid in dimension d, and the partition lies inside the dimension.
abbrev pub Suits : DistributedFullGrid → LevelVector → ℕ → Type 0
Suits g l d =
    ((0 < get_or l d 0)
      × ((get_or l d 0 ≤ level_in g d)
          × ((boundary_in g d ≤ 2)
              × (get_or g.my_partitions_lower_bounds d 0 + get_or (get_local_sizes g) d 0
                  ≤ 2 ^ level_in g d + boundary_in g d - 1))))

length-level_indices :
    (g : DistributedFullGrid) (l : LevelVector) (n d : ℕ) → length (level_indices g l n d) ≡ n
unfolding level_indices
length-level_indices g l zero d = refl
length-level_indices g l (suc n) d = ap suc (length-level_indices g l n (suc d))

one_d_indices_loop-level_indices :
    (g : DistributedFullGrid) (l : LevelVector) (n d : ℕ)
    → ((k : ℕ) → d ≤ k → k < d + n → Suits g l k)
    → one_d_indices_loop g l n d ≡ some (level_indices g l n d)
unfolding one_d_indices_loop level_indices
one_d_indices_loop-level_indices g l zero d h = refl
one_d_indices_loop-level_indices g l (suc n) d h =
    let (hl, (le, (hb, fits))) = h d (omega arith) (omega arith) in
    let inside : ltb (level_in g d) (get_or l d 0) ≡ false = ground arith in
    let rest =
      one_d_indices_loop-level_indices g l n (suc d) (λ k a b. h k (omega arith) (omega arith)) in
    let here = get_1d_indices_local-keep_if g d (get_or l d 0) hl le hb fits in
    rw (inside, rest) (ap (λ x. some (x ∷ level_indices g l n (suc d))) here)

length-join_map :
    (f : List ℕ → List (List ℕ)) (m : ℕ) (vs : List (List ℕ))
    → ((v : List ℕ) → length (f v) ≡ m)
    → length (join_map f vs) ≡ m * length vs
unfolding join_map
length-join_map f m [] h = sym (mul-zero m)
length-join_map f m (v ∷ vs) h =
    let e : m * suc (length vs) ≡ m + m * length vs = grind arith in
    omega (arith, length-append (f v) (join_map f vs), h v, length-join_map f m vs h)

num_points-vectors : (xs : List (List ℕ)) → num_points_of_subspace xs ≡ length (vectors xs)
unfolding num_points_of_subspace vectors
num_points-vectors [] = refl
num_points-vectors (ids ∷ xs) =
    ap (λ k. length ids * k) (num_points-vectors xs)
    ∙ sym (
        length-join_map (λ v. map (λ id. id ∷ v) ids) (length ids) (vectors xs)
          (λ v. length-map ids (λ id. id ∷ v)))

no_vectors {ℓ} : {A : Type ℓ} (xs : List A) → length xs ≡ 0 → xs ≡ []
no_vectors [] e = refl
no_vectors (x ∷ xs) e = absurd (omega arith)

length-offsets_from : (nr : ℕ) (es : List ℕ) → length (offsets_from nr es) ≡ length es
unfolding offsets_from
length-offsets_from nr [] = refl
length-offsets_from nr (e ∷ es) = ap suc (length-offsets_from (nr * e) es)

-- From the last dimension, the recursion yields all linear indices.
recursive-vectors :
    (g : DistributedFullGrid) (n : ℕ) (xs : List (List ℕ))
    → length xs ≡ suc n
    → length g.local_tensor.local_offsets ≡ suc n
    → get_fg_points_of_subspace_recursive g n 0 xs []
      ≡ map (sequential_index g.local_tensor) (vectors xs)
unfolding sequential_index
recursive-vectors g n xs hx ho =
    let os = g.local_tensor.local_offsets in
    let all_os : take (suc n) os ≡ os = ap (λ k. take k os) (sym ho) ∙ take_all os in
    let all_xs : take (suc n) xs ≡ xs = ap (λ k. take k xs) (sym hx) ∙ take_all xs in
    recursive-points g n 0 xs [] (omega arith) (omega arith)
    ∙ ap (λ f. map f (points (take (suc n) os) (take (suc n) xs))) (fun_ext (λ p. omega arith))
    ∙ map-id (points (take (suc n) os) (take (suc n) xs))
    ∙ ap (λ o. points o (take (suc n) xs)) all_os
    ∙ ap (points os) all_xs
    ∙ points-vectors os xs (omega arith)
  where
    map-id : (ps : List ℕ) → map (λ p. p) ps ≡ ps
    map-id [] = refl
    map-id (p ∷ ps) = ap (λ x. p ∷ x) (map-id ps)

-- For a grid of at least one dimension, with a level of it in every dimension: the points of the
-- subspace on the partition are the local linear indices of exactly those vectors whose entry in each
-- dimension is of the level given for it, each of them once, the first dimension running fastest.
pub get_fg_points_of_subspace-vectors :
    (g : DistributedFullGrid) (l : LevelVector) (n : ℕ) (extents : List ℕ)
    → length g.levels ≡ suc n
    → length extents ≡ suc n
    → g.local_tensor ≡ Tensor.make extents
    → ((k : ℕ) → k < suc n → Suits g l k)
    → get_fg_points_of_subspace g l
      ≡ map (sequential_index g.local_tensor) (vectors (level_indices g l (suc n) 0))
unfolding get_fg_points_of_subspace
get_fg_points_of_subspace-vectors g l n extents dim same is_local suits =
    let xs = level_indices g l (suc n) 0 in
    let collected : one_d_indices_loop g l (suc n) 0 ≡ some xs =
      one_d_indices_loop-level_indices g l (suc n) 0 (λ k a b. suits k (omega arith)) in
    let made_offsets : length (Tensor.make extents).local_offsets ≡ length extents =
      unfold Tensor.make in length-offsets_from 1 extents in
    let offsets : length g.local_tensor.local_offsets ≡ suc n =
      ap (λ t. length t.local_offsets) is_local ∙ made_offsets ∙ same in
    let last : length g.levels - 1 ≡ n = omega arith in
    rw (dim, collected, get_fg_points_of_subspace)
      (elim (Bool-cases (ltb 0 (num_points_of_subspace xs))) [
        | inl t ↦ rw t (
            ap (λ k. get_fg_points_of_subspace_recursive g k 0 xs []) last
            ∙ recursive-vectors g n xs (length-level_indices g l (suc n) 0) offsets)
        | inr f ↦
            let empty : vectors xs ≡ [] =
              no_vectors (vectors xs) (ground (arith, num_points-vectors xs)) in
            rw (f, empty) refl
      ])
