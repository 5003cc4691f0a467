-- ===== src/Grid/Hierarchy/Subspace.antt =====
-- The recursion over the dimensions of getFGPointsOfSubspaceRecursive in
-- src/fullgrid/DistributedFullGrid.hpp, as a product of lists of indices.
use mathlib.Core.List.{append-nil, map-map}
use native.Mathlib.Nat.{mul_comm}
use dis_co_tec.Prelude.{
  ℕ, zero, suc, ◌+◌, ◌*◌, ◌<◌, ◌≡◌, refl, sym, ap, ◌∙◌, fun_ext, List, [], ◌∷◌, ◌++◌, map, arith,
  length, get_or, take, length-take,
}
use dis_co_tec.Prelude.Joins.{
  join_map, foldl-join_map, map-join_map, join_map-map, join_map-join_map, join_map_single,
}
use dis_co_tec.Tensor.{inner_product}
use dis_co_tec.Tensor.RoundTrip.{inner_product-acc}
use dis_co_tec.Grid.{DistributedFullGrid}
use dis_co_tec.Grid.Hierarchy.{get_fg_points_of_subspace_recursive}

-- All vectors with the i-th entry from the i-th list, the first entry running fastest.
unfoldable pub vectors : List (List ℕ) → List (List ℕ)
unfolding join_map
vectors [] = [] ∷ []
vectors (ids ∷ above) = join_map (λ v. map (λ id. id ∷ v) ids) (vectors above)

-- Their linear indices, from the offsets.
unfoldable pub points : List ℕ → List (List ℕ) → List ℕ
unfolding join_map
points os [] = 0 ∷ []
points [] (ids ∷ above) = 0 ∷ []
points (o ∷ os) (ids ∷ above) = join_map (λ p. map (λ id. p + o * id) ids) (points os above)

pub points-vectors :
    (os : List ℕ) (xs : List (List ℕ))
    → length os ≡ length xs
    → points os xs ≡ map (λ v. inner_product 0 v os) (vectors xs)
unfolding points vectors inner_product
points-vectors os [] e = refl
points-vectors [] (ids ∷ xs) e = absurd (omega arith)
points-vectors (o ∷ os) (ids ∷ xs) e =
    ap (join_map (λ p. map (λ id. p + o * id) ids)) (points-vectors os xs (omega arith))
    ∙ join_map-map (λ v. inner_product 0 v os) (λ p. map (λ id. p + o * id) ids) (vectors xs)
    ∙ ap (λ f. join_map f (vectors xs)) (fun_ext each)
    ∙ sym
        (map-join_map (λ v. inner_product 0 v (o ∷ os)) (λ v. map (λ id. id ∷ v) ids) (vectors xs))
  where
    each :
        (v : List ℕ)
        → map (λ id. inner_product 0 v os + o * id) ids
          ≡ map (λ w. inner_product 0 w (o ∷ os)) (map (λ id. id ∷ v) ids)
    each v =
        ap (λ f. map f ids)
          (fun_ext (λ id. omega (arith, inner_product-acc (0 + id * o) v os, mul_comm id o)))
        ∙ sym (map-map (λ w. inner_product 0 w (o ∷ os)) (λ id. id ∷ v) ids)

-- One more dimension, as the outermost loop.
points-snoc :
    (os : List ℕ) (xs : List (List ℕ)) (o : ℕ) (ids : List ℕ)
    → length os ≡ length xs
    → points (os ++ o ∷ []) (xs ++ ids ∷ [])
      ≡ join_map (λ id. map (λ p. p + o * id) (points os xs)) ids
unfolding points join_map
points-snoc [] [] o ids e = append-nil _ ∙ sym (join_map_single (λ id. 0 + o * id) ids)
points-snoc [] (x ∷ xs) o ids e = absurd (omega arith)
points-snoc (o' ∷ os) [] o ids e = absurd (omega arith)
points-snoc (o' ∷ os) (x ∷ xs) o ids e =
    let inner = λ (p : ℕ). map (λ id. p + o' * id) x in
    ap (join_map inner) (points-snoc os xs o ids (omega arith))
    ∙ join_map-join_map (λ id. map (λ p. p + o * id) (points os xs)) inner ids
    ∙ ap (λ f. join_map f ids) (fun_ext each)
  where
    each :
        (id : ℕ)
        → join_map (λ p. map (λ i. p + o' * i) x) (map (λ p. p + o * id) (points os xs))
          ≡ map (λ p. p + o * id) (join_map (λ p. map (λ i. p + o' * i) x) (points os xs))
    each id =
        join_map-map (λ p. p + o * id) (λ p. map (λ i. p + o' * i) x) (points os xs)
        ∙ ap (λ f. join_map f (points os xs))
            (fun_ext (λ p.
              ap (λ f. map f x) (fun_ext (λ i. omega arith))
              ∙ sym (map-map (λ p. p + o * id) (λ i. p + o' * i) x)))
        ∙ sym (map-join_map (λ p. p + o * id) (λ p. map (λ i. p + o' * i) x) (points os xs))

take-snoc {ℓ} :
    {A : Type ℓ} (xs : List A) (k : ℕ) (z : A)
    → k < length xs
    → take (suc k) xs ≡ take k xs ++ get_or xs k z ∷ []
take-snoc [] k z h = absurd (omega arith)
take-snoc (x ∷ xs) zero z h = refl
take-snoc (x ∷ xs) (suc k) z h = ap (λ t. x ∷ t) (take-snoc xs k z (omega arith))

pub take_all {ℓ} : {A : Type ℓ} (xs : List A) → take (length xs) xs ≡ xs
take_all [] = refl
take_all (x ∷ xs) = ap (λ t. x ∷ t) (take_all xs)

-- The recursion from dimension d down appends the points of the dimensions up to d.
pub recursive-points :
    (g : DistributedFullGrid) (d index_sum : ℕ) (xs : List (List ℕ)) (acc : List ℕ)
    → d < length xs
    → d < length g.local_tensor.local_offsets
    → get_fg_points_of_subspace_recursive g d index_sum xs acc
      ≡ acc
        ++ map
            (λ p. index_sum + p)
            (points (take (suc d) g.local_tensor.local_offsets) (take (suc d) xs))
unfolding get_fg_points_of_subspace_recursive join_map points
recursive-points g zero index_sum xs acc hx ho =
    let os = g.local_tensor.local_offsets in
    let ids = get_or xs 0 [] in
    let o = get_or os 0 0 in
    let one : points (take 1 os) (take 1 xs) ≡ map (λ id. o * id) ids =
      rw (take-snoc os 0 0 ho, take-snoc xs 0 [] hx)
        (points-snoc [] [] o ids refl
          ∙ join_map_single (λ id. 0 + o * id) ids
          ∙ ap (λ f. map f ids) (fun_ext (λ id. omega arith))) in
    foldl-join_map (λ idx. (index_sum + o * idx) ∷ []) _ (λ a x. refl) acc ids
    ∙ ap (λ z. acc ++ z)
        (join_map_single (λ idx. index_sum + o * idx) ids
          ∙ sym (map-map (λ p. index_sum + p) (λ id. o * id) ids)
          ∙ ap (map (λ p. index_sum + p)) (sym one))
recursive-points g (suc d) index_sum xs acc hx ho =
    let os = g.local_tensor.local_offsets in
    let ids = get_or xs (suc d) [] in
    let o = get_or os (suc d) 0 in
    let below = points (take (suc d) os) (take (suc d) xs) in
    let lengths : length (take (suc d) os) ≡ length (take (suc d) xs) =
      omega (arith, length-take (suc d) os, length-take (suc d) xs) in
    let one : points (take (suc (suc d)) os) (take (suc (suc d)) xs)
        ≡ join_map (λ id. map (λ p. p + o * id) below) ids =
      rw (take-snoc os (suc d) 0 ho, take-snoc xs (suc d) [] hx)
        (points-snoc (take (suc d) os) (take (suc d) xs) o ids lengths) in
    foldl-join_map (λ idx. map (λ p. index_sum + o * idx + p) below) _
      (λ a idx. recursive-points g d (index_sum + o * idx) xs a (omega arith) (omega arith)) acc ids
    ∙ ap (λ z. acc ++ z)
        (ap (λ f. join_map f ids)
            (fun_ext (λ id.
              ap (λ f. map f below) (fun_ext (λ p. omega arith))
              ∙ sym (map-map (λ p. index_sum + p) (λ p. p + o * id) below)))
          ∙ sym (map-join_map (λ p. index_sum + p) (λ id. map (λ p. p + o * id) below) ids)
          ∙ ap (map (λ p. index_sum + p)) (sym one))
