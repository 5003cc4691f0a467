-- ===== src/Level/DownSet.antt =====
-- getDownSet of src/utils/LevelSetUtils.cpp and the box from (1, …, 1) to l.
use mathlib.Core.List.{append-nil, append_assoc, map-map, map-id}
use dis_co_tec.Prelude.{◌≡◌, refl, ap, ◌∙◌, List, [], ◌∷◌, ◌++◌, map, length, product, length-map}
use dis_co_tec.Prelude.Loops.{
  for_range-concat, concat_range, length-concat_range, sum_range-cong, sum_range-const,
  map-concat_range,
}
use dis_co_tec.Level.{LevelVector, get_down_set, get_down_set_recursively}

-- The box as a comprehension.
unfoldable pub box : LevelVector → List LevelVector
box [] = [] ∷ []
box (l_d ∷ rest) = concat_range l_d 1 (λ i. map (λ k. i ∷ k) (box rest))

get_down_set_recursively-box :
    (rest fixed : LevelVector) (down_set : List LevelVector)
    → get_down_set_recursively rest fixed down_set ≡ down_set ++ map (λ k. fixed ++ k) (box rest)
unfolding get_down_set_recursively box
get_down_set_recursively-box [] fixed down_set = rw append-nil
get_down_set_recursively-box (l_d ∷ rest) fixed down_set =
    for_range-concat _ (λ i. map (λ k. (fixed ++ i ∷ []) ++ k) (box rest))
      (λ i acc. get_down_set_recursively-box rest (fixed ++ i ∷ []) acc) l_d 1 down_set
    ∙ ap (λ x. down_set ++ x) (simp (map-concat_range, map-map, append_assoc))

-- The recursion of the source yields the box.
pub get_down_set-box : (l : LevelVector) → get_down_set l ≡ box l
unfolding get_down_set
get_down_set-box l = get_down_set_recursively-box l [] [] ∙ map-id (box l)

length-box : (l : LevelVector) → length (box l) ≡ product l
unfolding box
length-box [] = refl
length-box (l_d ∷ rest) =
    length-concat_range (λ i. map (λ k. i ∷ k) (box rest)) l_d 1
    ∙ sum_range-cong _ (λ i. product rest)
        (λ i. length-map (box rest) (λ k. i ∷ k) ∙ length-box rest) l_d 1
    ∙ sum_range-const (product rest) l_d 1

-- The size that getDownSet reserves, the product of the levels, is the number of vectors.
pub length-get_down_set : (l : LevelVector) → length (get_down_set l) ≡ product l
length-get_down_set l = ap length (get_down_set-box l) ∙ length-box l
