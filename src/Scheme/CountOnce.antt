-- ===== src/Scheme/CountOnce.antt =====
-- How often the adaptive coefficients of CombiMinMaxScheme.cpp count a subspace.
use dis_co_tec.Prelude.{
  ℕ, suc, ◌≡◌, refl, sym, ap, ◌∙◌, fun_ext, Bool, true, not, inl, inr, List, [], ◌∷◌, map, length,
  replicate, if◌then◌else◌, arith, keep_if, Bool-cases,
}
use dis_co_tec.Prelude.Int.{ℤ, pos, ◌+ℤ◌, ◌==ℤ◌, ==ℤ→≡}
use dis_co_tec.Level.{LevelVector, leq, add, equals_with_size_check}
use dis_co_tec.Level.DownSet.{box}
use dis_co_tec.Scheme.BoxSum.{
  Within, box_sum, box_sum-cong, box_sum-zero, box_sum-swap, list_sum, list_sum-keep_if,
  list_sum-keep_if-box,
}
use dis_co_tec.Scheme.Weights.{term, weight, term-weight, box_sum-weight, box_sum-point}
use dis_co_tec.Scheme.Adaptive.{coefficient, is_counted}

-- How often the subspace of level k is counted: the sum of the coefficients of the grids that
-- contain it.
unfoldable pub counted : LevelVector → List LevelVector → List ℤ → ℤ
counted k [] cs = pos 0
counted k (l ∷ ls) [] = pos 0
counted k (l ∷ ls) (c ∷ cs) = (if leq k l then c else pos 0) +ℤ counted k ls cs

counted-map :
    (k : LevelVector) (f : LevelVector → ℤ) (ls : List LevelVector)
    → counted k ls (map f ls) ≡ list_sum (λ l. if leq k l then f l else pos 0) ls
unfolding counted list_sum
counted-map k f [] = refl
counted-map k f (l ∷ ls) = ap (λ x. (if leq k l then f l else pos 0) +ℤ x) (counted-map k f ls)

-- A coefficient of 0 counts nothing.
pub counted-is_counted :
    (k : LevelVector) (dim : ℕ) (I : List LevelVector)
    → counted k
        (keep_if (is_counted dim I) I)
        (map (coefficient dim I) (keep_if (is_counted dim I) I))
      ≡ list_sum (λ l. if leq k l then coefficient dim I l else pos 0) I
counted-is_counted k dim I =
    counted-map k (coefficient dim I) (keep_if (is_counted dim I) I)
    ∙ list_sum-keep_if _ (is_counted dim I) I
    ∙ ap (λ F. list_sum F I) (fun_ext dropped)
  where
    dropped :
        (l : LevelVector)
        → (if not (coefficient dim I l ==ℤ pos 0)
            then (if leq k l then coefficient dim I l else pos 0)
            else pos 0)
          ≡ (if leq k l then coefficient dim I l else pos 0)
    dropped l = elim (Bool-cases (coefficient dim I l ==ℤ pos 0)) [
      | inl e ↦ rw (e, ==ℤ→≡ (coefficient dim I l) (pos 0) e) (ground arith)
      | inr e ↦ rw e refl
    ]

pub length-Within : (l n : LevelVector) → Within l n → length l ≡ length n
length-Within [] [] w = refl
length-Within [] (y ∷ n) w = elim w [ ]
length-Within (x ∷ l) [] w = elim w [ ]
length-Within (x ∷ l) (y ∷ n) w = ap suc (length-Within l n w.2)

module _ (lmax : LevelVector) (q : LevelVector → Bool) (k : LevelVector) (k_in : Within k lmax)
    (q_k : q k ≡ true)
    (closed : (l m : LevelVector)
      → Within l lmax
      → Within m lmax
      → leq k l ≡ true
      → leq l m ≡ true
      → q m ≡ true
      → q l ≡ true) where
  tmp : LevelVector → LevelVector
  tmp l = add l (replicate (length lmax) 1)

  term-weight' :
      (l m : LevelVector)
      → Within l lmax
      → Within m lmax
      → (if leq k l then term l (tmp l) m else pos 0) ≡ weight k l m
  unfolding tmp
  term-weight' l m a b = rw (← length-Within l lmax a) (term-weight lmax k l m k_in a b)

  -- For one space l, the neighbours' terms are the weights.
  one_space :
      (l : LevelVector)
      → Within l lmax
      → (if q l
          then (if leq k l
              then box_sum lmax (λ m. if q m then term l (tmp l) m else pos 0)
              else pos 0)
          else pos 0)
        ≡ box_sum lmax (λ m. if q m then weight k l m else pos 0)
  one_space l a = elim (Bool-cases (leq k l)) [
    | inr above ↦ rw above (
        ground arith
        ∙ sym (box_sum-zero lmax)
        ∙ box_sum-cong lmax _ _ (λ m b. ground (arith, term-weight' l m a b)))
    | inl above ↦ rw above (elim (Bool-cases (q l)) [
      | inl kept ↦ rw kept (box_sum-cong lmax _ _ (λ m b. ground (arith, term-weight' l m a b)))
      | inr gone ↦ rw gone (
          sym (box_sum-zero lmax)
          ∙ box_sum-cong lmax _ _
              (λ m b. ground (arith, term-weight' l m a b, closed l m a b above)))
    ])
  ]

  -- For one neighbour m, the weights add up to 1 if m is k and to 0 otherwise.
  one_neighbour :
      (m : LevelVector)
      → Within m lmax
      → box_sum lmax (λ l. if q m then weight k l m else pos 0)
        ≡ (if equals_with_size_check k m then (if q m then pos 1 else pos 0) else pos 0)
  one_neighbour m b = elim (Bool-cases (q m)) [
    | inl h ↦ rw h (box_sum-weight lmax k m k_in b)
    | inr h ↦ rw h (box_sum-zero lmax ∙ ground arith)
  ]

  -- Over a set of levels that is closed downwards above k, the coefficients of the spaces above k
  -- add up to 1.
  pub count_once :
      list_sum
        (λ l. if leq k l then coefficient (length lmax) (keep_if q (box lmax)) l else pos 0)
        (keep_if q (box lmax))
      ≡ pos 1
  unfolding coefficient tmp
  count_once =
      list_sum-keep_if-box lmax _ q
      ∙ ap (box_sum lmax) (
          fun_ext (λ l.
            ap (λ x. if q l then (if leq k l then x else pos 0) else pos 0)
              (list_sum-keep_if-box lmax (term l (tmp l)) q)))
      ∙ box_sum-cong lmax _ _ one_space
      ∙ box_sum-swap lmax lmax (λ l m. if q m then weight k l m else pos 0)
      ∙ box_sum-cong lmax _ _ one_neighbour
      ∙ box_sum-point lmax k (λ m. if q m then pos 1 else pos 0) k_in
      ∙ ground arith
