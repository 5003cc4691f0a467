-- ===== src/Level/Truncated/Closed.antt =====
-- createTruncatedHierarchicalLevelsRec and its two tests on a level: the budget of each dimension
-- and the mixed sums.
use mathlib.Core.List.{append-nil, append_assoc, map-id}
use dis_co_tec.Prelude.{
  ℕ, zero, suc, ◌-◌, ◌≤◌, ◌≡◌, refl, sym, ap, ◌∙◌, fun_ext, Bool, true, ◌&&◌, inl, inr, List, [],
  ◌∷◌, ◌++◌, map, all, length, get_or, sum, sum-append, ltb, leb, if◌then◌else◌, arith, keep_if,
  keep_if-append, Bool-cases,
}
use dis_co_tec.Prelude.Int.{ℤ, ◌-ℤ◌}
use dis_co_tec.Prelude.Loops.{
  for_range, for_range-concat, concat_range, concat_range-cut, map-concat_range,
}
use dis_co_tec.Level.{LevelVector}
use dis_co_tec.Level.Vectors.{Below}
use dis_co_tec.Level.DownSet.{box}
use dis_co_tec.Level.Truncated.{
  combination_fits, get_all_k_out_of_d_dimensions, fits_from, please_add, budget,
  create_truncated_rec,
}

-- Each entry is within the budget that the entries before it leave.
unfoldable pub fits_budget : ℕ → List ℤ → LevelVector → LevelVector → Bool
fits_budget n lmin chosen [] = true
fits_budget n lmin chosen (x ∷ k) =
    leb x (budget n lmin chosen) && fits_budget n lmin (chosen ++ x ∷ []) k

unfoldable pub accepted : ℕ → List ℤ → LevelVector → LevelVector → Bool
accepted n lmin chosen k = fits_budget n lmin chosen k && please_add n lmin (chosen ++ k)

keep_if-concat_range {ℓ} :
    {A : Type ℓ} (p : A → Bool) (g : ℕ → List A) (n i : ℕ)
    → keep_if p (concat_range n i g) ≡ concat_range n i (λ j. keep_if p (g j))
unfolding concat_range keep_if
keep_if-concat_range p g zero i = refl
keep_if-concat_range p g (suc n) i =
    keep_if-append p (g i) (concat_range n (suc i) g)
    ∙ ap (λ x. keep_if p (g i) ++ x) (keep_if-concat_range p g n (suc i))

module _ (n : ℕ) (lmin : List ℤ) where
  -- The levels that extend `chosen`.
  unfoldable pub extensions : LevelVector → LevelVector → List LevelVector
  extensions chosen rest = map (λ k. chosen ++ k) (keep_if (accepted n lmin chosen) (box rest))

  accepted-cons :
      (chosen : LevelVector) (i : ℕ) (k : LevelVector)
      → accepted n lmin chosen (i ∷ k)
        ≡ (leb i (budget n lmin chosen) && accepted n lmin (chosen ++ i ∷ []) k)
  unfolding accepted fits_budget
  accepted-cons chosen i k = rw (append_assoc chosen (i ∷ []) k) (ground arith)

  slice :
      (chosen : LevelVector) (i : ℕ) (ks : List LevelVector)
      → map (λ k. chosen ++ k) (keep_if (accepted n lmin chosen) (map (λ k. i ∷ k) ks)) ≡ (
          if leb i (budget n lmin chosen)
          then map (λ k. (chosen ++ i ∷ []) ++ k) (keep_if (accepted n lmin (chosen ++ i ∷ [])) ks)
          else [])
  unfolding keep_if
  slice chosen i [] = ground arith
  slice chosen i (k ∷ ks) =
      rw (accepted-cons chosen i k)
        (ground (arith, slice chosen i ks, append_assoc chosen (i ∷ []) k))

  -- A loop over one dimension whose rounds yield the extensions.
  one_dimension :
      (lmax_d : ℕ) (rest chosen : LevelVector) (created : List LevelVector)
      (body : ℕ → List LevelVector → List LevelVector)
      → ((i : ℕ) (acc : List LevelVector)
          → body i acc ≡ acc ++ (if ltb lmax_d i then [] else extensions (chosen ++ i ∷ []) rest))
      → for_range (budget n lmin chosen) 1 body created
        ≡ created ++ extensions chosen (lmax_d ∷ rest)
  unfolding extensions box
  one_dimension lmax_d rest chosen created body h =
      for_range-concat body _ h (budget n lmin chosen) 1 created
      ∙ ap (λ x. created ++ x)
          (concat_range-cut (λ i. extensions (chosen ++ i ∷ []) rest) (budget n lmin chosen) lmax_d
              (budget n lmin chosen) lmax_d 1 (omega arith) (omega arith)
            ∙ ap (concat_range lmax_d 1) (fun_ext (λ i. sym (slice chosen i (box rest))))
            ∙ sym (
                ap (map (λ k. chosen ++ k))
                  (keep_if-concat_range (accepted n lmin chosen) _ lmax_d 1)
                ∙ map-concat_range _ _ lmax_d 1))

  extensions-nil :
      (chosen : LevelVector)
      → extensions chosen [] ≡ (if please_add n lmin chosen then chosen ∷ [] else [])
  unfolding extensions box keep_if accepted fits_budget
  extensions-nil chosen = rw (append-nil chosen) (elim (Bool-cases (please_add n lmin chosen)) [
    | inl h ↦ rw h (ap (λ x. x ∷ []) (append-nil chosen))
    | inr h ↦ rw h refl
  ])

  last_dimension :
      (lmax_d : ℕ) (chosen : LevelVector) (i : ℕ) (acc : List LevelVector)
      → (if ltb lmax_d i
          then acc
          else if please_add n lmin (chosen ++ i ∷ [])
          then acc ++ (chosen ++ i ∷ []) ∷ []
          else acc)
        ≡ acc ++ (if ltb lmax_d i then [] else extensions (chosen ++ i ∷ []) [])
  last_dimension lmax_d chosen i acc =
      rw (extensions-nil (chosen ++ i ∷ [])) (ground (arith, append-nil acc))

  -- createTruncatedHierarchicalLevelsRec appends the accepted extensions in the order of the box.
  pub create_truncated_rec-extensions :
      (lmax_d : ℕ) (rest chosen : LevelVector) (created : List LevelVector)
      → create_truncated_rec (lmax_d ∷ rest) n lmin chosen created
        ≡ created ++ extensions chosen (lmax_d ∷ rest)
  unfolding create_truncated_rec
  create_truncated_rec-extensions lmax_d [] chosen created =
      one_dimension lmax_d [] chosen created _ (last_dimension lmax_d chosen)
  create_truncated_rec-extensions lmax_d (lmax_e ∷ rest) chosen created =
      one_dimension lmax_d (lmax_e ∷ rest) chosen created _ λ i acc.
        elim (Bool-cases (ltb lmax_d i)) [
          | inl h ↦ rw h (sym (append-nil acc))
          | inr h ↦ rw h (create_truncated_rec-extensions lmax_e rest (chosen ++ i ∷ []) acc)
        ]

budget-anti :
    (n : ℕ) (lmin : List ℤ) (c d : LevelVector) → sum c ≤ sum d → budget n lmin d ≤ budget n lmin c
unfolding budget ◌-ℤ◌
budget-anti n lmin c d h = ground arith

fits_budget-anti :
    (n : ℕ) (lmin : List ℤ) (c d k l : LevelVector)
    → sum c ≤ sum d
    → Below k l
    → fits_budget n lmin d l ≡ true
    → fits_budget n lmin c k ≡ true
unfolding fits_budget
fits_budget-anti n lmin c d [] [] h b f = refl
fits_budget-anti n lmin c d [] (y ∷ l) h b f = elim b [ ]
fits_budget-anti n lmin c d (x ∷ k) [] h b f = elim b [ ]
fits_budget-anti n lmin c d (x ∷ k) (y ∷ l) h b f = ground (
  arith,
  budget-anti n lmin c d h,
  sum-append c (x ∷ []),
  sum-append d (y ∷ []),
  fits_budget-anti n lmin (c ++ x ∷ []) (d ++ y ∷ []) k l,
)

get_or-Below : (k l : LevelVector) (i : ℕ) → Below k l → get_or k i 0 ≤ get_or l i 0
get_or-Below [] [] i b = omega arith
get_or-Below [] (y ∷ l) i b = elim b [ ]
get_or-Below (x ∷ k) [] i b = elim b [ ]
get_or-Below (x ∷ k) (y ∷ l) zero b = b.0
get_or-Below (x ∷ k) (y ∷ l) (suc i) b = get_or-Below k l i b.1

part_sum-Below :
    (k l : LevelVector) (dims : List ℕ)
    → Below k l
    → sum (map (λ i. get_or k i 0) dims) ≤ sum (map (λ i. get_or l i 0) dims)
part_sum-Below k l [] b = omega arith
part_sum-Below k l (i ∷ dims) b = omega (arith, get_or-Below k l i b, part_sum-Below k l dims b)

combination_fits-anti :
    (n : ℕ) (lmin : List ℤ) (k l : LevelVector) (dims : List ℕ)
    → Below k l
    → combination_fits n lmin l dims ≡ true
    → combination_fits n lmin k dims ≡ true
unfolding combination_fits
combination_fits-anti n lmin k l dims b h = ground (arith, part_sum-Below k l dims b)

all_fit-anti :
    (n : ℕ) (lmin : List ℤ) (k l : LevelVector) (combinations : List (List ℕ))
    → Below k l
    → all (combination_fits n lmin l) combinations ≡ true
    → all (combination_fits n lmin k) combinations ≡ true
all_fit-anti n lmin k l [] b h = refl
all_fit-anti n lmin k l (dims ∷ combinations) b h =
    ground (arith, combination_fits-anti n lmin k l dims b, all_fit-anti n lmin k l combinations b)

fits_from-anti :
    (left j d n : ℕ) (lmin : List ℤ) (k l : LevelVector)
    → Below k l
    → fits_from left j d n lmin l ≡ true
    → fits_from left j d n lmin k ≡ true
unfolding fits_from
fits_from-anti zero j d n lmin k l b h = refl
fits_from-anti (suc left) j d n lmin k l b h = ground (
  arith,
  all_fit-anti n lmin k l (get_all_k_out_of_d_dimensions j d) b,
  fits_from-anti left (suc j) d n lmin k l b,
)

length-Below : (k l : LevelVector) → Below k l → length k ≡ length l
length-Below [] [] b = refl
length-Below [] (y ∷ l) b = elim b [ ]
length-Below (x ∷ k) [] b = elim b [ ]
length-Below (x ∷ k) (y ∷ l) b = ap suc (length-Below k l b.1)

-- The tests of the budgets and of the mixed sums are closed downwards: a level that is in every
-- dimension at most one that passes them passes them too.
pub accepted-anti :
    (n : ℕ) (lmin : List ℤ) (k l : LevelVector)
    → Below k l
    → accepted n lmin [] l ≡ true
    → accepted n lmin [] k ≡ true
unfolding accepted please_add
accepted-anti n lmin k l b h = ground (
  arith,
  length-Below k l b,
  fits_budget-anti n lmin [] [] k l (omega arith) b,
  fits_from-anti (length l - 1) 2 (length l) n lmin k l b,
)

-- With at least one dimension: createTruncatedHierarchicalLevelsRec, called for the first dimension,
-- creates the levels of the box up to lmax that pass the tests of the budgets and of the mixed sums,
-- in the order of the box.
pub create_truncated_rec-keep_if :
    (n : ℕ) (lmin : List ℤ) (lmax_d : ℕ) (rest : LevelVector)
    → create_truncated_rec (lmax_d ∷ rest) n lmin [] []
      ≡ keep_if (accepted n lmin []) (box (lmax_d ∷ rest))
create_truncated_rec-keep_if n lmin lmax_d rest =
    create_truncated_rec-extensions n lmin lmax_d rest [] []
    ∙ unfold extensions in map-id (keep_if (accepted n lmin []) (box (lmax_d ∷ rest)))
