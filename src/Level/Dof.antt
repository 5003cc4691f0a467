-- ===== src/Level/Dof.antt =====
-- Degrees of freedom of full grids and of the hierarchical subspaces below them: the getNumDof
-- functions of src/utils/LevelSetUtils.hpp.
use mathlib.Core.List.{map-map}
use native.Mathlib.Nat.{two-pow-succ, mul_assoc, mul-one, one-mul}
use dis_co_tec.Prelude.{
  ℕ, zero, suc, ◌+◌, ◌-◌, ◌*◌, ◌^◌, ◌≡◌, refl, sym, ap, ◌∙◌, fun_ext, List, [], ◌∷◌, map, arith,
  length, sum,
}
use dis_co_tec.Prelude.Loops.{
  sum_range, sum_range-cong, sum_range-mul, sum-concat_range, map-concat_range, sum-map-mul,
}
use dis_co_tec.Level.{
  LevelVector, ok, get_down_set, get_num_dof_nodal, get_num_dof_nodal_grid, num_dof_nodal_loop,
  get_num_dof_hierarchical, get_num_dof_hierarchical_subspace, num_dof_hierarchical_loop,
  get_num_dof_hierarchical_subspaces, num_dof_hierarchical_subspaces_loop,
}
use dis_co_tec.Level.Vectors.{Positive}
use dis_co_tec.Level.DownSet.{box, get_down_set-box}

hierarchical_loop-mul :
    (num : ℕ) (l : LevelVector) (b : List ℕ)
    → num_dof_hierarchical_loop num l b ≡ num * num_dof_hierarchical_loop 1 l b
unfolding num_dof_hierarchical_loop
hierarchical_loop-mul num [] b = omega arith
hierarchical_loop-mul num (x ∷ l) [] = omega arith
hierarchical_loop-mul num (x ∷ l) (c ∷ b) =
    let h = get_num_dof_hierarchical x c in
    hierarchical_loop-mul (num * h) l b
    ∙ mul_assoc num h (num_dof_hierarchical_loop 1 l b)
    ∙ ap (λ y. num * y) (sym (hierarchical_loop-mul h l b))
    ∙ ap (λ y. num * num_dof_hierarchical_loop y l b) (sym (one-mul h))

subspace-cons :
    (x : ℕ) (l : LevelVector) (c : ℕ) (b : List ℕ)
    → get_num_dof_hierarchical_subspace (x ∷ l) (c ∷ b)
      ≡ get_num_dof_hierarchical x c * get_num_dof_hierarchical_subspace l b
unfolding get_num_dof_hierarchical_subspace num_dof_hierarchical_loop
subspace-cons x l c b =
    hierarchical_loop-mul (1 * get_num_dof_hierarchical x c) l b
    ∙ ap (λ y. y * num_dof_hierarchical_loop 1 l b) (one-mul (get_num_dof_hierarchical x c))

subspaces_loop-sum :
    (num : ℕ) (ls : List LevelVector) (b : List ℕ)
    → num_dof_hierarchical_subspaces_loop num ls b
      ≡ num + sum (map (λ l. get_num_dof_hierarchical_subspace l b) ls)
unfolding num_dof_hierarchical_subspaces_loop
subspaces_loop-sum num [] b = omega arith
subspaces_loop-sum num (l ∷ ls) b =
    omega (arith, subspaces_loop-sum (num + get_num_dof_hierarchical_subspace l b) ls b)

-- A sum over several subspaces has one term for each.
subspaces-sum :
    (ls : List LevelVector) (b : List ℕ)
    → get_num_dof_hierarchical_subspaces ls b
      ≡ sum (map (λ l. get_num_dof_hierarchical_subspace l b) ls)
unfolding get_num_dof_hierarchical_subspaces
subspaces-sum ls b = omega (arith, subspaces_loop-sum 0 ls b)

hierarchical-upper : (i c : ℕ) → get_num_dof_hierarchical (suc (suc i)) c ≡ 2 ^ suc i
unfolding get_num_dof_hierarchical
hierarchical-upper i c = let e : suc (suc i) - 1 ≡ suc i = omega arith in rw (← e) (ground arith)

-- Levels above 1 double.
upper_levels :
    (c n i : ℕ)
    → sum_range n (suc (suc i)) (λ j. get_num_dof_hierarchical j c) + 2 ^ suc i ≡ 2 ^ (suc i + n)
unfolding sum_range
upper_levels c zero i = let e : suc i + 0 ≡ suc i = omega arith in rw e (omega arith)
upper_levels c (suc n) i =
    let e : suc i + suc n ≡ suc (suc i) + n = omega arith in
    rw e (omega (arith, upper_levels c n (suc i), two-pow-succ (suc i), hierarchical-upper i c))

levels_in_one_dimension :
    (c n : ℕ) → sum_range (suc n) 1 (λ j. get_num_dof_hierarchical j c) ≡ 2 ^ suc n + c - 1
unfolding sum_range
levels_in_one_dimension c n =
    let e : 1 + n ≡ suc n = omega arith in
    let first : get_num_dof_hierarchical 1 c ≡ 1 + c = unfold get_num_dof_hierarchical in refl in
    omega (arith, rw e at (upper_levels c n 0), first)

-- The points of the box by dimensions.
box_dof : LevelVector → List ℕ → ℕ
box_dof l b = sum (map (λ k. get_num_dof_hierarchical_subspace k b) (box l))

box_dof-slice :
    (i : ℕ) (l : LevelVector) (c : ℕ) (b : List ℕ)
    → sum (map (λ k. get_num_dof_hierarchical_subspace k (c ∷ b)) (map (λ k. i ∷ k) (box l)))
      ≡ get_num_dof_hierarchical i c * box_dof l b
unfolding box_dof
box_dof-slice i l c b =
    ap sum (map-map _ _ (box l))
    ∙ ap (λ f. sum (map f (box l))) (fun_ext (λ k. subspace-cons i k c b))
    ∙ sum-map-mul (get_num_dof_hierarchical i c) _ (box l)

box_dof-cons :
    (n : ℕ) (l : LevelVector) (c : ℕ) (b : List ℕ)
    → box_dof (suc n ∷ l) (c ∷ b) ≡ (2 ^ suc n + c - 1) * box_dof l b
unfolding box_dof box
box_dof-cons n l c b =
    ap sum (map-concat_range _ _ (suc n) 1)
    ∙ sum-concat_range _ (suc n) 1
    ∙ sum_range-cong _ _ (λ i. box_dof-slice i l c b) (suc n) 1
    ∙ sum_range-mul (λ j. get_num_dof_hierarchical j c) (box_dof l b) (suc n) 1
    ∙ ap (λ y. y * box_dof l b) (levels_in_one_dimension c n)

nodal-positive : (n c : ℕ) → get_num_dof_nodal (suc n) c ≡ ok (2 ^ suc n + c - 1)
unfolding get_num_dof_nodal
nodal-positive n c = ground arith

nodal_loop-box_dof :
    (num : ℕ) (l : LevelVector) (b : List ℕ)
    → length l ≡ length b
    → Positive l
    → num_dof_nodal_loop num l b ≡ ok (num * box_dof l b)
unfolding num_dof_nodal_loop
nodal_loop-box_dof num [] b e p =
    unfold box_dof box get_num_dof_hierarchical_subspace in ap ok (sym (mul-one num))
nodal_loop-box_dof num (x ∷ l) [] e p = absurd (omega arith)
nodal_loop-box_dof num (zero ∷ l) (c ∷ b) e p = absurd (omega arith)
nodal_loop-box_dof num (suc n ∷ l) (c ∷ b) e p =
    rw (nodal-positive n c) (nodal_loop-box_dof (num * (2 ^ suc n + c - 1)) l b (omega arith) p.1)
    ∙ ap ok (mul_assoc num _ _ ∙ ap (λ y. num * y) (sym (box_dof-cons n l c b)))

-- With one number of boundary points for each dimension: a full grid of positive levels has as many points as the hierarchical subspaces in its downward
-- closed set have together, whatever these numbers are.
pub nodal-hierarchical :
    (l : LevelVector) (b : List ℕ)
    → length l ≡ length b
    → Positive l
    → get_num_dof_nodal_grid l b ≡ ok (get_num_dof_hierarchical_subspaces (get_down_set l) b)
unfolding get_num_dof_nodal_grid
nodal-hierarchical l b e p =
    nodal_loop-box_dof 1 l b e p
    ∙ ap ok (
        one-mul (box_dof l b)
        ∙ sym (subspaces-sum (get_down_set l) b ∙ unfold box_dof in rw (get_down_set-box l) refl))
