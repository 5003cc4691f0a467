-- ===== src/Scheme/Distribution/Transfer.antt =====
-- getLoadBalancedLevels with its signed numbers, next to the same on natural numbers.
use native.Mathlib.Nat.{one-le-pow, pow-suc, mul-le-mul_left, mul-one, mul-zero, zero-mul}
use dis_co_tec.Prelude.{
  ℕ, zero, suc, ◌+◌, ◌*◌, ◌^◌, ◌≤◌, ◌<◌, ◌≡◌, refl, ap, inl, inr, Bool, true, false, some, List, [],
  ◌∷◌, map, arith, length, get_or, set, replicate, length-set, sum, All, All-append, ltb, ◌==◌,
  if◌then◌else◌, lt→ltb, Bool-cases,
}
use dis_co_tec.Prelude.Int.{pos, ◌+ℤ◌, ◌-ℤ◌, ◌*ℤ◌, ltb_ℤ}
use dis_co_tec.Level.{LevelVector, power_of_two}
use dis_co_tec.Scheme.Distribution.{
  Share, push_task_at, push_task, max_load, checked, combi_dof_loop, get_combi_degrees_of_freedom,
  print_combi_degrees_of_freedom, min_group_loop, find_min_group, load_balanced_loop,
}
use dis_co_tec.Scheme.Distribution.Search.{lightest_group-Least, sum-set}
use dis_co_tec.Scheme.Distribution.Loads.{
  points_in, grid_points_loop, grid_points, total_points, lightest_loop, lightest_group,
  balanced_loop,
}

-- As many boundary entries as levels, each level in the table, and no dimension without a point.
abbrev pub Fine : LevelVector → List ℕ → Type 0
Fine [] [] = Unit
Fine [] (b ∷ boundary) = ⊥
Fine (l_i ∷ level) [] = ⊥
Fine (l_i ∷ level) (b ∷ boundary) = (l_i < 29) × ((0 < l_i + b) × Fine level boundary)

checked-pos : (n : ℕ) → n < max_load → checked (pos n) ≡ some (pos n)
unfolding checked
checked-pos n h = ground arith

two-le-pow : (n : ℕ) → 2 ≤ 2 ^ suc n
two-le-pow n = omega (arith, one-le-pow n 2 (omega arith), pow-suc 2 n)

points_in-positive : (l_i b : ℕ) → 0 < l_i + b → 0 < points_in l_i b
unfolding points_in
points_in-positive zero b h = grind arith
points_in-positive (suc n) b h = grind (arith, two-le-pow n)

factor-pos :
    (l_i b : ℕ)
    → l_i < 29
    → (if ltb 0 l_i then pos (power_of_two l_i) -ℤ pos 1 +ℤ pos b else pos b)
      ≡ pos (points_in l_i b)
unfolding points_in power_of_two ◌-ℤ◌ ◌+ℤ◌
factor-pos zero b h = refl
factor-pos (suc n) b h = rw (lt→ltb _ _ h) (ground (arith, two-le-pow n))

times-pos : (a b : ℕ) → pos a *ℤ pos b ≡ pos (a * b)
unfolding ◌*ℤ◌
times-pos a b = ground (arith, mul-zero a, mul-zero b, zero-mul b)

plus-pos : (a b : ℕ) → pos a +ℤ pos b ≡ pos (a + b)
unfolding ◌+ℤ◌
plus-pos a b = ground arith

grid_points_loop-le :
    (num : ℕ) (l : LevelVector) (b : List ℕ) → Fine l b → num ≤ grid_points_loop num l b
unfolding grid_points_loop
grid_points_loop-le num [] [] h = omega arith
grid_points_loop-le num [] (c ∷ b) h = elim h [ ]
grid_points_loop-le num (x ∷ l) [] h = elim h [ ]
grid_points_loop-le num (x ∷ l) (c ∷ b) h =
    let once : num * 1 ≤ num * points_in x c = mul-le-mul_left num (points_in-positive x c h.1.0) in
    omega (arith, once, mul-one num, grid_points_loop-le (num * points_in x c) l b h.1.1)

combi_dof_loop-pos :
    (num : ℕ) (l : LevelVector) (b : List ℕ)
    → Fine l b
    → grid_points_loop num l b < max_load
    → combi_dof_loop (pos num) l b ≡ some (pos (grid_points_loop num l b))
unfolding combi_dof_loop grid_points_loop
combi_dof_loop-pos num [] [] h small = refl
combi_dof_loop-pos num [] (c ∷ b) h small = elim h [ ]
combi_dof_loop-pos num (x ∷ l) [] h small = elim h [ ]
combi_dof_loop-pos num (x ∷ l) (c ∷ b) h small =
    let later = grid_points_loop-le (num * points_in x c) l b h.1.1 in
    let in_table : ltb x 30 ≡ true = lt→ltb x 30 (omega (arith, h.0)) in
    rw
      (
        in_table,
        combi_dof_loop,
        factor-pos x c h.0,
        times-pos num (points_in x c),
        checked-pos (num * points_in x c) (omega (arith, later, small)),
      )
      (combi_dof_loop-pos (num * points_in x c) l b h.1.1 small)

pub dof-grid_points :
    (l : LevelVector) (b : List ℕ)
    → Fine l b
    → grid_points l b < max_load
    → get_combi_degrees_of_freedom l b ≡ some (pos (grid_points l b))
unfolding get_combi_degrees_of_freedom grid_points
dof-grid_points l b h small = combi_dof_loop-pos 1 l b h small

total_points-le :
    (num : ℕ) (ls : List LevelVector) (b : List ℕ)
    → num + sum (map (λ l. grid_points l b) ls) ≡ total_points num ls b
unfolding total_points
total_points-le num [] b = omega arith
total_points-le num (l ∷ ls) b = omega (arith, total_points-le (num + grid_points l b) ls b)

pub print-total_points :
    (num : ℕ) (ls : List LevelVector) (b : List ℕ)
    → All (λ l. Fine l b) ls
    → total_points num ls b < max_load
    → print_combi_degrees_of_freedom (pos num) ls b ≡ some (pos (total_points num ls b))
unfolding print_combi_degrees_of_freedom total_points
print-total_points num [] b h small = refl
print-total_points num (l ∷ ls) b h small =
    let all = total_points-le (num + grid_points l b) ls b in
    rw
      (
        dof-grid_points l b h.0 (omega (arith, all, small)),
        print_combi_degrees_of_freedom,
        plus-pos num (grid_points l b),
        checked-pos (num + grid_points l b) (omega (arith, all, small)),
      )
      (print-total_points (num + grid_points l b) ls b h.1 small)

min_group_loop-pos :
    (g min_g m : ℕ) (loads : List ℕ)
    → min_group_loop g min_g (pos m) (map pos loads) ≡ lightest_loop g min_g m loads
unfolding min_group_loop lightest_loop
min_group_loop-pos g min_g m [] = refl
min_group_loop-pos g min_g m (x ∷ loads) =
    let same : ltb_ℤ (pos x) (pos m) ≡ ltb x m = ground arith in
    elim (Bool-cases (ltb x m)) [
      | inl less ↦ rw (same, less) (min_group_loop-pos (suc g) g x loads)
      | inr more ↦ rw (same, more) (min_group_loop-pos (suc g) min_g m loads)
    ]

find_min_group-pos : (loads : List ℕ) → find_min_group (map pos loads) ≡ lightest_group loads
unfolding find_min_group lightest_group
find_min_group-pos loads = min_group_loop-pos 0 0 max_load loads

get_or-pos : (loads : List ℕ) (i : ℕ) → get_or (map pos loads) i (pos 0) ≡ pos (get_or loads i 0)
get_or-pos [] i = refl
get_or-pos (x ∷ loads) zero = refl
get_or-pos (x ∷ loads) (suc i) = get_or-pos loads i

set-pos : (loads : List ℕ) (i v : ℕ) → set (map pos loads) i (pos v) ≡ map pos (set loads i v)
set-pos [] i v = refl
set-pos (x ∷ loads) zero v = refl
set-pos (x ∷ loads) (suc i) v = ap (λ xs. pos x ∷ xs) (set-pos loads i v)

pub replicate-pos : (n v : ℕ) → replicate n (pos v) ≡ map pos (replicate n v)
replicate-pos zero v = refl
replicate-pos (suc n) v = ap (λ xs. pos v ∷ xs) (replicate-pos n v)

get_or-sum : (loads : List ℕ) (i : ℕ) → get_or loads i 0 ≤ sum loads
get_or-sum [] i = omega arith
get_or-sum (x ∷ loads) zero = omega arith
get_or-sum (x ∷ loads) (suc i) = omega (arith, get_or-sum loads i)

module _ {ℓ} {C : Type ℓ} (spare : C) (levels : List LevelVector) (coeffs : List C)
    (boundary : List ℕ) where
  abbrev level_of : ℕ → LevelVector
  level_of t = get_or levels t []

  abbrev dofs : List ℕ → ℕ
  dofs ids = sum (map (λ t. grid_points (level_of t) boundary) ids)

  pub load_balanced_loop-pos :
      (my : ℕ) (loads ids : List ℕ) (s : Share C)
      → All (λ t. Fine (level_of t) boundary) ids
      → sum loads + dofs ids < max_load
      → 0 < length loads
      → load_balanced_loop spare levels coeffs boundary my (map pos loads) ids s
        ≡ some (
          map pos (balanced_loop spare levels coeffs boundary my loads ids s).0,
          (balanced_loop spare levels coeffs boundary my loads ids s).1,
        )
  unfolding load_balanced_loop balanced_loop
  load_balanced_loop-pos my loads [] s fine small some_group = refl
  load_balanced_loop-pos my loads (t ∷ ids) s fine small some_group =
      let g = lightest_group loads in
      let d = grid_points (level_of t) boundary in
      let (inside, _) = lightest_group-Least loads some_group (omega (arith, small)) in
      let dof = dof-grid_points (level_of t) boundary fine.0 (omega (arith, small)) in
      let load = checked-pos (get_or loads g 0 + d) (omega (arith, get_or-sum loads g, small)) in
      let sums = sum-set loads g d inside in
      let sizes = length-set loads g (get_or loads g 0 + d) in
      rw
        (
          dof,
          load_balanced_loop,
          find_min_group-pos loads,
          get_or-pos loads g,
          plus-pos (get_or loads g 0) d,
          load,
          find_min_group-pos loads,
          set-pos loads g (get_or loads g 0 + d),
        )
        (load_balanced_loop-pos my (set loads g (get_or loads g 0 + d)) ids
          (if g == my then push_task_at spare levels coeffs t s else s) fine.1
          (omega (arith, sums, small)) (omega (arith, sizes)))

  push-All :
      (P : LevelVector → Type 0) (t : ℕ) (s : Share C) (mine : Bool)
      → P (level_of t)
      → All P s.levels
      → All P (if mine then push_task_at spare levels coeffs t s else s).levels
  unfolding push_task_at push_task
  push-All P t s true h pushed = All-append P s.levels (level_of t ∷ []) pushed (h, tt)
  push-All P t s false h pushed = pushed

  pub balanced_loop-All :
      (P : LevelVector → Type 0) (my : ℕ) (loads ids : List ℕ) (s : Share C)
      → All (λ t. P (level_of t)) ids
      → All P s.levels
      → All P (balanced_loop spare levels coeffs boundary my loads ids s).1.levels
  unfolding balanced_loop
  balanced_loop-All P my loads [] s h pushed = pushed
  balanced_loop-All P my loads (t ∷ ids) s h pushed =
      balanced_loop-All P my
        (set loads (lightest_group loads)
          (get_or loads (lightest_group loads) 0 + grid_points (level_of t) boundary))
        ids (if lightest_group loads == my then push_task_at spare levels coeffs t s else s) h.1
        (push-All P t s (lightest_group loads == my) h.0 pushed)
