-- ===== src/Scheme/Distribution/LoadBalance.antt =====
-- getLoadBalancedLevels: how evenly it spreads the degrees of freedom.
use dis_co_tec.Prelude.{
  ℕ, ◌+◌, ◌≤◌, ◌<◌, ◌≡◌, refl, Bool, true, false, Option, some, List, [], ◌∷◌, map, arith, length,
  get_or, set, replicate, length-replicate, sum, All, leb, ◌==◌, if◌then◌else◌, le→leb,
}
use dis_co_tec.Prelude.Int.{pos}
use dis_co_tec.Level.{LevelVector}
use dis_co_tec.Scheme.Distribution.{
  Share, push_task_at, nothing_yet, max_load, print_combi_degrees_of_freedom,
  get_load_balanced_levels,
}
use dis_co_tec.Scheme.Distribution.Loads.{
  grid_points, total_points, lightest_group, balanced_loop, balanced_share,
}
use dis_co_tec.Scheme.Distribution.Greedy.{
  task_dof, dof_of, dof_of-push_task_at, balanced_spread, sum-zeros,
}
use dis_co_tec.Scheme.Distribution.Transfer.{
  Fine, print-total_points, load_balanced_loop-pos, balanced_loop-All, replicate-pos,
}

module _ {ℓ} {C : Type ℓ} (spare : C) (levels : List LevelVector) (coeffs : List C)
    (boundary : List ℕ) where
  abbrev dof : Share C → ℕ
  dof = dof_of spare levels coeffs boundary

  push-le :
      (t : ℕ) (s : Share C) (mine : Bool)
      → dof (if mine then push_task_at spare levels coeffs t s else s)
        ≤ dof s + task_dof spare levels coeffs boundary t
  push-le t s true = omega (arith, dof_of-push_task_at spare levels coeffs boundary t s)
  push-le t s false = omega arith

  -- A group gets no more than all tasks.
  balanced_loop-le :
      (my : ℕ) (loads ids : List ℕ) (s : Share C)
      → dof (balanced_loop spare levels coeffs boundary my loads ids s).1
        ≤ dof s + sum (map (task_dof spare levels coeffs boundary) ids)
  unfolding balanced_loop
  balanced_loop-le my loads [] s = omega arith
  balanced_loop-le my loads (t ∷ ids) s = omega (
    arith,
    push-le t s (lightest_group loads == my),
    balanced_loop-le my
        (set loads (lightest_group loads)
          (get_or loads (lightest_group loads) 0 + task_dof spare levels coeffs boundary t))
        ids (if lightest_group loads == my then push_task_at spare levels coeffs t s else s),
  )

-- What a group gets: its share, and the degrees of freedom of that.
abbrev pub Gets {ℓ} : {C : Type ℓ} → Option (Share C) → List ℕ → ℕ → Type ℓ
Gets {C = C} result boundary n =
    (s : Share C) × (result ≡ some s)
    × (print_combi_degrees_of_freedom (pos 0) s.levels boundary ≡ some (pos n))

Gets-balanced {ℓ} :
    {C : Type ℓ} (spare : C) (levels : List LevelVector) (coeffs : List C) (boundary ids : List ℕ)
    (total g : ℕ)
    → 0 < total
    → length levels ≡ length coeffs
    → total ≤ length levels
    → All (λ t. Fine (get_or levels t []) boundary) ids
    → sum (map (λ t. grid_points (get_or levels t []) boundary) ids) < max_load
    → Gets
        (get_load_balanced_levels spare levels coeffs boundary ids g total)
        boundary
        (total_points 0 (balanced_share spare levels coeffs boundary ids g total).levels boundary)
unfolding get_load_balanced_levels balanced_share total_points
Gets-balanced spare levels coeffs boundary ids total g some_group sizes enough fine below =
    let zeros : List ℕ = replicate total 0 in
    let one_coeff : (length levels == length coeffs) ≡ true = ground arith in
    let tasks : leb total (length levels) ≡ true = le→leb _ _ enough in
    let count : length zeros ≡ total = length-replicate total _ in
    let run =
      load_balanced_loop-pos spare levels coeffs boundary g zeros ids nothing_yet fine
        (omega (arith, sum-zeros total, below)) (omega (arith, count)) in
    (
      (balanced_loop spare levels coeffs boundary g zeros ids nothing_yet).1,
      rw (one_coeff, get_load_balanced_levels, tasks, replicate-pos total 0, run) refl,
      print-total_points 0 _ boundary
          (balanced_loop-All spare levels coeffs boundary (λ l. Fine l boundary) g zeros ids
            nothing_yet fine tt)
          (omega
            (arith, balanced_loop-le spare levels coeffs boundary g zeros ids nothing_yet, below)),
    )

-- Whatever the order of the tasks: if there are as many coefficients as levels, and at least as many as
-- groups, if each task has as many boundary entries as levels, which are below 29, and a point in
-- each dimension, if no single task has more than b points, and all together have fewer than the
-- largest long long, then getLoadBalancedLevels returns for any two groups, and the degrees of
-- freedom that it gives to them, which are not negative, differ by at most b.
pub load_balanced_spread {ℓ} :
    {C : Type ℓ} (spare : C) (levels : List LevelVector) (coeffs : List C) (boundary ids : List ℕ)
    (total g h b : ℕ)
    → g < total
    → h < total
    → length levels ≡ length coeffs
    → total ≤ length levels
    → All (λ t. Fine (get_or levels t []) boundary) ids
    → All (λ t. grid_points (get_or levels t []) boundary ≤ b) ids
    → sum (map (λ t. grid_points (get_or levels t []) boundary) ids) < max_load
    → (m n : ℕ) × Gets
        (get_load_balanced_levels spare levels coeffs boundary ids g total)
        boundary
        m
      × Gets (get_load_balanced_levels spare levels coeffs boundary ids h total) boundary n
      × (m ≤ n + b)
load_balanced_spread spare levels coeffs boundary ids total g h b hg hh sizes enough fine small
      below =
    let gets = λ (k : ℕ).
      Gets-balanced spare levels coeffs boundary ids total k (omega arith) sizes enough fine
        below in
    (
      total_points 0 (balanced_share spare levels coeffs boundary ids g total).levels boundary,
      total_points 0 (balanced_share spare levels coeffs boundary ids h total).levels boundary,
      gets g,
      gets h,
      balanced_spread spare levels coeffs boundary ids total g h b hg hh small below,
    )
