-- ===== src/Scheme/Distribution/Greedy.antt =====
-- The greedy assignment on natural numbers: the loads that it leaves.
use dis_co_tec.Prelude.{
  ℕ, zero, suc, ◌+◌, ◌≤◌, ◌<◌, ◌≡◌, refl, ap, ◌∙◌, inl, inr, true, false, List, [], ◌∷◌, ◌++◌, map,
  length, get_or, set, replicate, ◌==◌, arith, All, sum, Bool-cases, length-set, length-replicate,
}
use dis_co_tec.Level.{LevelVector}
use dis_co_tec.Scheme.Distribution.{Share, push_task, push_task_at, nothing_yet, max_load}
use dis_co_tec.Scheme.Distribution.Loads.{
  grid_points, total_points, lightest_group, balanced_loop, balanced_share,
}
use dis_co_tec.Scheme.Distribution.Search.{
  get_or-set, sum-set, Least, lightest_group-Least, Spread, set-Spread,
}

print_dof-append :
    (num : ℕ) (ls : List LevelVector) (l : LevelVector) (boundary : List ℕ)
    → total_points num (ls ++ l ∷ []) boundary
      ≡ total_points num ls boundary + grid_points l boundary
unfolding total_points
print_dof-append num [] l boundary = refl
print_dof-append num (m ∷ ls) l boundary =
    print_dof-append (num + grid_points m boundary) ls l boundary

module _ {ℓ} {C : Type ℓ} (spare : C) (levels : List LevelVector) (coeffs : List C)
    (boundary : List ℕ) where
  abbrev pub task_dof : ℕ → ℕ
  task_dof t = grid_points (get_or levels t []) boundary

  abbrev pub dof_of : Share C → ℕ
  dof_of s = total_points 0 s.levels boundary

  abbrev run : ℕ → List ℕ → List ℕ → Share C → List ℕ × Share C
  run = balanced_loop spare levels coeffs boundary

  abbrev loads_after : List ℕ → ℕ → List ℕ
  loads_after loads t =
      set loads (lightest_group loads) (get_or loads (lightest_group loads) 0 + task_dof t)

  pub dof_of-push_task_at :
      (t : ℕ) (s : Share C) → dof_of (push_task_at spare levels coeffs t s) ≡ dof_of s + task_dof t
  unfolding push_task_at push_task
  dof_of-push_task_at t s = print_dof-append 0 s.levels (get_or levels t []) boundary

  -- The loads do not depend on the group that asks.
  run-same_loads :
      (my my' : ℕ) (loads ids : List ℕ) (s s' : Share C)
      → (run my loads ids s).0 ≡ (run my' loads ids s').0
  unfolding balanced_loop
  run-same_loads my my' loads [] s s' = refl
  run-same_loads my my' loads (t ∷ ids) s s' = run-same_loads my my' (loads_after loads t) ids _ _

  -- The additions stay below the largest long long.
  abbrev Fits : List ℕ → List ℕ → Type 0
  Fits loads ids = (0 < length loads) × (sum loads + sum (map task_dof ids) < max_load)

  Fits-step :
      (loads : List ℕ) (t : ℕ) (ids : List ℕ)
      → Fits loads (t ∷ ids)
      → (lightest_group loads < length loads)
        × Least (get_or loads (lightest_group loads) 0) loads
        × Fits (loads_after loads t) ids
  Fits-step loads t ids (some_group, below) =
      let (inside, least) = lightest_group-Least loads some_group (omega arith) in
      (
        inside,
        least,
        (
          omega (
            arith,
            length-set loads (lightest_group loads)
                (get_or loads (lightest_group loads) 0 + task_dof t),
          ),
          omega (arith, sum-set loads (lightest_group loads) (task_dof t) inside),
        ),
      )

  run-Spread :
      (b my : ℕ) (loads ids : List ℕ) (s : Share C)
      → Fits loads ids
      → All (λ t. task_dof t ≤ b) ids
      → Spread b loads
      → Spread b (run my loads ids s).0 × (length (run my loads ids s).0 ≡ length loads)
  unfolding balanced_loop
  run-Spread b my loads [] s fits small spread = (spread, refl)
  run-Spread b my loads (t ∷ ids) s fits small spread =
      let (inside, least, later) = Fits-step loads t ids fits in
      let (spread', same) =
        run-Spread b my (loads_after loads t) ids _ later small.1
          (set-Spread b loads _ (task_dof t) inside least small.0 spread) in
      (spread', same ∙ length-set loads _ _)

  run-mine :
      (my : ℕ) (loads : List ℕ) (t : ℕ) (ids : List ℕ) (s : Share C)
      → (lightest_group loads == my) ≡ true
      → run my loads (t ∷ ids) s
        ≡ run my (loads_after loads t) ids (push_task_at spare levels coeffs t s)
  unfolding balanced_loop
  run-mine my loads t ids s h = rw h refl

  run-other :
      (my : ℕ) (loads : List ℕ) (t : ℕ) (ids : List ℕ) (s : Share C)
      → (lightest_group loads == my) ≡ false
      → run my loads (t ∷ ids) s ≡ run my (loads_after loads t) ids s
  unfolding balanced_loop
  run-other my loads t ids s h = rw h refl

  -- The load of a group is what it has got.
  run-load :
      (my : ℕ) (loads ids : List ℕ) (s : Share C)
      → Fits loads ids
      → get_or (run my loads ids s).0 my 0 + dof_of s
        ≡ get_or loads my 0 + dof_of (run my loads ids s).1
  run-load my loads [] s fits = unfold balanced_loop in refl
  run-load my loads (t ∷ ids) s fits =
      let (inside, least, later) = Fits-step loads t ids fits in
      let at_my =
        get_or-set loads (lightest_group loads) (get_or loads (lightest_group loads) 0 + task_dof t)
          my inside in
      elim (Bool-cases (lightest_group loads == my)) [
        | inl mine ↦
            let s' = push_task_at spare levels coeffs t s in
            let same : lightest_group loads ≡ my = ground arith in
            let before : get_or loads (lightest_group loads) 0 ≡ get_or loads my 0 =
              ap (λ g. get_or loads g 0) same in
            let grown : get_or (loads_after loads t) my 0 ≡ get_or loads my 0 + task_dof t =
              at_my ∙ ground arith in
            rw (run-mine my loads t ids s mine) (
              omega
                (arith, run-load my (loads_after loads t) ids s' later, dof_of-push_task_at t s))
        | inr other ↦
            let kept : get_or (loads_after loads t) my 0 ≡ get_or loads my 0 =
              at_my ∙ ground arith in
            rw (run-other my loads t ids s other)
              (omega (arith, run-load my (loads_after loads t) ids s later))
      ]

replicate-zeros : (n i : ℕ) → get_or {A = ℕ} (replicate n 0) i 0 ≡ 0
replicate-zeros zero i = refl
replicate-zeros (suc n) zero = refl
replicate-zeros (suc n) (suc i) = replicate-zeros n i

pub sum-zeros : (n : ℕ) → sum (replicate n 0) ≡ 0
sum-zeros zero = refl
sum-zeros (suc n) = omega (arith, sum-zeros n)

pub balanced_spread {ℓ} :
    {C : Type ℓ} (spare : C) (levels : List LevelVector) (coeffs : List C) (boundary ids : List ℕ)
    (total g h b : ℕ)
    → g < total
    → h < total
    → All (λ t. grid_points (get_or levels t []) boundary ≤ b) ids
    → sum (map (λ t. grid_points (get_or levels t []) boundary) ids) < max_load
    → total_points 0 (balanced_share spare levels coeffs boundary ids g total).levels boundary
      ≤ total_points 0 (balanced_share spare levels coeffs boundary ids h total).levels boundary + b
unfolding balanced_share total_points
balanced_spread spare levels coeffs boundary ids total g h b hg hh small below =
    let loads : List ℕ = replicate total 0 in
    let count : length loads ≡ total = length-replicate total _ in
    let fits : Fits spare levels coeffs boundary loads ids =
      (omega arith, omega (arith, sum-zeros total)) in
    let (spread, same) =
      run-Spread spare levels coeffs boundary b g loads ids nothing_yet fits small
        (λ i j hi hj. omega (arith, replicate-zeros total i)) in
    let load_g = run-load spare levels coeffs boundary g loads ids nothing_yet fits in
    let load_h = run-load spare levels coeffs boundary h loads ids nothing_yet fits in
    let one_run =
      run-same_loads spare levels coeffs boundary h g loads ids nothing_yet nothing_yet in
    let h_in_one_run = ap (λ x. get_or x h 0) one_run in
    let apart = spread g h (omega arith) (omega arith) in
    omega (arith, replicate-zeros total g, replicate-zeros total h)
