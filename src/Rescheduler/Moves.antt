-- ===== src/Rescheduler/Moves.antt =====
-- The moves that RebalancingTaskRescheduler returns.
use mathlib.Core.List.{map-append}
use dis_co_tec.Prelude.{
  ℕ, zero, suc, ◌+◌, ◌/◌, ◌≤◌, ◌<◌, ◌≡◌, refl, sym, ap, subst, Bool, true, false, some, List, [],
  ◌∷◌, ◌++◌, length, map, sum, ltb, ◌==◌, arith, Bool-cases, Option-cases, inl, inr, length-append,
}
use dis_co_tec.Level.{LevelVector}
use dis_co_tec.Rescheduler.{
  init_groups, add_durations, fastest_from, slowest_from, prognosis_of, best_from, redirect, Round,
  stop, go_on, undefined, move_or_stop, round, rebalance, eval,
}
use dis_co_tec.Rescheduler.Groups.{
  has_group, Covered, has_group-keep_if, IsNonEmpty, put_group-IsNonEmpty, init_groups-Covered,
  init_groups-some, add_durations-Covered, slowest_from-All,
}
use dis_co_tec.Rescheduler.Redirect.{
  Distinct, tasks_of, Distinct-append, redirect-none, redirect-some,
}

-- What a round may lead to, from some moves.
abbrev IsProper : List (LevelVector × ℕ) → Round → Type 0
IsProper moves stop = Unit
IsProper moves undefined = ⊥
IsProper moves (go_on m moves') =
    IsNonEmpty m
    × Distinct (tasks_of moves')
    × (length (tasks_of moves') ≤ suc (length (tasks_of moves)))

move_or_stop-IsProper :
    (fastest slowest : ℕ × ℕ) (task : LevelVector × ℕ) (m moves : List (LevelVector × ℕ))
    → IsNonEmpty m
    → Distinct (tasks_of moves)
    → IsProper moves (move_or_stop fastest slowest task m moves)
unfolding move_or_stop
move_or_stop-IsProper fastest slowest task m moves n d =
    elim (Bool-cases (ltb (fastest.1 + task.1) slowest.1)) [
      | inl less ↦ elim (Option-cases (redirect task.0 fastest.0 moves)) [
        | inl absent ↦
            let tasks : tasks_of (moves ++ (task.0, fastest.0) ∷ [])
                ≡ tasks_of moves ++ task.0 ∷ [] =
              map-append (λ m. m.0) moves ((task.0, fastest.0) ∷ []) in
            let distinct : Distinct (tasks_of (moves ++ (task.0, fastest.0) ∷ [])) =
              subst Distinct (sym tasks) (
                Distinct-append (tasks_of moves) task.0 d
                  (redirect-none task.0 fastest.0 moves absent)) in
            let size : length (tasks_of (moves ++ (task.0, fastest.0) ∷ []))
                ≤ suc (length (tasks_of moves)) =
              omega (
                arith,
                ap (λ (x : List LevelVector). length x) tasks,
                length-append (tasks_of moves) (task.0 ∷ []),
              ) in
            rw (less, absent) (put_group-IsNonEmpty task.0 fastest.0 m, distinct, size)
        | inr (moves', found) ↦
            let tasks = redirect-some task.0 fastest.0 moves moves' found in
            let size : length (tasks_of moves') ≤ suc (length (tasks_of moves)) =
              omega (arith, ap (λ (x : List LevelVector). length x) tasks) in
            rw (less, found) (n, subst Distinct (sym tasks) d, size)
      ]
      | inr more ↦ rw more tt
    ]

nonempty {ℓ} : {A : Type ℓ} (xs : List A) → IsNonEmpty xs → (x : A) × (ys : List A) × (xs ≡ x ∷ ys)
nonempty [] n = elim n [ ]
nonempty (x ∷ ys) n = (x, ys, refl)

has_group-IsNonEmpty : (g : ℕ) (m : List (LevelVector × ℕ)) → has_group g m ≡ true → IsNonEmpty m
unfolding has_group
has_group-IsNonEmpty g [] h = absurd (cc)
has_group-IsNonEmpty g (t ∷ m) h = tt

prognosis_of-some :
    (prognosis : LevelVector → ℕ) (g : ℕ) (m : List (LevelVector × ℕ))
    → has_group g m ≡ true
    → (t : LevelVector × ℕ) × (ts : List (LevelVector × ℕ)) × (prognosis_of prognosis g m ≡ t ∷ ts)
unfolding prognosis_of
prognosis_of-some prognosis g m h =
    let (t, ts, e) = has_group-keep_if g m h in
    (
      (t.0, prognosis t.0),
      map (λ t. (t.0, prognosis t.0)) ts,
      ap (map (λ t. (t.0, prognosis t.0))) e,
    )

-- With a group and an average that is not 0 no operation is undefined.
round-IsProper :
    (prognosis : LevelVector → ℕ) (is_balanced : ℕ → Bool) (durations : List (LevelVector × ℕ))
    (average : ℕ) (m moves : List (LevelVector × ℕ))
    → 0 < average
    → IsNonEmpty m
    → Distinct (tasks_of moves)
    → IsProper moves (round prognosis is_balanced durations average m moves)
unfolding round
round-IsProper prognosis is_balanced durations average m moves positive n d =
    let (covered, some_group) =
      add_durations-Covered durations m (init_groups m [])
        (init_groups-Covered m m [] (λ h p. p) tt) (init_groups-some m n) in
    let m' = (add_durations durations m (init_groups m [])).0 in
    let (first, rest, groups) =
      nonempty (add_durations durations m (init_groups m [])).1 some_group in
    let covered' : Covered m' (first ∷ rest) = subst (Covered m') groups covered in
    let slowest = slowest_from first rest in
    let slowest_covered : has_group slowest.0 m' ≡ true =
      slowest_from-All (λ x. has_group x.0 m' ≡ true) first rest covered'.0 covered'.1 in
    let (task, tasks, found) = prognosis_of-some prognosis slowest.0 m' slowest_covered in
    let not_zero : (average == 0) ≡ false = ground arith in
    elim (Bool-cases (is_balanced (slowest.1 / average))) [
      | inl balanced ↦ rw (groups, not_zero, balanced, round) tt
      | inr unbalanced ↦
          rw (groups, not_zero, unbalanced, found, round)
            (move_or_stop-IsProper (fastest_from first rest) slowest
              (best_from (fastest_from first rest).1 average task tasks) m' moves
              (has_group-IsNonEmpty slowest.0 m' slowest_covered) d)
    ]

rebalance-Distinct :
    (prognosis : LevelVector → ℕ) (is_balanced : ℕ → Bool) (durations : List (LevelVector × ℕ))
    (average left : ℕ) (m moves : List (LevelVector × ℕ))
    → 0 < average
    → IsNonEmpty m
    → Distinct (tasks_of moves)
    → (result : List (LevelVector × ℕ)) × (rebalance prognosis is_balanced durations average left m
          moves
        ≡ some result)
      × Distinct (tasks_of result)
      × (length (tasks_of result) ≤ length (tasks_of moves) + left)
unfolding rebalance
rebalance-Distinct prognosis is_balanced durations average zero m moves positive n d =
    (moves, refl, d, omega arith)
rebalance-Distinct prognosis is_balanced durations average (suc left) m moves positive n d =
    by_round (round prognosis is_balanced durations average m moves)
      (round-IsProper prognosis is_balanced durations average m moves positive n d) refl
      (λ m' moves' n' d'.
        rebalance-Distinct prognosis is_balanced durations average left m' moves' positive n' d')
  where
    by_round :
        (r : Round)
        → IsProper moves r
        → round prognosis is_balanced durations average m moves ≡ r
        → ((m' moves' : List (LevelVector × ℕ))
            → IsNonEmpty m'
            → Distinct (tasks_of moves')
            → (result : List (LevelVector × ℕ)) × (rebalance prognosis is_balanced durations average
                  left m' moves'
                ≡ some result)
              × Distinct (tasks_of result)
              × (length (tasks_of result) ≤ length (tasks_of moves') + left))
        → (result : List (LevelVector × ℕ)) × (rebalance prognosis is_balanced durations average
              (suc left)
              m
              moves
            ≡ some result)
          × Distinct (tasks_of result)
          × (length (tasks_of result) ≤ length (tasks_of moves) + suc left)
    by_round stop p e again = (moves, rw (e, rebalance) refl, d, omega arith)
    by_round undefined p e again = elim p [ ]
    by_round (go_on m' moves') p e again =
        let (result, runs, distinct, size) = again m' moves' p.0 p.1 in
        (result, rw (e, rebalance) runs, distinct, omega (arith, size, p.2))

-- With at least one task that has a group, and an average duration that is not 0, eval returns; it
-- moves no task twice, and at most max_iterations tasks.
pub eval-Distinct :
    (prognosis : LevelVector → ℕ) (is_balanced : ℕ → Bool) (max_iterations : ℕ)
    (group_of durations : List (LevelVector × ℕ))
    → IsNonEmpty group_of
    → 0 < sum (map (λ t. t.1) durations) / length group_of
    → (moves : List (LevelVector × ℕ)) × (eval prognosis is_balanced max_iterations group_of
          durations
        ≡ some moves)
      × Distinct (tasks_of moves)
      × (length (tasks_of moves) ≤ max_iterations)
unfolding eval
eval-Distinct prognosis is_balanced max_iterations [] durations n positive = elim n [ ]
eval-Distinct prognosis is_balanced max_iterations (t ∷ group_of) durations n positive =
    let not_zero : (suc (length group_of) == 0) ≡ false = ground arith in
    let (moves, runs, distinct, size) =
      rebalance-Distinct prognosis is_balanced durations
        (sum (map (λ t. t.1) durations) / length (t ∷ group_of)) max_iterations (t ∷ group_of) []
        positive n tt in
    (moves, rw not_zero runs, distinct, omega arith)
