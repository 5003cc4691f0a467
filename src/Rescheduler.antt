-- ===== src/Rescheduler.antt =====
-- RebalancingTaskRescheduler::eval of src/rescheduler: which tasks move to which process group. The
-- maps are association lists in the order of their keys. The load model is an argument, its
-- evalSpecificUOT; so is the comparison of a quotient with the double min_inbalance_.
pub mod Groups
pub mod Redirect
pub mod Moves
use dis_co_tec.Prelude.{
  ℕ, zero, suc, ◌+◌, ◌-◌, ◌/◌, Bool, true, false, ◌&&◌, ◌||◌, Option, none, some, List, [], ◌∷◌,
  ◌++◌, map, length, sum, keep_if, ltb, leb, ◌==◌, if◌then◌else◌,
}
use dis_co_tec.Level.{LevelVector, vector_eq, equals_with_size_check}

-- The lexicographic order of std::map's keys.
unfoldable pub key_lt : LevelVector → LevelVector → Bool
key_lt [] [] = false
key_lt [] (y ∷ m) = true
key_lt (x ∷ l) [] = false
key_lt (x ∷ l) (y ∷ m) = ltb x y || ((x == y) && key_lt l m)

-- m[l] = g
unfoldable pub put_group : LevelVector → ℕ → List (LevelVector × ℕ) → List (LevelVector × ℕ)
unfolding key_lt
put_group l g [] = (l, g) ∷ []
put_group l g ((k, h) ∷ m) =
    if equals_with_size_check k l
    then (k, g) ∷ m
    else if key_lt l k
    then (l, g) ∷ (k, h) ∷ m
    else (k, h) ∷ put_group l g m

unfoldable pub find_group : LevelVector → List (LevelVector × ℕ) → Option ℕ
find_group l [] = none
find_group l ((k, g) ∷ m) = if equals_with_size_check k l then some g else find_group l m

-- m[l] reads 0 for a key that is not there, and puts it there.
unfoldable pub index_group : LevelVector → List (LevelVector × ℕ) → ℕ × List (LevelVector × ℕ)
unfolding find_group put_group
index_group l m = elim (find_group l m) [ none ↦ (0, put_group l 0 m) | some g ↦ (g, m) ]

-- processGroupIndexToDuration[g] += d, where the entry begins with 0.
unfoldable pub add_to_group : ℕ → ℕ → List (ℕ × ℕ) → List (ℕ × ℕ)
add_to_group g d [] = (g, d) ∷ []
add_to_group g d ((k, e) ∷ m) =
    if g == k
    then (k, e + d) ∷ m
    else if ltb g k
    then (g, d) ∷ (k, e) ∷ m
    else (k, e) ∷ add_to_group g d m

unfoldable pub init_groups : List (LevelVector × ℕ) → List (ℕ × ℕ) → List (ℕ × ℕ)
unfolding add_to_group
init_groups [] groups = groups
init_groups ((l, g) ∷ m) groups = init_groups m (add_to_group g 0 groups)

-- The durations of the tasks, added up for every group; the map of the groups may get new keys.
unfoldable pub add_durations :
    List (LevelVector × ℕ)
    → List (LevelVector × ℕ)
    → List (ℕ × ℕ)
    → List (LevelVector × ℕ) × List (ℕ × ℕ)
unfolding index_group add_to_group
add_durations [] group_of groups = (group_of, groups)
add_durations ((l, d) ∷ durations) group_of groups =
    let (g, group_of') = index_group l group_of in
    add_durations durations group_of' (add_to_group g d groups)

-- std::minmax_element: the first of the least and the last of the largest.
unfoldable pub fastest_from : ℕ × ℕ → List (ℕ × ℕ) → ℕ × ℕ
fastest_from best [] = best
fastest_from best (x ∷ xs) = fastest_from (if ltb x.1 best.1 then x else best) xs

unfoldable pub slowest_from : ℕ × ℕ → List (ℕ × ℕ) → ℕ × ℕ
slowest_from best [] = best
slowest_from best (x ∷ xs) = slowest_from (if ltb x.1 best.1 then best else x) xs

-- The tasks of a group with their prognosis.
unfoldable pub prognosis_of :
    (LevelVector → ℕ) → ℕ → List (LevelVector × ℕ) → List (LevelVector × ℕ)
prognosis_of prognosis g m = map (λ t. (t.0, prognosis t.0)) (keep_if (λ t. t.1 == g) m)

-- |fastest + a - average|
abbrev pub distance : ℕ → ℕ → ℕ → ℕ
distance fastest average a = (fastest + a - average) + (average - (fastest + a))

-- std::min_element: the first task that brings the fastest group closest to the average.
unfoldable pub best_from : ℕ → ℕ → LevelVector × ℕ → List (LevelVector × ℕ) → LevelVector × ℕ
best_from fastest average best [] = best
best_from fastest average best (x ∷ xs) =
    best_from fastest average
      (if ltb (distance fastest average x.1) (distance fastest average best.1) then x else best) xs

-- The search for a move of the same task: the group of the first one found is changed.
unfoldable pub redirect : LevelVector → ℕ → List (LevelVector × ℕ) → Option (List (LevelVector × ℕ))
redirect l g [] = none
redirect l g ((k, h) ∷ moves) =
    let rest = redirect l g moves in
    if vector_eq k l
    then some ((k, g) ∷ moves)
    else elim rest [ none ↦ none | some moves' ↦ some ((k, h) ∷ moves') ]

-- What a round of the while loop leads to: return, the next round with the map and the moves, or an
-- undefined operation (no groups, no task in the slowest group, an average of 0).
pub data Round : Type 0 where
  stop : Round
  go_on : List (LevelVector × ℕ) → List (LevelVector × ℕ) → Round
  undefined : Round

unfoldable pub move_or_stop :
    ℕ × ℕ → ℕ × ℕ → LevelVector × ℕ → List (LevelVector × ℕ) → List (LevelVector × ℕ) → Round
unfolding redirect put_group
move_or_stop fastest slowest task group_of moves =
    if ltb (fastest.1 + task.1) slowest.1
    then elim (redirect task.0 fastest.0 moves) [
      | none ↦ go_on (put_group task.0 fastest.0 group_of) (moves ++ (task.0, fastest.0) ∷ [])
      | some moves' ↦ go_on group_of moves'
    ]
    else stop

unfoldable pub round :
    (LevelVector → ℕ)
    → (ℕ → Bool)
    → List (LevelVector × ℕ)
    → ℕ
    → List (LevelVector × ℕ)
    → List (LevelVector × ℕ)
    → Round
unfolding init_groups add_durations fastest_from slowest_from prognosis_of best_from move_or_stop
round prognosis is_balanced durations average group_of moves =
    let (group_of', groups) = add_durations durations group_of (init_groups group_of []) in
    elim groups [
      | [] ↦ undefined
      | first ∷ rest ↦
          let fastest = fastest_from first rest in
          let slowest = slowest_from first rest in
          if average == 0
          then undefined
          else if is_balanced (slowest.1 / average)
          then stop
          else elim (prognosis_of prognosis slowest.0 group_of') [
            | [] ↦ undefined
            | task ∷ tasks ↦
                move_or_stop fastest slowest (best_from fastest.1 average task tasks) group_of'
                  moves
          ]
    ]

-- while (iteration < max_iterations_); a round that goes on counts as an iteration.
unfoldable pub rebalance :
    (LevelVector → ℕ)
    → (ℕ → Bool)
    → List (LevelVector × ℕ)
    → ℕ
    → ℕ
    → List (LevelVector × ℕ)
    → List (LevelVector × ℕ)
    → Option (List (LevelVector × ℕ))
unfolding round
rebalance prognosis is_balanced durations average zero group_of moves = some moves
rebalance prognosis is_balanced durations average (suc left) group_of moves =
    elim (round prognosis is_balanced durations average group_of moves) [
      | stop ↦ some moves
      | go_on group_of' moves' ↦
          rebalance prognosis is_balanced durations average left group_of' moves'
      | undefined ↦ none
    ]

-- numberOfProcessGroups is the size of the map from tasks to groups.
unfoldable pub eval :
    (LevelVector → ℕ)
    → (ℕ → Bool)
    → ℕ
    → List (LevelVector × ℕ)
    → List (LevelVector × ℕ)
    → Option (List (LevelVector × ℕ))
unfolding rebalance
eval prognosis is_balanced max_iterations group_of durations =
    let number_of_process_groups = length group_of in
    if number_of_process_groups == 0
    then none
    else rebalance prognosis is_balanced durations
        (sum (map (λ t. t.1) durations) / number_of_process_groups) max_iterations group_of []
