-- ===== src/Tests/Balance.antt =====
-- Durations of two tasks, and a group that has both of them.
use dis_co_tec.Prelude.{
  ℕ, ◌*◌, ◌/◌, ◌≤◌, ◌≡◌, refl, Bool, some, List, [], ◌∷◌, length, sum, ◌==◌, arith, keep_if,
}
use dis_co_tec.Prelude.Int.{pos}
use dis_co_tec.Level.{LevelVector, equals_with_size_check}
use dis_co_tec.LoadModel.{LoadModel, eval_specific_uot, durations_of}
use dis_co_tec.LoadModel.Window.{add_all, last, eval_specific_uot-last}
use dis_co_tec.Rescheduler.{eval}
use dis_co_tec.Rescheduler.Redirect.{Distinct, tasks_of}
use dis_co_tec.Rescheduler.Moves.{eval-Distinct}

abbrev small : LevelVector
small = 1 ∷ []

abbrev large : LevelVector
large = 2 ∷ []

-- The last two durations count.
abbrev model : LoadModel
model = record { last_n = 2; durations = (small, []) ∷ (large, []) ∷ [] }

no_durations : durations_of large model.durations ≡ []
unfolding durations_of equals_with_size_check
no_durations = refl

eval_specific_uot-last_example :
    eval_specific_uot large (add_all (9 ∷ 4 ∷ 7 ∷ []) large model)
    ≡ some (pos (sum (last 2 (9 ∷ 4 ∷ 7 ∷ [])) / length (last 2 (9 ∷ 4 ∷ 7 ∷ []))))
eval_specific_uot-last_example =
    eval_specific_uot-last large model (9 ∷ 4 ∷ 7 ∷ []) (omega arith) no_durations (omega arith)
      (omega arith)

abbrev groups : List (LevelVector × ℕ)
groups = (small, 0) ∷ (large, 0) ∷ (3 ∷ [], 1) ∷ []

abbrev measured : List (LevelVector × ℕ)
measured = (small, 10) ∷ (large, 40) ∷ (3 ∷ [], 10) ∷ []

abbrev guess : LevelVector → ℕ
guess l = sum l * 10

abbrev small_quotient : ℕ → Bool
small_quotient q = q == 0

eval-Distinct_example :
    (moves : List (LevelVector × ℕ)) × (eval guess small_quotient 5 groups measured ≡ some moves)
    × Distinct (tasks_of moves)
    × (length (tasks_of moves) ≤ 5)
eval-Distinct_example = eval-Distinct guess small_quotient 5 groups measured tt (omega arith)

-- The small task moves to group 1.
one_move : eval guess small_quotient 1 groups measured ≡ some ((small, 1) ∷ [])
unfolding eval equals_with_size_check keep_if
one_move = refl
