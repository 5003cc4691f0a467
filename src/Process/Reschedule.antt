-- ===== src/Process/Reschedule.antt =====
-- Rescheduling, and the evaluation of the combined solution on a group: reschedule and parallelEval of
-- src/manager/ProcessManager.cpp. std::map::at throws on a missing key; here that is aborted.
use dis_co_tec.Prelude.{
  ℕ, suc, Bool, Option, none, some, List, [], ◌∷◌, ◌++◌, get_elem?, set, if◌then◌else◌,
}
use dis_co_tec.Level.{LevelVector, vector_eq}
use dis_co_tec.Manager
use dis_co_tec.Manager.{Task, Group, Outcome}
use dis_co_tec.Process.{
  ProcessManager, Result, returns, assertion_failed, aborted, ◌>>=◌, modify, wait_all_finished,
  none_failed,
}

unfoldable pub group_of_level : LevelVector → List (LevelVector × ℕ) → Option ℕ
group_of_level lv [] = none
group_of_level lv (entry ∷ entries) =
    let rest = group_of_level lv entries in if vector_eq entry.0 lv then some entry.1 else rest

-- std::map::insert keeps the entry that is there.
unfoldable pub insert_level : LevelVector → ℕ → List (LevelVector × ℕ) → List (LevelVector × ℕ)
unfolding group_of_level
insert_level lv i entries = elim (group_of_level lv entries) [
  | none ↦ entries ++ (lv, i) ∷ []
  | some j ↦ entries
]

unfoldable pub insert_levels : ℕ → List Task → List (LevelVector × ℕ) → List (LevelVector × ℕ)
unfolding insert_level
insert_levels i [] entries = entries
insert_levels i (t ∷ ts) entries = insert_levels i ts (insert_level t.level i entries)

unfoldable pub groups_of_levels : ℕ → List Group → List (LevelVector × ℕ) → List (LevelVector × ℕ)
unfolding insert_levels
groups_of_levels i [] entries = entries
groups_of_levels i (g ∷ gs) entries = groups_of_levels (suc i) gs (insert_levels i g.tasks entries)

-- Take the task of this level from its group and give it to another; the source does not test that there
-- is a group of this number.
unfoldable pub migrate :
    List (LevelVector × ℕ) → LevelVector × ℕ → ProcessManager → Result ProcessManager
unfolding group_of_level wait_all_finished
migrate entries (lv, to) p = elim (group_of_level lv entries) [
  | none ↦ aborted
  | some from ↦ elim (get_elem? p.pgroups from) [
    | none ↦ aborted
    | some g ↦
        let removed = Manager.reschedule_remove_task lv g in
        wait_all_finished (record p { pgroups = set p.pgroups from removed.0 }) >>= λ finished.
        elim removed.1 [
          | none ↦ assertion_failed
          | some id ↦
              let t : Task = record { id = id; level = lv } in
              let q = finished.1 in
              wait_all_finished (record q {
                pgroups = modify (λ h. (Manager.reschedule_add_task t h).0) to q.pgroups;
              })
              >>= λ all. returns all.1
        ]
  ]
]

unfoldable pub migrate_all :
    List (LevelVector × ℕ) → List (LevelVector × ℕ) → ProcessManager → Result ProcessManager
unfolding migrate
migrate_all entries [] p = returns p
migrate_all entries (move ∷ moves) p = migrate entries move p >>= migrate_all entries moves

unfoldable pub tasks_of_groups : List Group → List Task
tasks_of_groups [] = []
tasks_of_groups (g ∷ gs) = g.tasks ++ tasks_of_groups gs

-- The rescheduler, with the durations and the load model, is an argument.
unfoldable pub reschedule :
    (List (LevelVector × ℕ) → List (LevelVector × ℕ)) → ProcessManager → Result ProcessManager
unfolding groups_of_levels migrate_all tasks_of_groups
reschedule eval p = do
  let entries : List (LevelVector × ℕ) = groups_of_levels 0 p.pgroups []
  q ← migrate_all entries (eval entries) p
  returns (record q { tasks = tasks_of_groups q.pgroups })

-- Call one group; its result is dropped, but a failed assertion is not.
unfoldable pub call_at : (Group → Outcome (Group × Bool)) → ℕ → List Group → Result (List Group)
call_at call i gs = elim (get_elem? gs i) [
  | none ↦ assertion_failed
  | some g ↦ elim (call g) [
    | Manager.assertion_failed ↦ assertion_failed
    | Manager.done one ↦ returns (set gs i one.0)
  ]
]

unfoldable pub parallel_eval : LevelVector → List ℕ → ℕ → ProcessManager → Result ProcessManager
unfolding none_failed call_at
parallel_eval leval filename group_id p = do
  q ← none_failed p
  groups ← call_at (Manager.parallel_eval leval filename) group_id q.pgroups
  none_failed (record q { pgroups = groups })
