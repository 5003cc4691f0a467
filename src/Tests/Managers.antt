-- ===== src/Tests/Managers.antt =====
-- A process manager with two groups and three tasks.
use mathlib.Core.List.Perm
use mathlib.Core.List.{Perm}
use dis_co_tec.Prelude.{
  ℕ, zero, suc, ◌≡◌, refl, true, false, length, ◌≢◌, ◌⊎◌, Option, none, some, List, [], ◌∷◌, arith,
}
use dis_co_tec.Level.{LevelVector, vector_eq}
use dis_co_tec.Manager
use dis_co_tec.Manager.{Task, Group, Reply, delivers, waiting, take_level}
use dis_co_tec.Process.{
  ProcessManager, Result, poll_status, returns, aborted, assertion_failed, polling, wait, runfirst,
  combine, init_dsgus, combine_system_wide,
}
use dis_co_tec.Process.Recovery.{
  find_task, redistribute, recompute, wait_avoid, get_group_fault_ids, recover_communicators,
  remove_failed,
}
use dis_co_tec.Process.Reschedule.{reschedule, migrate, group_of_level}
use dis_co_tec.Process.Migrate.{migrate-Perm}
use dis_co_tec.Process.Assign.{held}
use dis_co_tec.Process.Recovered.{recover_communicators-left}
use dis_co_tec.Process.AllWait.{AllWait}
use dis_co_tec.Process.Redistribute.{Named, Gives, redistribute-Gives}
use dis_co_tec.Process.Wait.{
  containers, Found, replies, wait-Found, not_failed, busy_not_failed, group,
}
use dis_co_tec.Process.First.{RunFirst, runfirst-RunFirst}
use dis_co_tec.Process.Count.{Ends, combine-Ends}

abbrev a_task : ℕ → Task
a_task n = record { id = n; level = n ∷ 1 ∷ [] }

abbrev reply_polls : ℕ → List (Option Reply)
reply_polls zero = none ∷ []
reply_polls (suc n) = none ∷ some (delivers waiting) ∷ reply_polls n

abbrev a_pool : List Group → List Task → ℕ → ProcessManager
a_pool gs ts n = record {
  enable_ft = false;
  pgroups = gs;
  tasks = ts;
  params = [];
  polls = reply_polls n;
}

abbrev fresh : ProcessManager
fresh = a_pool (Manager.start ∷ Manager.start ∷ []) (a_task 0 ∷ a_task 1 ∷ a_task 2 ∷ []) 7

abbrev running : ProcessManager
running =
    a_pool (group Manager.busy (a_task 0 ∷ []) [] 1 ∷ group waiting (a_task 1 ∷ []) [] 2 ∷ []) [] 3

abbrev all_busy : ProcessManager
all_busy = a_pool (group Manager.busy [] [] 1 ∷ group Manager.busy [] [] 1 ∷ []) [] 1

abbrev swap_first : List Task → List Task
swap_first [] = []
swap_first (t ∷ []) = t ∷ []
swap_first (t ∷ u ∷ ts) = u ∷ t ∷ ts

swap_first-Perm : (ts : List Task) → Perm (swap_first ts) ts
swap_first-Perm [] = Perm.refl []
swap_first-Perm (t ∷ []) = Perm.refl (t ∷ [])
swap_first-Perm (t ∷ u ∷ ts) = Perm.swap t u ts

wait-Found_example :
    (i : ℕ) × (q : ProcessManager) × (wait all_busy ≡ returns (i, q)) × Found all_busy i q
wait-Found_example =
    wait-Found all_busy (omega arith) (busy_not_failed, (busy_not_failed, tt)) tt
      (unfold replies in omega arith)

runfirst-RunFirst_example :
    (q : ProcessManager) × (runfirst swap_first true fresh ≡ returns (true, q)) × RunFirst fresh q
runfirst-RunFirst_example =
    runfirst-RunFirst swap_first swap_first-Perm true fresh (omega arith) (omega arith)
      (unfold Manager.start in (not_failed refl, (not_failed refl, tt))) tt
      (unfold replies in omega arith)

combine-Ends_example :
    Ends running (combine running)
    × (Ends running (init_dsgus running) × Ends running (combine_system_wide running))
combine-Ends_example =
    combine-Ends running (busy_not_failed, (not_failed refl, tt)) tt (unfold replies in omega arith)

-- Groups that never reply.
no_reply : wait (a_pool (group Manager.busy [] [] 1 ∷ []) [] 0) ≡ polling
unfolding wait Manager.get_status
no_reply = refl

-- More groups than tasks.
too_few_tasks : runfirst swap_first true (a_pool (Manager.start ∷ []) [] 5) ≡ assertion_failed
unfolding runfirst
too_few_tasks = refl

unknown_task : redistribute (4 ∷ []) fresh ≡ assertion_failed
unfolding redistribute
unknown_task = refl

redistribute-Gives_example :
    Gives (a_task 1 ∷ a_task 1 ∷ []) fresh (redistribute (1 ∷ 1 ∷ []) fresh)
    × Gives (a_task 1 ∷ a_task 1 ∷ []) fresh (recompute (1 ∷ 1 ∷ []) true [] fresh)
redistribute-Gives_example =
    redistribute-Gives (1 ∷ 1 ∷ []) (a_task 1 ∷ a_task 1 ∷ []) fresh [] named (omega arith)
      (unfold Manager.start in (not_failed refl, (not_failed refl, tt))) tt
      (unfold replies in omega arith)
  where
    named : Named fresh.tasks (1 ∷ 1 ∷ []) (a_task 1 ∷ a_task 1 ∷ [])
    named = unfold find_task in (refl, (refl, tt))

abbrev with_fault : ProcessManager
with_fault =
    a_pool (group Manager.failed (a_task 0 ∷ []) [] 1 ∷ group waiting (a_task 1 ∷ []) [] 2 ∷ []) []
      0

failed_not_busy : Manager.failed ≢ Manager.busy
failed_not_busy e = cc

waiting_not_busy : waiting ≢ Manager.busy
waiting_not_busy e = cc

abbrev first_only : List ℕ
first_only = 0 ∷ []

recover_communicators-left_example :
    ((length with_fault.pgroups ≡ length first_only)
      × (recover_communicators true first_only with_fault ≡ aborted))
    ⊎ ((length with_fault.pgroups ≢ length first_only)
        × ((q : ProcessManager) × (recover_communicators true first_only with_fault ≡ returns q)
            × (AllWait q.pgroups
                × ((containers q.pgroups ≡ containers (remove_failed with_fault.pgroups))
                    × (q.polls ≡ with_fault.polls)))))
recover_communicators-left_example =
    recover_communicators-left first_only with_fault (failed_not_busy, (waiting_not_busy, tt))

-- The failed group and its task.
fault_ids : get_group_fault_ids with_fault ≡ returns ((0 ∷ [], 0 ∷ []), with_fault)
unfolding get_group_fault_ids
fault_ids = refl

-- A task is not recomputed on a recovered group.
avoids : wait_avoid (0 ∷ []) fresh ≡ returns (1, fresh)
unfolding wait_avoid Manager.start poll_status
avoids = refl

abbrev spread : ProcessManager
spread =
    a_pool (group waiting (a_task 0 ∷ a_task 1 ∷ []) [] 1 ∷ group waiting (a_task 2 ∷ []) [] 2 ∷ [])
      [] 2

abbrev container_ids : Result ProcessManager → List (List Task)
container_ids (returns p) = p.tasks ∷ containers p.pgroups
container_ids assertion_failed = []
container_ids aborted = []
container_ids polling = []

-- The task of level (0, 1) goes to the second group.
migrates :
    container_ids (reschedule (λ entries. (0 ∷ 1 ∷ [], 1) ∷ []) spread)
    ≡ (a_task 1 ∷ a_task 2 ∷ a_task 0 ∷ []) ∷ (a_task 1 ∷ []) ∷ (a_task 2 ∷ a_task 0 ∷ []) ∷ []
unfolding reschedule vector_eq Manager.reschedule_remove_task Manager.wait_status
    Manager.reschedule_add_task
migrates = refl

-- A level that no group has.
unknown_level : reschedule (λ entries. (7 ∷ 1 ∷ [], 1) ∷ []) spread ≡ aborted
unfolding reschedule vector_eq
unknown_level = refl

abbrev two_tasks : Group
two_tasks = group waiting (a_task 0 ∷ a_task 1 ∷ []) [] 1

abbrev two_groups : ProcessManager
two_groups = a_pool (two_tasks ∷ group waiting (a_task 2 ∷ []) [] 2 ∷ []) [] 4

abbrev level_0 : LevelVector
level_0 = 0 ∷ 1 ∷ []

migrate-Perm_example :
    (q : ProcessManager) × (migrate ((level_0, 0) ∷ []) (level_0, 1) two_groups ≡ returns q)
    × (Perm (held (containers q.pgroups)) (held (containers two_groups.pgroups))
        × AllWait q.pgroups)
migrate-Perm_example =
    migrate-Perm ((level_0, 0) ∷ []) level_0 0 1 two_groups two_tasks 0 (a_task 1 ∷ [])
      (unfold group_of_level vector_eq in refl) refl (unfold take_level vector_eq in refl)
      (omega arith) (not_failed refl, (not_failed refl, tt)) tt (unfold replies in omega arith)
