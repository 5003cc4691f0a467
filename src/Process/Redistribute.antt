-- ===== src/Process/Redistribute.antt =====
-- Giving tasks to the groups by their numbers: redistribute and recompute of
-- src/manager/ProcessManager.cpp.
use mathlib.Core.List.{Perm, perm_middle}
use mathlib.Core.List.Perm
use dis_co_tec.Prelude.{
  ℕ, ◌+◌, ◌≤◌, ◌<◌, ◌≡◌, refl, sym, ◌∙◌, subst, Bool, true, some, List, [], ◌∷◌, ◌++◌, arith,
  length, all,
}
use dis_co_tec.Manager
use dis_co_tec.Manager.{Task, Group}
use dis_co_tec.Process.{ProcessManager, Result, returns, ◌>>=◌, assign, wait_for_all_groups_to_wait}
use dis_co_tec.Process.Recovery.{find_task, assign_ids, redistribute, recompute}
use dis_co_tec.Process.Wait.{Prompt, replies, NoneFailed, containers}
use dis_co_tec.Process.Assign.{
  held, Takes, add_task-Takes, recompute-Takes, Assigned, assign-Assigned,
}
use dis_co_tec.Process.AllWait.{AllWait}
use dis_co_tec.Process.Count.{busies-le, wait_for_all_groups_to_wait-Finished}

-- The tasks with these numbers, as find_task finds them.
abbrev pub Named : List Task → List ℕ → List Task → Type 0
Named all [] [] = Unit
Named all [] (t ∷ ts) = ⊥
Named all (id ∷ ids) [] = ⊥
Named all (id ∷ ids) (t ∷ ts) = (find_task id all ≡ some t) × Named all ids ts

-- What the manager p has done when it returns: each of the tasks ts is in one container once more than
-- before, all groups wait, and the tasks of the manager are as they were.
abbrev pub Gives : List Task → ProcessManager → Result ProcessManager → Type 0
Gives ts p result =
    (q : ProcessManager) × (result ≡ returns q)
    × (Perm (held (containers q.pgroups)) (ts ++ held (containers p.pgroups))
        × (AllWait q.pgroups × (q.tasks ≡ p.tasks)))

module _ (call : Task → Group → Group × Bool) (takes : Takes call) where
  assign_ids-Assigned :
      (ids : List ℕ) (ts : List Task) (p : ProcessManager)
      → Named p.tasks ids ts
      → 0 < length p.pgroups
      → NoneFailed p.pgroups
      → Prompt p.polls
      → length ts ≤ replies p.polls
      → (q : ProcessManager) × (assign_ids (assign call) ids p ≡ returns q)
        × Assigned call takes ts p q
  unfolding assign_ids
  assign_ids-Assigned [] [] p named some_group h prompt enough = (
    p,
    refl,
    (Perm.refl (held (containers p.pgroups)), (h, (prompt, (refl, (omega arith, refl))))),
  )
  assign_ids-Assigned [] (t ∷ ts) p named some_group h prompt enough = elim named [ ]
  assign_ids-Assigned (id ∷ ids) [] p named some_group h prompt enough = elim named [ ]
  assign_ids-Assigned (id ∷ ids) (t ∷ ts) p named some_group h prompt enough =
      let (q, run, (one, (alive, (prompt', (same, (le, same_tasks)))))) =
        assign-Assigned call takes t p some_group h prompt (omega arith) in
      let (r, run', (all, (alive', (prompt2, (same', (le', same_tasks')))))) =
        assign_ids-Assigned ids ts q (rw same_tasks named.1) (omega (arith, same)) alive prompt'
          (omega (arith, le)) in
      (
        r,
        rw (named.0, assign_ids, run) run',
        (
          Perm.trans all
              (Perm.trans (Perm.append_left ts one) (perm_middle ts (held (containers p.pgroups)))),
          (alive', (prompt2, (same' ∙ same, (omega (arith, le, le'), same_tasks' ∙ same_tasks)))),
        ),
      )

  give_and_wait :
      (ids : List ℕ) (ts : List Task) (p : ProcessManager)
      → Named p.tasks ids ts
      → 0 < length p.pgroups
      → NoneFailed p.pgroups
      → Prompt p.polls
      → length ts + length p.pgroups ≤ replies p.polls
      → Gives ts p (assign_ids (assign call) ids p >>= wait_for_all_groups_to_wait)
  give_and_wait ids ts p named some_group h prompt enough =
      let (q, run, (held_q, (alive, (prompt', (groups, (le, same_tasks)))))) =
        assign_ids-Assigned ids ts p named some_group h prompt (omega arith) in
      let (r, run', (same, (all, (_, (_, same_tasks'))))) =
        wait_for_all_groups_to_wait-Finished q alive prompt'
          (omega (arith, busies-le q.pgroups, groups, le)) in
      (
        r,
        rw run run',
        (
          subst (λ c. Perm (held c) (ts ++ held (containers p.pgroups))) (sym same) held_q,
          (all, same_tasks' ∙ same_tasks),
        ),
      )

-- If find_task finds the tasks ts by these numbers, there is a group, none has failed, tests find
-- nothing yet or a group that is done, and they find one as often as there are tasks and groups, then
-- redistribute, and recompute after a failed recovery, return with each task given to one group,
-- once, all groups waiting, and the tasks of the manager as they were.
pub redistribute-Gives :
    (ids : List ℕ) (ts : List Task) (p : ProcessManager) (recovered_groups : List ℕ)
    → Named p.tasks ids ts
    → 0 < length p.pgroups
    → NoneFailed p.pgroups
    → Prompt p.polls
    → length ts + length p.pgroups ≤ replies p.polls
    → Gives ts p (redistribute ids p) × Gives ts p (recompute ids true recovered_groups p)
unfolding redistribute recompute
redistribute-Gives ids ts p recovered_groups named some_group h prompt enough = (
  give_and_wait Manager.add_task add_task-Takes ids ts p named some_group h prompt enough,
  give_and_wait Manager.recompute recompute-Takes ids ts p named some_group h prompt enough,
)
