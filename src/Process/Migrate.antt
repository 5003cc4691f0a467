-- ===== src/Process/Migrate.antt =====
-- Moving a task between groups: a turn of the loop of reschedule of src/manager/ProcessManager.cpp.
use mathlib.Core.Option.{some-injective, none-ne-some}
use mathlib.Core.List.{Perm, perm_middle}
use mathlib.Core.List.Perm
use dis_co_tec.Prelude.{
  ℕ, zero, suc, ◌+◌, ◌≤◌, ◌<◌, ◌≡◌, refl, sym, ◌∙◌, subst, inl, inr, Bool, false, some, List, [],
  ◌∷◌, arith, length, get_elem?, set, all, length-set,
}
use dis_co_tec.Level.{LevelVector}
use dis_co_tec.Manager
use dis_co_tec.Manager.{Task, Group, Reply, waiting, busy, take_level, reschedule_remove_task}
use dis_co_tec.Manager.Removal.{take_level-cases}
use dis_co_tec.Process.{ProcessManager, returns, modify, wait_all_finished}
use dis_co_tec.Process.Reschedule.{group_of_level, migrate}
use dis_co_tec.Process.Wait.{
  Prompt, replies, NoneFailed, WaitsAt, containers, busy_not_failed, length-containers,
}
use dis_co_tec.Process.Assign.{held, Takes, length-modify, held-modify, modify-NoneFailed}
use dis_co_tec.Process.AllWait.{AllWait, AllWait-NoneFailed, wait_all_finished-Finished}

take_level-Perm :
    (lv : LevelVector) (ts rest : List Task) (t : Task)
    → take_level lv ts ≡ some (t, rest)
    → Perm ts (t ∷ rest)
unfolding take_level
take_level-Perm lv [] rest t e = cc
take_level-Perm lv (u ∷ us) rest t e = elim (take_level-cases lv u us rest t e) [
  | inl (same, tail) ↦ rw (same, tail) (Perm.refl (t ∷ rest))
  | inr (vs, found, tail) ↦
      rw tail (Perm.trans (Perm.cons u (take_level-Perm lv us vs t found)) (Perm.swap t u vs))
]

module _ (t : Task) (g g' : Group) (less : Perm g.tasks (t ∷ g'.tasks))
    (is_busy : g'.status ≡ busy) where
  held-set :
      (gs : List Group) (i : ℕ)
      → get_elem? gs i ≡ some g
      → Perm (held (containers gs)) (t ∷ held (containers (set gs i g')))
  held-set [] i e = absurd (none-ne-some g e)
  held-set (h ∷ gs) zero e =
      rw (some-injective h g e) (Perm.append_right (held (containers gs)) less)
  held-set (h ∷ gs) (suc i) e =
      Perm.trans (Perm.append_left h.tasks (held-set gs i e))
        (perm_middle h.tasks (held (containers (set gs i g'))))

  set-NoneFailed : (gs : List Group) (i : ℕ) → NoneFailed gs → NoneFailed (set gs i g')
  set-NoneFailed [] i h = tt
  set-NoneFailed (k ∷ gs) zero h = ((λ f. busy_not_failed (sym is_busy ∙ f)), h.1)
  set-NoneFailed (k ∷ gs) (suc i) h = (h.0, set-NoneFailed gs i h.1)

AllWait-WaitsAt : (gs : List Group) (i : ℕ) → i < length gs → AllWait gs → WaitsAt gs i
AllWait-WaitsAt [] i lt h = absurd (omega arith)
AllWait-WaitsAt (g ∷ gs) zero lt h = (g, refl, h.0)
AllWait-WaitsAt (g ∷ gs) (suc i) lt h = AllWait-WaitsAt gs i (omega arith) h.1

reschedule_add_task-Takes : Takes Manager.reschedule_add_task
unfolding Manager.reschedule_add_task Manager.store_and_send_task Manager.store_task_reference
    Manager.send_task_to_process_group
reschedule_add_task-Takes t g e = (rw e refl, rw e refl)

-- What the group is after it gave the task of level lv away.
removed :
    (lv : LevelVector) (g : Group) (t : Task) (rest : List Task)
    → take_level lv g.tasks ≡ some (t, rest)
    → (g' : Group) × (reschedule_remove_task lv g ≡ (g', some t.id))
      × (g'.tasks ≡ rest)
      × (g'.status ≡ busy)
unfolding reschedule_remove_task Manager.set_process_group_busy_and_receive Manager.recv_status
    Manager.send Manager.send_signal_to_process_group
removed lv g t rest e = (
  (reschedule_remove_task lv g).0,
  rw (e, reschedule_remove_task) refl,
  rw (e, reschedule_remove_task) refl,
  rw (e, reschedule_remove_task) refl,
)

abbrev given : ℕ → LevelVector → ℕ → ProcessManager → ProcessManager
given id lv to q = record q {
  pgroups =
      modify (λ h. (Manager.reschedule_add_task (record { id = id; level = lv }) h).0) to q.pgroups;
}

migrate-returns :
    (entries : List (LevelVector × ℕ)) (lv : LevelVector) (from to : ℕ) (p q r : ProcessManager)
    (g g' : Group) (id : ℕ) (b c : Bool)
    → group_of_level lv entries ≡ some from
    → get_elem? p.pgroups from ≡ some g
    → reschedule_remove_task lv g ≡ (g', some id)
    → wait_all_finished (record p { pgroups = set p.pgroups from g' }) ≡ returns (b, q)
    → wait_all_finished (given id lv to q) ≡ returns (c, r)
    → migrate entries (lv, to) p ≡ returns r
unfolding migrate
migrate-returns entries lv from to p q r g g' id b c at_from at_g run run' run2 =
    rw (at_from, migrate, at_g, run, run', run2) refl

-- If the map sends the level to a group that holds a task of that level, the other group exists, none
-- has failed, tests find nothing yet or a group that is done, and they find one twice as often as
-- there are groups, then a turn of the loop of reschedule returns, no assertion fails, the groups
-- together hold the tasks that they held, and all wait.
pub migrate-Perm :
    (entries : List (LevelVector × ℕ)) (lv : LevelVector) (from to : ℕ) (p : ProcessManager)
    (g : Group) (id : ℕ) (rest : List Task)
    → group_of_level lv entries ≡ some from
    → get_elem? p.pgroups from ≡ some g
    → take_level lv g.tasks ≡ some (record { id = id; level = lv }, rest)
    → to < length p.pgroups
    → NoneFailed p.pgroups
    → Prompt p.polls
    → length p.pgroups + length p.pgroups ≤ replies p.polls
    → (q : ProcessManager) × (migrate entries (lv, to) p ≡ returns q)
      × (Perm (held (containers q.pgroups)) (held (containers p.pgroups)) × AllWait q.pgroups)
migrate-Perm entries lv from to p g id rest at_from at_g taken in_range h prompt enough =
    let t : Task = record { id = id; level = lv } in
    let (g', run, tasks, is_busy) = removed lv g t rest taken in
    let less : Perm g.tasks (t ∷ g'.tasks) = rw tasks (take_level-Perm lv g.tasks rest t taken) in
    let (q, run', (same, (all, (prompt', (le, _))))) =
      wait_all_finished-Finished (record p { pgroups = set p.pgroups from g' })
        (set-NoneFailed t g g' less is_busy p.pgroups from h) prompt
        (omega (arith, length-set p.pgroups from g')) in
    let n : length q.pgroups ≡ length p.pgroups =
      length-containers (set p.pgroups from g') q.pgroups same ∙ length-set p.pgroups from g' in
    let f : Group → Group = λ k. (Manager.reschedule_add_task t k).0 in
    let waits : WaitsAt q.pgroups to = AllWait-WaitsAt q.pgroups to (omega (arith, n)) all in
    let (r, run2, (same2, (all2, _))) =
      wait_all_finished-Finished (given id lv to q)
        (modify-NoneFailed Manager.reschedule_add_task reschedule_add_task-Takes t to q.pgroups
          waits (AllWait-NoneFailed q.pgroups all))
        prompt'
        (omega (arith, n, le, length-modify f to q.pgroups, length-set p.pgroups from g')) in
    (
      r,
      migrate-returns entries lv from to p q r g g' id false false at_from at_g run run' run2,
      (
        subst (λ c. Perm (held c) (held (containers p.pgroups))) (sym same2)
            (Perm.trans
              (held-modify Manager.reschedule_add_task reschedule_add_task-Takes t to q.pgroups
                waits)
              (subst (λ c. Perm (t ∷ held c) (held (containers p.pgroups))) (sym same)
                (Perm.symm (held-set t g g' less is_busy p.pgroups from at_g)))),
        all2,
      ),
    )
