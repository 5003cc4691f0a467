-- ===== src/Process/Assign.antt =====
-- Giving tasks to the groups: assign_all of src/manager/ProcessManager.cpp, as runfirst uses it.
use mathlib.Core.List.Perm
use mathlib.Core.Option.{some-injective, none-ne-some}
use mathlib.Core.List.{Perm, perm_middle, append_assoc}
use dis_co_tec.Prelude.{
  ℕ, zero, suc, ◌+◌, ◌≤◌, ◌<◌, ◌≡◌, refl, sym, ap, ◌∙◌, subst, ◌≢◌, Bool, List, [], ◌∷◌, ◌++◌,
  arith, length, all,
}
use dis_co_tec.Manager
use dis_co_tec.Manager.{Task, Group, waiting, Status, busy, failed, Reply}
use dis_co_tec.Process.{ProcessManager, returns, modify, assign, assign_all}
use dis_co_tec.Process.Wait.{
  length-containers, Prompt, replies, NoneFailed, containers, WaitsAt, wait-Found,
}

-- The tasks in all containers.
abbrev pub held : List (List Task) → List Task
held [] = []
held (ts ∷ tss) = ts ++ held tss

-- What a waiting group does with a task that it takes.
abbrev pub Takes : (Task → Group → Group × Bool) → Type 0
Takes call =
    (t : Task) (g : Group)
    → g.status ≡ waiting
    → ((call t g).0.tasks ≡ g.tasks ++ t ∷ []) × ((call t g).0.status ≡ busy)

pub runfirst-Takes : Takes Manager.runfirst
unfolding Manager.runfirst Manager.store_and_send_task Manager.store_task_reference
    Manager.send_task_to_process_group
runfirst-Takes t g e = (rw e refl, rw e refl)

pub add_task-Takes : Takes Manager.add_task
unfolding Manager.add_task Manager.store_and_send_task Manager.store_task_reference
    Manager.send_task_to_process_group
add_task-Takes t g e = (rw e refl, rw e refl)

pub recompute-Takes : Takes Manager.recompute
unfolding Manager.recompute Manager.store_and_send_task Manager.store_task_reference
    Manager.send_task_to_process_group
recompute-Takes t g e = (rw e refl, rw e refl)

pub length-modify :
    (f : Group → Group) (i : ℕ) (gs : List Group) → length (modify f i gs) ≡ length gs
length-modify f i [] = refl
length-modify f zero (g ∷ gs) = refl
length-modify f (suc i) (g ∷ gs) = ap suc (length-modify f i gs)

here_waits : (g : Group) (gs : List Group) → WaitsAt (g ∷ gs) 0 → g.status ≡ waiting
here_waits g gs (g', at, waits) = ap (λ h. h.status) (some-injective g g' at) ∙ waits

busy_not_failed : {s : Status} → s ≡ busy → s ≢ failed
busy_not_failed e f = cc

module _ (call : Task → Group → Group × Bool) (takes : Takes call) where
  pub modify-NoneFailed :
      (t : Task) (i : ℕ) (gs : List Group)
      → WaitsAt gs i
      → NoneFailed gs
      → NoneFailed (modify (λ g. (call t g).0) i gs)
  modify-NoneFailed t i [] w h = h
  modify-NoneFailed t zero (g ∷ gs) w h = (busy_not_failed (takes t g (here_waits g gs w)).1, h.1)
  modify-NoneFailed t (suc i) (g ∷ gs) w h = (h.0, modify-NoneFailed t i gs w h.1)

  pub held-modify :
      (t : Task) (i : ℕ) (gs : List Group)
      → WaitsAt gs i
      → Perm (held (containers (modify (λ g. (call t g).0) i gs))) (t ∷ held (containers gs))
  held-modify t i [] (g', at, waits) = absurd (none-ne-some g' at)
  held-modify t zero (g ∷ gs) w =
      subst (λ ts. Perm ts (t ∷ (g.tasks ++ held (containers gs))))
        (sym (
          ap (λ ts. ts ++ held (containers gs)) (takes t g (here_waits g gs w)).0
          ∙ append_assoc g.tasks (t ∷ []) (held (containers gs))))
        (perm_middle g.tasks (held (containers gs)))
  held-modify t (suc i) (g ∷ gs) w =
      Perm.trans (Perm.append_left g.tasks (held-modify t i gs w))
        (perm_middle g.tasks (held (containers gs)))

  -- What the groups are after the tasks ts went to them.
  abbrev pub Assigned : List Task → ProcessManager → ProcessManager → Type 0
  Assigned ts p q =
      Perm (held (containers q.pgroups)) (ts ++ held (containers p.pgroups))
      × (NoneFailed q.pgroups
          × (Prompt q.polls
              × ((length q.pgroups ≡ length p.pgroups)
                  × ((replies p.polls ≤ length ts + replies q.polls) × (q.tasks ≡ p.tasks)))))

  pub assign-Assigned :
      (t : Task) (p : ProcessManager)
      → 0 < length p.pgroups
      → NoneFailed p.pgroups
      → Prompt p.polls
      → 0 < replies p.polls
      → (q : ProcessManager) × (assign call t p ≡ returns q) × Assigned (t ∷ []) p q
  unfolding assign
  assign-Assigned t p some_group h prompt some_reply =
      let (i, q, run, ((same, (alive, prompt')), (waits, (le, ts)))) =
        wait-Found p some_group h prompt some_reply in
      (
        record q { pgroups = modify (λ g. (call t g).0) i q.pgroups },
        rw run refl,
        (
          subst
              (λ c. Perm (held (containers (modify (λ g. (call t g).0) i q.pgroups))) (t ∷ held c))
              same (held-modify t i q.pgroups waits),
          (
            modify-NoneFailed t i q.pgroups waits alive,
            (
              prompt',
              (
                length-modify (λ g. (call t g).0) i q.pgroups
                    ∙ length-containers p.pgroups q.pgroups same,
                (omega (arith, le), ts),
              ),
            ),
          ),
        ),
      )

  -- If there is a group, none has failed, and tests find nothing yet or a group that is done, as often
  -- as there are tasks, then the loop that waits for a group and gives it a task returns; each
  -- task is then in exactly one container once more than it was, and no group has failed.
  pub assign_all-Assigned :
      (ts : List Task) (p : ProcessManager)
      → 0 < length p.pgroups
      → NoneFailed p.pgroups
      → Prompt p.polls
      → length ts ≤ replies p.polls
      → (q : ProcessManager) × (assign_all call ts p ≡ returns q) × Assigned ts p q
  unfolding assign_all
  assign_all-Assigned [] p some_group h prompt enough = (
    p,
    refl,
    (Perm.refl (held (containers p.pgroups)), (h, (prompt, (refl, (omega arith, refl))))),
  )
  assign_all-Assigned (t ∷ ts) p some_group h prompt enough =
      let (q, run, (one, (alive, (prompt', (same, (le, same_tasks)))))) =
        assign-Assigned t p some_group h prompt (omega arith) in
      let (r, run', (all, (alive', (prompt2, (same', (le', same_tasks')))))) =
        assign_all-Assigned ts q (omega (arith, same)) alive prompt' (omega (arith, le)) in
      (
        r,
        rw run run',
        (
          Perm.trans all
              (Perm.trans (Perm.append_left ts one) (perm_middle ts (held (containers p.pgroups)))),
          (alive', (prompt2, (same' ∙ same, (omega (arith, le, le'), same_tasks' ∙ same_tasks)))),
        ),
      )
