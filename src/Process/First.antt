-- ===== src/Process/First.antt =====
-- The first run of all tasks: runfirst of src/manager/ProcessManager.cpp.
use mathlib.Core.List.{Permᴰ, Perm}
use mathlib.Core.List.Perm
use mathlib.Core.Logic.{∥∥₁_elim}
use native.Mathlib.Nat.{ℕ_set}
use dis_co_tec.Prelude.{
  suc, ◌+◌, ◌≤◌, ◌<◌, ◌≡◌, refl, sym, ap, ◌∙◌, subst, Bool, true, false, List, [], ◌∷◌, ◌++◌, arith,
  length, all, ltb,
}
use dis_co_tec.Manager
use dis_co_tec.Manager.{Task}
use dis_co_tec.Process.{ProcessManager, returns, runfirst}
use dis_co_tec.Process.Wait.{Prompt, replies, NoneFailed, containers, length-containers}
use dis_co_tec.Process.Assign.{held, runfirst-Takes, assign_all-Assigned}
use dis_co_tec.Process.AllWait.{AllWait, AllWait-NoneFailed, wait_all_finished-Finished}
use dis_co_tec.Process.Count.{busies, combine-Ends}

length-perm {ℓ} : {A : Type ℓ} {xs ys : List A} → Permᴰ xs ys → length xs ≡ length ys
length-perm Permᴰ.nil = refl
length-perm (Permᴰ.cons e p) = ap suc (length-perm p)
length-perm (Permᴰ.swap e f) = refl
length-perm (Permᴰ.trans p q) = length-perm p ∙ length-perm q

length-Perm {ℓ} : {A : Type ℓ} {xs ys : List A} → Perm xs ys → length xs ≡ length ys
length-Perm p = ∥∥₁_elim p (ℕ_set _ _) length-perm

AllWait-busies : (gs : List Manager.Group) → AllWait gs → busies gs ≡ 0
AllWait-busies [] h = refl
AllWait-busies (g ∷ gs) h = rw h.0 (omega (arith, AllWait-busies gs h.1))

-- What the manager p is after the first run: every task of its list is in one container once more than
-- before, and all groups wait.
abbrev pub RunFirst : ProcessManager → ProcessManager → Type 0
RunFirst p q =
    Perm (held (containers q.pgroups)) (p.tasks ++ held (containers p.pgroups))
    × (AllWait q.pgroups × Perm q.tasks p.tasks)

module _ (sort_tasks : List Task → List Task)
    (sorts : (ts : List Task) → Perm (sort_tasks ts) ts) where
  -- If sorting permutes the tasks, there is a group and at most as many groups as tasks, none has
  -- failed, tests find nothing yet or a group that is done, and they find one as often as there are
  -- tasks and twice the groups, then runfirst returns true, no assertion fails, each task of the
  -- manager is given to one group, once, and all groups wait.
  pub runfirst-RunFirst :
      (do_init_dsgus : Bool) (p : ProcessManager)
      → 0 < length p.pgroups
      → length p.pgroups ≤ length p.tasks
      → NoneFailed p.pgroups
      → Prompt p.polls
      → length p.tasks + (length p.pgroups + length p.pgroups) ≤ replies p.polls
      → (q : ProcessManager) × (runfirst sort_tasks do_init_dsgus p ≡ returns (true, q))
        × RunFirst p q
  unfolding runfirst
  runfirst-RunFirst do_init_dsgus p some_group le h prompt enough =
      let sorted = sort_tasks p.tasks in
      let n : length sorted ≡ length p.tasks = length-Perm (sorts p.tasks) in
      let (q, run, (held_q, (alive, (prompt', (groups, (le_q, ts)))))) =
        assign_all-Assigned Manager.runfirst runfirst-Takes sorted (record p { tasks = sorted })
          some_group h prompt (omega (arith, n)) in
      let (r, run', (same, (all, (prompt2, (le_r, ts'))))) =
        wait_all_finished-Finished q alive prompt' (omega (arith, groups, le_q, n)) in
      let groups' : length r.pgroups ≡ length p.pgroups =
        length-containers q.pgroups r.pgroups same ∙ groups in
      let (s, run2, (same2, (all2, (_, (_, ts2))))) =
        (combine-Ends r (AllWait-NoneFailed r.pgroups all) prompt2
          (omega (arith, AllWait-busies r.pgroups all, groups', groups, le_q, le_r, n))).1.0 in
      let no_assertion : ltb (length sorted) (length p.pgroups) ≡ false = ground (arith, n) in
      let tasks_of : (c : List (List Task))
          → c ≡ containers q.pgroups
          → Perm (held c) (p.tasks ++ held (containers p.pgroups)) =
        λ c e.
          subst (λ d. Perm (held d) (p.tasks ++ held (containers p.pgroups))) (sym e)
            (Perm.trans held_q (Perm.append_right (held (containers p.pgroups)) (sorts p.tasks))) in
      elim do_init_dsgus
        as (λ b.
          (q : ProcessManager) × (runfirst sort_tasks b p ≡ returns (true, q)) × RunFirst p q) [
            | true ↦ (
              s,
              rw (no_assertion, run, run', run2) refl,
              (
                tasks_of (containers s.pgroups) (same2 ∙ same),
                (all2, subst (λ x. Perm x p.tasks) (sym (ts2 ∙ ts' ∙ ts)) (sorts p.tasks)),
              ),
            )
            | false ↦ (
              r,
              rw (no_assertion, run, run') refl,
              (
                tasks_of (containers r.pgroups) same,
                (all, subst (λ x. Perm x p.tasks) (sym (ts' ∙ ts)) (sorts p.tasks)),
              ),
            )
          ]
