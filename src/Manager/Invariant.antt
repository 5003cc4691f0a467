-- ===== src/Manager/Invariant.antt =====
-- The agreement of the two sides and the distinct task numbers, after each command.
use mathlib.Core.List.{append_assoc}
use dis_co_tec.Prelude.{
  ℕ, suc, ◌≡◌, refl, sym, ap, ◌∙◌, ◌≢◌, Bool, true, false, List, [], ◌∷◌, ◌++◌, map, Option, none,
  some, arith, All, Bool-cases, Option-cases, inl, inr,
}
use dis_co_tec.Level.{LevelVector}
use dis_co_tec.Manager.Signals.{Signal}
use dis_co_tec.Manager.{
  Task, signal, task, archive, level_vector, task_id, Group, Outcome, is_waiting,
  store_and_send_task, update_combi_parameters, parallel_eval,
  write_sparse_grid_min_max_coefficients, take_level, reschedule_remove_task, get_status, Reply,
  wait_status, asserting, signal_when_waiting, send_signal_and_receive, runnext,
}
use dis_co_tec.Manager.Worker.{Worker, ready_with, remove_task, wait}
use dis_co_tec.Manager.Commands.{group_of}
use dis_co_tec.Manager.Mirror.{
  ids, Mirrored, advance, store_and_send_task-Mirrored, IsQuiet, quiet-Mirrored, Holds,
  wait_status-Mirrored,
}
use dis_co_tec.Manager.Files.{asserting_wait, send_names}
use dis_co_tec.Manager.Sends.{send_names-tasks, send_names-Mirrored}
use dis_co_tec.Manager.Removal.{
  Distinct, take_level-remove_task, Distinct-remove_task, store_and_send_task-Distinct,
}

-- Both invariants together.
abbrev pub Inv : Group → Type 0
Inv g = Mirrored g × Distinct (ids g.tasks)

pub add-Inv :
    (t : Task) (s : Signal) (g : Group)
    → ((w : Worker) (t : Task)
        → wait w (signal s ∷ task t ∷ []) ≡ some (ready_with (w.tasks ++ t.id ∷ []) w, []))
    → Inv g
    → All (λ j. j ≢ t.id) (ids g.tasks)
    → Inv (store_and_send_task t s g).0
add-Inv t s g adding inv fresh = (
  store_and_send_task-Mirrored s t g adding inv.0,
  store_and_send_task-Distinct t s g inv.1 fresh,
)

pub reschedule_remove_task-Inv :
    (lv : LevelVector) (g : Group) → Inv g → Inv (reschedule_remove_task lv g).0
unfolding reschedule_remove_task
reschedule_remove_task-Inv lv g ((w, m), d) = elim (Option-cases (take_level lv g.tasks)) [
  | inl e ↦ rw (e, reschedule_remove_task) ((w, m), d)
  | inr ((t, rest), e) ↦
      let same : remove_task t.id (ids g.tasks) ≡ ids rest =
        take_level-remove_task lv g.tasks rest t e d in
      rw (e, reschedule_remove_task)
        (
          (
            ready_with (remove_task t.id w.tasks) w,
            advance g _ w _ (signal Signal.reschedule_remove_task ∷ task_id t.id ∷ []) m
                (unfold wait in refl)
                (append_assoc g.sent (signal Signal.reschedule_remove_task ∷ [])
                  (task_id t.id ∷ []))
                (unfold ready_with in sym same ∙ ap (remove_task t.id) m.same_tasks)
                (unfold ready_with in ap suc m.same_count),
          ),
          rw (← same) (Distinct-remove_task t.id (ids g.tasks) d),
        )
]

-- A command that asserts that the group waits and then sends signals with their payload.
asserting-Inv :
    (g r : Group) (b : Bool)
    → Inv g
    → Mirrored r
    → r.tasks ≡ g.tasks
    → Holds Inv (group_of (asserting g (r, b)))
asserting-Inv g r b i m tasks = elim (Bool-cases (is_waiting g.status)) [
  | inl e ↦ rw e (m, rw tasks i.1)
  | inr e ↦ rw e tt
]

pub signal_when_waiting-Inv :
    (s : Signal) (g : Group)
    → IsQuiet (signal s ∷ [])
    → Inv g
    → Holds Inv (group_of (signal_when_waiting s g))
unfolding signal_when_waiting
signal_when_waiting-Inv s g quiet i =
    asserting-Inv g _ true i (quiet-Mirrored g _ (signal s ∷ []) quiet i.0 refl refl refl) refl

pub runnext-Inv : (g : Group) → Inv g → Holds Inv (group_of (runnext g))
unfolding runnext
runnext-Inv g i = elim (Bool-cases (is_waiting g.status)) [
  | inr e ↦ rw e tt
  | inl e ↦ rw e (by_tasks g.tasks refl)
]
  where
    by_tasks :
        (ts : List Task)
        → g.tasks ≡ ts
        → Inv
            (elim g.tasks as (λ _. Group × Bool) [
              | [] ↦ (g, false)
              | _ ↦ (send_signal_and_receive Signal.run_next g, true)
            ]).0
    by_tasks [] e = rw e i
    by_tasks (t ∷ ts) e =
        let m : Mirrored (send_signal_and_receive Signal.run_next g) =
          quiet-Mirrored g _ (signal Signal.run_next ∷ []) (λ w. unfold wait in refl) i.0 refl refl
            refl in
        rw e (m, i.1)

pub update-Inv :
    (params : List ℕ) (g : Group) → Inv g → Holds Inv (group_of (update_combi_parameters params g))
unfolding update_combi_parameters
update-Inv params g i =
    asserting-Inv g _ true i
      (quiet-Mirrored g _ (signal Signal.update_combi_parameters ∷ archive params ∷ [])
        (λ w. unfold wait in refl) i.0 (append_assoc g.sent _ _) refl refl)
      refl

pub evaluate-Inv :
    (lv : LevelVector) (name : List ℕ) (g : Group)
    → Inv g
    → Holds Inv (group_of (parallel_eval lv name g))
unfolding parallel_eval
evaluate-Inv lv name g i =
    asserting-Inv g _ true i
      (quiet-Mirrored g _ (signal Signal.parallel_eval ∷ level_vector lv ∷ archive name ∷ [])
        (λ w. unfold wait in refl) i.0
        (append_assoc (g.sent ++ signal Signal.parallel_eval ∷ []) _ _ ∙ append_assoc g.sent _ _)
        refl refl)
      refl

pub write_min_max-Inv :
    (name : List ℕ) (g : Group) → Inv g → Inv (write_sparse_grid_min_max_coefficients name g)
unfolding write_sparse_grid_min_max_coefficients
write_min_max-Inv name g i = (
  quiet-Mirrored g _ (signal Signal.write_dsg_minmax_coefficients ∷ archive name ∷ [])
      (λ w. unfold wait in refl) i.0 (append_assoc g.sent _ _) refl refl,
  i.1,
)

pub wait_status-tasks :
    (ft : Bool) (reply : Reply) (g : Group) → (wait_status ft reply g).0.tasks ≡ g.tasks
unfolding wait_status
wait_status-tasks ft reply g = ground arith

pub wait_status-Inv :
    (ft : Bool) (reply : Reply) (g : Group) → Inv g → Inv (wait_status ft reply g).0
wait_status-Inv ft reply g i =
    (wait_status-Mirrored ft reply g i.0, rw (wait_status-tasks ft reply g) i.1)

pub get_status-Inv :
    (ft : Bool) (reply : Option Reply) (g : Group) → Inv g → Inv (get_status ft reply g).0
unfolding get_status
get_status-Inv ft none g i = i
get_status-Inv ft (some reply) g i = wait_status-Inv ft reply g i

-- The commands that wait first.
pub asserting_wait-Inv :
    (ft : Bool) (reply : Reply) (g : Group) (rest : Group → Outcome (Group × Bool))
    → ((g' : Group) → Inv g' → Holds Inv (group_of (rest g')))
    → Inv g
    → Holds Inv (group_of (asserting_wait ft reply g rest))
unfolding asserting_wait
asserting_wait-Inv ft reply g rest later i =
    elim (Bool-cases (is_waiting (wait_status ft reply g).1)) [
      | inl e ↦ rw e (later (wait_status ft reply g).0 (wait_status-Inv ft reply g i))
      | inr e ↦ rw e tt
    ]

pub send_names-Inv :
    (s : Signal) (names : List (List ℕ)) (g : Group)
    → IsQuiet (signal s ∷ map archive names)
    → Inv g
    → Inv (send_names s names g)
send_names-Inv s names g quiet i =
    (send_names-Mirrored s names g quiet i.0, rw (send_names-tasks s names g) i.1)
