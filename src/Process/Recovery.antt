-- ===== src/Process/Recovery.antt =====
-- What follows a fault: the redistribution and the recomputation of tasks, and the recovery of the
-- groups, of src/manager/ProcessManager.{hpp,cpp}. A group is named by its position in the list.
use mathlib.Core.Option
use dis_co_tec.Prelude.{
  ℕ, zero, suc, Bool, true, false, not, ◌||◌, Option, none, some, List, [], ◌∷◌, ◌++◌, map, length,
  keep_if, ◌==◌, if◌then◌else◌,
}
use dis_co_tec.Manager
use dis_co_tec.Manager.{Task, Group, Reply, Status, waiting, is_waiting, Outcome}
use dis_co_tec.Process.{
  ProcessManager, Result, returns, aborted, assertion_failed, polling, ◌>>=◌, poll_status, modify,
  assign, is_failed, wait_for_pg, wait_all_finished, wait_for_all_groups_to_wait,
}

unfoldable pub find_task : ℕ → List Task → Option Task
find_task id [] = none
find_task id (t ∷ ts) = let rest = find_task id ts in if t.id == id then some t else rest

abbrev pub is_in : ℕ → List ℕ → Bool
is_in n [] = false
is_in n (m ∷ ms) = (n == m) || is_in n ms

-- What a round of waitAvoid does with a group: the group, whether it is found waiting, and the polls.
abbrev pub poll_unless :
    Bool → Bool → Group → List (Option Reply) → Group × (Bool × List (Option Reply))
poll_unless true ft g polls = (g, (false, polls))
poll_unless false ft g polls =
    let polled = poll_status ft g polls in (polled.0, (is_waiting polled.1.0, polled.1.1))

unfoldable pub wait_avoid_round :
    Bool
    → List ℕ
    → ℕ
    → List Group
    → List (Option Reply)
    → List Group × (List (Option Reply) × Option ℕ)
wait_avoid_round ft avoid_groups i [] polls = ([], (polls, none))
wait_avoid_round ft avoid_groups i (g ∷ gs) polls =
    let polled = poll_unless (is_in i avoid_groups) ft g polls in
    let rest = wait_avoid_round ft avoid_groups (suc i) gs polled.1.1 in
    if polled.1.0
    then (polled.0 ∷ gs, (polled.1.1, some 0))
    else (polled.0 ∷ rest.0, (rest.1.0, Option.map suc rest.1.1))

unfoldable pub wait_avoid_loop :
    ℕ
    → Bool
    → List ℕ
    → List Group
    → List (Option Reply)
    → Result (ℕ × (List Group × List (Option Reply)))
unfolding wait_avoid_round
wait_avoid_loop zero ft avoid_groups groups polls = polling
wait_avoid_loop (suc fuel) ft avoid_groups groups polls =
    let round = wait_avoid_round ft avoid_groups 0 groups polls in
    let rest = wait_avoid_loop fuel ft avoid_groups round.0 round.1.0 in
    elim round.1.1 [ some i ↦ returns (i, (round.0, round.1.0)) | none ↦ rest ]

unfoldable pub wait_avoid : List ℕ → ProcessManager → Result (ℕ × ProcessManager)
unfolding wait_avoid_loop
wait_avoid avoid_groups p = do
  found ← wait_avoid_loop (suc (length p.polls)) p.enable_ft avoid_groups p.pgroups p.polls
  returns (found.0, record p { pgroups = found.1.0; polls = found.1.1 })

unfoldable pub assign_avoiding :
    List ℕ → (Task → Group → Group × Bool) → Task → ProcessManager → Result ProcessManager
unfolding wait_avoid
assign_avoiding avoid_groups call t p = do
  found ← wait_avoid avoid_groups p
  returns (record found.1 { pgroups = modify (λ g. (call t g).0) found.0 found.1.pgroups })

-- The loops of redistribute and recompute: find a task by its number, and give it to a group.
unfoldable pub assign_ids :
    (Task → ProcessManager → Result ProcessManager)
    → List ℕ
    → ProcessManager
    → Result ProcessManager
unfolding find_task
assign_ids give [] p = returns p
assign_ids give (id ∷ ids) p = elim (find_task id p.tasks) [
  | none ↦ assertion_failed
  | some t ↦ give t p >>= assign_ids give ids
]

unfoldable pub redistribute : List ℕ → ProcessManager → Result ProcessManager
unfolding assign_ids assign wait_for_all_groups_to_wait
redistribute ids p = assign_ids (assign Manager.add_task) ids p >>= wait_for_all_groups_to_wait

unfoldable pub recompute : List ℕ → Bool → List ℕ → ProcessManager → Result ProcessManager
unfolding assign_ids assign assign_avoiding wait_for_all_groups_to_wait
recompute ids failed_recovery recovered_groups p =
    let give =
      (if failed_recovery
        then assign Manager.recompute
        else assign_avoiding recovered_groups Manager.recompute) in
    assign_ids give ids p >>= wait_for_all_groups_to_wait

abbrev pub task_ids : List Task → List ℕ
task_ids ts = map (λ t. t.id) ts

-- The groups, the numbers of the failed tasks, the failed groups, and the polls.
unfoldable pub group_fault_loop :
    Bool
    → ℕ
    → List Group
    → List (Option Reply)
    → Option (List Group × (List ℕ × (List ℕ × List (Option Reply))))
unfolding wait_for_pg
group_fault_loop ft i [] polls = some ([], ([], ([], polls)))
group_fault_loop ft i (g ∷ gs) polls = elim (wait_for_pg ft g polls) [
  | none ↦ none
  | some one ↦ elim (group_fault_loop ft (suc i) gs one.1.1) [
    | none ↦ none
    | some rest ↦ some (
        if one.1.0
        then (one.0 ∷ rest.0, (task_ids one.0.tasks ++ rest.1.0, (i ∷ rest.1.1.0, rest.1.1.1)))
        else (one.0 ∷ rest.0, rest.1))
  ]
]

unfoldable pub get_group_fault_ids : ProcessManager → Result ((List ℕ × List ℕ) × ProcessManager)
unfolding group_fault_loop
get_group_fault_ids p = elim (group_fault_loop p.enable_ft 0 p.pgroups p.polls) [
  | none ↦ polling
  | some r ↦ returns ((r.1.0, r.1.1.0), record p { pgroups = r.0; polls = r.1.1.1 })
]

-- Send the signal to the groups that wait.
unfoldable pub recover_loop :
    Bool → List Group → List (Option Reply) → Result (List Group × List (Option Reply))
unfolding poll_status
recover_loop ft [] polls = returns ([], polls)
recover_loop ft (g ∷ gs) polls =
    let polled = poll_status ft g polls in
    let rest = recover_loop ft gs polled.1.1 in
    if is_waiting polled.1.0
    then elim (Manager.recover_communicators polled.0) [
      | Manager.assertion_failed ↦ assertion_failed
      | Manager.done one ↦ rest >>= λ r. returns (one.0 ∷ r.0, r.1)
    ]
    else (rest >>= λ r. returns (polled.0 ∷ r.0, r.1))

abbrev pub set_status : Status → Group → Group
set_status s g = record g { status = s }

unfoldable pub reset_failed : List ℕ → List Group → List Group
reset_failed [] gs = gs
reset_failed (i ∷ is) gs = reset_failed is (modify (set_status waiting) i gs)

abbrev pub remove_failed : List Group → List Group
remove_failed gs = keep_if (λ g. not (is_failed g.status)) gs

-- Whether the recovery by the MPI system failed is an argument; MPI_Abort has the result aborted.
unfoldable pub recover_communicators : Bool → List ℕ → ProcessManager → Result ProcessManager
unfolding wait_all_finished recover_loop reset_failed
recover_communicators failed_recovery failed_groups p =
    if length p.pgroups == length failed_groups then aborted else (do
      finished ← wait_all_finished p
      let q : ProcessManager = finished.1
      groups ← recover_loop q.enable_ft q.pgroups q.polls
      returns (record q {
        pgroups =
            (if failed_recovery
              then remove_failed groups.0
              else reset_failed failed_groups groups.0);
        polls = groups.1;
      }))
