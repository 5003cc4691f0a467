-- ===== src/Manager.antt =====
-- The process groups as their manager sees them: ProcessGroupManager of src/manager. Messages to the
-- group's master are a trace; a reply of the group is an argument of the call that waits for it.
pub mod Signals
pub mod Worker
pub mod Files
pub mod Commands
pub mod Mirror
pub mod Sends
pub mod Removal
pub mod Invariant
pub mod Reach
pub mod Faulty
use dis_co_tec.Prelude.{
  ℕ, zero, suc, ◌+◌, Bool, true, false, ◌&&◌, List, [], ◌∷◌, ◌++◌, ◌==◌, if◌then◌else◌, Option,
  none, some,
}
use dis_co_tec.Level.{LevelVector, vector_eq}
use Signals.{Signal}
use Signals

-- StatusType
pub data Status : Type 0 where
  waiting busy failed : Status

-- What the manager knows of a task: its number and its level vector.
pub record Task : Type 0 where
  pub id : ℕ
  pub level : LevelVector

-- What goes to the group's master: a signal, a serialised task, a serialised object (its archive),
-- a level vector, or the number of a task.
pub data Message : Type 0 where
  signal : Signal → Message
  task : Task → Message
  archive : List ℕ → Message
  level_vector : LevelVector → Message
  task_id : ℕ → Message

-- The members of ProcessGroupManager; `posted` counts the status receives that recvStatus started.
pub record Group : Type 0 where
  pub status : Status
  pub tasks : List Task
  pub sent : List Message
  pub posted : ℕ

-- A debug build stops at a failed assert.
pub data Outcome {ℓ} (A : Type ℓ) : Type ℓ where
  done : A → Outcome A
  assertion_failed : Outcome A

abbrev pub is_waiting : Status → Bool
is_waiting waiting = true
is_waiting busy = false
is_waiting failed = false

unfoldable pub start : Group
start = record { status = waiting; tasks = []; sent = []; posted = 0 }

unfoldable pub send : Message → Group → Group
send m g = record g { sent = g.sent ++ m ∷ [] }

unfoldable pub send_signal_to_process_group : Signal → Group → Group
unfolding send
send_signal_to_process_group s g = send (signal s) g

unfoldable pub recv_status : Group → Group
recv_status g = record g { posted = suc g.posted }

unfoldable pub set_process_group_busy_and_receive : Group → Group
unfolding recv_status
set_process_group_busy_and_receive g = recv_status (record g { status = busy })

unfoldable pub send_signal_and_receive : Signal → Group → Group
unfolding send_signal_to_process_group set_process_group_busy_and_receive
send_signal_and_receive s g = set_process_group_busy_and_receive (send_signal_to_process_group s g)

unfoldable pub store_task_reference : Task → Group → Group
store_task_reference t g = record g { tasks = g.tasks ++ t ∷ [] }

unfoldable pub send_task_to_process_group : Task → Signal → Group → Group × Bool
unfolding send_signal_to_process_group set_process_group_busy_and_receive send
send_task_to_process_group t s g =
    (set_process_group_busy_and_receive (send (task t) (send_signal_to_process_group s g)), true)

-- The function storeTaskReferenceAndSendTaskToProcessGroup.
unfoldable pub store_and_send_task : Task → Signal → Group → Group × Bool
unfolding store_task_reference send_task_to_process_group
store_and_send_task t s g =
    if is_waiting g.status
    then send_task_to_process_group t s (store_task_reference t g)
    else (g, false)

unfoldable pub runfirst : Task → Group → Group × Bool
unfolding store_and_send_task
runfirst t g = store_and_send_task t Signal.run_first g

unfoldable pub add_task : Task → Group → Group × Bool
unfolding store_and_send_task
add_task t g = store_and_send_task t Signal.add_task g

unfoldable pub reschedule_add_task : Task → Group → Group × Bool
unfolding store_and_send_task
reschedule_add_task t g = store_and_send_task t Signal.reschedule_add_task g

-- The result of the send is dropped.
unfoldable pub recompute : Task → Group → Group × Bool
unfolding store_and_send_task
recompute t g = ((store_and_send_task t Signal.recompute g).0, true)

unfoldable pub refresh_task : Task → Group → Group × Bool
unfolding send_task_to_process_group
refresh_task t g =
    if is_waiting g.status then send_task_to_process_group t Signal.add_task g else (g, false)

-- assert(status_ == PROCESS_GROUP_WAIT)
abbrev pub asserting : {A : Type 0} → Group → A → Outcome A
asserting g a = if is_waiting g.status then done a else assertion_failed

-- combine, initDsgus, combineSystemWide, waitForThirdLevelSizeUpdate and resetTasksWorker: assert that
-- the group waits, and send their signal.
unfoldable pub signal_when_waiting : Signal → Group → Outcome (Group × Bool)
unfolding send_signal_and_receive
signal_when_waiting s g = asserting g (send_signal_and_receive s g, true)

unfoldable pub combine : Group → Outcome (Group × Bool)
unfolding signal_when_waiting
combine g = signal_when_waiting Signal.combine g

unfoldable pub init_dsgus : Group → Outcome (Group × Bool)
unfolding signal_when_waiting
init_dsgus g = signal_when_waiting Signal.init_dsgus g

unfoldable pub combine_system_wide : Group → Outcome (Group × Bool)
unfolding signal_when_waiting
combine_system_wide g = signal_when_waiting Signal.combine_local_and_global g

unfoldable pub wait_for_third_level_size_update : Group → Outcome (Group × Bool)
unfolding signal_when_waiting
wait_for_third_level_size_update g = signal_when_waiting Signal.wait_for_tl_size_update g

unfoldable pub reset_tasks_worker : Group → Outcome (Group × Bool)
unfolding signal_when_waiting
reset_tasks_worker g = signal_when_waiting Signal.reset_tasks g

unfoldable pub runnext : Group → Outcome (Group × Bool)
unfolding send_signal_and_receive
runnext g =
    asserting g (elim g.tasks [
      | [] ↦ (g, false)
      | t ∷ ts ↦ (send_signal_and_receive Signal.run_next g, true)
    ])

unfoldable pub exit : Group → Group × Bool
unfolding send_signal_and_receive
exit g = if is_waiting g.status then (send_signal_and_receive Signal.exit g, true) else (g, false)

unfoldable pub recover_communicators : Group → Outcome (Group × Bool)
unfolding send_signal_to_process_group
recover_communicators g = asserting g (send_signal_to_process_group Signal.recover_comm g, true)

unfoldable pub update_combi_parameters : List ℕ → Group → Outcome (Group × Bool)
unfolding send_signal_to_process_group send set_process_group_busy_and_receive
update_combi_parameters params g = asserting g (
  set_process_group_busy_and_receive
      (send (archive params) (send_signal_to_process_group Signal.update_combi_parameters g)),
  true,
)

unfoldable pub parallel_eval : LevelVector → List ℕ → Group → Outcome (Group × Bool)
unfolding send_signal_to_process_group send set_process_group_busy_and_receive
parallel_eval leval filename g = asserting g (
  set_process_group_busy_and_receive (
      send (archive filename)
        (send (level_vector leval) (send_signal_to_process_group Signal.parallel_eval g))),
  true,
)

unfoldable pub write_sparse_grid_min_max_coefficients : List ℕ → Group → Group
unfolding send_signal_to_process_group send set_process_group_busy_and_receive
write_sparse_grid_min_max_coefficients filename g =
    set_process_group_busy_and_receive (
      send (archive filename) (send_signal_to_process_group Signal.write_dsg_minmax_coefficients g))

-- The reply of a group: the status that its master sends, or, under fault tolerance, the report
-- that a process of it has failed.
pub data Reply : Type 0 where
  delivers : Status → Reply
  proc_failed : Reply

abbrev pub after_reply : Bool → Reply → Status
after_reply enable_ft (delivers s) = s
after_reply true proc_failed = failed
after_reply false proc_failed = busy

unfoldable pub wait_status : Bool → Reply → Group → Group × Status
wait_status enable_ft reply g = elim g.status [
  | waiting ↦ (g, waiting)
  | failed ↦ (g, failed)
  | busy ↦ (record g { status = after_reply enable_ft reply }, after_reply enable_ft reply)
]

-- getStatus tests the request: the reply may not be there yet.
unfoldable pub get_status : Bool → Option Reply → Group → Group × Status
unfolding wait_status
get_status enable_ft none g = (g, g.status)
get_status enable_ft (some reply) g = wait_status enable_ft reply g

-- doDiagnostics: wait, then send the signal and the number if the task is in the container.
has_task : ℕ → List Task → Bool
has_task id [] = false
has_task id (t ∷ ts) = if t.id == id then true else has_task id ts

unfoldable pub do_diagnostics : Bool → Reply → ℕ → Group → Outcome Group
unfolding wait_status has_task send send_signal_to_process_group
do_diagnostics enable_ft reply id g =
    let (g', s) = wait_status enable_ft reply g in
    if is_waiting s && has_task id g'.tasks
    then done (send (task_id id) (send_signal_to_process_group Signal.do_diagnostics g'))
    else assertion_failed

-- The first task of the level, and the container without it.
unfoldable pub take_level : LevelVector → List Task → Option (Task × List Task)
take_level lv [] = none
take_level lv (t ∷ ts) =
    let later = take_level lv ts in
    if vector_eq t.level lv
    then some (t, ts)
    else elim later [ none ↦ none | some (u, us) ↦ some (u, t ∷ us) ]

-- rescheduleRemoveTask: the task that the group sends back is the second result, by its number.
unfoldable pub reschedule_remove_task : LevelVector → Group → Group × Option ℕ
unfolding take_level send send_signal_to_process_group set_process_group_busy_and_receive
reschedule_remove_task lv g = elim (take_level lv g.tasks) [
  | none ↦ (g, none)
  | some (t, rest) ↦ (
    record (set_process_group_busy_and_receive
        (send (task_id t.id) (send_signal_to_process_group Signal.reschedule_remove_task g))) {
          tasks = rest;
        },
    some t.id,
  )
]
