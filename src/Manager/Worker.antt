-- ===== src/Manager/Worker.antt =====
-- The other end: how ProcessGroupWorker::wait of src/manager/ProcessGroupWorker.cpp answers the
-- messages, as far as the task container and the ready messages go. What the combination and the
-- output do to the grids is left out.
use dis_co_tec.Prelude.{
  ℕ, zero, suc, List, [], ◌∷◌, ◌++◌, ◌==◌, if◌then◌else◌, Option, none, some, ◌≡◌,
}
use dis_co_tec.Manager.Signals.{Signal}
use dis_co_tec.Manager.{Message, signal, task, task_id}

-- The numbers of the tasks in the container, and how often the status went to the manager.
pub record Worker : Type 0 where
  pub tasks : List ℕ
  pub ready : ℕ

abbrev pub worker_start : Worker
worker_start = record { tasks = []; ready = 0 }

unfoldable pub ready_with : List ℕ → Worker → Worker
ready_with tasks w = record { tasks = tasks; ready = suc w.ready }

-- receiveAndInitializeTask
unfoldable pub receive_and_initialize_task : Worker → List Message → Option (Worker × List Message)
unfolding ready_with
receive_and_initialize_task w (task t ∷ ms) = some (ready_with (w.tasks ++ t.id ∷ []) w, ms)
receive_and_initialize_task w _ = none

-- Only one task has the number: the first is removed.
unfoldable pub remove_task : ℕ → List ℕ → List ℕ
remove_task id [] = []
remove_task id (t ∷ ts) = if t == id then ts else t ∷ remove_task id ts

unfoldable pub receive_and_remove_task : Worker → List Message → Option (Worker × List Message)
unfolding ready_with remove_task
receive_and_remove_task w (task_id id ∷ ms) = some (ready_with (remove_task id w.tasks) w, ms)
receive_and_remove_task w _ = none

-- A case that reads some strings or vectors and leaves the tasks as they are.
unfoldable pub receive_payload : ℕ → Worker → List Message → Option (Worker × List Message)
unfolding ready_with
receive_payload zero w ms = some (ready_with w.tasks w, ms)
receive_payload (suc n) w [] = none
receive_payload (suc n) w (m ∷ ms) = receive_payload n w ms

-- The switch of wait, without the cases of the third level, the norms and the interpolation; `none`
-- also stands for the exception for an unknown signal, and for a message that does not come.
unfoldable pub handle : Signal → Worker → List Message → Option (Worker × List Message)
unfolding receive_and_initialize_task receive_and_remove_task receive_payload
handle Signal.run_first w ms = receive_and_initialize_task w ms
handle Signal.run_next w ms = receive_payload 0 w ms
handle Signal.add_task w ms = receive_and_initialize_task w ms
handle Signal.reset_tasks w ms = some (ready_with [] w, ms)
handle Signal.exit w ms = some (ready_with [] w, ms)
handle Signal.init_dsgus w ms = receive_payload 0 w ms
handle Signal.combine w ms = receive_payload 0 w ms
handle Signal.combine_local_and_global w ms = receive_payload 0 w ms
handle Signal.combine_write_dsgs w ms = receive_payload 2 w ms
handle Signal.combine_read_dsgs_and_reduce w ms = receive_payload 2 w ms
handle Signal.combine_third_level_file w ms = receive_payload 4 w ms
handle Signal.wait_for_tl_combi_result w ms = receive_payload 0 w ms
handle Signal.wait_for_tl_size_update w ms = receive_payload 0 w ms
handle Signal.write_dfgs_to_vtk w ms = receive_payload 0 w ms
handle Signal.write_dsgs_to_disk w ms = receive_payload 1 w ms
handle Signal.read_dsgs_from_disk w ms = receive_payload 1 w ms
handle Signal.update_combi_parameters w ms = receive_payload 1 w ms
handle Signal.recompute w ms = receive_and_initialize_task w ms
handle Signal.recover_comm w ms = some (w, ms)
handle Signal.parallel_eval w ms = receive_payload 2 w ms
handle Signal.do_diagnostics w ms = receive_payload 1 w ms
handle Signal.reschedule_add_task w ms = receive_and_initialize_task w ms
handle Signal.reschedule_remove_task w ms = receive_and_remove_task w ms
handle Signal.write_dsg_minmax_coefficients w ms = receive_payload 1 w ms
handle _ w ms = none

unfoldable pub wait : Worker → List Message → Option (Worker × List Message)
unfolding handle
wait w (signal s ∷ ms) = handle s w ms
wait w _ = none

-- The worker has served all of a trace, one call of wait after the other.
pub data Served : List Message → Worker → Type 0 where
  nothing : Served [] worker_start
  next :
      (sent block : List Message) {all : List Message} {w w' : Worker}
      → Served sent w
      → wait w block ≡ some (w', [])
      → all ≡ sent ++ block
      → Served all w'
