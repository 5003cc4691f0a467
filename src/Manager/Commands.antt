-- ===== src/Manager/Commands.antt =====
-- The calls of the process manager to one group, as data.
use dis_co_tec.Prelude.{ℕ, Bool, List, Option}
use dis_co_tec.Level.{LevelVector}
use dis_co_tec.Manager.{
  Task, Group, Outcome, done, assertion_failed, Reply, runfirst, add_task, reschedule_add_task,
  recompute, combine, init_dsgus, combine_system_wide, wait_for_third_level_size_update, runnext,
  update_combi_parameters, parallel_eval, write_sparse_grid_min_max_coefficients, wait_status,
  get_status, reschedule_remove_task,
}
use dis_co_tec.Manager.Files.{
  wait_for_third_level_combi_result, write_combigrids_to_vtk_plot_file, write_dsgs_to_disk,
  read_dsgs_from_disk, combine_third_level_file_based, combine_third_level_file_based_write,
  combine_third_level_file_based_read_reduce,
}

pub data Command : Type 0 where
  runs_first adds reschedules recomputes : Task → Command
  removes : LevelVector → Command
  runs_next combines inits combines_system_wide waits_for_sizes : Command
  updates : List ℕ → Command
  evaluates : LevelVector → List ℕ → Command
  writes_min_max : List ℕ → Command
  waits : Reply → Command
  tests : Option Reply → Command
  waits_for_result writes_vtk : Reply → Command
  writes_dsgs reads_dsgs : Reply → List ℕ → Command
  combines_by_file : Reply → Reply → List ℕ → List ℕ → List ℕ → List ℕ → Command
  combines_write combines_read : Reply → Reply → List ℕ → List ℕ → Command

abbrev pub group_of : {A : Type 0} → Outcome (Group × A) → Outcome Group
group_of (done (g, a)) = done g
group_of assertion_failed = assertion_failed

unfoldable pub execute : Bool → Command → Group → Outcome Group
execute ft (runs_first t) g = done (runfirst t g).0
execute ft (adds t) g = done (add_task t g).0
execute ft (reschedules t) g = done (reschedule_add_task t g).0
execute ft (recomputes t) g = done (recompute t g).0
execute ft (removes lv) g = done (reschedule_remove_task lv g).0
execute ft runs_next g = group_of (runnext g)
execute ft combines g = group_of (combine g)
execute ft inits g = group_of (init_dsgus g)
execute ft combines_system_wide g = group_of (combine_system_wide g)
execute ft waits_for_sizes g = group_of (wait_for_third_level_size_update g)
execute ft (updates params) g = group_of (update_combi_parameters params g)
execute ft (evaluates lv name) g = group_of (parallel_eval lv name g)
execute ft (writes_min_max name) g = done (write_sparse_grid_min_max_coefficients name g)
execute ft (waits reply) g = done (wait_status ft reply g).0
execute ft (tests reply) g = done (get_status ft reply g).0
execute ft (waits_for_result reply) g = group_of (wait_for_third_level_combi_result ft reply g)
execute ft (writes_vtk reply) g = group_of (write_combigrids_to_vtk_plot_file ft reply g)
execute ft (writes_dsgs reply name) g = group_of (write_dsgs_to_disk ft reply name g)
execute ft (reads_dsgs reply name) g = group_of (read_dsgs_from_disk ft reply name g)
execute ft (combines_by_file reply after write token read start) g =
    group_of (combine_third_level_file_based ft reply after write token read start g)
execute ft (combines_write reply after write token) g =
    group_of (combine_third_level_file_based_write ft reply after write token g)
execute ft (combines_read reply after read start) g =
    group_of (combine_third_level_file_based_read_reduce ft reply after read start g)
