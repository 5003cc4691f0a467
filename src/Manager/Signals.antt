-- ===== src/Manager/Signals.antt =====
-- The signals of src/manager/ProcessGroupSignals.hpp, and their numbers on the wire.
use dis_co_tec.Prelude.{ℕ}

pub data Signal : Type 0 where
  run_next eval grid_eval combine exit sync_tasks combine_fg grid_gather : Signal
  update_combi_parameters add_task recompute check_dead_procs recover_comm parallel_eval : Signal
  reset_tasks init_dsgus reschedule_add_task reschedule_remove_task : Signal
  combine_local_and_global combine_third_level wait_for_tl_combi_result : Signal
  reduce_subspace_sizes_tl wait_for_tl_size_update write_dfgs_to_vtk run_first get_l2_norm : Signal
  get_l1_norm get_max_norm parallel_eval_norm eval_analytical_norm eval_error_norm : Signal
  interpolate_values do_diagnostics write_dsg_minmax_coefficients : Signal
  write_interpolated_values_per_grid reduce_subspace_sizes_tl_and_allocate_extra_sg : Signal
  write_dsgs_to_disk read_dsgs_from_disk combine_third_level_file combine_write_dsgs : Signal
  combine_read_dsgs_and_reduce interpolate_values_and_send_back : Signal
  interpolate_values_and_write_single_file : Signal

-- SignalType
unfoldable pub code : Signal → ℕ
code run_next = 1
code eval = 2
code grid_eval = 3
code combine = 4
code exit = 5
code sync_tasks = 6
code combine_fg = 8
code grid_gather = 11
code update_combi_parameters = 12
code add_task = 13
code recompute = 14
code check_dead_procs = 15
code recover_comm = 16
code parallel_eval = 17
code reset_tasks = 19
code init_dsgus = 20
code reschedule_add_task = 21
code reschedule_remove_task = 22
code combine_local_and_global = 23
code combine_third_level = 24
code wait_for_tl_combi_result = 25
code reduce_subspace_sizes_tl = 26
code wait_for_tl_size_update = 27
code write_dfgs_to_vtk = 28
code run_first = 29
code get_l2_norm = 30
code get_l1_norm = 31
code get_max_norm = 32
code parallel_eval_norm = 33
code eval_analytical_norm = 34
code eval_error_norm = 35
code interpolate_values = 36
code do_diagnostics = 37
code write_dsg_minmax_coefficients = 38
code write_interpolated_values_per_grid = 39
code reduce_subspace_sizes_tl_and_allocate_extra_sg = 40
code write_dsgs_to_disk = 41
code read_dsgs_from_disk = 42
code combine_third_level_file = 43
code combine_write_dsgs = 44
code combine_read_dsgs_and_reduce = 45
code interpolate_values_and_send_back = 46
code interpolate_values_and_write_single_file = 47
