-- ===== src/Manager/Reach.antt =====
-- All states that a group's manager reaches by its commands.
use dis_co_tec.Prelude.{ℕ, ◌≡◌, refl, ◌≢◌, Bool, true, List, [], ◌∷◌, All}
use dis_co_tec.Manager.Signals.{Signal}
use dis_co_tec.Manager.{
  Group, start, done, is_waiting, runfirst, add_task, reschedule_add_task, recompute, combine,
  init_dsgus, combine_system_wide, wait_for_third_level_size_update, wait_status,
}
use dis_co_tec.Manager.Worker.{wait}
use dis_co_tec.Manager.Commands.{
  Command, runs_first, adds, reschedules, recomputes, removes, runs_next, combines, inits,
  combines_system_wide, waits_for_sizes, updates, evaluates, writes_min_max, waits, tests,
  waits_for_result, writes_vtk, writes_dsgs, reads_dsgs, combines_by_file, combines_write,
  combines_read, execute,
}
use dis_co_tec.Manager.Mirror.{ids, Mirrored, start-Mirrors, Holds}
use dis_co_tec.Manager.Files.{
  asserting_wait, send_names, wait_for_third_level_combi_result, write_combigrids_to_vtk_plot_file,
  write_dsgs_to_disk, read_dsgs_from_disk, combine_third_level_file_based,
  combine_third_level_file_based_write, combine_third_level_file_based_read_reduce,
}
use dis_co_tec.Manager.Invariant.{
  Inv, add-Inv, reschedule_remove_task-Inv, signal_when_waiting-Inv, runnext-Inv, update-Inv,
  evaluate-Inv, write_min_max-Inv, wait_status-Inv, get_status-Inv, asserting_wait-Inv,
  send_names-Inv,
}

-- A task that is handed to the group has a number that no task of it has.
abbrev pub Admissible : Command → Group → Type 0
Admissible (runs_first t) g = All (λ j. j ≢ t.id) (ids g.tasks)
Admissible (adds t) g = All (λ j. j ≢ t.id) (ids g.tasks)
Admissible (reschedules t) g = All (λ j. j ≢ t.id) (ids g.tasks)
Admissible (recomputes t) g = All (λ j. j ≢ t.id) (ids g.tasks)
Admissible _ g = Unit

pub data Reachable (ft : Bool) : Group → Type 0 where
  initially : Reachable ft start
  after :
      (g : Group) (c : Command) {g' : Group}
      → Reachable ft g
      → Admissible c g
      → execute ft c g ≡ done g'
      → Reachable ft g'

execute-Inv :
    (ft : Bool) (c : Command) (g : Group) → Admissible c g → Inv g → Holds Inv (execute ft c g)
unfolding execute wait_for_third_level_combi_result write_combigrids_to_vtk_plot_file
    write_dsgs_to_disk read_dsgs_from_disk combine_third_level_file_based
    combine_third_level_file_based_write combine_third_level_file_based_read_reduce
execute-Inv ft (runs_first t) g a i =
    unfold runfirst in add-Inv t _ g (λ w t. unfold wait in refl) i a
execute-Inv ft (adds t) g a i = unfold add_task in add-Inv t _ g (λ w t. unfold wait in refl) i a
execute-Inv ft (reschedules t) g a i =
    unfold reschedule_add_task in add-Inv t _ g (λ w t. unfold wait in refl) i a
execute-Inv ft (recomputes t) g a i =
    unfold recompute in add-Inv t _ g (λ w t. unfold wait in refl) i a
execute-Inv ft (removes lv) g a i = reschedule_remove_task-Inv lv g i
execute-Inv ft runs_next g a i = runnext-Inv g i
execute-Inv ft combines g a i =
    unfold combine in signal_when_waiting-Inv _ g (λ w. unfold wait in refl) i
execute-Inv ft inits g a i =
    unfold init_dsgus in signal_when_waiting-Inv _ g (λ w. unfold wait in refl) i
execute-Inv ft combines_system_wide g a i =
    unfold combine_system_wide in signal_when_waiting-Inv _ g (λ w. unfold wait in refl) i
execute-Inv ft waits_for_sizes g a i =
    unfold wait_for_third_level_size_update in
    signal_when_waiting-Inv _ g (λ w. unfold wait in refl) i
execute-Inv ft (updates params) g a i = update-Inv params g i
execute-Inv ft (evaluates lv name) g a i = evaluate-Inv lv name g i
execute-Inv ft (writes_min_max name) g a i = write_min_max-Inv name g i
execute-Inv ft (waits reply) g a i = wait_status-Inv ft reply g i
execute-Inv ft (tests reply) g a i = get_status-Inv ft reply g i
execute-Inv ft (waits_for_result reply) g a i =
    asserting_wait-Inv ft reply g
      (λ g'. done (send_names Signal.wait_for_tl_combi_result [] g', true))
      (λ g'. send_names-Inv Signal.wait_for_tl_combi_result [] g' (λ w. unfold wait in refl)) i
execute-Inv ft (writes_vtk reply) g a i =
    asserting_wait-Inv ft reply g (λ g'. done (send_names Signal.write_dfgs_to_vtk [] g', true))
      (λ g'. send_names-Inv Signal.write_dfgs_to_vtk [] g' (λ w. unfold wait in refl)) i
execute-Inv ft (writes_dsgs reply name) g a i =
    asserting_wait-Inv ft reply g
      (λ g'. done (send_names Signal.write_dsgs_to_disk (name ∷ []) g', true))
      (λ g'. send_names-Inv Signal.write_dsgs_to_disk (name ∷ []) g' (λ w. unfold wait in refl)) i
execute-Inv ft (reads_dsgs reply name) g a i =
    asserting_wait-Inv ft reply g
      (λ g'. done (send_names Signal.read_dsgs_from_disk (name ∷ []) g', true))
      (λ g'. send_names-Inv Signal.read_dsgs_from_disk (name ∷ []) g' (λ w. unfold wait in refl)) i
execute-Inv ft (combines_by_file reply second write token read go) g a i =
    let names : List (List ℕ) = write ∷ token ∷ read ∷ go ∷ [] in
    asserting_wait-Inv ft reply g
      (λ g'.
        let sent = wait_status ft second (send_names Signal.combine_third_level_file names g') in
        done (sent.0, is_waiting sent.1))
      (λ g' i'.
        wait_status-Inv ft second (send_names Signal.combine_third_level_file names g')
          (send_names-Inv Signal.combine_third_level_file names g' (λ w. unfold wait in refl) i'))
      i
execute-Inv ft (combines_write reply second write token) g a i =
    asserting_wait-Inv ft reply g
      (λ g'.
        asserting_wait ft second (send_names Signal.combine_write_dsgs (write ∷ token ∷ []) g')
          (λ g''. done (g'', true)))
      (λ g' i'.
        asserting_wait-Inv ft second (send_names Signal.combine_write_dsgs (write ∷ token ∷ []) g')
          (λ g''. done (g'', true)) (λ g'' i''. i'')
          (send_names-Inv Signal.combine_write_dsgs (write ∷ token ∷ []) g'
            (λ w. unfold wait in refl) i'))
      i
execute-Inv ft (combines_read reply second read go) g a i =
    asserting_wait-Inv ft reply g
      (λ g'.
        asserting_wait ft second
          (send_names Signal.combine_read_dsgs_and_reduce (read ∷ go ∷ []) g')
          (λ g''. done (g'', true)))
      (λ g' i'.
        asserting_wait-Inv ft second
          (send_names Signal.combine_read_dsgs_and_reduce (read ∷ go ∷ []) g')
          (λ g''. done (g'', true)) (λ g'' i''. i'')
          (send_names-Inv Signal.combine_read_dsgs_and_reduce (read ∷ go ∷ []) g'
            (λ w. unfold wait in refl) i'))
      i

start-Inv : Inv start
unfolding start
start-Inv = ((_, start-Mirrors), tt)

Reachable-Inv : (ft : Bool) (g : Group) → Reachable ft g → Inv g
Reachable-Inv ft g initially = start-Inv
Reachable-Inv ft g' (after g c r a e) = rw e at (execute-Inv ft c g a (Reachable-Inv ft g r))

-- Whatever commands of Manager/Commands the process manager gives, as long as a task that it hands over has a number
-- that no task of the group has: a worker serves all that was sent, one call of wait for each
-- signal, and then its task container holds the tasks of the manager's container in the same order,
-- and it has sent its status as often as the manager has posted a receive for it.
pub Reachable-Mirrored : (ft : Bool) (g : Group) → Reachable ft g → Mirrored g
Reachable-Mirrored ft g r = (Reachable-Inv ft g r).0
