-- ===== src/Manager/Files.antt =====
-- The commands of ProcessGroupManager that first wait for the group, inside an assertion, and then
-- send a signal with the names of files. A reply is an argument for each time they wait.
use dis_co_tec.Prelude.{ℕ, Bool, true, List, [], ◌∷◌, map, if◌then◌else◌}
use dis_co_tec.Manager.Signals.{Signal}
use dis_co_tec.Manager.{
  Message, archive, Group, Outcome, done, assertion_failed, is_waiting, Reply, wait_status, send,
  send_signal_and_receive,
}

unfoldable pub send_all : List Message → Group → Group
unfolding send
send_all [] g = g
send_all (m ∷ ms) g = send_all ms (send m g)

-- The signal, the receive, and the names.
unfoldable pub send_names : Signal → List (List ℕ) → Group → Group
unfolding send_all send_signal_and_receive
send_names s names g = send_all (map archive names) (send_signal_and_receive s g)

-- assert(waitStatus() == PROCESS_GROUP_WAIT), and the rest
unfoldable pub asserting_wait :
    {A : Type 0} → Bool → Reply → Group → (Group → Outcome A) → Outcome A
unfolding wait_status
asserting_wait ft reply g rest =
    if is_waiting (wait_status ft reply g).1
    then rest (wait_status ft reply g).0
    else assertion_failed

unfoldable pub wait_for_third_level_combi_result : Bool → Reply → Group → Outcome (Group × Bool)
unfolding asserting_wait send_names
wait_for_third_level_combi_result ft reply g =
    asserting_wait ft reply g (λ g'. done (send_names Signal.wait_for_tl_combi_result [] g', true))

unfoldable pub write_combigrids_to_vtk_plot_file : Bool → Reply → Group → Outcome (Group × Bool)
unfolding asserting_wait send_names
write_combigrids_to_vtk_plot_file ft reply g =
    asserting_wait ft reply g (λ g'. done (send_names Signal.write_dfgs_to_vtk [] g', true))

unfoldable pub write_dsgs_to_disk : Bool → Reply → List ℕ → Group → Outcome (Group × Bool)
unfolding asserting_wait send_names
write_dsgs_to_disk ft reply name g =
    asserting_wait ft reply g
      (λ g'. done (send_names Signal.write_dsgs_to_disk (name ∷ []) g', true))

unfoldable pub read_dsgs_from_disk : Bool → Reply → List ℕ → Group → Outcome (Group × Bool)
unfolding asserting_wait send_names
read_dsgs_from_disk ft reply name g =
    asserting_wait ft reply g
      (λ g'. done (send_names Signal.read_dsgs_from_disk (name ∷ []) g', true))

-- `after` is the reply to the second wait; only its result is returned.
unfoldable pub combine_third_level_file_based :
    Bool → Reply → Reply → List ℕ → List ℕ → List ℕ → List ℕ → Group → Outcome (Group × Bool)
unfolding asserting_wait send_names
combine_third_level_file_based ft reply after write token read start g =
    asserting_wait ft reply g (λ g'.
      let (g'', s) =
        wait_status ft after
          (send_names Signal.combine_third_level_file (write ∷ token ∷ read ∷ start ∷ []) g') in
      done (g'', is_waiting s))

unfoldable pub combine_third_level_file_based_write :
    Bool → Reply → Reply → List ℕ → List ℕ → Group → Outcome (Group × Bool)
unfolding asserting_wait send_names
combine_third_level_file_based_write ft reply after write token g = asserting_wait ft reply g (λ g'.
    asserting_wait ft after (send_names Signal.combine_write_dsgs (write ∷ token ∷ []) g')
      (λ g''. done (g'', true)))

unfoldable pub combine_third_level_file_based_read_reduce :
    Bool → Reply → Reply → List ℕ → List ℕ → Group → Outcome (Group × Bool)
unfolding asserting_wait send_names
combine_third_level_file_based_read_reduce ft reply after read start g =
    asserting_wait ft reply g (λ g'.
      asserting_wait ft after
        (send_names Signal.combine_read_dsgs_and_reduce (read ∷ start ∷ []) g')
        (λ g''. done (g'', true)))
