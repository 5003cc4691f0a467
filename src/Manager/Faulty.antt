-- ===== src/Manager/Faulty.antt =====
-- A call of ProcessGroupManager that leaves the protocol.
use mathlib.Core.List.{append_assoc}
use dis_co_tec.Prelude.{
  ℕ, suc, ◌≡◌, refl, sym, ap, Bool, ◌&&◌, List, [], ◌∷◌, ◌++◌, Bool-cases, inl, inr, some,
}
use dis_co_tec.Manager.Signals.{Signal}
use dis_co_tec.Manager.{
  Message, signal, task_id, Group, done, is_waiting, Reply, wait_status, has_task, do_diagnostics,
  send, send_signal_to_process_group, assertion_failed,
}
use dis_co_tec.Manager.Worker.{Worker, wait, ready_with, Served, next}
use dis_co_tec.Manager.Mirror.{Mirrors, Mirrored, wait_status-Mirrored}

diagnosed :
    (id : ℕ) (g : Group) (w : Worker)
    → Mirrors g w
    → (w' : Worker) × Served (g.sent ++ signal Signal.do_diagnostics ∷ task_id id ∷ []) w'
      × (w'.ready ≡ suc g.posted)
diagnosed id g w m =
    let block : List Message = signal Signal.do_diagnostics ∷ task_id id ∷ [] in
    let answer : wait w block ≡ some (ready_with w.tasks w, []) = unfold wait in refl in
    (
      ready_with w.tasks w,
      next g.sent block m.served answer refl,
      unfold ready_with in ap suc (sym m.same_count),
    )

sent_block :
    (id : ℕ) (g : Group) (w : Worker)
    → Mirrors g w
    → let g' = send (task_id id) (send_signal_to_process_group Signal.do_diagnostics g) in
      (w' : Worker) × Served g'.sent w' × (w'.ready ≡ suc g'.posted)
unfolding send send_signal_to_process_group
sent_block id g w m = rw append_assoc (diagnosed id g w m)

-- doDiagnostics posts no receive for the status that the worker sends when it is done: from a state
-- in which the two agree, the worker has then sent one status more than the manager has posted
-- receives.
pub do_diagnostics-unmatched :
    (ft : Bool) (reply : Reply) (id : ℕ) (g g' : Group)
    → Mirrored g
    → do_diagnostics ft reply id g ≡ done g'
    → (w : Worker) × Served g'.sent w × (w.ready ≡ suc g'.posted)
unfolding do_diagnostics
do_diagnostics-unmatched ft reply id g g' m e =
    let (w, ready) = wait_status-Mirrored ft reply g m in
    elim (Bool-cases
      (is_waiting (wait_status ft reply g).1 && has_task id (wait_status ft reply g).0.tasks)) [
        | inl h ↦
            let sends : done (
                  send (task_id id)
                    (send_signal_to_process_group Signal.do_diagnostics (wait_status ft reply g).0))
                ≡ done g' =
              rw h at e in
            let same : send (task_id id)
                  (send_signal_to_process_group Signal.do_diagnostics (wait_status ft reply g).0)
                ≡ g' =
              cc in
            rw (← same) (sent_block id (wait_status ft reply g).0 w ready)
        | inr h ↦ let fails : assertion_failed ≡ done g' = rw h at e in absurd (cc)
      ]
