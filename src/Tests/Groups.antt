-- ===== src/Tests/Groups.antt =====
-- A group that has one task.
use dis_co_tec.Prelude.{suc, ◌≡◌, refl, [], ◌∷◌, true, false}
use dis_co_tec.Manager.Signals.{Signal}
use dis_co_tec.Manager.{
  Task, signal, task, task_id, Group, start, done, waiting, busy, delivers, runfirst, add_task,
  reschedule_add_task, refresh_task, exit, recompute, do_diagnostics,
}
use dis_co_tec.Manager.Worker.{Worker, Served}
use dis_co_tec.Manager.Commands.{runs_first, execute}
use dis_co_tec.Manager.Mirror.{Mirrored}
use dis_co_tec.Manager.Reach.{Reachable, initially, after, Reachable-Mirrored}
use dis_co_tec.Manager.Faulty.{do_diagnostics-unmatched}

abbrev seven : Task
seven = record { id = 7; level = 2 ∷ 3 ∷ [] }

abbrev running : Group
running = record {
  status = busy;
  tasks = seven ∷ [];
  sent = signal Signal.run_first ∷ task seven ∷ [];
  posted = 1;
}

running-Reachable : Reachable true running
unfolding execute start runfirst
running-Reachable = after start (runs_first seven) initially tt refl

Reachable-Mirrored_example : Mirrored running
Reachable-Mirrored_example = Reachable-Mirrored true running running-Reachable

-- A group that does not wait refuses these; recompute alone reports success nevertheless.
refused :
    (runfirst seven running ≡ (running, false))
    × (add_task seven running ≡ (running, false))
    × (reschedule_add_task seven running ≡ (running, false))
    × (refresh_task seven running ≡ (running, false))
    × (exit running ≡ (running, false))
    × (recompute seven running ≡ (running, true))
unfolding runfirst add_task reschedule_add_task refresh_task exit recompute
refused = (refl, refl, refl, refl, refl, refl)

abbrev diagnosed : Group
diagnosed = record {
  status = waiting;
  tasks = seven ∷ [];
  sent = signal Signal.run_first ∷ task seven ∷ signal Signal.do_diagnostics ∷ task_id 7 ∷ [];
  posted = 1;
}

diagnosed-done : do_diagnostics true (delivers waiting) 7 running ≡ done diagnosed
unfolding do_diagnostics
diagnosed-done = refl

do_diagnostics-unmatched_example :
    (w : Worker) × Served diagnosed.sent w × (w.ready ≡ suc diagnosed.posted)
do_diagnostics-unmatched_example =
    do_diagnostics-unmatched true (delivers waiting) 7 running diagnosed
      (Reachable-Mirrored true running running-Reachable) diagnosed-done
