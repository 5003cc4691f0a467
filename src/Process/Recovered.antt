-- ===== src/Process/Recovered.antt =====
-- Recovery with the failed groups left out: recoverCommunicators of src/manager/ProcessManager.cpp.
use dis_co_tec.Prelude.{
  ℕ, ◌≡◌, refl, ap, ◌≢◌, ◌⊎◌, inl, inr, Bool, true, false, ◌||◌, Option, some, List, [], ◌∷◌, arith,
  length, all, keep_if, ◌==◌, ==_iff, Bool-cases,
}
use dis_co_tec.Manager
use dis_co_tec.Manager.{Task, Message, Group, Reply, Status, waiting, busy, failed}
use dis_co_tec.Manager.Signals.{Signal}
use dis_co_tec.Process.{
  ProcessManager, returns, aborted, poll_status, wait_for_pg, wait_all_loop, wait_all_finished,
}
use dis_co_tec.Process.Recovery.{recover_loop, remove_failed, recover_communicators}
use dis_co_tec.Process.Wait.{containers, group}
use dis_co_tec.Process.AllWait.{AllWait}

-- No group is busy.
abbrev pub Settled : List Group → Type 0
Settled [] = Unit
Settled (g ∷ gs) = (g.status ≢ busy) × Settled gs

wait_all_loop-Settled :
    (ft : Bool) (gs : List Group) (ps : List (Option Reply))
    → Settled gs
    → (b : Bool) × (wait_all_loop ft gs ps ≡ some (gs, (b, ps)))
unfolding wait_all_loop
wait_all_loop-Settled ft [] ps h = (false, refl)
wait_all_loop-Settled ft (g ∷ gs) ps h =
    let (b, rest) = wait_all_loop-Settled ft gs ps h.1 in
    let (c, one) = first g.status g.tasks g.sent g.posted h.0 in
    let one' : wait_for_pg ft g ps ≡ some (g, (c, ps)) = one in
    (c || b, rw (one', wait_all_loop, rest) refl)
  where
    first :
        (s : Status) (ts : List Task) (sent : List Message) (posted : ℕ)
        → s ≢ busy
        → (c : Bool) × (wait_for_pg ft (group s ts sent posted) ps
            ≡ some (group s ts sent posted, (c, ps)))
    first waiting ts sent posted h = (false, unfold wait_for_pg in refl)
    first failed ts sent posted h = (true, unfold wait_for_pg in refl)
    first busy ts sent posted h = absurd (h refl)

-- What the recovery leaves of the groups.
abbrev Left : List Group → List Group → Type 0
Left gs gs' = AllWait gs' × (containers gs' ≡ containers (remove_failed gs))

recovers_first :
    (ft : Bool) (gs : List Group) (ps : List (Option Reply)) (s : Status) (ts : List Task)
    (sent : List Message) (posted : ℕ)
    → s ≢ busy
    → ((gs' : List Group) × (recover_loop ft gs ps ≡ returns (gs', ps))
        × Left gs (remove_failed gs'))
    → (gs' : List Group) × (recover_loop ft (group s ts sent posted ∷ gs) ps ≡ returns (gs', ps))
      × Left (group s ts sent posted ∷ gs) (remove_failed gs')
unfolding recover_loop poll_status keep_if Manager.recover_communicators
    Manager.send_signal_to_process_group Manager.send
recovers_first ft gs ps waiting ts sent posted alive (gs', run, (all, same)) = (
  Manager.send_signal_to_process_group Signal.recover_comm (group waiting ts sent posted) ∷ gs',
  rw run refl,
  ((refl, all), ap (λ c. ts ∷ c) same),
)
recovers_first ft gs ps failed ts sent posted alive (gs', run, (all, same)) =
    (group failed ts sent posted ∷ gs', rw run refl, (all, same))
recovers_first ft gs ps busy ts sent posted alive rest = absurd (alive refl)

recover_loop-Left :
    (ft : Bool) (gs : List Group) (ps : List (Option Reply))
    → Settled gs
    → (gs' : List Group) × (recover_loop ft gs ps ≡ returns (gs', ps)) × Left gs (remove_failed gs')
unfolding recover_loop keep_if
recover_loop-Left ft [] ps h = ([], refl, (tt, refl))
recover_loop-Left ft (g ∷ gs) ps h =
    recovers_first ft gs ps g.status g.tasks g.sent g.posted h.0 (recover_loop-Left ft gs ps h.1)

-- If no group is busy and the MPI system could not recover the failed groups, then recoverCommunicators
-- aborts if as many groups as there are were given as failed; else it returns with the groups
-- that had not failed, each with its tasks, all waiting, and takes no poll.
pub recover_communicators-left :
    (failed_groups : List ℕ) (p : ProcessManager)
    → Settled p.pgroups
    → ((length p.pgroups ≡ length failed_groups)
        × (recover_communicators true failed_groups p ≡ aborted))
      ⊎ ((length p.pgroups ≢ length failed_groups)
          × ((q : ProcessManager) × (recover_communicators true failed_groups p ≡ returns q)
              × (AllWait q.pgroups
                  × ((containers q.pgroups ≡ containers (remove_failed p.pgroups))
                      × (q.polls ≡ p.polls)))))
unfolding recover_communicators
recover_communicators-left failed_groups p h =
    let (b, waited) = wait_all_loop-Settled p.enable_ft p.pgroups p.polls h in
    let (gs, run, (all, same)) = recover_loop-Left p.enable_ft p.pgroups p.polls h in
    let finished : wait_all_finished p ≡ returns (b, p) = rw (waited, wait_all_finished) refl in
    elim (Bool-cases (length p.pgroups == length failed_groups)) [
      | inl e ↦ inl ((==_iff _ _).0 e, rw (e, recover_communicators) refl)
      | inr e ↦ inr (
        grind (arith, e, ==_iff),
        (
          record p { pgroups = remove_failed gs },
          rw (e, recover_communicators, finished, run) refl,
          (all, (same, refl)),
        ),
      )
    ]
