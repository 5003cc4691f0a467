-- ===== src/Process/AllWait.antt =====
-- Waiting until all groups are done, and the calls to all groups: waitAllFinished,
-- waitForAllGroupsToWait, combine, initDsgus and combineSystemWide of src/manager/ProcessManager.
use dis_co_tec.Prelude.{
  ℕ, suc, ◌+◌, ◌≤◌, ◌<◌, ◌≡◌, refl, ap, ◌∙◌, ◌≢◌, Bool, false, Option, none, some, List, [], ◌∷◌,
  arith, length, all,
}
use dis_co_tec.Manager.{
  Task, Message, Group, Status, waiting, busy, failed, Reply, delivers, proc_failed, wait_status,
}
use dis_co_tec.Process.{
  ProcessManager, returns, next_reply, wait_for_pg, wait_all_loop, wait_all_finished,
}
use dis_co_tec.Process.Wait.{Prompt, replies, NoneFailed, containers, not_failed, group}

abbrev pub AllWait : List Group → Type 0
AllWait [] = Unit
AllWait (g ∷ gs) = (g.status ≡ waiting) × AllWait gs

pub AllWait-NoneFailed : (gs : List Group) → AllWait gs → NoneFailed gs
AllWait-NoneFailed [] h = tt
AllWait-NoneFailed (g ∷ gs) h = (not_failed h.0, AllWait-NoneFailed gs h.1)

next_reply-waiting :
    (ps : List (Option Reply))
    → Prompt ps
    → 0 < replies ps
    → (ps' : List (Option Reply)) × (next_reply ps ≡ some (delivers waiting, ps'))
      × Prompt ps'
      × (replies ps ≡ suc (replies ps'))
unfolding next_reply replies
next_reply-waiting [] prompt h = absurd (omega arith)
next_reply-waiting (none ∷ ps) prompt h = next_reply-waiting ps prompt h
next_reply-waiting (some (delivers waiting) ∷ ps) prompt h = (ps, refl, prompt, refl)
next_reply-waiting (some (delivers busy) ∷ ps) prompt h = elim prompt [ ]
next_reply-waiting (some (delivers failed) ∷ ps) prompt h = elim prompt [ ]
next_reply-waiting (some proc_failed ∷ ps) prompt h = elim prompt [ ]

-- waitForPG on a group that has not failed.
wait_for_pg-waiting :
    (ft : Bool) (s : Status) (ts : List Task) (sent : List Message) (posted : ℕ)
    (ps : List (Option Reply))
    → s ≢ failed
    → Prompt ps
    → 0 < replies ps
    → (g : Group) × (ps' : List (Option Reply)) × (wait_for_pg ft (group s ts sent posted) ps
        ≡ some (g, (false, ps')))
      × (g.tasks ≡ ts)
      × (g.status ≡ waiting)
      × Prompt ps'
      × (replies ps ≤ suc (replies ps'))
unfolding wait_for_pg wait_status
wait_for_pg-waiting ft waiting ts sent posted ps alive prompt h =
    (group waiting ts sent posted, ps, refl, refl, refl, prompt, omega arith)
wait_for_pg-waiting ft failed ts sent posted ps alive prompt h = absurd (alive refl)
wait_for_pg-waiting ft busy ts sent posted ps alive prompt h =
    let (ps', found, prompt', eq) = next_reply-waiting ps prompt h in
    (
      group waiting ts sent posted,
      ps',
      rw (found, wait_for_pg) refl,
      refl,
      refl,
      prompt',
      omega (arith, eq),
    )

wait_all_loop-AllWait :
    (ft : Bool) (gs : List Group) (ps : List (Option Reply))
    → NoneFailed gs
    → Prompt ps
    → length gs ≤ replies ps
    → (gs' : List Group) × (ps' : List (Option Reply)) × (wait_all_loop ft gs ps
        ≡ some (gs', (false, ps')))
      × (containers gs' ≡ containers gs)
      × AllWait gs'
      × Prompt ps'
      × (replies ps ≤ length gs + replies ps')
unfolding wait_all_loop
wait_all_loop-AllWait ft [] ps h prompt enough = ([], ps, refl, refl, tt, prompt, omega arith)
wait_all_loop-AllWait ft (g ∷ gs) ps h prompt enough =
    let (g', ps1, one, tasks, waits, prompt1, le) =
      wait_for_pg-waiting ft g.status g.tasks g.sent g.posted ps h.0 prompt (omega arith) in
    let one' : wait_for_pg ft g ps ≡ some (g', (false, ps1)) = one in
    let (gs', ps2, rest, same, all, prompt2, le') =
      wait_all_loop-AllWait ft gs ps1 h.1 prompt1 (omega (arith, le)) in
    (
      g' ∷ gs',
      ps2,
      rw (one', wait_all_loop, rest) refl,
      ap (λ t. t ∷ containers gs') tasks ∙ ap (λ c. g.tasks ∷ c) same,
      (waits, all),
      prompt2,
      omega (arith, le, le'),
    )

-- What the manager p is after a wait for all its groups, for n replies at most.
abbrev pub Finished : ℕ → ProcessManager → ProcessManager → Type 0
Finished n p q =
    (containers q.pgroups ≡ containers p.pgroups)
    × (AllWait q.pgroups
        × (Prompt q.polls × ((replies p.polls ≤ n + replies q.polls) × (q.tasks ≡ p.tasks))))

pub wait_all_finished-Finished :
    (p : ProcessManager)
    → NoneFailed p.pgroups
    → Prompt p.polls
    → length p.pgroups ≤ replies p.polls
    → (q : ProcessManager) × (wait_all_finished p ≡ returns (false, q))
      × Finished (length p.pgroups) p q
unfolding wait_all_finished
wait_all_finished-Finished p h prompt enough =
    let (gs, ps, run, same, all, prompt', le) =
      wait_all_loop-AllWait p.enable_ft p.pgroups p.polls h prompt enough in
    (
      record p { pgroups = gs; polls = ps },
      rw (run, wait_all_finished) refl,
      (same, (all, (prompt', (le, refl)))),
    )
