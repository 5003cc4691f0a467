-- ===== src/Process/Count.antt =====
-- The loops that count the groups that wait: waitForAllGroupsToWait of
-- src/manager/ProcessManager.cpp, and the calls to all groups after it.
use dis_co_tec.Prelude.{
  ℕ, zero, suc, ◌+◌, ◌≤◌, ◌<◌, ◌≡◌, refl, sym, ap, ◌∙◌, ◌≢◌, inl, inr, Bool, true, Option, none,
  some, List, [], ◌∷◌, arith, length, all, ◌==◌, ==_iff, Bool-cases,
}
use dis_co_tec.Manager
use dis_co_tec.Manager.{
  Task, Message, Group, Status, Outcome, done, waiting, busy, failed, Reply, delivers, proc_failed,
  wait_status, get_status,
}
use dis_co_tec.Manager.Signals.{Signal}
use dis_co_tec.Process.{
  ProcessManager, Result, returns, poll_status, count_round, count_loop,
  wait_for_all_groups_to_wait, combine, init_dsgus, combine_system_wide, call_all,
  call_when_all_wait,
}
use dis_co_tec.Process.Wait.{
  Prompt, replies, replies-le, NoneFailed, containers, Kept, length-containers, not_failed,
  busy_not_failed, group,
}
use dis_co_tec.Process.AllWait.{AllWait, Finished, wait_all_finished-Finished}

abbrev busy_in : Status → ℕ
busy_in waiting = 0
busy_in busy = 1
busy_in failed = 0

abbrev pub busies : List Group → ℕ
busies [] = 0
busies (g ∷ gs) = busy_in g.status + busies gs

pub busies-le : (gs : List Group) → busies gs ≤ length gs
busies-le [] = omega arith
busies-le (g ∷ gs) = omega (arith, busies-le gs, one g.status)
  where
    one : (s : Status) → busy_in s ≤ 1
    one waiting = omega arith
    one busy = omega arith
    one failed = omega arith

-- A round over the groups gs with the polls ps: a reply makes one group less busy.
abbrev Counted : List Group → List (Option Reply) → List Group × (List (Option Reply) × ℕ) → Type 0
Counted gs ps r =
    Kept gs r.0 r.1.0
    × ((busies r.0 + r.1.1 ≡ length gs)
        × ((busies r.0 + replies ps ≡ busies gs + replies r.1.0)
            × (((length r.1.0 ≤ length ps) × (busies r.0 ≤ busies gs))
                × (((0 < busies r.0) → (0 < length ps) → length r.1.0 < length ps)
                    × ((busies r.0 ≡ 0) → AllWait r.0)))))

first_group :
    (ft : Bool) (s : Status) (ts : List Task) (sent : List Message) (posted : ℕ) (gs : List Group)
    → ((ps : List (Option Reply)) → Prompt ps → Counted gs ps (count_round ft gs ps))
    → (ps : List (Option Reply)) → s ≢ failed
    → Prompt ps
    → Counted (group s ts sent posted ∷ gs) ps (count_round ft (group s ts sent posted ∷ gs) ps)
unfolding count_round poll_status get_status wait_status replies
first_group ft waiting ts sent posted gs rec ps alive prompt =
    let ((same, (alive', prompt')), (all, (one, ((le, fewer), (lt, wait))))) = rec ps prompt in
    (
      (ap (λ x. ts ∷ x) same, ((alive, alive'), prompt')),
      (
        omega (arith, all),
        (
          omega (arith, one),
          (
            (le, omega (arith, fewer)),
            (λ a b. lt (omega arith) b, λ z. (refl, wait (omega arith))),
          ),
        ),
      ),
    )
first_group ft failed ts sent posted gs rec ps alive prompt = absurd (alive refl)
first_group ft busy ts sent posted gs rec [] alive prompt =
    let ((same, (alive', prompt')), (all, (one, ((le, fewer), (lt, wait))))) = rec [] prompt in
    (
      (ap (λ x. ts ∷ x) same, ((busy_not_failed, alive'), prompt')),
      (
        omega (arith, all),
        (
          omega (arith, one),
          ((le, omega (arith, fewer)), (λ a b. absurd (omega arith), λ z. absurd (omega arith))),
        ),
      ),
    )
first_group ft busy ts sent posted gs rec (none ∷ ps) alive prompt =
    let ((same, (alive', prompt')), (all, (one, ((le, fewer), (lt, wait))))) = rec ps prompt in
    (
      (ap (λ x. ts ∷ x) same, ((busy_not_failed, alive'), prompt')),
      (
        omega (arith, all),
        (
          omega (arith, one),
          ((omega arith, omega (arith, fewer)), (λ a b. omega arith, λ z. absurd (omega arith))),
        ),
      ),
    )
first_group ft busy ts sent posted gs rec (some (delivers waiting) ∷ ps) alive prompt =
    let ((same, (alive', prompt')), (all, (one, ((le, fewer), (lt, wait))))) = rec ps prompt in
    (
      (ap (λ x. ts ∷ x) same, ((not_failed refl, alive'), prompt')),
      (
        omega (arith, all),
        (
          omega (arith, one),
          (
            (omega arith, omega (arith, fewer)),
            (λ a b. omega arith, λ z. (refl, wait (omega arith))),
          ),
        ),
      ),
    )
first_group ft busy ts sent posted gs rec (some (delivers busy) ∷ ps) alive prompt = elim prompt [ ]
first_group ft busy ts sent posted gs rec (some (delivers failed) ∷ ps) alive prompt =
    elim prompt [ ]
first_group ft busy ts sent posted gs rec (some proc_failed ∷ ps) alive prompt = elim prompt [ ]

count_round-Counted :
    (ft : Bool) (gs : List Group) (ps : List (Option Reply))
    → NoneFailed gs
    → Prompt ps
    → Counted gs ps (count_round ft gs ps)
unfolding count_round
count_round-Counted ft [] ps h prompt = (
  (refl, (tt, prompt)),
  (refl, (refl, ((omega arith, omega arith), (λ a b. absurd (omega arith), λ z. tt)))),
)
count_round-Counted ft (g ∷ gs) ps h prompt =
    first_group ft g.status g.tasks g.sent g.posted gs (λ qs. count_round-Counted ft gs qs h.1) ps
      h.0 prompt

count_loop-AllWait :
    (fuel : ℕ) (ft : Bool) (gs : List Group) (ps : List (Option Reply))
    → length ps < fuel
    → NoneFailed gs
    → Prompt ps
    → busies gs ≤ replies ps
    → (gs' : List Group) × (ps' : List (Option Reply)) × (count_loop fuel ft gs ps
        ≡ returns (gs', ps'))
      × (containers gs' ≡ containers gs)
      × AllWait gs'
      × Prompt ps'
      × (replies ps ≤ busies gs + replies ps')
unfolding count_loop
count_loop-AllWait zero ft gs ps enough h prompt le = absurd (omega arith)
count_loop-AllWait (suc fuel) ft gs ps enough h prompt le =
    let r = count_round ft gs ps in
    let ((same, (alive, prompt')), (all, (one, ((_, fewer), (lt, wait))))) =
      count_round-Counted ft gs ps h prompt in
    elim (Bool-cases (r.1.1 == length gs)) [
      | inl e ↦
          let full : r.1.1 ≡ length gs = (==_iff _ _).0 e in
          (
            r.0,
            r.1.0,
            rw (e, count_loop) refl,
            same,
            wait (omega (arith, all, full)),
            prompt',
            omega (arith, one),
          )
      | inr e ↦
          let some_busy : 0 < busies r.0 = grind (arith, all, e, ==_iff) in
          let shorter : length r.1.0 < length ps =
            lt some_busy (omega (arith, le, one, fewer, some_busy, replies-le ps)) in
          let (gs', ps', run, same', all', prompt2, le') =
            count_loop-AllWait fuel ft r.0 r.1.0 (omega (arith, shorter)) alive prompt'
              (omega (arith, one, le)) in
          (gs', ps', rw (e, count_loop) run, same' ∙ same, all', prompt2, omega (arith, one, le'))
    ]

-- What the manager p is after the wait for all groups, when as many tests find a group done as there are
-- busy groups.
pub wait_for_all_groups_to_wait-Finished :
    (p : ProcessManager)
    → NoneFailed p.pgroups
    → Prompt p.polls
    → busies p.pgroups ≤ replies p.polls
    → (q : ProcessManager) × (wait_for_all_groups_to_wait p ≡ returns q)
      × Finished (busies p.pgroups) p q
unfolding wait_for_all_groups_to_wait
wait_for_all_groups_to_wait-Finished p h prompt enough =
    let (gs, ps, run, same, all, prompt', le) =
      count_loop-AllWait (suc (length p.polls)) p.enable_ft p.pgroups p.polls (omega arith) h prompt
        enough in
    (
      record p { pgroups = gs; polls = ps },
      rw (run, wait_for_all_groups_to_wait) refl,
      (same, (all, (prompt', (le, refl)))),
    )

-- What a call does to a group that waits: it makes the group busy and succeeds.
abbrev pub Starts : (Group → Outcome (Group × Bool)) → Type 0
Starts call =
    (g : Group)
    → g.status ≡ waiting
    → (g' : Group) × (call g ≡ done (g', true)) × (g'.tasks ≡ g.tasks) × (g'.status ≡ busy)

pub signal_when_waiting-Starts : (s : Signal) → Starts (Manager.signal_when_waiting s)
unfolding Manager.signal_when_waiting Manager.send_signal_and_receive
    Manager.send_signal_to_process_group Manager.set_process_group_busy_and_receive
    Manager.recv_status Manager.send
signal_when_waiting-Starts s g e = (Manager.send_signal_and_receive s g, rw e refl, refl, refl)

call_all-busy :
    (call : Group → Outcome (Group × Bool)) (gs : List Group)
    → Starts call
    → AllWait gs
    → (gs' : List Group) × (call_all call gs ≡ returns gs')
      × (containers gs' ≡ containers gs)
      × NoneFailed gs'
unfolding call_all
call_all-busy call [] starts h = ([], refl, refl, tt)
call_all-busy call (g ∷ gs) starts h =
    let (g', one, tasks, is_busy) = starts g h.0 in
    let (gs', rest, same, alive) = call_all-busy call gs starts h.1 in
    (
      g' ∷ gs',
      rw (one, call_all, rest) refl,
      ap (λ t. t ∷ containers gs') tasks ∙ ap (λ c. g.tasks ∷ c) same,
      ((λ f. busy_not_failed (sym is_busy ∙ f)), alive),
    )

call_when_all_wait-Finished :
    (call : Group → Outcome (Group × Bool)) (p : ProcessManager)
    → Starts call
    → NoneFailed p.pgroups
    → Prompt p.polls
    → busies p.pgroups + length p.pgroups ≤ replies p.polls
    → (q : ProcessManager) × (call_when_all_wait call p ≡ returns q)
      × Finished (busies p.pgroups + length p.pgroups) p q
unfolding call_when_all_wait
call_when_all_wait-Finished call p starts h prompt enough =
    let (q, run, (same, (all, (prompt', (le, ts))))) =
      wait_for_all_groups_to_wait-Finished p h prompt (omega arith) in
    let (gs, run', same', alive) = call_all-busy call q.pgroups starts all in
    let length_gs : length gs ≡ length p.pgroups =
      length-containers q.pgroups gs same' ∙ length-containers p.pgroups q.pgroups same in
    let (r, run2, (same2, (all2, (prompt2, (le2, ts2))))) =
      wait_all_finished-Finished (record q { pgroups = gs }) alive prompt'
        (omega (arith, le, length_gs)) in
    (
      r,
      rw (run, run', run2) refl,
      (same2 ∙ same' ∙ same, (all2, (prompt2, (omega (arith, le, le2, length_gs), ts2 ∙ ts)))),
    )

-- What a call to all groups does in the manager p that waits for them before and after it.
abbrev pub Ends : ProcessManager → Result ProcessManager → Type 0
Ends p result =
    (q : ProcessManager) × (result ≡ returns q) × Finished (busies p.pgroups + length p.pgroups) p q

-- If no group has failed, tests find nothing yet or a group that is done, and they find as many
-- groups done as there are busy groups and groups in all, then combine, initDsgus and combineSystemWide
-- of the manager return, no assertion failing, with all groups waiting, the tasks of each group
-- and of the manager as they were, and no more replies used.
pub combine-Ends :
    (p : ProcessManager)
    → NoneFailed p.pgroups
    → Prompt p.polls
    → busies p.pgroups + length p.pgroups ≤ replies p.polls
    → Ends p (combine p) × (Ends p (init_dsgus p) × Ends p (combine_system_wide p))
unfolding combine init_dsgus combine_system_wide Manager.combine Manager.init_dsgus
    Manager.combine_system_wide
combine-Ends p h prompt enough =
    (by Signal.combine, (by Signal.init_dsgus, by Signal.combine_local_and_global))
  where
    by : (s : Signal) → Ends p (call_when_all_wait (Manager.signal_when_waiting s) p)
    by s =
        call_when_all_wait-Finished (Manager.signal_when_waiting s) p (signal_when_waiting-Starts s)
          h prompt enough
