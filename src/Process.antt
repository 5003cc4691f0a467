-- ===== src/Process.antt =====
-- The process manager over its groups: ProcessManager of src/manager/ProcessManager.{hpp,cpp}. What
-- the manager finds when it tests or waits for a reply is a list, `polls`: the next entry is none if
-- the test finds no reply yet. A loop that still polls when the list is over has not returned.
pub mod Wait
pub mod Assign
pub mod Recovery
pub mod Redistribute
pub mod Recovered
pub mod Reschedule
pub mod Migrate
pub mod First
pub mod Count
pub mod AllWait
use dis_co_tec.Prelude.{
  ℕ, zero, suc, ◌+◌, Bool, true, false, not, ◌||◌, List, [], ◌∷◌, ◌++◌, Option, none, some, length,
  ltb, ◌==◌, if◌then◌else◌,
}
use mathlib.Core.Option
use dis_co_tec.Level.{LevelVector}
use dis_co_tec.Manager
use dis_co_tec.Manager.{
  Task, Group, Status, waiting, busy, failed, is_waiting, Reply, Outcome, wait_status, get_status,
  update_combi_parameters,
}

pub record ProcessManager : Type 0 where
  pub enable_ft : Bool
  pub pgroups : List Group
  pub tasks : List Task
  pub params : List ℕ
  pub polls : List (Option Reply)

pub data Result {ℓ} (A : Type ℓ) : Type ℓ where
  returns : A → Result A
  assertion_failed aborted : Result A
  polling : Result A

infixl 5 ◌>>=◌
abbrev pub ◌>>=◌ {ℓ κ} : {A : Type ℓ} {B : Type κ} → Result A → (A → Result B) → Result B
returns a >>= f = f a
assertion_failed >>= f = assertion_failed
aborted >>= f = aborted
polling >>= f = polling

-- ProcessGroupManager::getStatus: only a busy group has a request to test.
unfoldable pub poll_status :
    Bool → Group → List (Option Reply) → Group × (Status × List (Option Reply))
poll_status ft g polls = elim g.status [
  | waiting ↦ (g, (waiting, polls))
  | failed ↦ (g, (failed, polls))
  | busy ↦ elim polls [
    | [] ↦ (g, (busy, []))
    | p ∷ ps ↦ ((get_status ft p g).0, ((get_status ft p g).1, ps))
  ]
]

-- The reply that a blocking wait returns with.
unfoldable pub next_reply : List (Option Reply) → Option (Reply × List (Option Reply))
next_reply [] = none
next_reply (none ∷ polls) = next_reply polls
next_reply (some r ∷ polls) = some (r, polls)

-- One round of wait() over the groups: the groups, the polls, and the first group that waits.
unfoldable pub wait_round :
    Bool → List Group → List (Option Reply) → List Group × (List (Option Reply) × Option ℕ)
unfolding poll_status
wait_round ft [] polls = ([], (polls, none))
wait_round ft (g ∷ gs) polls =
    let polled = poll_status ft g polls in
    let rest = wait_round ft gs polled.1.1 in
    if is_waiting polled.1.0
    then (polled.0 ∷ gs, (polled.1.1, some 0))
    else (polled.0 ∷ rest.0, (rest.1.0, Option.map suc rest.1.1))

unfoldable pub wait_loop :
    ℕ → Bool → List Group → List (Option Reply) → Result (ℕ × (List Group × List (Option Reply)))
unfolding wait_round
wait_loop zero ft groups polls = polling
wait_loop (suc fuel) ft groups polls =
    let round = wait_round ft groups polls in
    let rest = wait_loop fuel ft round.0 round.1.0 in
    elim round.1.1 [ some i ↦ returns (i, (round.0, round.1.0)) | none ↦ rest ]

-- A round in which no group waits takes a poll, unless no group is busy: then none will ever wait.
unfoldable pub wait : ProcessManager → Result (ℕ × ProcessManager)
unfolding wait_loop
wait p = do
  found ← wait_loop (suc (length p.polls)) p.enable_ft p.pgroups p.polls
  returns (found.0, record p { pgroups = found.1.0; polls = found.1.1 })

abbrev pub modify {ℓ} : {A : Type ℓ} → (A → A) → ℕ → List A → List A
modify f i [] = []
modify f zero (x ∷ xs) = f x ∷ xs
modify f (suc i) (x ∷ xs) = x ∷ modify f i xs

-- Wait for a group and give it the task by this call, whose result is dropped.
unfoldable pub assign :
    (Task → Group → Group × Bool) → Task → ProcessManager → Result ProcessManager
unfolding wait
assign call t p = do
  found ← wait p
  returns (record found.1 { pgroups = modify (λ g. (call t g).0) found.0 found.1.pgroups })

unfoldable pub assign_all :
    (Task → Group → Group × Bool) → List Task → ProcessManager → Result ProcessManager
unfolding assign
assign_all call [] p = returns p
assign_all call (t ∷ ts) p = assign call t p >>= assign_all call ts

unfoldable pub add_task : Task → ProcessManager → Result ProcessManager
unfolding assign
add_task t p = assign Manager.add_task t (record p { tasks = p.tasks ++ t ∷ [] })

abbrev pub is_failed : Status → Bool
is_failed waiting = false
is_failed busy = false
is_failed failed = true

-- waitForPG: the group, whether it has failed, and the polls; none while it has not replied.
unfoldable pub wait_for_pg :
    Bool → Group → List (Option Reply) → Option (Group × (Bool × List (Option Reply)))
unfolding next_reply
wait_for_pg ft g polls = elim g.status [
  | waiting ↦ some (g, (false, polls))
  | failed ↦ some (g, (true, polls))
  | busy ↦ elim (next_reply polls) [
    | none ↦ none
    | some found ↦
        some ((wait_status ft found.0 g).0, (is_failed (wait_status ft found.0 g).1, found.1))
  ]
]

unfoldable pub wait_all_loop :
    Bool → List Group → List (Option Reply) → Option (List Group × (Bool × List (Option Reply)))
unfolding wait_for_pg
wait_all_loop ft [] polls = some ([], (false, polls))
wait_all_loop ft (g ∷ gs) polls = elim (wait_for_pg ft g polls) [
  | none ↦ none
  | some one ↦ elim (wait_all_loop ft gs one.1.1) [
    | none ↦ none
    | some rest ↦ some (one.0 ∷ rest.0, (one.1.0 || rest.1.0, rest.1.1))
  ]
]

-- Whether some group has failed.
unfoldable pub wait_all_finished : ProcessManager → Result (Bool × ProcessManager)
unfolding wait_all_loop
wait_all_finished p = elim (wait_all_loop p.enable_ft p.pgroups p.polls) [
  | none ↦ polling
  | some all ↦ returns (all.1.0, record p { pgroups = all.0; polls = all.1.1 })
]

-- One round of the loops that count the waiting groups.
unfoldable pub count_round :
    Bool → List Group → List (Option Reply) → List Group × (List (Option Reply) × ℕ)
unfolding poll_status
count_round ft [] polls = ([], (polls, 0))
count_round ft (g ∷ gs) polls =
    let polled = poll_status ft g polls in
    let rest = count_round ft gs polled.1.1 in
    (polled.0 ∷ rest.0, (rest.1.0, if is_waiting polled.1.0 then suc rest.1.1 else rest.1.1))

unfoldable pub count_loop :
    ℕ → Bool → List Group → List (Option Reply) → Result (List Group × List (Option Reply))
unfolding count_round
count_loop zero ft groups polls = polling
count_loop (suc fuel) ft groups polls =
    let round = count_round ft groups polls in
    let rest = count_loop fuel ft round.0 round.1.0 in
    if round.1.1 == length groups then returns (round.0, round.1.0) else rest

unfoldable pub wait_for_all_groups_to_wait : ProcessManager → Result ProcessManager
unfolding count_loop
wait_for_all_groups_to_wait p = do
  found ← count_loop (suc (length p.polls)) p.enable_ft p.pgroups p.polls
  returns (record p { pgroups = found.0; polls = found.1 })

-- bool success = call(group); assert(success)
unfoldable pub call_all : (Group → Outcome (Group × Bool)) → List Group → Result (List Group)
call_all call [] = returns []
call_all call (g ∷ gs) = elim (call g) [
  | Manager.assertion_failed ↦ assertion_failed
  | Manager.done one ↦
      if one.1 then (call_all call gs >>= λ rest. returns (one.0 ∷ rest)) else assertion_failed
]

-- Wait for all groups, call each, and wait until all have finished: combine, initDsgus and
-- combineSystemWide.
unfoldable pub call_when_all_wait :
    (Group → Outcome (Group × Bool)) → ProcessManager → Result ProcessManager
unfolding wait_for_all_groups_to_wait call_all wait_all_finished
call_when_all_wait call p = do
  q ← wait_for_all_groups_to_wait p
  groups ← call_all call q.pgroups
  finished ← wait_all_finished (record q { pgroups = groups })
  returns finished.1

unfoldable pub combine : ProcessManager → Result ProcessManager
unfolding call_when_all_wait
combine p = call_when_all_wait Manager.combine p

unfoldable pub init_dsgus : ProcessManager → Result ProcessManager
unfolding call_when_all_wait
init_dsgus p = call_when_all_wait Manager.init_dsgus p

unfoldable pub combine_system_wide : ProcessManager → Result ProcessManager
unfolding call_when_all_wait
combine_system_wide p = call_when_all_wait Manager.combine_system_wide p

abbrev pub exit_outcome : Group → Outcome (Group × Bool)
exit_outcome g = Manager.done (Manager.exit g)

unfoldable pub exit : ProcessManager → Result ProcessManager
unfolding wait_for_all_groups_to_wait call_all
exit p = do
  q ← wait_for_all_groups_to_wait p
  groups ← call_all exit_outcome q.pgroups
  returns (record q { pgroups = groups })

-- The result of the call is dropped.
abbrev pub without_result : Outcome (Group × Bool) → Outcome (Group × Bool)
without_result (Manager.done one) = Manager.done (one.0, true)
without_result Manager.assertion_failed = Manager.assertion_failed

-- assert(!waitAllFinished())
unfoldable pub none_failed : ProcessManager → Result ProcessManager
unfolding wait_all_finished
none_failed p = do
  finished ← wait_all_finished p
  if finished.0 then assertion_failed else returns finished.1

unfoldable pub update_parameters : ProcessManager → Result ProcessManager
unfolding none_failed call_all
update_parameters p = do
  q ← none_failed p
  groups ← call_all (λ g. without_result (update_combi_parameters q.params g)) q.pgroups
  none_failed (record q { pgroups = groups })

-- The result is true if no group has failed.
unfoldable pub runnext : ProcessManager → Result (Bool × ProcessManager)
unfolding none_failed call_all wait_all_finished
runnext p = do
  q ← none_failed p
  groups ← call_all (λ g. without_result (Manager.runnext g)) q.pgroups
  finished ← wait_all_finished (record q { pgroups = groups })
  returns (not finished.0, finished.1)

-- std::sort, by the loads that the load model expects, is an argument.
unfoldable pub runfirst :
    (List Task → List Task) → Bool → ProcessManager → Result (Bool × ProcessManager)
unfolding assign_all wait_all_finished init_dsgus
runfirst sort_tasks do_init_dsgus p =
    let sorted = sort_tasks p.tasks in
    let run = assign_all Manager.runfirst sorted (record p { tasks = sorted }) >>= λ q.
    wait_all_finished q >>= λ finished.
    (if do_init_dsgus then init_dsgus finished.1 else returns finished.1) >>= λ r.
    returns (not finished.0, r) in
    if ltb (length sorted) (length p.pgroups) then assertion_failed else run
