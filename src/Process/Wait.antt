-- ===== src/Process/Wait.antt =====
-- wait() of src/manager/ProcessManager.hpp finds a group, if the groups reply.
use dis_co_tec.Prelude.{
  ℕ, zero, suc, ◌≤◌, ◌<◌, ◌≡◌, refl, sym, ap, ◌∙◌, ◌≢◌, ◌⊎◌, inl, inr, Bool, Option, none, some,
  List, [], ◌∷◌, arith, length, get_elem?,
}
use dis_co_tec.Manager.{
  Task, Message, Group, Status, waiting, busy, failed, Reply, delivers, proc_failed, wait_status,
  get_status,
}
use dis_co_tec.Process.{ProcessManager, Result, returns, poll_status, wait_round, wait_loop, wait}

-- A test finds nothing yet, or that the group is done.
abbrev pub Prompt : List (Option Reply) → Type 0
Prompt [] = Unit
Prompt (none ∷ polls) = Prompt polls
Prompt (some (delivers waiting) ∷ polls) = Prompt polls
Prompt (some (delivers busy) ∷ polls) = ⊥
Prompt (some (delivers failed) ∷ polls) = ⊥
Prompt (some proc_failed ∷ polls) = ⊥

-- How often a group is found to be done.
unfoldable pub replies : List (Option Reply) → ℕ
replies [] = 0
replies (none ∷ polls) = replies polls
replies (some r ∷ polls) = suc (replies polls)

abbrev pub NoneFailed : List Group → Type 0
NoneFailed [] = Unit
NoneFailed (g ∷ gs) = (g.status ≢ failed) × NoneFailed gs

abbrev pub containers : List Group → List (List Task)
containers [] = []
containers (g ∷ gs) = g.tasks ∷ containers gs

-- What polling leaves as it was, when the groups were gs and the polls ps.
abbrev pub Kept : List Group → List Group → List (Option Reply) → Type 0
Kept gs gs' ps' = (containers gs' ≡ containers gs) × (NoneFailed gs' × Prompt ps')

abbrev pub WaitsAt : List Group → ℕ → Type 0
WaitsAt gs i = (g : Group) × (get_elem? gs i ≡ some g) × (g.status ≡ waiting)

-- A round finds a group, for one reply at most, or it takes polls without a reply.
abbrev Round :
    List Group → List (Option Reply) → List Group → List (Option Reply) → Option ℕ → Type 0
Round gs ps gs' ps' found =
    ((i : ℕ) × (found ≡ some i) × WaitsAt gs' i × (replies ps ≤ suc (replies ps')))
    ⊎ ((found ≡ none)
        × ((replies ps' ≡ replies ps)
            × ((length ps' ≤ length ps)
                × ((0 < length gs) → (0 < length ps) → length ps' < length ps))))

pub not_failed : {s : Status} → s ≡ waiting → s ≢ failed
not_failed e f = cc

pub busy_not_failed : busy ≢ failed
busy_not_failed e = cc

abbrev Claim : Bool → List Group → List (Option Reply) → Type 0
Claim ft gs ps =
    Kept gs (wait_round ft gs ps).0 (wait_round ft gs ps).1.0
    × Round gs ps (wait_round ft gs ps).0 (wait_round ft gs ps).1.0 (wait_round ft gs ps).1.1

abbrev pub group : Status → List Task → List Message → ℕ → Group
group s ts sent posted = record { status = s; tasks = ts; sent = sent; posted = posted }

-- The first group, by its status and by what the test of its request finds.
first_group :
    (ft : Bool) (s : Status) (ts : List Task) (sent : List Message) (posted : ℕ) (gs : List Group)
    → NoneFailed gs
    → ((ps : List (Option Reply)) → Prompt ps → Claim ft gs ps)
    → (ps : List (Option Reply)) → s ≢ failed
    → Prompt ps
    → Claim ft (group s ts sent posted ∷ gs) ps
unfolding wait_round poll_status get_status wait_status replies
first_group ft waiting ts sent posted gs h rec ps alive prompt = (
  (refl, ((alive, h), prompt)),
  inl (0, refl, (group waiting ts sent posted, refl, refl), omega arith),
)
first_group ft failed ts sent posted gs h rec ps alive prompt = absurd (alive refl)
first_group ft busy ts sent posted gs h rec [] alive prompt =
    let ((same, (alive', prompt')), found) = rec [] tt in
    (
      (ap (λ x. ts ∷ x) same, ((busy_not_failed, alive'), prompt')),
      elim found [
        | inl (i, at_i, waits, le) ↦ inl (suc i, rw at_i refl, waits, omega (arith, le))
        | inr (no_one, (same_replies, (shorter, _))) ↦
            inr (rw no_one refl, (same_replies, (shorter, λ a b. absurd (omega arith))))
      ],
    )
first_group ft busy ts sent posted gs h rec (none ∷ ps) alive prompt =
    let ((same, (alive', prompt')), found) = rec ps prompt in
    (
      (ap (λ x. ts ∷ x) same, ((busy_not_failed, alive'), prompt')),
      elim found [
        | inl (i, at_i, waits, le) ↦ inl (suc i, rw at_i refl, waits, omega (arith, le))
        | inr (no_one, (same_replies, (shorter, _))) ↦
            inr (rw no_one refl, (same_replies, (omega arith, λ a b. omega arith)))
      ],
    )
first_group ft busy ts sent posted gs h rec (some (delivers waiting) ∷ ps) alive prompt = (
  (refl, ((not_failed refl, h), prompt)),
  inl (0, refl, (group waiting ts sent posted, refl, refl), omega arith),
)
first_group ft busy ts sent posted gs h rec (some (delivers busy) ∷ ps) alive prompt =
    elim prompt [ ]
first_group ft busy ts sent posted gs h rec (some (delivers failed) ∷ ps) alive prompt =
    elim prompt [ ]
first_group ft busy ts sent posted gs h rec (some proc_failed ∷ ps) alive prompt = elim prompt [ ]

wait_round-Kept :
    (ft : Bool) (gs : List Group) (ps : List (Option Reply))
    → NoneFailed gs
    → Prompt ps
    → Claim ft gs ps
unfolding wait_round
wait_round-Kept ft [] ps h prompt =
    ((refl, (tt, prompt)), inr (refl, (refl, (omega arith, λ a b. absurd (omega arith)))))
wait_round-Kept ft (g ∷ gs) ps h prompt =
    first_group ft g.status g.tasks g.sent g.posted gs h.1 (λ qs. wait_round-Kept ft gs qs h.1) ps
      h.0 prompt

-- What wait() has done when it returns.
abbrev pub Waited :
    List Group → List (Option Reply) → Result (ℕ × (List Group × List (Option Reply))) → Type 0
Waited gs ps result =
    (i : ℕ) × (gs' : List Group) × (ps' : List (Option Reply)) × (result ≡ returns (i, (gs', ps')))
    × Kept gs gs' ps'
    × WaitsAt gs' i
    × (replies ps ≤ suc (replies ps'))

pub length-containers :
    (gs gs' : List Group) → containers gs' ≡ containers gs → length gs' ≡ length gs
length-containers gs gs' e = sym (same gs') ∙ ap length e ∙ same gs
  where
    same : (hs : List Group) → length (containers hs) ≡ length hs
    same [] = refl
    same (h ∷ hs) = ap suc (same hs)

pub replies-le : (ps : List (Option Reply)) → replies ps ≤ length ps
unfolding replies
replies-le [] = omega arith
replies-le (none ∷ ps) = omega (arith, replies-le ps)
replies-le (some r ∷ ps) = omega (arith, replies-le ps)

wait_loop-Waited :
    (fuel : ℕ) (ft : Bool) (gs : List Group) (ps : List (Option Reply))
    → length ps < fuel
    → 0 < length gs
    → NoneFailed gs
    → Prompt ps
    → 0 < replies ps
    → Waited gs ps (wait_loop fuel ft gs ps)
unfolding wait_loop
wait_loop-Waited zero ft gs ps enough some_group h prompt some_reply = absurd (omega arith)
wait_loop-Waited (suc fuel) ft gs ps enough some_group h prompt some_reply =
    let gs' = (wait_round ft gs ps).0 in
    let ps' = (wait_round ft gs ps).1.0 in
    let ((same, (alive, prompt')), found) = wait_round-Kept ft gs ps h prompt in
    elim found [
      | inl (i, at_i, waits, le) ↦
          (i, gs', ps', rw (at_i, wait_loop) refl, (same, (alive, prompt')), waits, le)
      | inr (no_one, (same_replies, (_, shorter))) ↦
          let lt : length ps' < length ps = shorter some_group (omega (arith, replies-le ps)) in
          let (i, gs2, ps2, run, (same2, rest), waits, le) =
            wait_loop-Waited fuel ft gs' ps' (omega arith)
              (omega (arith, length-containers gs gs' same)) alive prompt' (omega arith) in
          (i, gs2, ps2, rw (no_one, wait_loop) run, (same2 ∙ same, rest), waits, omega (arith, le))
    ]

-- The groups of the manager p when q is what wait() has left of it, with the group i it has found.
abbrev pub Found : ProcessManager → ℕ → ProcessManager → Type 0
Found p i q =
    Kept p.pgroups q.pgroups q.polls
    × (WaitsAt q.pgroups i × ((replies p.polls ≤ suc (replies q.polls)) × (q.tasks ≡ p.tasks)))

-- If there is a group, none has failed, tests find nothing yet or a group that is done, and they
-- find one at least once, then wait() returns a group that waits, leaves the tasks of all groups,
-- has marked none as failed, and has used one reply at most.
pub wait-Found :
    (p : ProcessManager)
    → 0 < length p.pgroups
    → NoneFailed p.pgroups
    → Prompt p.polls
    → 0 < replies p.polls
    → (i : ℕ) × (q : ProcessManager) × (wait p ≡ returns (i, q)) × Found p i q
unfolding wait
wait-Found p some_group h prompt some_reply =
    let (i, gs, ps, run, kept, waits, le) =
      wait_loop-Waited (suc (length p.polls)) p.enable_ft p.pgroups p.polls (omega arith) some_group
        h prompt some_reply in
    (i, record p { pgroups = gs; polls = ps }, rw run refl, (kept, (waits, (le, refl))))
