-- ===== src/Manager/Mirror.antt =====
-- The task container of ProcessGroupManager next to the one of ProcessGroupWorker.
use mathlib.Core.List.{map-append, append_assoc}
use dis_co_tec.Prelude.{
  ℕ, suc, ◌≡◌, refl, ap, ◌∙◌, Bool, List, [], ◌∷◌, ◌++◌, map, some, Bool-cases, inl, inr,
}
use dis_co_tec.Manager.Signals.{Signal}
use dis_co_tec.Manager.{
  Task, Message, signal, task, Group, start, Outcome, done, assertion_failed, is_waiting,
  store_and_send_task, wait_status, Reply, Status, waiting, busy, failed,
}
use dis_co_tec.Manager.Worker.{Worker, worker_start, ready_with, wait, Served, nothing, next}

abbrev pub ids : List Task → List ℕ
ids = map (λ t. t.id)

-- The worker has served the trace, holds the tasks of the manager's container in its order, and has
-- sent its status as often as the manager has posted a receive for it.
pub record Mirrors (g : Group) (w : Worker) : Type 0 where
  pub served : Served g.sent w
  pub same_tasks : ids g.tasks ≡ w.tasks
  pub same_count : g.posted ≡ w.ready

pub start-Mirrors : Mirrors start worker_start
unfolding start
start-Mirrors = record { served = nothing; same_tasks = refl; same_count = refl }

-- One more call of wait at the other end.
pub advance :
    (g g' : Group) (w w' : Worker) (block : List Message)
    → Mirrors g w
    → wait w block ≡ some (w', [])
    → g'.sent ≡ g.sent ++ block
    → ids g'.tasks ≡ w'.tasks
    → g'.posted ≡ w'.ready
    → Mirrors g' w'
advance g g' w w' block m answer trace tasks count = record {
  served = next g.sent block m.served answer trace;
  same_tasks = tasks;
  same_count = count;
}

abbrev pub Mirrored : Group → Type 0
Mirrored g = (w : Worker) × Mirrors g w

-- A signal that is followed by a task, which the worker appends.
abbrev pub IsAdding : Signal → Type 0
IsAdding s =
    (w : Worker) (t : Task)
    → wait w (signal s ∷ task t ∷ []) ≡ some (ready_with (w.tasks ++ t.id ∷ []) w, [])

pub store_and_send_task-Mirrored :
    (s : Signal) (t : Task) (g : Group)
    → IsAdding s
    → Mirrored g
    → Mirrored (store_and_send_task t s g).0
unfolding store_and_send_task
store_and_send_task-Mirrored s t g adding (w, m) = elim (Bool-cases (is_waiting g.status)) [
  | inl e ↦ rw e (
    ready_with (w.tasks ++ t.id ∷ []) w,
    advance g _ w _ (signal s ∷ task t ∷ []) m (adding w t)
        (append_assoc g.sent (signal s ∷ []) (task t ∷ []))
        (unfold ready_with in map-append _ g.tasks (t ∷ []) ∙ ap (λ x. x ++ t.id ∷ []) m.same_tasks)
        (unfold ready_with in ap suc m.same_count),
  )
  | inr e ↦ rw e (w, m)
]

-- Signals with their payload after which the worker has the same tasks.
abbrev pub IsQuiet : List Message → Type 0
IsQuiet block = (w : Worker) → wait w block ≡ some (ready_with w.tasks w, [])

pub quiet-Mirrored :
    (g g' : Group) (block : List Message)
    → IsQuiet block
    → Mirrored g
    → g'.sent ≡ g.sent ++ block
    → g'.tasks ≡ g.tasks
    → g'.posted ≡ suc g.posted
    → Mirrored g'
quiet-Mirrored g g' block quiet (w, m) trace tasks count = (
  ready_with w.tasks w,
  advance g g' w _ block m (quiet w) trace (unfold ready_with in ap ids tasks ∙ m.same_tasks)
      (unfold ready_with in count ∙ ap suc m.same_count),
)

-- What an outcome leads to, if the assertion holds.
abbrev pub Holds : (Group → Type 0) → Outcome Group → Type 0
Holds P (done g) = P g
Holds P assertion_failed = Unit

unchanged-Mirrored :
    (g g' : Group)
    → Mirrored g
    → g'.sent ≡ g.sent
    → g'.tasks ≡ g.tasks
    → g'.posted ≡ g.posted
    → Mirrored g'
unchanged-Mirrored g g' (w, m) a b c = (
  w,
  record {
    served = rw a m.served;
    same_tasks = ap ids b ∙ m.same_tasks;
    same_count = c ∙ m.same_count;
  },
)

pub wait_status-Mirrored :
    (ft : Bool) (reply : Reply) (g : Group) → Mirrored g → Mirrored (wait_status ft reply g).0
unfolding wait_status
wait_status-Mirrored ft reply g m = by_status g.status refl
  where
    by_status : (s : Status) → g.status ≡ s → Mirrored (wait_status ft reply g).0
    by_status waiting e = rw (e, wait_status) m
    by_status failed e = rw (e, wait_status) m
    by_status busy e = rw (e, wait_status) (unchanged-Mirrored g _ m refl refl refl)
