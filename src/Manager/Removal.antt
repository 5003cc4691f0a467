-- ===== src/Manager/Removal.antt =====
-- Task containers in which every number stands once: adding and removing a task.
use mathlib.Core.List.{map-append}
use dis_co_tec.Prelude.{
  ℕ, ◌≡◌, refl, sym, ◌≢◌, ◌⊎◌, false, List, [], ◌∷◌, ◌++◌, ◌==◌, Option, none, some, arith, All,
  All-append, Bool-cases, Option-cases, inl, inr,
}
use dis_co_tec.Level.{LevelVector, vector_eq}
use dis_co_tec.Manager.Signals.{Signal}
use dis_co_tec.Manager.{Task, Group, is_waiting, store_and_send_task, take_level}
use dis_co_tec.Manager.Worker.{remove_task}
use dis_co_tec.Manager.Mirror.{ids}

-- The task numbers are distinct.
abbrev pub Distinct : List ℕ → Type 0
Distinct [] = Unit
Distinct (i ∷ is) = All (λ j. j ≢ i) is × Distinct is

pub none≢some :
    (u : Task) (rest : List Task) → ◌≡◌ {A = Option (Task × List Task)} none (some (u, rest)) → ⊥
none≢some u rest e = cc

pub take_level-cases :
    (lv : LevelVector) (t : Task) (ts rest : List Task) (u : Task)
    → take_level lv (t ∷ ts) ≡ some (u, rest)
    → ((t ≡ u) × (ts ≡ rest))
      ⊎ ((us : List Task) × (take_level lv ts ≡ some (u, us)) × (rest ≡ t ∷ us))
unfolding take_level
take_level-cases lv t ts rest u e = elim (Bool-cases (vector_eq t.level lv)) [
  | inl h ↦
      let e' : ◌≡◌ {A = Option (Task × List Task)} (some (t, ts)) (some (u, rest)) = rw h at e in
      inl (cc, cc)
  | inr h ↦ elim (Option-cases (take_level lv ts)) [
    | inl none_left ↦
        let e' : none ≡ some (u, rest) = rw (h, none_left) at e in absurd (none≢some _ _ e')
    | inr ((v, us), found) ↦
        let e' : ◌≡◌ {A = Option (Task × List Task)} (some (v, t ∷ us)) (some (u, rest)) =
          rw (h, found) at e in
        let same : v ≡ u = cc in
        let tail : t ∷ us ≡ rest = cc in inr (us, rw (← same) found, sym tail)
  ]
]

take_level-ne :
    (lv : LevelVector) (ts rest : List Task) (u : Task) (a : ℕ)
    → take_level lv ts ≡ some (u, rest)
    → All (λ j. j ≢ a) (ids ts)
    → u.id ≢ a
unfolding take_level
take_level-ne lv [] rest u a e h = cc
take_level-ne lv (t ∷ ts) rest u a e h = elim (take_level-cases lv t ts rest u e) [
  | inl (same, _) ↦ rw (← same) h.0
  | inr (us, found, _) ↦ take_level-ne lv ts us u a found h.1
]

-- The first task of a level is the first with its number.
pub take_level-remove_task :
    (lv : LevelVector) (ts rest : List Task) (u : Task)
    → take_level lv ts ≡ some (u, rest)
    → Distinct (ids ts)
    → remove_task u.id (ids ts) ≡ ids rest
unfolding take_level remove_task
take_level-remove_task lv [] rest u e d = cc
take_level-remove_task lv (t ∷ ts) rest u e d = elim (take_level-cases lv t ts rest u e) [
  | inl (same, tail) ↦ rw (← same, ← tail) (ground arith)
  | inr (us, found, tail) ↦
      let other : u.id ≢ t.id = take_level-ne lv ts us u t.id found d.0 in
      let later : remove_task u.id (ids ts) ≡ ids us =
        take_level-remove_task lv ts us u found d.1 in
      let miss : (t.id == u.id) ≡ false = ground arith in rw (miss, tail, later) refl
]

All-remove_task : (P : ℕ → Type 0) (id : ℕ) (is : List ℕ) → All P is → All P (remove_task id is)
unfolding remove_task
All-remove_task P id [] h = tt
All-remove_task P id (i ∷ is) h = elim (Bool-cases (i == id)) [
  | inl e ↦ rw e h.1
  | inr e ↦ rw e (h.0, All-remove_task P id is h.1)
]

pub Distinct-remove_task : (id : ℕ) (is : List ℕ) → Distinct is → Distinct (remove_task id is)
unfolding remove_task
Distinct-remove_task id [] d = tt
Distinct-remove_task id (i ∷ is) d = elim (Bool-cases (i == id)) [
  | inl e ↦ rw e d.1
  | inr e ↦ rw e (All-remove_task _ id is d.0, Distinct-remove_task id is d.1)
]

pub Distinct-append :
    (is : List ℕ) (i : ℕ) → Distinct is → All (λ j. j ≢ i) is → Distinct (is ++ i ∷ [])
Distinct-append [] i d h = (tt, tt)
Distinct-append (j ∷ is) i d h =
    (All-append _ is (i ∷ []) d.0 ((λ e. h.0 (sym e)), tt), Distinct-append is i d.1 h.1)

pub store_and_send_task-Distinct :
    (t : Task) (s : Signal) (g : Group)
    → Distinct (ids g.tasks)
    → All (λ j. j ≢ t.id) (ids g.tasks)
    → Distinct (ids (store_and_send_task t s g).0.tasks)
unfolding store_and_send_task
store_and_send_task-Distinct t s g d h = elim (Bool-cases (is_waiting g.status)) [
  | inl e ↦
      rw (e, map-append (λ (u : Task). u.id) g.tasks (t ∷ []))
        (Distinct-append (ids g.tasks) t.id d h)
  | inr e ↦ rw e d
]
