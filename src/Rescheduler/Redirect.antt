-- ===== src/Rescheduler/Redirect.antt =====
-- The list of moves, one for each task.
use dis_co_tec.Prelude.{
  ℕ, ◌≡◌, sym, ap, ◌∙◌, false, Option, none, some, List, [], ◌∷◌, ◌++◌, map, All, All-append,
  Bool-cases, Option-cases, inl, inr,
}
use dis_co_tec.Level.{LevelVector, vector_eq}
use dis_co_tec.Rescheduler.{redirect}

-- No two moves are of one task.
abbrev pub Distinct : List LevelVector → Type 0
Distinct [] = Unit
Distinct (l ∷ ls) = All (λ k. vector_eq l k ≡ false) ls × Distinct ls

abbrev pub tasks_of : List (LevelVector × ℕ) → List LevelVector
tasks_of = map (λ m. m.0)

pub Distinct-append :
    (ls : List LevelVector) (l : LevelVector)
    → Distinct ls
    → All (λ k. vector_eq k l ≡ false) ls
    → Distinct (ls ++ l ∷ [])
Distinct-append [] l d h = (tt, tt)
Distinct-append (k ∷ ls) l d h =
    (All-append _ ls (l ∷ []) d.0 (h.0, tt), Distinct-append ls l d.1 h.1)

pub redirect-none :
    (l : LevelVector) (g : ℕ) (moves : List (LevelVector × ℕ))
    → redirect l g moves ≡ none
    → All (λ k. vector_eq k l ≡ false) (tasks_of moves)
unfolding redirect
redirect-none l g [] e = tt
redirect-none l g ((k, h) ∷ moves) e = elim (Bool-cases (vector_eq k l)) [
  | inl same ↦
      let e' : ◌≡◌ {A = Option (List (LevelVector × ℕ))} (some ((k, g) ∷ moves)) none =
        rw same at e in
      absurd (cc)
  | inr other ↦ elim (Option-cases (redirect l g moves)) [
    | inl absent ↦ (other, redirect-none l g moves absent)
    | inr (moves', found) ↦
        let e' : ◌≡◌ {A = Option (List (LevelVector × ℕ))} (some ((k, h) ∷ moves')) none =
          rw (other, found) at e in
        absurd (cc)
  ]
]

pub redirect-some :
    (l : LevelVector) (g : ℕ) (moves moves' : List (LevelVector × ℕ))
    → redirect l g moves ≡ some moves'
    → tasks_of moves' ≡ tasks_of moves
unfolding redirect
redirect-some l g [] moves' e =
    let e' : ◌≡◌ {A = Option (List (LevelVector × ℕ))} none (some moves') = e in absurd (cc)
redirect-some l g ((k, h) ∷ moves) moves' e = elim (Bool-cases (vector_eq k l)) [
  | inl same ↦
      let e' : ◌≡◌ {A = Option (List (LevelVector × ℕ))} (some ((k, g) ∷ moves)) (some moves') =
        rw same at e in
      let equal : ◌≡◌ {A = List (LevelVector × ℕ)} ((k, g) ∷ moves) moves' = cc in
      ap tasks_of (sym equal)
  | inr other ↦ elim (Option-cases (redirect l g moves)) [
    | inl absent ↦
        let e' : ◌≡◌ {A = Option (List (LevelVector × ℕ))} none (some moves') =
          rw (other, absent) at e in
        absurd (cc)
    | inr (rest, found) ↦
        let e' : ◌≡◌ {A = Option (List (LevelVector × ℕ))} (some ((k, h) ∷ rest)) (some moves') =
          rw (other, found) at e in
        let equal : ◌≡◌ {A = List (LevelVector × ℕ)} ((k, h) ∷ rest) moves' = cc in
        ap tasks_of (sym equal) ∙ ap (λ x. k ∷ x) (redirect-some l g moves rest found)
  ]
]
