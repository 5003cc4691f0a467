-- ===== src/Scheme/Distribution/Assigned.antt =====
-- getAssignedLevels, next to the selection of tasks by their group number.
use mathlib.Core.List.{append-nil, append_assoc}
use dis_co_tec.Prelude.{
  ℕ, zero, suc, ◌+◌, ◌<◌, ◌≡◌, refl, sym, ap, ◌∙◌, ◌⊎◌, inl, inr, Bool, true, false, some, List, [],
  ◌∷◌, ◌++◌, arith, length, get_elem?, get_or, keep_if, All, ltb, ◌==◌, ==_iff, Bool-cases,
}
use dis_co_tec.Level.{LevelVector}
use dis_co_tec.Scheme.Distribution.{
  push_task, push_task_at, assigned_loop, get_assigned_levels, least_number, starts_with_0, selects,
  runtime_error, assertion_failed,
}
use dis_co_tec.Scheme.Distribution.Shares.{numbers, share_of, push-share_of}

-- The list is what the whole has from t on.
abbrev Rest {ℓ} : {A : Type ℓ} → A → List A → ℕ → List A → Type ℓ
Rest {A = A} spare whole t rest =
    (i : ℕ) → ◌≡◌ {A = A} (get_or whole (t + i) spare) (get_or rest i spare)

Rest-tail {ℓ} :
    {A : Type ℓ} (spare : A) (whole : List A) (t : ℕ) (x : A) (rest : List A)
    → Rest spare whole t (x ∷ rest)
    → Rest spare whole (suc t) rest
Rest-tail spare whole t x rest h i = ap (λ j. get_or whole j spare) (omega arith) ∙ h (suc i)

Rest-head {ℓ} :
    {A : Type ℓ} (spare : A) (whole : List A) (t : ℕ) (x : A) (rest : List A)
    → Rest spare whole t (x ∷ rest)
    → get_or whole t spare ≡ x
Rest-head spare whole t x rest h = ap (λ j. get_or whole j spare) (omega arith) ∙ h 0

module _ {ℓ} {C : Type ℓ} (spare : C) (groups : List ℕ) (levels : List LevelVector)
    (coeffs : List C) (my : ℕ) where
  abbrev is_assigned : ℕ → Bool
  is_assigned t = get_or groups t 0 == my

  assigned_loop-keep_if :
      (t : ℕ) (ps : List ℕ) (ls : List LevelVector) (cs : List C) (ts : List ℕ)
      → length ps ≡ length ls
      → length ps ≡ length cs
      → Rest 0 groups t ps
      → Rest [] levels t ls
      → Rest spare coeffs t cs
      → assigned_loop my t ps ls cs (share_of spare levels coeffs ts)
        ≡ share_of spare levels coeffs (ts ++ keep_if is_assigned (numbers (length ls) t))
  unfolding assigned_loop keep_if
  assigned_loop-keep_if t [] [] cs ts e f hp hl hc =
      ap (share_of spare levels coeffs) (sym (append-nil ts))
  assigned_loop-keep_if t [] (l ∷ ls) cs ts e f hp hl hc = absurd (omega arith)
  assigned_loop-keep_if t (p ∷ ps) [] cs ts e f hp hl hc = absurd (omega arith)
  assigned_loop-keep_if t (p ∷ ps) (l ∷ ls) [] ts e f hp hl hc = absurd (omega arith)
  assigned_loop-keep_if t (p ∷ ps) (l ∷ ls) (c ∷ cs) ts e f hp hl hc =
      let later = λ (us : List ℕ).
        assigned_loop-keep_if (suc t) ps ls cs us (omega arith) (omega arith)
          (Rest-tail 0 groups t p ps hp) (Rest-tail [] levels t l ls hl)
          (Rest-tail spare coeffs t c cs hc) in
      let group : get_or groups t 0 ≡ p = Rest-head 0 groups t p ps hp in
      let pushed : push_task t l c (share_of spare levels coeffs ts)
          ≡ share_of spare levels coeffs (ts ++ t ∷ []) =
        (λ i.
          push_task t (sym (Rest-head [] levels t l ls hl) i)
            (sym (Rest-head spare coeffs t c cs hc) i) (share_of spare levels coeffs ts))
        ∙ unfold push_task_at in push-share_of spare levels coeffs t ts in
      elim (Bool-cases (p == my)) [
        | inl mine ↦
            rw (group, mine, pushed)
              (later (ts ++ t ∷ [])
                ∙ ap (share_of spare levels coeffs)
                    (append_assoc ts (t ∷ []) (keep_if is_assigned (numbers (length ls) (suc t)))))
        | inr other ↦ rw (group, other) (later ts)
      ]

Rest-refl {ℓ} : {A : Type ℓ} (spare : A) (whole : List A) → Rest spare whole 0 whole
Rest-refl spare whole i = ap (λ j. get_or whole j spare) (omega arith)

least_number-zero :
    (m : ℕ) (ps : List ℕ) → least_number m ps ≡ 0 → (k : ℕ) × (get_elem? (m ∷ ps) k ≡ some 0)
unfolding least_number
least_number-zero m [] e = (0, ap some e)
least_number-zero m (p ∷ ps) e = elim (Bool-cases (ltb p m)) [
  | inl less ↦ further (least_number-zero p ps (rw less at e))
  | inr more ↦ skip (least_number-zero m ps (rw more at e))
]
  where
    further :
        (k : ℕ) × (get_elem? (p ∷ ps) k ≡ some 0) → (k : ℕ) × (get_elem? (m ∷ p ∷ ps) k ≡ some 0)
    further (k, at_k) = (suc k, at_k)

    skip : (k : ℕ) × (get_elem? (m ∷ ps) k ≡ some 0) → (k : ℕ) × (get_elem? (m ∷ p ∷ ps) k ≡ some 0)
    skip (zero, at_k) = (0, at_k)
    skip (suc k, at_k) = (suc (suc k), at_k)

least_number-positive :
    (m : ℕ) (ps : List ℕ) → (least_number m ps == 0) ≡ false → All (λ p. 0 < p) (m ∷ ps)
unfolding least_number
least_number-positive m [] e = (ground arith, tt)
least_number-positive m (p ∷ ps) e = elim (Bool-cases (ltb p m)) [
  | inl less ↦
      let later = least_number-positive p ps (rw less at e) in (ground (arith, later.0), later)
  | inr more ↦
      let later = least_number-positive m ps (rw more at e) in
      (later.0, (ground (arith, later.0), later.1))
]

-- A scheme that has one group number and one coefficient for each of its tasks: without tasks,
-- getAssignedLevels throws an exception; if some group number is 0, the group my gets the tasks with
-- its number, in the order of the scheme, each with its level and its coefficient, and the number of
-- all tasks is returned; if there are tasks and no group number is 0, an assertion fails.
pub get_assigned_levels-keep_if {ℓ} :
    {C : Type ℓ} (spare : C) (groups : List ℕ) (levels : List LevelVector) (coeffs : List C)
    (my : ℕ)
    → length groups ≡ length levels
    → length groups ≡ length coeffs
    → ((length groups ≡ 0) × (get_assigned_levels groups levels coeffs my ≡ runtime_error))
      ⊎ ((((k : ℕ) × (get_elem? groups k ≡ some 0))
            × (get_assigned_levels groups levels coeffs my
                ≡ selects (
                  share_of spare levels coeffs
                      (keep_if (λ t. get_or groups t 0 == my) (numbers (length levels) 0)),
                  length levels,
                )))
          ⊎ (((0 < length groups) × All (λ p. 0 < p) groups)
              × (get_assigned_levels groups levels coeffs my ≡ assertion_failed)))
unfolding get_assigned_levels starts_with_0
get_assigned_levels-keep_if spare [] levels coeffs my e f =
    let sizes : (length levels == length coeffs) ≡ true = ground arith in
    let one_coeff : (0 == length coeffs) ≡ true = ground arith in
    inl (refl, rw (sizes, one_coeff) refl)
get_assigned_levels-keep_if spare (p ∷ ps) levels coeffs my e f =
    let groups : List ℕ = p ∷ ps in
    let sizes : (length levels == length coeffs) ≡ true = ground arith in
    let one_coeff : (length groups == length coeffs) ≡ true = ground arith in
    let one_level : (length groups == length levels) ≡ true = ground arith in
    let not_empty : (length groups == 0) ≡ false = ground arith in
    elim (Bool-cases (least_number p ps == 0)) [
      | inl some_0 ↦ inr (
          inl (
            least_number-zero p ps ((==_iff _ _).0 some_0),
            rw (sizes, one_coeff, one_level, not_empty, some_0)
                (ap (λ s. selects (s, length levels))
                  (assigned_loop-keep_if spare groups levels coeffs my 0 groups levels coeffs [] e f
                    (Rest-refl 0 groups) (Rest-refl [] levels) (Rest-refl spare coeffs))),
          ))
      | inr no_0 ↦ inr (
          inr (
            (omega arith, least_number-positive p ps no_0),
            rw (sizes, one_coeff, one_level, not_empty, no_0) refl,
          ))
    ]
