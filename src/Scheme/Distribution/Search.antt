-- ===== src/Scheme/Distribution/Search.antt =====
-- The search of getLoadBalancedLevels for the group with the lowest load, and what one assignment
-- does to the loads.
use dis_co_tec.Prelude.{
  ℕ, zero, suc, ◌+◌, ◌≤◌, ◌<◌, ◌≡◌, refl, sym, subst, ◌⊎◌, inl, inr, List, [], ◌∷◌, length, get_or,
  set, ltb, ◌==◌, if◌then◌else◌, arith, All, sum, Bool-cases, length-set,
}
use dis_co_tec.Scheme.Distribution.{max_load}
use dis_co_tec.Scheme.Distribution.Loads.{lightest_loop, lightest_group}

All-get_or : (P : ℕ → Type 0) (xs : List ℕ) (i : ℕ) → All P xs → i < length xs → P (get_or xs i 0)
All-get_or P [] i h lt = absurd (omega arith)
All-get_or P (x ∷ xs) zero h lt = h.0
All-get_or P (x ∷ xs) (suc i) h lt = All-get_or P xs i h.1 (omega arith)

pub get_or-set :
    (xs : List ℕ) (i v j : ℕ)
    → i < length xs
    → get_or (set xs i v) j 0 ≡ (if j == i then v else get_or xs j 0)
get_or-set [] i v j h = absurd (omega arith)
get_or-set (x ∷ xs) zero v zero h = refl
get_or-set (x ∷ xs) zero v (suc j) h = ground arith
get_or-set (x ∷ xs) (suc i) v zero h = ground arith
get_or-set (x ∷ xs) (suc i) v (suc j) h = ground (arith, get_or-set xs i v j)

pub sum-set :
    (xs : List ℕ) (i d : ℕ) → i < length xs → sum (set xs i (get_or xs i 0 + d)) ≡ sum xs + d
sum-set [] i d h = absurd (omega arith)
sum-set (x ∷ xs) zero d h = omega arith
sum-set (x ∷ xs) (suc i) d h = omega (arith, sum-set xs i d (omega arith))

abbrev pub Least : ℕ → List ℕ → Type 0
Least m = All (λ x. m ≤ x)

-- The search ends at the group it came with, or at a least load of the rest.
lightest_loop-Least :
    (group min_group min_load : ℕ) (loads : List ℕ)
    → ((lightest_loop group min_group min_load loads ≡ min_group) × Least min_load loads)
      ⊎ ((i : ℕ) × (i < length loads)
          × (lightest_loop group min_group min_load loads ≡ group + i)
          × (get_or loads i 0 < min_load)
          × Least (get_or loads i 0) loads)
unfolding lightest_loop
lightest_loop-Least group min_group min_load [] = inl (refl, tt)
lightest_loop-Least group min_group min_load (load ∷ loads) =
    elim (Bool-cases (ltb load min_load)) [
      | inl less ↦ rw less (elim (lightest_loop-Least (suc group) group load loads) [
        | inl (here, least) ↦ inr (0, ground arith, omega arith, ground arith, (omega arith, least))
        | inr (i, inside, there, smaller, least) ↦
            inr (suc i, omega arith, omega arith, ground arith, (omega arith, least))
      ])
      | inr not_less ↦
          rw not_less (elim (lightest_loop-Least (suc group) min_group min_load loads) [
            | inl (here, least) ↦ inl (here, (ground arith, least))
            | inr (i, inside, there, smaller, least) ↦
                inr (suc i, omega arith, omega arith, omega arith, (ground arith, least))
          ])
    ]

-- A group with the lowest load is found as long as the loads are below the largest long long.
pub lightest_group-Least :
    (loads : List ℕ)
    → 0 < length loads
    → sum loads < max_load
    → (lightest_group loads < length loads) × Least (get_or loads (lightest_group loads) 0) loads
unfolding lightest_group
lightest_group-Least [] h s = absurd (omega arith)
lightest_group-Least (x ∷ xs) h s = elim (lightest_loop-Least 0 0 max_load (x ∷ xs)) [
  | inl (here, least) ↦ absurd (omega arith)
  | inr (i, inside, there, smaller, least) ↦
      let found : lightest_loop 0 0 max_load (x ∷ xs) ≡ i = omega arith in
      (rw found inside, subst (λ g. Least (get_or (x ∷ xs) g 0) (x ∷ xs)) (sym found) least)
]

-- Any two loads differ by at most b.
abbrev pub Spread : ℕ → List ℕ → Type 0
Spread b loads =
    (i j : ℕ) → i < length loads → j < length loads → get_or loads i 0 ≤ get_or loads j 0 + b

pub set-Spread :
    (b : ℕ) (loads : List ℕ) (g d : ℕ)
    → g < length loads
    → Least (get_or loads g 0) loads
    → d ≤ b
    → Spread b loads
    → Spread b (set loads g (get_or loads g 0 + d))
set-Spread b loads g d inside least le spread i j hi hj =
    let hi' : i < length loads = omega (arith, length-set loads g (get_or loads g 0 + d)) in
    let hj' : j < length loads = omega (arith, length-set loads g (get_or loads g 0 + d)) in
    let at_i = get_or-set loads g (get_or loads g 0 + d) i inside in
    let at_j = get_or-set loads g (get_or loads g 0 + d) j inside in
    let low : get_or loads g 0 ≤ get_or loads j 0 = All-get_or _ loads j least hj' in
    rw (at_i, at_j) (ground (arith, spread i j hi' hj', spread i g hi' inside))
