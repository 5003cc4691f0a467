-- ===== src/Grid/Decomposition.antt =====
-- The default decomposition of src/fullgrid/DistributedFullGrid.hpp in one dimension.
use native.Mathlib.Nat.{
  div-mul-le_self, le-div_iff_mul-le, div-lt_iff_lt-mul, zero-div, mul-suc, mul-zero, div-eq_of_lt,
  mul-le-mul_left, mul-one,
}
use dis_co_tec.Prelude.{
  ℕ, zero, suc, ◌+◌, ◌-◌, ◌*◌, ◌/◌, ◌^◌, ◌≤◌, ◌<◌, ◌≡◌, refl, sym, subst, ap, ◌∙◌, ◌⊎◌, inl, inr,
  Bool, true, false, List, [], ◌∷◌, arith, length, get_or, all, ltb, ltb→lt, Bool-cases,
}
use dis_co_tec.Prelude.Doubles.{ceil, floor, quotient, rounded-small, floor-quotient, ceil-quotient}
use dis_co_tec.Grid.{
  first_index, first_indices, get_default_decomposition, returns, throws, invalid_argument,
}

-- The first indices of the parts of [0, n): they start at `lo`, ascend strictly and stay below n, so
-- that no part is empty.
abbrev pub Ascends : ℕ → ℕ → List ℕ → Type 0
Ascends lo n [] = lo ≤ n
Ascends lo n (x ∷ xs) = ((lo ≤ x) × ((x < n) × Ascends (suc x) n xs))

-- A decomposition of [0, n).
abbrev pub Decomposes : ℕ → List ℕ → Type 0
Decomposes n [] = ⊥
Decomposes n (x ∷ xs) = (x ≡ 0) × ((0 < n) × Ascends 1 n xs)

-- The quotient without rounding.
unfoldable exact_index : Bool → ℕ → ℕ → ℕ → ℕ
exact_index true n p j = (n * j + (p - 1)) / p
exact_index false n p j = n * j / p

unfoldable exact_indices : Bool → ℕ → ℕ → ℕ → ℕ → List ℕ
exact_indices forward n p zero j = []
exact_indices forward n p (suc k) j =
    exact_index forward n p j ∷ exact_indices forward n p k (suc j)

-- At least one index lies between the starts of neighbouring parts.
exact_index-suc :
    (forward : Bool) (n p j : ℕ)
    → 0 < p
    → p ≤ n
    → exact_index forward n p j < exact_index forward n p (suc j)
unfolding exact_index
exact_index-suc true n p j hp h =
    let q = (n * j + (p - 1)) / p in
    let low : q * p ≤ n * j + (p - 1) = div-mul-le_self (n * j + (p - 1)) p in
    let e : (q + 1) * p ≡ q * p + p = grind arith in
    let f : n * suc j ≡ n * j + n = mul-suc n j in
    let up : q + 1 ≤ (n * suc j + (p - 1)) / p = (le-div_iff_mul-le hp).1 (omega arith) in
    omega (arith, up)
exact_index-suc false n p j hp h =
    let q = n * j / p in
    let low : q * p ≤ n * j = div-mul-le_self (n * j) p in
    let e : (q + 1) * p ≡ q * p + p = grind arith in
    let f : n * suc j ≡ n * j + n = mul-suc n j in
    let up : q + 1 ≤ n * suc j / p = (le-div_iff_mul-le hp).1 (omega arith) in omega (arith, up)

exact_index-lt : (forward : Bool) (n p j : ℕ) → p ≤ n → j < p → exact_index forward n p j < n
unfolding exact_index
exact_index-lt true n p j h lt =
    let e : n * suc j ≤ n * p = mul-le-mul_left n (omega arith) in
    let f : n * suc j ≡ n * j + n = mul-suc n j in (div-lt_iff_lt-mul (omega arith)).1 (omega arith)
exact_index-lt false n p j h lt =
    let e : n * suc j ≤ n * p = mul-le-mul_left n (omega arith) in
    let f : n * suc j ≡ n * j + n = mul-suc n j in (div-lt_iff_lt-mul (omega arith)).1 (omega arith)

exact_index-zero : (forward : Bool) (n p : ℕ) → 0 < p → exact_index forward n p 0 ≡ 0
unfolding exact_index
exact_index-zero true n p h =
    let e : n * 0 + (p - 1) ≡ p - 1 = omega (arith, mul-zero n) in
    ap (λ a. a / p) e ∙ div-eq_of_lt (omega arith)
exact_index-zero false n p h = ap (λ a. a / p) (mul-zero n) ∙ zero-div p

exact_indices-Ascends :
    (forward : Bool) (n p k j lo : ℕ)
    → 0 < p
    → p ≤ n
    → j + k ≡ p
    → lo ≤ n
    → lo ≤ exact_index forward n p j
    → Ascends lo n (exact_indices forward n p k j)
unfolding exact_indices
exact_indices-Ascends forward n p zero j lo hp h e le h' = le
exact_indices-Ascends forward n p (suc k) j lo hp h e le h' =
    let lt = exact_index-lt forward n p j h (omega arith) in
    (
      h',
      (
        lt,
        exact_indices-Ascends forward n p k (suc j) (suc (exact_index forward n p j)) hp h
            (omega arith) (omega arith) (omega (arith, exact_index-suc forward n p j hp h)),
      ),
    )

exact_indices-length : (forward : Bool) (n p k j : ℕ) → length (exact_indices forward n p k j) ≡ k
unfolding exact_indices
exact_indices-length forward n p zero j = refl
exact_indices-length forward n p (suc k) j = ap suc (exact_indices-length forward n p k (suc j))

exact_indices-Decomposes :
    (forward : Bool) (n p : ℕ)
    → 0 < p
    → p ≤ n
    → (length (exact_indices forward n p p 0) ≡ p) × Decomposes n (exact_indices forward n p p 0)
unfolding exact_indices
exact_indices-Decomposes forward n zero hp h = absurd (omega arith)
exact_indices-Decomposes forward n (suc q) hp h = (
  ap suc (exact_indices-length forward n (suc q) q 1),
  (
    exact_index-zero forward n (suc q) (omega arith),
    (
      omega arith,
      exact_indices-Ascends forward n (suc q) q 1 1 (omega arith) h (omega arith) (omega arith)
          (omega (arith, exact_index-suc forward n (suc q) 0 (omega arith) h)),
    ),
  ),
)

-- While the product of points and processes is at most 2^53, the doubles round to the exact indices.
first_index-exact :
    (forward : Bool) (n p j : ℕ)
    → n * p ≤ 2 ^ 53
    → p ≤ n
    → j < p
    → first_index forward n p j ≡ exact_index forward n p j
unfolding first_index exact_index
first_index-exact forward n p j small h lt =
    let e : n * suc j ≤ n * p = mul-le-mul_left n lt in
    let product : n * j < 2 ^ 53 = omega (arith, e, mul-suc n j) in
    let hp : 0 < p = omega (arith, lt) in
    let once : n * 1 ≤ n * p = mul-le-mul_left n hp in
    let p_small : p ≤ 2 ^ 53 = omega (arith, once, mul-one n) in
    elim forward as (λ f. first_index f n p j ≡ exact_index f n p j) [
      | true ↦
          ap (λ a. ceil (quotient a p)) (rounded-small (n * j) product)
          ∙ ceil-quotient (n * j) p product hp p_small
      | false ↦
          ap (λ a. floor (quotient a p)) (rounded-small (n * j) product)
          ∙ floor-quotient (n * j) p product hp p_small
    ]

first_indices-exact :
    (forward : Bool) (n p k j : ℕ)
    → n * p ≤ 2 ^ 53
    → p ≤ n
    → j + k ≡ p
    → first_indices forward n p k j ≡ exact_indices forward n p k j
unfolding first_indices exact_indices
first_indices-exact forward n p zero j small h e = refl
first_indices-exact forward n p (suc k) j small h e =
    rw
      (
        first_index-exact forward n p j small h (omega arith),
        first_indices-exact forward n p k (suc j) small h (omega arith),
      )
      refl

-- For one to n processes in a dimension of n points, the decomposition has one part for each process,
-- starts at 0, ascends strictly and stays below n: no process is without points.
first_indices-Decomposes :
    (forward : Bool) (n p : ℕ)
    → 0 < p
    → p ≤ n
    → n * p ≤ 2 ^ 53
    → (length (first_indices forward n p p 0) ≡ p) × Decomposes n (first_indices forward n p p 0)
first_indices-Decomposes forward n p hp h small =
    subst (λ d. (length d ≡ p) × Decomposes n d)
      (sym (first_indices-exact forward n p p 0 small h (omega arith)))
      (exact_indices-Decomposes forward n p hp h)

-- One decomposition for each dimension, with as many parts as the dimension has processes.
abbrev pub DecomposesAll : List ℕ → List ℕ → List (List ℕ) → Type 0
DecomposesAll [] procs ds = ds ≡ []
DecomposesAll (n ∷ points) [] ds = ds ≡ []
DecomposesAll (n ∷ points) (p ∷ procs) [] = ⊥
DecomposesAll (n ∷ points) (p ∷ procs) (d ∷ ds) =
    ((length d ≡ p) × (Decomposes n d × DecomposesAll points procs ds))

abbrev pub Positives : List ℕ → Type 0
Positives [] = Unit
Positives (p ∷ ps) = (0 < p) × Positives ps

-- The product of points and processes of each dimension is a number that a double holds.
abbrev pub Small : List ℕ → List ℕ → Type 0
Small [] procs = Unit
Small (n ∷ points) [] = Unit
Small (n ∷ points) (p ∷ procs) = (n * p ≤ 2 ^ 53) × Small points procs

-- With at least one process in every dimension, and at most 2^53 as the product of the points and the
-- processes of each dimension: getDefaultDecomposition either returns a decomposition without
-- empty parts in each dimension, or throws invalid_argument, and then some dimension has more
-- processes than points.
pub default_decomposition :
    (points procs : List ℕ) (forward : Bool)
    → Positives procs
    → Small points procs
    → ((ds : List (List ℕ)) × (get_default_decomposition points procs forward ≡ returns ds)
        × DecomposesAll points procs ds)
      ⊎ ((get_default_decomposition points procs forward ≡ throws invalid_argument)
          × ((d : ℕ) × (get_or points d 0 < get_or procs d 0)))
unfolding get_default_decomposition
default_decomposition [] procs forward h small = inl ([], refl, refl)
default_decomposition (n ∷ points) [] forward h small = inl ([], refl, refl)
default_decomposition (n ∷ points) (p ∷ procs) forward h small = elim (Bool-cases (ltb n p)) [
  | inl few ↦ inr (rw few refl, (0, ltb→lt n p few))
  | inr enough ↦
      let parts = first_indices-Decomposes forward n p h.0 (ground arith) small.0 in
      elim (default_decomposition points procs forward h.1 small.1) [
        | inl (ds, returned, all) ↦ inl (
          first_indices forward n p p 0 ∷ ds,
          rw (enough, returned) refl,
          (parts.0, (parts.1, all)),
        )
        | inr (thrown, (d, lt)) ↦ inr (rw (enough, thrown) refl, (suc d, lt))
      ]
]
