-- ===== src/Scheme/ThirdLevel.antt =====
-- CombiThirdLevelScheme of src/combischeme: the part of a scheme that one of two systems computes.
-- How many grids the first system gets, std::round of a fraction of their number, is floating-point:
-- an argument.
use dis_co_tec.Prelude.{
  ℕ, zero, suc, ◌<◌, ◌≡◌, refl, ap, true, ◌&&◌, Option, none, some, List, [], ◌∷◌, ◌++◌, length,
  get_elem?, take, drop, ltb, leb, if◌then◌else◌, arith, length-take,
}
use dis_co_tec.Level.{LevelVector}

infixl 5 ◌>>=◌
abbrev pub ◌>>=◌ {ℓ κ} : {A : Type ℓ} {B : Type κ} → Option A → (A → Option B) → Option B
none >>= f = none
some a >>= f = f a

module _ {ℓ} {C : Type ℓ} where
  -- The decomposed scheme and coefficients; the assertion is that both halves have a grid.
  unfoldable pub decompose_scheme :
      ℕ → List LevelVector → List C → Option (List (List LevelVector) × List (List C))
  decompose_scheme num_grids_first_system full_scheme full_scheme_coeffs =
      let n = num_grids_first_system in
      if ltb 0 n && ltb n (length full_scheme)
      then some (
        take n full_scheme ∷ drop n full_scheme ∷ [],
        take n full_scheme_coeffs ∷ drop n full_scheme_coeffs ∷ [],
      )
      else none

  -- The scheme of system `system_number` of `num_systems`; `none` is a failed assertion, or a system
  -- that there is not.
  unfoldable pub create_third_level_scheme :
      ℕ → List LevelVector → List C → ℕ → ℕ → Option (List LevelVector × List C)
  unfolding decompose_scheme
  create_third_level_scheme num_grids_first_system levels coeffs system_number num_systems =
      let decomposed = decompose_scheme num_grids_first_system levels coeffs in
      if ltb num_systems 2
      then some (levels, coeffs)
      else if leb num_systems 2
      then (do
        (scheme, parts) ← decomposed
        new_levels ← get_elem? scheme system_number
        new_coeffs ← get_elem? parts system_number
        some (new_levels, new_coeffs))
      else none

take-append-drop {ℓ} : {A : Type ℓ} (n : ℕ) (xs : List A) → take n xs ++ drop n xs ≡ xs
take-append-drop zero xs = refl
take-append-drop (suc n) [] = refl
take-append-drop (suc n) (x ∷ xs) = ap (λ ys. x ∷ ys) (take-append-drop n xs)

-- With two systems and at least one grid for each, both get a part, the first one as many grids as it
-- is meant to; the parts together are the full scheme in its order, and so are the coefficients.
pub two_systems {ℓ} :
    {C : Type ℓ} (n : ℕ) (levels : List LevelVector) (coeffs : List C)
    → 0 < n
    → n < length levels
    → length levels ≡ length coeffs
    → (first second : List LevelVector × List C) × (create_third_level_scheme n levels coeffs 0 2
        ≡ some first)
      × (create_third_level_scheme n levels coeffs 1 2 ≡ some second)
      × (first.0 ++ second.0 ≡ levels)
      × (first.1 ++ second.1 ≡ coeffs)
      × (length first.0 ≡ n)
      × (length first.1 ≡ n)
unfolding create_third_level_scheme decompose_scheme
two_systems n levels coeffs pos_n less sizes =
    let proper : (ltb 0 n && ltb n (length levels)) ≡ true = ground arith in
    (
      (take n levels, take n coeffs),
      (drop n levels, drop n coeffs),
      rw proper refl,
      rw proper refl,
      take-append-drop n levels,
      take-append-drop n coeffs,
      omega (arith, length-take n levels),
      omega (arith, length-take n coeffs),
    )
