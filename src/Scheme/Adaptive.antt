-- ===== src/Scheme/Adaptive.antt =====
-- computeCombiCoeffsAdaptive overwrites spaces while it runs: its loop next to the sums over all
-- spaces, on lists in which no later space is below an earlier one.
use mathlib.Core.List.{append_assoc, append-nil, map-append}
use dis_co_tec.Prelude.{
  ℕ, ◌≡◌, refl, sym, ap, ◌∙◌, Bool, true, false, ◌&&◌, not, inl, inr, List, [], ◌∷◌, ◌++◌, map,
  replicate, if◌then◌else◌, arith, keep_if, Bool-cases, All, All-append,
}
use dis_co_tec.Prelude.Int.{ℤ, pos, ◌+ℤ◌, ◌==ℤ◌, signed_laws}
use dis_co_tec.Level.{LevelVector, leq, geq, add, subtract, level_sum, equals_with_size_check}
use dis_co_tec.Scheme.{
  Scheme, power_of_minus_one, neighbour_sum, adaptive_loop, compute_combi_coeffs_adaptive,
}
use dis_co_tec.Scheme.BoxSum.{list_sum, list_sum-append, zero_add, add_zero}
use dis_co_tec.Scheme.Weights.{term}

-- The inner loop adds up the terms.
neighbour_sum-list_sum :
    (c : ℤ) (l tmp : LevelVector) (spaces : List LevelVector)
    → neighbour_sum c l tmp spaces ≡ c +ℤ list_sum (term l tmp) spaces
unfolding neighbour_sum list_sum
neighbour_sum-list_sum c l tmp [] = sym (add_zero c)
neighbour_sum-list_sum c l tmp (m ∷ spaces) = elim (Bool-cases (geq m l && leq m tmp)) [
  | inl h ↦ rw h (
      neighbour_sum-list_sum (c +ℤ power_of_minus_one (level_sum (subtract m l))) l tmp spaces
      ∙ omega signed_laws)
  | inr h ↦ rw h (neighbour_sum-list_sum c l tmp spaces ∙ omega signed_laws)
]

-- The coefficient of l among the spaces I.
unfoldable pub coefficient : ℕ → List LevelVector → LevelVector → ℤ
coefficient dim spaces l = list_sum (term l (add l (replicate dim 1))) spaces

-- Every space of the list is not below m.
abbrev pub NoneBelow : LevelVector → List LevelVector → Type 0
NoneBelow m = All (λ l. leq l m ≡ false)

-- No space is below one that comes earlier.
abbrev pub Ascending : List LevelVector → Type 0
Ascending [] = Unit
Ascending (m ∷ rest) = NoneBelow m rest × Ascending rest

abbrev pub Before : List LevelVector → List LevelVector → Type 0
Before done rest = All (λ m. NoneBelow m rest) done

abbrev pub NonZero : ℕ → List LevelVector → Type 0
NonZero dim = All (λ l. leq l (replicate dim 0) ≡ false)

equals_refl : (l : LevelVector) → equals_with_size_check l l ≡ true
unfolding equals_with_size_check
equals_refl [] = refl
equals_refl (x ∷ l) = ground (arith, equals_refl l)

equals-leq : (l m : LevelVector) → equals_with_size_check l m ≡ true → leq l m ≡ true
unfolding equals_with_size_check leq
equals-leq [] m h = refl
equals-leq (x ∷ l) [] h = cc
equals-leq (x ∷ l) (y ∷ m) h = ground (arith, equals-leq l m)

not_zero :
    (l : LevelVector) (dim : ℕ)
    → leq l (replicate dim 0) ≡ false
    → equals_with_size_check l (replicate dim 0) ≡ false
not_zero l dim h = ground (arith, equals-leq l (replicate dim 0))

module _ (dim : ℕ) (I : List LevelVector) where
  -- A space after its round.
  flagged : LevelVector → LevelVector
  flagged l = if coefficient dim I l ==ℤ pos 0 then replicate dim 0 else l

  term_above : (l tmp m : LevelVector) → leq l m ≡ false → term l tmp m ≡ pos 0
  term_above l tmp m h = rw h refl

  earlier :
      (l tmp : LevelVector) (done : List LevelVector)
      → Before done (l ∷ [])
      → list_sum (term l tmp) done ≡ pos 0
  unfolding list_sum
  earlier l tmp [] b = refl
  earlier l tmp (m ∷ done) b =
      rw (term_above l tmp m b.0.0, earlier l tmp done b.1) (zero_add (pos 0))

  earlier_flagged :
      (l tmp : LevelVector) (done : List LevelVector)
      → leq l (replicate dim 0) ≡ false
      → Before done (l ∷ [])
      → list_sum (term l tmp) (map flagged done) ≡ pos 0
  unfolding list_sum flagged
  earlier_flagged l tmp [] z b = refl
  earlier_flagged l tmp (m ∷ done) z b =
      rw (earlier_flagged l tmp done z b.1) (elim (Bool-cases (coefficient dim I m ==ℤ pos 0)) [
        | inl e ↦ rw (e, z) (zero_add (pos 0))
        | inr e ↦ rw (e, b.0.0) (zero_add (pos 0))
      ])

  Before-head :
      (done rest : List LevelVector) (l : LevelVector)
      → Before done (l ∷ rest)
      → Before done (l ∷ [])
  Before-head [] rest l b = tt
  Before-head (m ∷ done) rest l b = ((b.0.0, tt), Before-head done rest l b.1)

  Before-tail :
      (done rest : List LevelVector) (l : LevelVector) → Before done (l ∷ rest) → Before done rest
  Before-tail [] rest l b = tt
  Before-tail (m ∷ done) rest l b = (b.0.1, Before-tail done rest l b.1)

  -- The coefficient that a round computes among the flagged spaces is that among all.
  round_coefficient :
      (l : LevelVector) (done rest : List LevelVector)
      → done ++ l ∷ rest ≡ I
      → leq l (replicate dim 0) ≡ false
      → Before done (l ∷ [])
      → neighbour_sum (pos 0) l (add l (replicate dim 1)) (map flagged done ++ l ∷ rest)
        ≡ coefficient dim I l
  unfolding coefficient
  round_coefficient l done rest e z b =
      neighbour_sum-list_sum (pos 0) l _ (map flagged done ++ l ∷ rest)
      ∙ zero_add _
      ∙ list_sum-append _ (map flagged done) (l ∷ rest)
      ∙ ap (λ x. x +ℤ list_sum (term l (add l (replicate dim 1))) (l ∷ rest))
          (earlier_flagged l _ done z b ∙ sym (earlier l _ done b))
      ∙ sym (list_sum-append _ done (l ∷ rest))
      ∙ ap (list_sum (term l (add l (replicate dim 1)))) e

  adaptive_loop-flagged :
      (done rest : List LevelVector) (cs : List ℤ)
      → done ++ rest ≡ I
      → NonZero dim rest
      → Before done rest
      → Ascending rest
      → adaptive_loop dim (map flagged done) rest cs
        ≡ (map flagged I, cs ++ map (coefficient dim I) rest)
  unfolding adaptive_loop coefficient flagged
  adaptive_loop-flagged done [] cs e z b a =
      λ i. (map flagged ((sym (append-nil done) ∙ e) i), sym (append-nil cs) i)
  adaptive_loop-flagged done (l ∷ rest) cs e z b a =
      rw (round_coefficient l done rest e z.0 (Before-head done rest l b)) (
        ap (λ x. adaptive_loop dim x rest (cs ++ coefficient dim I l ∷ []))
          (sym (map-append flagged done (l ∷ [])))
        ∙ adaptive_loop-flagged (done ++ l ∷ []) rest (cs ++ coefficient dim I l ∷ [])
            (append_assoc done (l ∷ []) rest ∙ e) z.1
            (All-append _ done (l ∷ []) (Before-tail done rest l b) (a.0, tt)) a.1
        ∙ λ i. (
          map flagged I,
          append_assoc cs (coefficient dim I l ∷ []) (map (coefficient dim I) rest) i,
        ))

  abbrev pub is_counted : LevelVector → Bool
  is_counted l = not (coefficient dim I l ==ℤ pos 0)

  -- Deleting the flags leaves the spaces whose coefficient is not zero.
  delete_flagged :
      (xs : List LevelVector)
      → NonZero dim xs
      → keep_if (λ l. not (equals_with_size_check l (replicate dim 0))) (map flagged xs)
        ≡ keep_if is_counted xs
  unfolding keep_if flagged
  delete_flagged [] z = refl
  delete_flagged (l ∷ xs) z = elim (Bool-cases (coefficient dim I l ==ℤ pos 0)) [
    | inl e ↦ rw (e, equals_refl (replicate dim 0)) (delete_flagged xs z.1)
    | inr e ↦ rw (e, not_zero l dim z.0) (ap (λ x. l ∷ x) (delete_flagged xs z.1))
  ]

  delete_zeros :
      (xs : List LevelVector)
      → keep_if (λ c. not (c ==ℤ pos 0)) (map (coefficient dim I) xs)
        ≡ map (coefficient dim I) (keep_if is_counted xs)
  unfolding keep_if
  delete_zeros [] = refl
  delete_zeros (l ∷ xs) = elim (Bool-cases (coefficient dim I l ==ℤ pos 0)) [
    | inl e ↦ rw e (delete_zeros xs)
    | inr e ↦ rw e (ap (λ x. coefficient dim I l ∷ x) (delete_zeros xs))
  ]

-- In a scheme that has no coefficients yet, and whose spaces ascend and have no zero vector,
-- computeCombiCoeffsAdaptive keeps the spaces whose alternating sum over all spaces is not zero, in
-- their order, each with that sum.
pub compute_combi_coeffs_adaptive-keep_if :
    (s : Scheme)
    → s.coefficients ≡ []
    → NonZero s.dim s.combi_spaces
    → Ascending s.combi_spaces
    → compute_combi_coeffs_adaptive s ≡ record s {
      combi_spaces = keep_if (is_counted s.dim s.combi_spaces) s.combi_spaces;
      coefficients =
          map
            (coefficient s.dim s.combi_spaces)
            (keep_if (is_counted s.dim s.combi_spaces) s.combi_spaces);
    }
unfolding compute_combi_coeffs_adaptive
compute_combi_coeffs_adaptive-keep_if s e z a =
    let I = s.combi_spaces in
    let run : adaptive_loop s.dim [] I s.coefficients
        ≡ (map (flagged s.dim I) I, map (coefficient s.dim I) I) =
      rw e (adaptive_loop-flagged s.dim I [] I [] refl z tt a) in
    rw run λ i. record s {
      combi_spaces = delete_flagged s.dim I I z i;
      coefficients = delete_zeros s.dim I I i;
    }
