-- ===== src/Scheme/AdaptiveScheme.antt =====
-- createAdaptiveCombischeme from the constructor to the coefficients.
use dis_co_tec.Prelude.{
  ℕ, suc, ◌-◌, ◌≤◌, ◌≡◌, refl, sym, ap, ◌∙◌, Bool, true, ◌&&◌, some, List, [], ◌∷◌, map, length,
  sum, leb, if◌then◌else◌, arith, keep_if, keep_if-keep_if, get_elem?, get_elem?-keep_if,
  All-get_elem?, All-keep_if,
}
use dis_co_tec.Prelude.Int.{ℤ, pos, ◌-ℤ◌}
use dis_co_tec.Level.{LevelVector, ok, runtime_error, leq, geq, level_sum}
use dis_co_tec.Level.Vectors.{Below, leq-Below, Below-leq, level_sum-sum}
use dis_co_tec.Level.DownSet.{box}
use dis_co_tec.Level.Truncated.{create_truncated_hierarchical_levels, min_level_difference}
use dis_co_tec.Level.Truncated.Closed.{accepted, accepted-anti, create_truncated_rec-keep_if}
use dis_co_tec.Scheme.{
  Scheme, init, get_furthest_corner, select_adaptive_spaces, create_adaptive_combischeme,
  compute_combi_coeffs_adaptive,
}
use dis_co_tec.Scheme.BoxSum.{Within, list_sum}
use dis_co_tec.Scheme.Adaptive.{
  coefficient, Ascending, NonZero, compute_combi_coeffs_adaptive-keep_if,
}
use dis_co_tec.Scheme.CountOnce.{counted, counted-is_counted, count_once, length-Within}
use dis_co_tec.Scheme.BoxOrder.{box-Within, box-Ascending, keep_if-Ascending, box-NonZero}

Below-trans : (k l m : LevelVector) → Below k l → Below l m → Below k m
Below-trans [] [] [] a b = tt
Below-trans [] [] (z ∷ m) a b = elim b [ ]
Below-trans [] (y ∷ l) m a b = elim a [ ]
Below-trans (x ∷ k) [] m a b = elim a [ ]
Below-trans (x ∷ k) (y ∷ l) [] a b = elim b [ ]
Below-trans (x ∷ k) (y ∷ l) (z ∷ m) a b = (omega arith, Below-trans k l m a.1 b.1)

sum-Below : (l m : LevelVector) → Below l m → sum l ≤ sum m
sum-Below [] [] b = omega arith
sum-Below [] (y ∷ m) b = elim b [ ]
sum-Below (x ∷ l) [] b = elim b [ ]
sum-Below (x ∷ l) (y ∷ m) b = omega (arith, sum-Below l m b.1)

-- The test that the combination spaces pass, as one test on the box up to lmax.
selected : ℕ → ℕ → List ℤ → LevelVector → LevelVector → Bool
selected n regular rlmin lmin l = accepted regular rlmin [] l && (geq l lmin && leb (level_sum l) n)

module _ (n regular : ℕ) (rlmin : List ℤ) (lmin lmax k : LevelVector)
    (sizes : length lmin ≡ length lmax) (k_in : Within k lmax)
    (k_selected : selected n regular rlmin lmin k ≡ true) where
  above_lmin : leq lmin k ≡ true
  unfolding selected
  above_lmin = ground arith

  selected-closed :
      (l m : LevelVector)
      → Within l lmax
      → Within m lmax
      → leq k l ≡ true
      → leq l m ≡ true
      → selected n regular rlmin lmin m ≡ true
      → selected n regular rlmin lmin l ≡ true
  unfolding selected
  selected-closed l m a b kl lm h =
      let size : length l ≡ length lmax = length-Within l lmax a in
      let size' : length m ≡ length lmax = length-Within m lmax b in
      let size'' : length k ≡ length lmax = length-Within k lmax k_in in
      let below : Below l m = leq-Below l m (size ∙ sym size') lm in
      let above : Below lmin l =
        Below-trans lmin k l (leq-Below lmin k (sizes ∙ sym size'') above_lmin)
          (leq-Below k l (size'' ∙ sym size) kl) in
      ground (
        arith,
        accepted-anti regular rlmin l m below,
        Below-leq lmin l above,
        sum-Below l m below,
        level_sum-sum l,
        level_sum-sum m,
      )

nonempty :
    (ls : List LevelVector) (j : ℕ) (k : LevelVector) (s : Scheme)
    → get_elem? ls j ≡ some k
    → elim ls [ [] ↦ runtime_error | _ ↦ ok s ] ≡ ok s
nonempty [] j k s e = cc
nonempty (l ∷ ls) j k s e = refl

-- The levels that createAdaptiveCombischeme creates, and their number n.
abbrev adaptive_n : LevelVector → LevelVector → ℕ
adaptive_n lmin lmax = level_sum (get_furthest_corner lmax lmin)

abbrev adaptive_rlmin : LevelVector → LevelVector → List ℤ
adaptive_rlmin lmin lmax = map (λ rl. pos rl -ℤ pos (adaptive_n lmin lmax - level_sum lmin)) lmax

abbrev regular_level : LevelVector → LevelVector → ℕ
regular_level lmin lmax = min_level_difference lmax (adaptive_rlmin lmin lmax)

abbrev regular_lmin : LevelVector → LevelVector → List ℤ
regular_lmin lmin lmax = map (λ x. pos x -ℤ pos (regular_level lmin lmax)) lmax

module _ (lmin : LevelVector) (x : ℕ) (rest : LevelVector) where
  abbrev top : LevelVector
  top = x ∷ rest

  abbrev start : Scheme
  start = init (length top) lmin top

  abbrev test : LevelVector → Bool
  test = selected (adaptive_n lmin top) (regular_level lmin top) (regular_lmin lmin top) lmin

  levels-keep_if :
      (select_adaptive_spaces start).levels
      ≡ keep_if (accepted (regular_level lmin top) (regular_lmin lmin top) []) (box top)
  unfolding select_adaptive_spaces create_truncated_hierarchical_levels init
  levels-keep_if = create_truncated_rec-keep_if _ _ x rest

  combi_spaces-keep_if : (select_adaptive_spaces start).combi_spaces ≡ keep_if test (box top)
  unfolding select_adaptive_spaces create_truncated_hierarchical_levels init selected
  combi_spaces-keep_if =
      ap (keep_if _) (create_truncated_rec-keep_if _ _ x rest)
      ∙ keep_if-keep_if _ (accepted (regular_level lmin top) (regular_lmin lmin top) []) (box top)

  dim-length : (select_adaptive_spaces start).dim ≡ length top
  unfolding select_adaptive_spaces init
  dim-length = refl

  no_coefficients : (select_adaptive_spaces start).coefficients ≡ []
  unfolding select_adaptive_spaces init
  no_coefficients = refl

  spaces-NonZero : NonZero (suc (length rest)) (keep_if test (box top))
  spaces-NonZero = All-keep_if _ test (box top) (box-NonZero x rest (length rest))

  spaces-Ascending : Ascending (keep_if test (box top))
  spaces-Ascending = keep_if-Ascending test (box top) (box-Ascending top)

  abbrev final : Scheme
  final = compute_combi_coeffs_adaptive (select_adaptive_spaces start)

  final_counts :
      (k : LevelVector)
      → counted k final.combi_spaces final.coefficients
        ≡ list_sum
            (λ l. if leq k l then coefficient (length top) (keep_if test (box top)) l else pos 0)
            (keep_if test (box top))
  final_counts k =
      ap (λ s. counted k s.combi_spaces s.coefficients)
        (compute_combi_coeffs_adaptive-keep_if (select_adaptive_spaces start) no_coefficients
          (rw (dim-length, combi_spaces-keep_if) spaces-NonZero)
          (rw combi_spaces-keep_if spaces-Ascending))
      ∙ counted-is_counted k _ _
      ∙ rw (dim-length, combi_spaces-keep_if) refl

  final_levels : final.levels ≡ (select_adaptive_spaces start).levels
  unfolding compute_combi_coeffs_adaptive
  final_levels = refl

  -- A selected space passes the test, and lies in the box.
  selected_space :
      (k : LevelVector) (i : ℕ)
      → get_elem? (select_adaptive_spaces start).combi_spaces i ≡ some k
      → (test k ≡ true) × Within k top
  selected_space k i e =
      let (j, at_j, passes) = get_elem?-keep_if test (box top) i k (rw combi_spaces-keep_if at e) in
      (passes, All-get_elem? _ (box top) j (box-Within top) at_j)

  created :
      (k : LevelVector) (i : ℕ)
      → get_elem? (select_adaptive_spaces start).combi_spaces i ≡ some k
      → create_adaptive_combischeme start ≡ ok final
  unfolding create_adaptive_combischeme init
  created k i e =
      let (j, at_j, _) = get_elem?-keep_if _ (select_adaptive_spaces start).levels i k e in
      nonempty _ j k final at_j

no_dimension :
    (lmin : LevelVector) (i : ℕ) (k : LevelVector)
    → get_elem? (select_adaptive_spaces (init 0 lmin [])).combi_spaces i ≡ some k
    → ⊥
unfolding select_adaptive_spaces init create_truncated_hierarchical_levels keep_if
no_dimension lmin i k e = cc

-- For lmin and lmax of one size: createAdaptiveCombischeme succeeds if it selects any space, and then
-- the coefficients of the grids that contain a selected level add up to 1: the combination counts each such subspace once.
pub adaptive_counts_once :
    (lmin lmax : LevelVector) (i : ℕ) (k : LevelVector)
    → length lmin ≡ length lmax
    → get_elem? (select_adaptive_spaces (init (length lmax) lmin lmax)).combi_spaces i ≡ some k
    → (s : Scheme) × (create_adaptive_combischeme (init (length lmax) lmin lmax) ≡ ok s)
      × (counted k s.combi_spaces s.coefficients ≡ pos 1)
adaptive_counts_once lmin [] i k sizes e = absurd (no_dimension lmin i k e)
adaptive_counts_once lmin (x ∷ rest) i k sizes e =
    let (passes, inside) = selected_space lmin x rest k i e in
    (
      final lmin x rest,
      created lmin x rest k i e,
      final_counts lmin x rest k
          ∙ count_once (x ∷ rest) (test lmin x rest) k inside passes
              (selected-closed _ _ _ lmin (x ∷ rest) k sizes inside passes),
    )
