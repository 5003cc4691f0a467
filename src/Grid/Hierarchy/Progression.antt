-- ===== src/Grid/Hierarchy/Progression.antt =====
-- An arithmetic progression inside a window is the window filtered by a test that holds on the
-- progression and nowhere else.
use native.Mathlib.Nat.{div-eq_of_lt, div-eq-sub-div, div-mul-le_self, lt-div-mul-add}
use dis_co_tec.Prelude.{
  ℕ, zero, suc, ◌+◌, ◌-◌, ◌*◌, ◌/◌, ◌≤◌, ◌<◌, ◌≡◌, refl, ap, subst, inl, inr, Bool, true, false,
  List, [], ◌∷◌, arith, dec_lt, keep_if, ltb, leb, if◌then◌else◌, ltb→lt, Bool-cases,
}
use dis_co_tec.Grid.Hierarchy.{generate, get_num_points_on_this_partition}

-- [i, i + n)
unfoldable pub indices : ℕ → ℕ → List ℕ
indices zero i = []
indices (suc n) i = i ∷ indices n (suc i)

count-before : (size start s : ℕ) → size ≤ start → get_num_points_on_this_partition size start s ≡ 0
unfolding get_num_points_on_this_partition
count-before size start s h = ground arith

count-step :
    (size start s : ℕ)
    → 0 < s
    → start < size
    → get_num_points_on_this_partition size start s
      ≡ suc (get_num_points_on_this_partition size (start + s) s)
unfolding get_num_points_on_this_partition
count-step size start s hs h = elim (dec_lt (start + s) size) [
  | yes more ↦
      let a : leb size start ≡ false = ground arith in
      let b : leb size (start + s) ≡ false = ground arith in
      let e : (size - 1 - start) / s ≡ (size - 1 - start - s) / s + 1 =
        div-eq-sub-div hs (omega arith) in
      let f : size - 1 - start - s ≡ size - 1 - (start + s) = omega arith in
      rw (a, b) (omega (arith, e, ap (λ x. x / s) f))
  | no last ↦
      let a : leb size start ≡ false = ground arith in
      let b : leb size (start + s) ≡ true = ground arith in
      let e : (size - 1 - start) / s ≡ 0 = div-eq_of_lt (omega arith) in
      rw (a, b) (omega (arith, e))
]

-- The test on the indices below `bound`: true at offset + m * s, false between and before.
pub record Periodic (T : ℕ → Bool) (offset s bound : ℕ) : Type 0 where
  pub step_positive : 0 < s
  pub hit : (m : ℕ) → offset + m * s < bound → T (offset + m * s) ≡ true
  pub gap : (m r : ℕ) → 0 < r → r < s → offset + m * s + r < bound → T (offset + m * s + r) ≡ false
  pub before : (i : ℕ) → i < offset → i < bound → T i ≡ false

module _ {T : ℕ → Bool} {offset s bound : ℕ} (periodic : Periodic T offset s bound)
    (lower : ℕ) where
  window :
      (n i start m : ℕ)
      → i ≤ start
      → lower + start ≡ offset + m * s
      → ((j : ℕ) → i ≤ j → j < start → lower + j < bound → T (lower + j) ≡ false)
      → lower + i + n ≤ bound
      → generate (get_num_points_on_this_partition (i + n) start s) start s
        ≡ keep_if (λ j. T (lower + j)) (indices n i)
  unfolding generate indices keep_if
  window zero i start m le at_m none_before fits =
      rw (count-before (i + 0) start s (omega arith)) refl
  window (suc n) i start m le at_m none_before fits =
      let size : i + suc n ≡ suc i + n = omega arith in
      elim (dec_lt i start) [
        | yes lt ↦
            rw (none_before i (omega arith) lt (omega arith), size)
              (window n (suc i) start m lt at_m (λ j a b c. none_before j (omega arith) b c)
                (omega arith))
        | no ge ↦
            let same : start ≡ i = omega arith in
            let here : T (lower + i) ≡ true =
              subst (λ x. T x ≡ true) (omega (arith, at_m))
                (periodic.hit m (omega (arith, at_m))) in
            let next_at : lower + (start + s) ≡ offset + suc m * s = grind arith in
            let rest =
              window n (suc i) (start + s) (suc m) (omega (arith, periodic.step_positive)) next_at
                (after at_m same) (omega arith) in
            let counted = count-step (suc i + n) start s periodic.step_positive (omega arith) in
            rw (here, size, counted) (rw (rest, same) refl)
      ]
    where
      after :
          lower + start ≡ offset + m * s
          → start ≡ i
          → (j : ℕ) → suc i ≤ j
          → j < start + s
          → lower + j < bound
          → T (lower + j) ≡ false
      after at_m same j a b c =
          let e : offset + m * s + (j - start) ≡ lower + j = omega arith in
          subst (λ x. T x ≡ false) e
            (periodic.gap m (j - start) (omega arith) (omega arith) (omega arith))

  -- The number of the first term that is not below `lower`, and where it stands from there.
  abbrev pub first_term : ℕ
  first_term = if ltb lower offset then 0 else (lower - offset + s - 1) / s

  abbrev pub start_term : ℕ
  start_term = first_term * s + offset - lower

  start_term-lower : lower ≤ first_term * s + offset
  start_term-lower = elim (Bool-cases (ltb lower offset)) [
    | inl t ↦ rw t (omega (arith, ltb→lt lower offset t))
    | inr f ↦
        let q = (lower - offset + s - 1) / s in
        let up : lower - offset + s - 1 < q * s + s = lt-div-mul-add periodic.step_positive in
        rw f (ground arith)
  ]

  none_before-start : (j : ℕ) → 0 ≤ j → j < start_term → lower + j < bound → T (lower + j) ≡ false
  none_before-start j _ lt in_bound = elim (Bool-cases (ltb lower offset)) [
    | inl t ↦
        let small : j < 0 * s + offset - lower = rw t at lt in
        periodic.before (lower + j) (omega (arith, ltb→lt lower offset t)) in_bound
    | inr f ↦
        let q = (lower - offset + s - 1) / s in
        let small : j < q * s + offset - lower = rw f at lt in
        let down : q * s ≤ lower - offset + s - 1 = div-mul-le_self (lower - offset + s - 1) s in
        let ge : offset ≤ lower = ground arith in between q small down ge
  ]
    where
      between :
          (q : ℕ)
          → j < q * s + offset - lower
          → q * s ≤ lower - offset + s - 1
          → offset ≤ lower
          → T (lower + j) ≡ false
      between zero small down ge = absurd (omega arith)
      between (suc k) small down ge =
          let spread : suc k * s ≡ k * s + s = grind arith in
          let positive : 0 < s = periodic.step_positive in
          let r = lower + j - offset - k * s in
          let e : offset + k * s + r ≡ lower + j = omega arith in
          subst (λ x. T x ≡ false) e (periodic.gap k r (omega arith) (omega arith) (omega arith))

  pub window_from_lower :
      (n : ℕ)
      → lower + n ≤ bound
      → generate (get_num_points_on_this_partition n start_term s) start_term s
        ≡ keep_if (λ j. T (lower + j)) (indices n 0)
  window_from_lower n fits =
      let e : 0 + n ≡ n = omega arith in
      subst
        (λ k.
          generate (get_num_points_on_this_partition k start_term s) start_term s
          ≡ keep_if (λ j. T (lower + j)) (indices n 0))
        e
        (window n 0 start_term first_term (omega arith) (omega (arith, start_term-lower))
          none_before-start (omega arith))
