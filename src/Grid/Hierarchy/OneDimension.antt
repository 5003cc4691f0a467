-- ===== src/Grid/Hierarchy/OneDimension.antt =====
-- Which positions of one dimension belong to a level: the odd multiples of a power of two, and on
-- level 1 with boundary points all multiples.
use native.Mathlib.Nat.{two-pow-succ, mul-le-mul_left, mul-suc, mul_comm}
use dis_co_tec.Prelude.{
  ℕ, zero, suc, ◌+◌, ◌-◌, ◌*◌, ◌^◌, ◌≤◌, ◌<◌, ◌≡◌, refl, sym, ap, ◌∙◌, subst, inl, inr, Bool, true,
  false, ◌&&◌, ◌||◌, arith, dec_lt, ltb, ◌==◌, Bool-cases,
}
use dis_co_tec.Prelude.Int.{ -ℤ_parts, pos, ◌-ℤ◌, ◌==ℤ◌, ==ℤ→≡, pos_part, neg_part}
use dis_co_tec.Grid.Hierarchy.{ctz, level_at}
use dis_co_tec.Grid.Hierarchy.Levels.{
  odd_multiple, pow-positive, ctz-odd_multiple, odd_multiple-ctz,
}

pub no_between : (s m r m' : ℕ) → s * m + r ≡ s * m' → 0 < r → r < s → ⊥
no_between s m r m' e hr hs = elim (dec_lt m m') [
  | yes lt ↦
      let a : s * suc m ≤ s * m' = mul-le-mul_left s lt in absurd (omega (arith, mul-suc s m))
  | no ge ↦ let a : s * m' ≤ s * m = mul-le-mul_left s (omega arith) in absurd (omega arith)
]

pub level_at-odd_multiple :
    (lmax c m : ℕ) → c ≤ lmax → level_at lmax (odd_multiple c m) ≡ pos (lmax - c)
unfolding level_at ◌-ℤ◌
level_at-odd_multiple lmax c m h =
    let e : ctz (odd_multiple c m) ≡ c = odd_multiple-ctz c m in
    let n : (odd_multiple c m == 0) ≡ false = ground (arith, pow-positive c) in
    rw (n, e) (ground arith)

pub level_at-ctz : (lmax x l : ℕ) → 0 < x → level_at lmax x ≡ pos l → ctz x + l ≡ lmax
unfolding level_at
level_at-ctz lmax x l h e =
    let n : (x == 0) ≡ false = ground arith in
    let opened : pos lmax -ℤ pos (ctz x) ≡ pos l = rw n at e in
    omega (arith, -ℤ_parts (pos lmax) (pos (ctz x)), ap pos_part opened, ap neg_part opened)

module _ (lmax b : ℕ) where
  abbrev pub test : ℕ → ℕ → Bool
  test l x = (level_at lmax x ==ℤ pos l) || ((level_at lmax x ==ℤ pos 0) && (ltb 0 b && (l == 1)))

  pub test-hit : (l m : ℕ) → l ≤ lmax → test l (odd_multiple (lmax - l) m) ≡ true
  test-hit l m h =
      let e : lmax - (lmax - l) ≡ l = omega arith in
      rw (level_at-odd_multiple lmax (lmax - l) m (omega arith), e) (ground arith)

  level_at-zero : level_at lmax 0 ≡ pos 0
  unfolding level_at
  level_at-zero = refl

  pub test-miss :
      (l x : ℕ)
      → 0 < l
      → l ≤ lmax
      → (ltb 0 b && (l == 1)) ≡ false
      → ((m : ℕ) → x ≡ odd_multiple (lmax - l) m → ⊥)
      → test l x ≡ false
  test-miss l zero hl le only_own none_is = rw (level_at-zero, only_own) (ground arith)
  test-miss l (suc y) hl le only_own none_is =
      rw only_own (elim (Bool-cases (level_at lmax (suc y) ==ℤ pos l)) [
        | inl t ↦
            let c = level_at-ctz lmax (suc y) l (omega arith) (==ℤ→≡ _ _ t) in
            let (m, e) = ctz-odd_multiple (suc y) (omega arith) in
            let same : ctz (suc y) ≡ lmax - l = omega arith in
            absurd (none_is m (e ∙ ap (λ c. odd_multiple c m) same))
        | inr f ↦ rw f (ground arith)
      ])

  -- Level 1 with boundary points.
  pub test_one-hit :
      (k : ℕ)
      → 0 < b
      → 0 < lmax
      → k * 2 ^ (lmax - 1) ≤ 2 ^ lmax
      → test 1 (k * 2 ^ (lmax - 1)) ≡ true
  test_one-hit zero hb h le =
      let e : 0 * 2 ^ (lmax - 1) ≡ 0 = omega arith in rw (e, level_at-zero) (ground arith)
  test_one-hit (suc zero) hb h le =
      let e : 1 * 2 ^ (lmax - 1) ≡ odd_multiple (lmax - 1) 0 = omega arith in
      subst (λ x. test 1 x ≡ true) (sym e) (test-hit 1 0 h)
  test_one-hit (suc (suc zero)) hb h le =
      let s : suc (lmax - 1) ≡ lmax = omega arith in
      let e : 2 * 2 ^ (lmax - 1) ≡ odd_multiple lmax 0 =
        omega (arith, two-pow-succ (lmax - 1), ap (λ n. 2 ^ n) s) in
      let z : lmax - lmax ≡ 0 = omega arith in
      subst (λ x. test 1 x ≡ true) (sym e)
        (rw (level_at-odd_multiple lmax lmax 0 (omega arith), z) (ground arith))
  test_one-hit (suc (suc (suc k))) hb h le =
      let s : suc (lmax - 1) ≡ lmax = omega arith in
      let p : 2 ^ lmax ≡ 2 ^ (lmax - 1) + 2 ^ (lmax - 1) =
        ap (λ n. 2 ^ n) (sym s) ∙ two-pow-succ (lmax - 1) in
      let big : 3 * 2 ^ (lmax - 1) ≤ suc (suc (suc k)) * 2 ^ (lmax - 1) = grind arith in
      absurd (omega (arith, pow-positive (lmax - 1)))

  pub test_one-miss :
      (m r : ℕ) → 0 < lmax → 0 < r → r < 2 ^ (lmax - 1) → test 1 (m * 2 ^ (lmax - 1) + r) ≡ false
  test_one-miss m r h hr hs =
      let x = m * 2 ^ (lmax - 1) + r in
      let s : suc (lmax - 1) ≡ lmax = omega arith in
      let p : 2 ^ lmax ≡ 2 ^ (lmax - 1) + 2 ^ (lmax - 1) =
        ap (λ n. 2 ^ n) (sym s) ∙ two-pow-succ (lmax - 1) in
      let (k, e) = ctz-odd_multiple x (omega arith) in
      let q = 2 ^ (lmax - 1) in
      let swap : m * q ≡ q * m = mul_comm m q in
      let not_one : (level_at lmax x ==ℤ pos 1) ≡ false =
        elim (Bool-cases (level_at lmax x ==ℤ pos 1)) [
          | inr f ↦ f
          | inl t ↦
              let c = level_at-ctz lmax x 1 (omega arith) (==ℤ→≡ _ _ t) in
              let same : ctz x ≡ lmax - 1 = omega arith in
              let f : x ≡ odd_multiple (lmax - 1) k = e ∙ ap (λ c. odd_multiple c k) same in
              let g : 2 ^ suc (lmax - 1) * k ≡ q * k + q * k =
                rw (two-pow-succ (lmax - 1)) (grind arith) in
              let spread : q * (1 + 2 * k) ≡ q + (q * k + q * k) = grind arith in
              absurd (no_between q m r (1 + 2 * k) (omega (arith, f, g)) hr hs)
        ] in
      let not_zero : (level_at lmax x ==ℤ pos 0) ≡ false =
        elim (Bool-cases (level_at lmax x ==ℤ pos 0)) [
          | inr f ↦ f
          | inl t ↦
              let c = level_at-ctz lmax x 0 (omega arith) (==ℤ→≡ _ _ t) in
              let same : ctz x ≡ suc (lmax - 1) = omega arith in
              let f : x ≡ odd_multiple (suc (lmax - 1)) k = e ∙ ap (λ c. odd_multiple c k) same in
              let g : 2 ^ suc (suc (lmax - 1)) * k ≡ q * k + q * k + (q * k + q * k) =
                rw (two-pow-succ (suc (lmax - 1)), two-pow-succ (lmax - 1)) (grind arith) in
              let spread : q * (2 + 4 * k) ≡ q + q + (q * k + q * k + (q * k + q * k)) =
                grind arith in
              absurd
                (no_between q m r (2 + 4 * k) (omega (arith, f, g, two-pow-succ (lmax - 1))) hr hs)
        ] in
      rw (not_one, not_zero) (ground arith)
