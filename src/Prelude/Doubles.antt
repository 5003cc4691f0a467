-- ===== src/Prelude/Doubles.antt =====
-- Products and quotients of natural numbers as double computes them: IEEE 754, round to nearest, ties
-- to even, 53 bits. Overflow and subnormal numbers are out of reach of 32-bit operands.
use native.Mathlib.Nat.{
  mul-le-mul_right, div-mul-le_self, le-div_iff_mul-le, div-lt_iff_lt-mul, div-add-mod', pow-suc,
  mod-lt, one-le-pow, mul-zero, zero-mul, zero-div, div-eq_of_lt,
}
use dis_co_tec.Prelude.{
  ℕ, zero, suc, ◌+◌, ◌-◌, ◌*◌, ◌/◌, ◌%◌, ◌^◌, ◌≤◌, ◌<◌, ◌≡◌, refl, sym, ◌∙◌, subst, ◌⊎◌, inl, inr,
  arith, dec_lt, ltb, leb, if◌then◌else◌, lt→ltb, leb→le, Bool-cases,
}

-- a / b rounded to a whole number.
unfoldable pub nearest : ℕ → ℕ → ℕ
nearest a b =
    let q = a / b in
    let r = a % b in if ltb (2 * r) b then q else if ltb b (2 * r) then suc q else q + q % 2

-- How many of its last bits a number loses to have 53 at most.
unfoldable pub lost_bits : ℕ → ℕ → ℕ
lost_bits zero a = 0
lost_bits (suc fuel) a = let rest = lost_bits fuel (a / 2) in if ltb a (2 ^ 53) then 0 else suc rest

-- A whole number of 106 bits at most, which is more than a product of two doubles below 2^53 has.
unfoldable pub rounded : ℕ → ℕ
unfolding nearest lost_bits
rounded a = if ltb a (2 ^ 53) then a else nearest a (2 ^ lost_bits 53 a) * 2 ^ lost_bits 53 a

-- How often a is doubled until a / b is 2^52 or more.
unfoldable pub scale : ℕ → ℕ → ℕ → ℕ
scale zero a b = 0
scale (suc fuel) a b = let rest = scale fuel (2 * a) b in if leb (2 ^ 52 * b) a then 0 else suc rest

-- A double that is not negative: the mantissa divided by a power of two.
pub record Double : Type 0 where
  pub mantissa : ℕ
  pub shift : ℕ

-- For 0 < b < 2^53 and a < 2^53 * b, 105 bits are enough.
unfoldable pub quotient : ℕ → ℕ → Double
unfolding nearest scale
quotient a b = record { mantissa = nearest (a * 2 ^ scale 105 a b) b; shift = scale 105 a b }

unfoldable pub floor : Double → ℕ
floor x = x.mantissa / 2 ^ x.shift

unfoldable pub ceil : Double → ℕ
ceil x = (x.mantissa + (2 ^ x.shift - 1)) / 2 ^ x.shift

-- Down or up, to what is not farther away than half of b.
nearest-cases :
    (a b : ℕ)
    → ((nearest a b ≡ a / b) × (2 * (a % b) ≤ b))
      ⊎ ((nearest a b ≡ suc (a / b)) × (b ≤ 2 * (a % b)))
unfolding nearest
nearest-cases a b = elim (Bool-cases (ltb (2 * (a % b)) b)) [
  | inl low ↦ inl (rw low refl, ground arith)
  | inr not_low ↦ elim (Bool-cases (ltb b (2 * (a % b)))) [
    | inl high ↦ inr (rw (not_low, high) refl, ground arith)
    | inr not_high ↦ elim (dec_lt (a / b % 2) 1) [
      | yes even ↦ inl (rw (not_low, not_high) (omega arith), ground arith)
      | no odd ↦ inr (rw (not_low, not_high) (omega arith), ground arith)
    ]
  ]
]

nearest-le : (a b : ℕ) → 2 * (nearest a b * b) ≤ 2 * a + b
nearest-le a b = elim (nearest-cases a b) [
  | inl (e, near) ↦ rw e (omega (arith, div-add-mod' a b))
  | inr (e, near) ↦ rw e (grind (arith, div-add-mod' a b))
]

le-nearest : (a b : ℕ) → 0 < b → 2 * a ≤ 2 * (nearest a b * b) + b
le-nearest a b h = elim (nearest-cases a b) [
  | inl (e, near) ↦ rw e (omega (arith, div-add-mod' a b))
  | inr (e, near) ↦
      let next : suc (a / b) * b ≡ a / b * b + b = grind arith in
      rw (e, next) (omega (arith, div-add-mod' a b, mod-lt a h))
]

scale-enough : (fuel a b : ℕ) → 2 ^ 52 * b ≤ a * 2 ^ fuel → 2 ^ 52 * b ≤ a * 2 ^ scale fuel a b
unfolding scale
scale-enough zero a b h = h
scale-enough (suc fuel) a b h =
    let double : (n : ℕ) → a * 2 ^ suc n ≡ 2 * a * 2 ^ n = λ n. grind (arith, pow-suc 2 n) in
    let later = scale-enough fuel (2 * a) b (subst (λ x. 2 ^ 52 * b ≤ x) (double fuel) h) in
    elim (Bool-cases (leb (2 ^ 52 * b) a)) [
      | inl e ↦ rw e (omega (arith, leb→le _ _ e))
      | inr e ↦ rw e (subst (λ x. 2 ^ 52 * b ≤ x) (sym (double (scale fuel (2 * a) b))) later)
    ]

-- The mantissa m is nearest to a * P / p, where P is a power of two and p is less than twice that.
abbrev Near : ℕ → ℕ → ℕ → ℕ → Type 0
Near m P a p = (2 * (m * p) ≤ 2 * (a * P) + p) × ((2 * (a * P) ≤ 2 * (m * p) + p) × (p < 2 * P))

module _ (m P a p : ℕ) (positive : 0 < p) (near : Near m P a p) where
  below : (c : ℕ) → c * p ≤ a → c * P ≤ m
  below c h = elim (dec_lt m (c * P)) [
    | no more ↦ omega arith
    | yes less ↦
        let one : suc m * p ≤ c * P * p = mul-le-mul_right p less in
        let two : c * p * P ≤ a * P = mul-le-mul_right P h in
        absurd (grind (arith, one, two, near.1.0))
  ]

  above : (c : ℕ) → a < c * p → m < c * P
  above c h = elim (dec_lt m (c * P)) [
    | yes less ↦ less
    | no more ↦
        let one : c * P * p ≤ m * p = mul-le-mul_right p (omega arith) in
        let two : suc a * P ≤ c * p * P = mul-le-mul_right P h in
        absurd (grind (arith, one, two, near.0, near.1.1))
  ]

  at_most : (c : ℕ) → a ≤ c * p → m ≤ c * P
  at_most c h = elim (dec_lt (c * P) m) [
    | no less ↦ omega arith
    | yes more ↦
        let one : suc (c * P) * p ≤ m * p = mul-le-mul_right p more in
        let two : a * P ≤ c * p * P = mul-le-mul_right P h in
        absurd (grind (arith, one, two, near.0))
  ]

  at_least : (c : ℕ) → c * p < a + p → c * P < m + P
  at_least c h = elim (dec_lt (c * P) (m + P)) [
    | yes less ↦ less
    | no more ↦
        let one : (m + P) * p ≤ c * P * p = mul-le-mul_right p (omega arith) in
        let two : suc (c * p) * P ≤ (a + p) * P = mul-le-mul_right P h in
        absurd (grind (arith, one, two, near.1.0, near.1.1))
  ]

  same_floor : m / P ≡ a / p
  same_floor =
      let P_positive : 0 < P = omega (arith, near.1.1) in
      let low : a / p ≤ m / P =
        (le-div_iff_mul-le P_positive).1 (below (a / p) (div-mul-le_self a p)) in
      let up : m / P < suc (a / p) =
        (div-lt_iff_lt-mul P_positive).1
          (above (suc (a / p)) ((div-lt_iff_lt-mul positive).0 (omega arith))) in
      omega (arith, low, up)

  same_ceil : (m + (P - 1)) / P ≡ (a + (p - 1)) / p
  same_ceil =
      let c = (a + (p - 1)) / p in
      let P_positive : 0 < P = omega (arith, near.1.1) in
      let c_low : c * p ≤ a + (p - 1) = div-mul-le_self (a + (p - 1)) p in
      let c_up : a + (p - 1) < suc c * p = (div-lt_iff_lt-mul positive).0 (omega arith) in
      let next : suc c * p ≡ c * p + p = grind arith in
      let next' : suc c * P ≡ c * P + P = grind arith in
      let more = at_least c (omega (arith, c_low)) in
      let less = at_most c (omega (arith, c_up, next)) in
      let low : c ≤ (m + (P - 1)) / P = (le-div_iff_mul-le P_positive).1 (omega (arith, more)) in
      let up : (m + (P - 1)) / P < suc c =
        (div-lt_iff_lt-mul P_positive).1 (omega (arith, less, next')) in
      omega (arith, low, up)

-- With 53 bits the mantissa is near enough.
nearest-Near :
    (a p P : ℕ) → a < 2 ^ 53 → 0 < p → 2 ^ 52 * p ≤ a * P → Near (nearest (a * P) p) P a p
nearest-Near a p zero a_small hp enough = absurd (omega (arith, mul-zero a))
nearest-Near a p (suc P) a_small hp enough =
    let less : suc a * suc P ≤ 2 ^ 53 * suc P = mul-le-mul_right (suc P) a_small in
    let next : suc a * suc P ≡ a * suc P + suc P = grind arith in
    (nearest-le (a * suc P) p, (le-nearest (a * suc P) p hp, omega (arith, enough, less, next)))

quotient-Near :
    (a p : ℕ)
    → 0 < a
    → a < 2 ^ 53
    → 0 < p
    → p ≤ 2 ^ 53
    → Near (quotient a p).mantissa (2 ^ (quotient a p).shift) a p
unfolding quotient
quotient-Near a p ha a_small hp p_small =
    nearest-Near a p (2 ^ scale 105 a p) a_small hp (scale-enough 105 a p (omega arith))

nearest-zero : (P p : ℕ) → 0 < p → nearest (0 * P) p ≡ 0
nearest-zero P p hp = elim (dec_lt 0 (nearest (0 * P) p)) [
  | no none_left ↦ omega arith
  | yes some_left ↦
      let one : 1 * p ≤ nearest (0 * P) p * p = mul-le-mul_right p some_left in
      absurd (omega (arith, one, nearest-le (0 * P) p, zero-mul P))
]

zero_at : (m P : ℕ) → 0 < P → m ≡ 0 → (m / P ≡ 0) × ((m + (P - 1)) / P ≡ 0)
zero_at m P hP e = (div-eq_of_lt (omega arith), div-eq_of_lt (omega arith))

quotient-zero : (p : ℕ) → 0 < p → (floor (quotient 0 p) ≡ 0) × (ceil (quotient 0 p) ≡ 0)
unfolding quotient floor ceil
quotient-zero p hp =
    zero_at _ (2 ^ scale 105 0 p) (one-le-pow (scale 105 0 p) 2 (omega arith))
      (nearest-zero (2 ^ scale 105 0 p) p hp)

-- Below 2^53 the whole part of the quotient is exact.
pub floor-quotient : (a p : ℕ) → a < 2 ^ 53 → 0 < p → p ≤ 2 ^ 53 → floor (quotient a p) ≡ a / p
unfolding floor
floor-quotient zero p a_small hp p_small = (quotient-zero p hp).0 ∙ sym (zero-div p)
floor-quotient (suc a) p a_small hp p_small =
    same_floor _ _ (suc a) p hp (quotient-Near (suc a) p (omega arith) a_small hp p_small)

pub ceil-quotient :
    (a p : ℕ) → a < 2 ^ 53 → 0 < p → p ≤ 2 ^ 53 → ceil (quotient a p) ≡ (a + (p - 1)) / p
unfolding ceil
ceil-quotient zero p a_small hp p_small = (quotient-zero p hp).1 ∙ sym (div-eq_of_lt (omega arith))
ceil-quotient (suc a) p a_small hp p_small =
    same_ceil _ _ (suc a) p hp (quotient-Near (suc a) p (omega arith) a_small hp p_small)

pub rounded-small : (a : ℕ) → a < 2 ^ 53 → rounded a ≡ a
unfolding rounded
rounded-small a h = rw (lt→ltb _ _ h) refl
