-- ===== src/Grid/Hierarchy/Predecessors.antt =====
-- The hierarchical predecessors of a point, getLeftPredecessor and getRightPredecessor of
-- src/fullgrid/DistributedFullGrid.hpp: they are on lower levels.
use native.Mathlib.Nat.{two-pow-succ, mul_comm, mul-suc, pow-le-pow_right, mul-le-mul_left}
use dis_co_tec.Prelude.{
  ℕ, zero, suc, ◌+◌, ◌-◌, ◌*◌, ◌^◌, ◌≤◌, ◌<◌, ◌≡◌, refl, sym, ap, ◌∙◌, ◌⊎◌, inl, inr, false, ◌&&◌,
  arith, dec_lt, get_or, leb, ◌==◌, if◌then◌else◌, Bool-cases,
}
use dis_co_tec.Prelude.Int.{pos, negsuc, ◌-ℤ◌, ◌==ℤ◌, pos_part}
use dis_co_tec.Grid.{DistributedFullGrid, get_global_sizes}
use dis_co_tec.Grid.Hierarchy.{
  level_in, boundary_in, ctz, level_at, get_level, get_left_predecessor, get_right_predecessor,
}
use dis_co_tec.Grid.Hierarchy.Levels.{
  odd_multiple, odd_multiple-suc, pow-positive, ctz-odd_multiple,
}
use dis_co_tec.Grid.Hierarchy.OneDimension.{level_at-ctz, level_at-odd_multiple}
use dis_co_tec.Grid.Hierarchy.LevelIndices.{position}

-- A power of two adds to the zeros behind the last one.
shifted : (k c m : ℕ) → 2 ^ k * odd_multiple c m ≡ odd_multiple (k + c) m
shifted zero c m = let e : 0 + c ≡ c = omega arith in rw e (omega arith)
shifted (suc k) c m =
    let e : suc k + c ≡ suc (k + c) = omega arith in
    let f : 2 ^ suc k * odd_multiple c m ≡ 2 ^ k * odd_multiple c m + 2 ^ k * odd_multiple c m =
      rw (two-pow-succ k) (grind arith) in
    rw e (omega (arith, f, shifted k c m, odd_multiple-suc (k + c) m))

odd_multiple-pow-le : (c m : ℕ) → 2 ^ c ≤ odd_multiple c m
odd_multiple-pow-le c m = omega arith

pow-le→le : (a b : ℕ) → 2 ^ a ≤ 2 ^ b → a ≤ b
pow-le→le a b h = elim (dec_lt b a) [
  | no ge ↦ omega arith
  | yes lt ↦
      let e : 2 ^ suc b ≤ 2 ^ a = pow-le-pow_right (omega arith) lt in
      absurd (omega (arith, two-pow-succ b, pow-positive b))
]

-- A multiple of 2 ^ suc c in the dimension is on a level below lmax - c.
level_at-multiple :
    (lmax c n l : ℕ)
    → c + l ≡ lmax
    → 0 < l
    → 2 ^ suc c * n ≤ 2 ^ lmax
    → (l' : ℕ) × (level_at lmax (2 ^ suc c * n) ≡ pos l') × (l' < l)
level_at-multiple lmax c zero l e hl h =
    let z : 2 ^ suc c * 0 ≡ 0 = omega arith in (0, rw z (unfold level_at in refl), hl)
level_at-multiple lmax c (suc n) l e hl h =
    let (m, f) = ctz-odd_multiple (suc n) (omega arith) in
    let k = ctz (suc n) in
    let g : 2 ^ suc c * suc n ≡ odd_multiple (suc c + k) m =
      ap (λ x. 2 ^ suc c * x) f ∙ shifted (suc c) k m in
    let small : suc c + k ≤ lmax =
      pow-le→le (suc c + k) lmax (omega (arith, g, odd_multiple-pow-le (suc c + k) m)) in
    (lmax - (suc c + k), rw g (level_at-odd_multiple lmax (suc c + k) m small), omega arith)

sub_pos : (a b : ℕ) → b ≤ a → pos a -ℤ pos b ≡ pos (a - b)
unfolding ◌-ℤ◌
sub_pos a b h = ground arith

sub_pos_one : (a b : ℕ) → suc a ≡ b → pos a -ℤ pos b ≡ negsuc 0
unfolding ◌-ℤ◌
sub_pos_one a b h = ground arith

pow-multiple : (c lmax : ℕ) → c ≤ lmax → (k : ℕ) × (2 ^ lmax ≡ 2 ^ c * k)
pow-multiple c lmax h =
    let e : lmax - c + c ≡ lmax = omega arith in
    let f : 2 ^ (lmax - c) * (2 ^ c + 2 ^ suc c * 0) ≡ 2 ^ (lmax - c) * 2 ^ c =
      ap (λ x. 2 ^ (lmax - c) * x) (omega arith) in
    let g : odd_multiple (lmax - c + c) 0 ≡ odd_multiple lmax 0 = ap (λ n. odd_multiple n 0) e in
    (2 ^ (lmax - c), omega (arith, f, g, shifted (lmax - c) c 0, mul_comm (2 ^ (lmax - c)) (2 ^ c)))

module _ (g : DistributedFullGrid) (d idx l : ℕ) where
  abbrev lmax : ℕ
  lmax = level_in g d

  abbrev b : ℕ
  b = boundary_in g d

  get_level-position : (i : ℕ) → get_level g d i ≡ level_at lmax (position b i)
  unfolding get_level
  get_level-position i = refl

  -- A predecessor: its index, and that it is on a lower level.
  abbrev pub OnLowerLevel : ℕ → Type 0
  OnLowerLevel p = (l' : ℕ) × (get_level g d p ≡ pos l') × (l' < l)

  module _ (at_l : get_level g d idx ≡ pos l) (hl : 0 < l)
      (inside : position b idx ≤ 2 ^ lmax) where
    -- The zeros of the position, and the odd factor.
    shape :
        (c : ℕ) × (m : ℕ) × (position b idx ≡ odd_multiple c m)
        × (c + l ≡ lmax)
        × (pos_part (pos lmax -ℤ get_level g d idx) ≡ c)
        × ((get_level g d idx ==ℤ pos 0) ≡ false)
    shape =
        let x = position b idx in
        let level : level_at lmax x ≡ pos l = sym (get_level-position idx) ∙ at_l in
        let (m, e) = ctz-odd_multiple x (positive x level) in
        let total = level_at-ctz lmax x l (positive x level) level in
        (
          ctz x,
          m,
          e,
          total,
          rw (at_l, sub_pos lmax l (omega arith)) (omega arith),
          rw at_l (ground arith),
        )
      where
        positive : (x : ℕ) → level_at lmax x ≡ pos l → 0 < x
        positive zero level =
            let level' : pos 0 ≡ pos l = unfold level_at in level in
            let e : 0 ≡ l = ap pos_part level' in absurd (omega arith)
        positive (suc x) level = omega arith

    lower_at :
        (c n p : ℕ)
        → c + l ≡ lmax
        → position b p ≡ 2 ^ suc c * n
        → 2 ^ suc c * n ≤ 2 ^ lmax
        → OnLowerLevel p
    lower_at c n p total e le =
        let (l', at_l', lt) = level_at-multiple lmax c n l total hl le in
        (l', get_level-position p ∙ ap (level_at lmax) e ∙ at_l', lt)

    -- For a point above level 0: the left predecessor is -1, which only happens without boundary
    -- points, or it is a point further left on a lower level.
    pub left_predecessor-OnLowerLevel :
        ((b ≡ 0) × (get_left_predecessor g d idx ≡ negsuc 0))
        ⊎ ((p : ℕ) × (get_left_predecessor g d idx ≡ pos p) × (p < idx) × OnLowerLevel p)
    unfolding get_left_predecessor
    left_predecessor-OnLowerLevel =
        let (c, m, e, total, diff, not_zero) = shape in
        let positive = pow-positive c in
        elim (dec_lt idx (2 ^ c)) [
          | yes lt ↦
              let none_left : b ≡ 0 = ground arith in
              let start : suc idx ≡ 2 ^ c = ground arith in
              inl (none_left, rw (not_zero, diff) (sub_pos_one idx (2 ^ c) start))
          | no ge ↦
              let at_p : position b (idx - 2 ^ c) ≡ 2 ^ suc c * m = ground arith in
              inr (
                idx - 2 ^ c,
                rw (not_zero, diff) (sub_pos idx (2 ^ c) (omega arith)),
                omega arith,
                lower_at c m (idx - 2 ^ c) total at_p (omega arith),
              )
        ]

    -- For a point above level 0 in a dimension with all its points: the right predecessor is -1,
    -- which only happens without boundary points, or it is further right on a lower level; with one
    -- boundary point it may be the index behind the last one, which stands for the first.
    pub right_predecessor-OnLowerLevel :
        b ≤ 2
        → get_or (get_global_sizes g) d 0 ≡ 2 ^ lmax + b - 1
        → ((b ≡ 0) × (get_right_predecessor g d idx ≡ negsuc 0))
          ⊎ ((p : ℕ) × (get_right_predecessor g d idx ≡ pos p) × (idx < p) × OnLowerLevel p)
    unfolding get_right_predecessor
    right_predecessor-OnLowerLevel hb is_size =
        let (c, m, e, total, diff, not_zero) = shape in
        let positive = pow-positive c in
        let p = idx + 2 ^ c in
        let (k, multiple) = pow-multiple (suc c) lmax (omega arith) in
        let spread : 2 ^ suc c * suc m ≡ 2 ^ suc c * m + 2 ^ suc c = mul-suc (2 ^ suc c) m in
        let double = two-pow-succ c in
        let at_p : position b p ≡ 2 ^ suc c * suc m = ground arith in
        let below : m < k = elim (dec_lt m k) [
          | yes lt ↦ lt
          | no ge ↦
              let le : 2 ^ suc c * k ≤ 2 ^ suc c * m = mul-le-mul_left (2 ^ suc c) (omega arith) in
              absurd (omega arith)
        ] in
        let le : 2 ^ suc c * suc m ≤ 2 ^ suc c * k = mul-le-mul_left (2 ^ suc c) below in
        let lower : OnLowerLevel p = lower_at c (suc m) p total at_p (omega arith) in
        let found : get_right_predecessor g d idx ≡ (
            if (b == 1) && (p == 2 ^ lmax + b - 1)
            then pos (2 ^ lmax + b - 1)
            else if leb (2 ^ lmax + b - 1) p
            then negsuc 0
            else pos p) =
          rw (not_zero, diff, is_size) refl in
        elim (Bool-cases ((b == 1) && (p == 2 ^ lmax + b - 1))) [
          | inl t ↦ inr (p, found ∙ rw t (ap pos (ground arith)), omega arith, lower)
          | inr f ↦ elim (Bool-cases (leb (2 ^ lmax + b - 1) p)) [
            | inl t ↦ inl (ground arith, found ∙ rw (f, t) refl)
            | inr f' ↦ inr (p, found ∙ rw (f, f') refl, omega arith, lower)
          ]
        ]
