-- ===== src/Grid/Hierarchy/Levels.antt =====
-- The level of a position from the zeros behind its last one, as getLevel of
-- src/fullgrid/DistributedFullGrid.hpp computes it.
use native.Mathlib.Nat.{two-pow-succ, one-le-pow}
use dis_co_tec.Prelude.{
  ℕ, zero, suc, ◌+◌, ◌*◌, ◌/◌, ◌%◌, ◌^◌, ◌≤◌, ◌<◌, ◌≡◌, refl, ap, inl, inr, arith, ◌==◌, Bool-cases,
}
use dis_co_tec.Grid.Hierarchy.{ctz_loop, ctz}

-- 2 ^ c times the odd number 2 * m + 1
abbrev pub odd_multiple : ℕ → ℕ → ℕ
odd_multiple c m = 2 ^ c + 2 ^ suc c * m

pub odd_multiple-suc : (c m : ℕ) → odd_multiple (suc c) m ≡ 2 * odd_multiple c m
odd_multiple-suc c m =
    let a : 2 ^ suc (suc c) * m ≡ 2 ^ suc c * m + 2 ^ suc c * m =
      rw (two-pow-succ (suc c)) (grind arith) in
    omega (arith, two-pow-succ c, a)

pub pow-positive : (c : ℕ) → 0 < 2 ^ c
pow-positive c = omega (arith, one-le-pow c 2 (omega arith))

-- Every positive number is such a multiple, with c the zeros behind the last one.
ctz_loop-odd_multiple :
    (fuel x : ℕ) → x ≤ fuel → 0 < x → (m : ℕ) × (x ≡ odd_multiple (ctz_loop fuel x) m)
unfolding ctz_loop
ctz_loop-odd_multiple zero x le h = absurd (omega arith)
ctz_loop-odd_multiple (suc fuel) x le h = elim (Bool-cases (x % 2 == 1)) [
  | inl t ↦ rw t (x / 2, ground arith)
  | inr f ↦
      let (m, e) = ctz_loop-odd_multiple fuel (x / 2) (omega arith) (ground arith) in
      rw f (m, ground (arith, odd_multiple-suc (ctz_loop fuel (x / 2)) m))
]

pub ctz-odd_multiple : (x : ℕ) → 0 < x → (m : ℕ) × (x ≡ odd_multiple (ctz x) m)
unfolding ctz
ctz-odd_multiple x h = ctz_loop-odd_multiple x x (omega arith) h

odd_multiple-ctz_loop :
    (fuel c m : ℕ) → odd_multiple c m ≤ fuel → ctz_loop fuel (odd_multiple c m) ≡ c
unfolding ctz_loop
odd_multiple-ctz_loop zero c m le = absurd (omega (arith, pow-positive c))
odd_multiple-ctz_loop (suc fuel) zero m le =
    let e : (2 ^ 0 + 2 ^ 1 * m) % 2 ≡ 1 = omega arith in rw e refl
odd_multiple-ctz_loop (suc fuel) (suc c) m le =
    let double = odd_multiple-suc c m in
    let even : odd_multiple (suc c) m % 2 ≡ 0 = omega (arith, double) in
    let half : odd_multiple (suc c) m / 2 ≡ odd_multiple c m = omega (arith, double) in
    rw (even, half)
      (ap suc (odd_multiple-ctz_loop fuel c m (omega (arith, double, pow-positive c))))

pub odd_multiple-ctz : (c m : ℕ) → ctz (odd_multiple c m) ≡ c
unfolding ctz
odd_multiple-ctz c m = odd_multiple-ctz_loop (odd_multiple c m) c m (omega arith)
