-- ===== src/Grid/Hierarchy/LevelIndices.antt =====
-- The indices of a level in one dimension: what get1dIndicesLocal of
-- src/fullgrid/DistributedFullGrid.hpp computes from a stride, against the level of each index.
use native.Mathlib.Nat.{mul_comm}
use dis_co_tec.Prelude.{
  ℕ, suc, ◌+◌, ◌-◌, ◌*◌, ◌/◌, ◌^◌, ◌≤◌, ◌<◌, ◌≡◌, refl, sym, ap, ◌∙◌, subst, inl, inr, true, false,
  ◌&&◌, List, arith, get_or, keep_if, keep_if-cong, ltb, ◌==◌, if◌then◌else◌, Bool-cases,
}
use dis_co_tec.Grid.{DistributedFullGrid, get_local_sizes}
use dis_co_tec.Grid.Hierarchy.{
  level_in, boundary_in, get_level, is_of_level, get_stride_for_this_level, offset_for_this_level,
  get_local_start_for_this_level, get_1d_indices_local, generate, get_num_points_on_this_partition,
}
use dis_co_tec.Grid.Hierarchy.Progression.{Periodic, indices, window_from_lower}
use dis_co_tec.Grid.Hierarchy.Levels.{odd_multiple, pow-positive}
use dis_co_tec.Grid.Hierarchy.OneDimension.{
  test, test-hit, test-miss, test_one-hit, test_one-miss, no_between,
}

abbrev pub position : ℕ → ℕ → ℕ
position b idx = if b == 0 then suc idx else idx

is_of_level-test :
    (g : DistributedFullGrid) (d l idx : ℕ)
    → is_of_level g d l idx
      ≡ test (level_in g d) (boundary_in g d) l (position (boundary_in g d) idx)
unfolding is_of_level get_level
is_of_level-test g d l idx = refl

-- The positions between odd multiples are none.
odd_between : (c m r m' : ℕ) → 0 < r → r < 2 ^ suc c → odd_multiple c m + r ≡ odd_multiple c m' → ⊥
odd_between c m r m' hr hs e = no_between (2 ^ suc c) m r m' (omega arith) hr hs

module _ (lmax b l : ℕ) (hl : 0 < l) (le : l ≤ lmax) where
  abbrev odd_offset : ℕ
  odd_offset = if ltb 0 b then 2 ^ (lmax - l) else 2 ^ (lmax - l) - 1

  odd_position :
      (m r : ℕ)
      → position b (odd_offset + m * 2 ^ (lmax - l + 1) + r) ≡ odd_multiple (lmax - l) m + r
  odd_position m r =
      let s : lmax - l + 1 ≡ suc (lmax - l) = omega arith in
      let swap : m * 2 ^ suc (lmax - l) ≡ 2 ^ suc (lmax - l) * m = mul_comm m _ in
      let p = pow-positive (lmax - l) in rw s (ground arith)

  -- Every level but level 1 with boundary points.
  odd-Periodic :
      (ltb 0 b && (l == 1)) ≡ false
      → Periodic
          (λ i. test lmax b l (position b i))
          odd_offset
          (2 ^ (lmax - l + 1))
          (2 ^ lmax + b - 1)
  odd-Periodic not_one =
      let s : lmax - l + 1 ≡ suc (lmax - l) = omega arith in
      record {
        step_positive = pow-positive (lmax - l + 1);
        hit = λ m lt.
            let z : odd_offset + m * 2 ^ (lmax - l + 1) + 0 ≡ odd_offset + m * 2 ^ (lmax - l + 1) =
              omega arith in
            let y : odd_multiple (lmax - l) m + 0 ≡ odd_multiple (lmax - l) m = omega arith in
            let e = ap (position b) (sym z) ∙ odd_position m 0 ∙ y in
            subst (λ x. test lmax b l x ≡ true) (sym e) (test-hit lmax b l m le);
        gap = λ m r hr hs lt.
            subst (λ x. test lmax b l x ≡ false) (sym (odd_position m r))
              (test-miss lmax b l _ hl le not_one
                (λ m' e. odd_between (lmax - l) m r m' hr (subst (λ k. r < 2 ^ k) s hs) e));
        before = λ i small lt.
            test-miss lmax b l (position b i) hl le not_one (λ m' e. too_small i small m' e);
      }
    where
      too_small :
          (i : ℕ) → i < odd_offset → (m' : ℕ) → position b i ≡ odd_multiple (lmax - l) m' → ⊥
      too_small i small m' e = ground arith

-- Level 1 with boundary points.
one-Periodic :
    (lmax b : ℕ)
    → 0 < b
    → b ≤ 2
    → 0 < lmax
    → Periodic (λ i. test lmax b 1 (position b i)) 0 (2 ^ (lmax - 1)) (2 ^ lmax + b - 1)
one-Periodic lmax b hb hb2 h =
    let n : (b == 0) ≡ false = ground arith in
    record {
      step_positive = pow-positive (lmax - 1);
      hit = λ m lt.
          let z : 0 + m * 2 ^ (lmax - 1) ≡ m * 2 ^ (lmax - 1) = omega arith in
          rw (n, z) (test_one-hit lmax b m hb h (omega arith));
      gap = λ m r hr hs lt.
          let z : 0 + m * 2 ^ (lmax - 1) ≡ m * 2 ^ (lmax - 1) = omega arith in
          rw (n, z) (test_one-miss lmax b m r h hr hs);
      before = λ i small lt. absurd (omega arith);
    }

-- The progression from the first term that is not below `lower`, in a window of n.
abbrev progression : ℕ → ℕ → ℕ → ℕ → List ℕ
progression lower n offset s =
    let first = (if ltb lower offset then 0 else (lower - offset + s - 1) / s) in
    let start = first * s + offset - lower in
    generate (get_num_points_on_this_partition n start s) start s

module _ (g : DistributedFullGrid) (d l : ℕ) where
  abbrev lower_in : ℕ
  lower_in = get_or g.my_partitions_lower_bounds d 0

  abbrev size_in : ℕ
  size_in = get_or (get_local_sizes g) d 0

  -- Where the level starts, its stride, and that it is there.
  parameters :
      0 < l
      → l ≤ level_in g d
      → boundary_in g d ≤ 2
      → (o : ℕ) × (s : ℕ) × (offset_for_this_level g l d ≡ o)
        × (get_stride_for_this_level g l d ≡ s)
        × Periodic
            (λ i. test (level_in g d) (boundary_in g d) l (position (boundary_in g d) i))
            o
            s
            (2 ^ level_in g d + boundary_in g d - 1)
  unfolding get_stride_for_this_level offset_for_this_level
  parameters hl le hb =
      let lmax = level_in g d in
      let b = boundary_in g d in
      elim (Bool-cases (ltb 0 b && (l == 1))) [
        | inr f ↦ (
          odd_offset lmax b l hl le,
          2 ^ (lmax - l + 1),
          ground arith,
          ground arith,
          odd-Periodic lmax b l hl le f,
        )
        | inl t ↦
            let is_one : l ≡ 1 = ground arith in
            let has : 0 < b = ground arith in
            let tb : ltb 0 b ≡ true = ground arith in
            let tl : (l == 1) ≡ true = ground arith in
            (
              0,
              2 ^ (lmax - 1),
              rw (tb, tl) refl,
              rw (tb, tl) refl,
              subst
                  (λ k.
                    Periodic (λ i. test lmax b k (position b i)) 0 (2 ^ (lmax - 1))
                      (2 ^ lmax + b - 1))
                  (sym is_one) (one-Periodic lmax b has hb (omega arith)),
            )
      ]

  -- For a level from 1 to that of the grid, at most two boundary points and a partition inside the
  -- dimension: get1dIndicesLocal returns the local indices that are of this level, in ascending
  -- order, and no others. The boundary points count for level 1.
  pub get_1d_indices_local-keep_if :
      0 < l
      → l ≤ level_in g d
      → boundary_in g d ≤ 2
      → lower_in + size_in ≤ 2 ^ level_in g d + boundary_in g d - 1
      → get_1d_indices_local g d l
        ≡ keep_if (λ j. is_of_level g d l (lower_in + j)) (indices size_in 0)
  unfolding get_1d_indices_local get_local_start_for_this_level
  get_1d_indices_local-keep_if hl le hb fits =
      let lmax = level_in g d in
      let b = boundary_in g d in
      let inside : ltb lmax l ≡ false = ground arith in
      let computed : get_1d_indices_local g d l
          ≡ progression lower_in size_in (offset_for_this_level g l d)
              (get_stride_for_this_level g l d) =
        rw inside refl in
      let tests : keep_if (λ j. test lmax b l (position b (lower_in + j))) (indices size_in 0)
          ≡ keep_if (λ j. is_of_level g d l (lower_in + j)) (indices size_in 0) =
        keep_if-cong _ _ (λ j. sym (is_of_level-test g d l (lower_in + j))) (indices size_in 0) in
      let (o, s, is_offset, is_stride, periodic) = parameters hl le hb in
      computed
      ∙ ap (λ o. progression lower_in size_in o (get_stride_for_this_level g l d)) is_offset
      ∙ ap (progression lower_in size_in o) is_stride
      ∙ window_from_lower periodic lower_in size_in fits
      ∙ tests
