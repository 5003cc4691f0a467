-- ===== src/Scheme/Weights.antt =====
-- The signs with which computeCombiCoeffsAdaptive counts the neighbours m of a space l, restricted
-- to l above some k, and their sums over a box.
use dis_co_tec.Prelude.{
  ℕ, zero, suc, ◌+◌, ◌-◌, ◌≤◌, ◌<◌, ◌≡◌, refl, ap, ◌∙◌, fun_ext, ◌&&◌, inl, inr, [], ◌∷◌, length,
  sum, replicate, leb, ◌==◌, if◌then◌else◌, arith, Bool-cases,
}
use dis_co_tec.Prelude.Int.{ℤ, pos, neg_ℤ, signed_laws}
use dis_co_tec.Level.{LevelVector, leq, geq, add, subtract, level_sum, equals_with_size_check}
use dis_co_tec.Level.Vectors.{level_sum-sum}
use dis_co_tec.Scheme.{power_of_minus_one}
use dis_co_tec.Scheme.BoxSum.{
  range_sum, box_sum, Within, zero_add, add_zero, neg_add, box_sum-zero, box_sum-neg,
}

-- w, -w or 0, by one dimension.
unfoldable pub step_weight : ℕ → ℕ → ℕ → ℤ → ℤ
step_weight k l m w =
    if leb k l then (if l == m then w else if suc l == m then neg_ℤ w else pos 0) else pos 0

unfoldable pub weight : LevelVector → LevelVector → LevelVector → ℤ
unfolding step_weight
weight [] [] [] = pos 1
weight (k ∷ ks) (l ∷ ls) (m ∷ ms) = step_weight k l m (weight ks ls ms)
weight _ _ _ = pos 0

past : (k m : ℕ) (w : ℤ) (n i : ℕ) → m < i → range_sum n i (λ l. step_weight k l m w) ≡ pos 0
unfolding range_sum step_weight
past k m w zero i h = refl
past k m w (suc n) i h = rw (past k m w n (suc i) (omega arith)) (ground (arith, add_zero (pos 0)))

at_end :
    (k m : ℕ) (w : ℤ) (n : ℕ)
    → range_sum (suc n) m (λ l. step_weight k l m w) ≡ (if leb k m then w else pos 0)
unfolding range_sum step_weight
at_end k m w n =
    rw (past k m w n (suc m) (omega arith)) (ground (arith, add_zero w, add_zero (pos 0)))

before_end :
    (k m : ℕ) (w : ℤ) (n i : ℕ)
    → i < m
    → m < i + n
    → range_sum n i (λ l. step_weight k l m w) ≡ (if k == m then w else pos 0)
unfolding range_sum
before_end k m w zero i h g = absurd (omega arith)
before_end k m w (suc zero) i h g = absurd (omega arith)
before_end k m w (suc (suc n)) i h g = elim (Bool-cases (suc i == m)) [
  | inl e ↦
      let e' : suc i ≡ m = ground arith in
      rw (← e') (
        rw (at_end k (suc i) w n)
          (unfold step_weight in ground (arith, neg_add w, zero_add w, zero_add (pos 0))))
  | inr e ↦
      rw (before_end k m w (suc n) (suc i) (ground arith) (omega arith))
        (unfold step_weight in ground (arith, zero_add w, zero_add (pos 0)))
]

-- One dimension: only m = k is left.
one_dimension :
    (k m n : ℕ) (w : ℤ)
    → 1 ≤ k
    → 1 ≤ m
    → m ≤ n
    → range_sum n 1 (λ l. step_weight k l m w) ≡ (if k == m then w else pos 0)
one_dimension k m zero w hk hm hn = absurd (omega arith)
one_dimension k m (suc n) w hk hm hn = elim (Bool-cases (m == 1)) [
  | inl e ↦ let e' : m ≡ 1 = ground arith in rw e' (at_end k 1 w n ∙ ground arith)
  | inr e ↦ before_end k m w (suc n) 1 (ground arith) (omega arith)
]

box_sum-step :
    (l : LevelVector) (k i m : ℕ) (F : LevelVector → ℤ)
    → box_sum l (λ x. step_weight k i m (F x)) ≡ step_weight k i m (box_sum l F)
unfolding step_weight
box_sum-step l k i m F = elim (Bool-cases (leb k i)) [
  | inl h ↦ rw h (elim (Bool-cases (i == m)) [
    | inl e ↦ rw e refl
    | inr e ↦ rw e (elim (Bool-cases (suc i == m)) [
      | inl f ↦ rw f (box_sum-neg l F)
      | inr f ↦ rw f (box_sum-zero l)
    ])
  ])
  | inr h ↦ rw h (box_sum-zero l)
]

-- The alternating sum over the box is 1 at m = k and 0 elsewhere.
pub box_sum-weight :
    (n k m : LevelVector)
    → Within k n
    → Within m n
    → box_sum n (λ l. weight k l m) ≡ (if equals_with_size_check k m then pos 1 else pos 0)
unfolding box_sum weight equals_with_size_check
box_sum-weight [] [] [] a b = refl
box_sum-weight [] [] (y ∷ m) a b = elim b [ ]
box_sum-weight [] (x ∷ k) m a b = elim a [ ]
box_sum-weight (n ∷ ns) [] m a b = elim a [ ]
box_sum-weight (n ∷ ns) (x ∷ k) [] a b = elim b [ ]
box_sum-weight (n ∷ ns) (x ∷ k) (y ∷ m) (a, a', ak) (b, b', bm) =
    ap (range_sum n 1) (fun_ext (λ i. box_sum-step ns x i y (λ l. weight k l m)))
    ∙ ap (λ w. range_sum n 1 (λ i. step_weight x i y w)) (box_sum-weight ns k m ak bm)
    ∙ one_dimension x y n _ a b b'
    ∙ ground arith

range_sum-past :
    (k : ℕ) (f : ℕ → ℤ) (n i : ℕ)
    → k < i
    → range_sum n i (λ j. if k == j then f j else pos 0) ≡ pos 0
unfolding range_sum
range_sum-past k f zero i h = refl
range_sum-past k f (suc n) i h =
    rw (range_sum-past k f n (suc i) (omega arith)) (ground (arith, zero_add (pos 0)))

range_sum-point :
    (k : ℕ) (f : ℕ → ℤ) (n i : ℕ)
    → i ≤ k
    → k < i + n
    → range_sum n i (λ j. if k == j then f j else pos 0) ≡ f k
unfolding range_sum
range_sum-point k f zero i h g = absurd (omega arith)
range_sum-point k f (suc n) i h g = elim (Bool-cases (k == i)) [
  | inl e ↦
      let e' : k ≡ i = ground arith in
      rw (e', range_sum-past i f n (suc i) (omega arith)) (ground (arith, add_zero (f i)))
  | inr e ↦ rw (e, range_sum-point k f n (suc i) (ground arith) (omega arith)) (zero_add (f k))
]

-- A sum with one term left.
pub box_sum-point :
    (n k : LevelVector) (F : LevelVector → ℤ)
    → Within k n
    → box_sum n (λ m. if equals_with_size_check k m then F m else pos 0) ≡ F k
unfolding box_sum equals_with_size_check
box_sum-point [] [] F w = refl
box_sum-point [] (x ∷ k) F w = elim w [ ]
box_sum-point (n ∷ ns) [] F w = elim w [ ]
box_sum-point (n ∷ ns) (x ∷ k) F (a, b, w) =
    ap (range_sum n 1) (fun_ext (slice (λ i. box_sum-point ns k (λ m. F (i ∷ m)) w)))
    ∙ range_sum-point x (λ i. F (i ∷ k)) n 1 a (omega arith)
  where
    slice :
        ((i : ℕ)
          → box_sum ns (λ m. if equals_with_size_check k m then F (i ∷ m) else pos 0) ≡ F (i ∷ k))
        → (i : ℕ)
        → box_sum ns (λ m. if (x == i) && equals_with_size_check k m then F (i ∷ m) else pos 0)
          ≡ (if x == i then F (i ∷ k) else pos 0)
    slice rest i = elim (Bool-cases (x == i)) [
      | inl e ↦ rw e (rest i)
      | inr e ↦ rw e (box_sum-zero ns)
    ]

-- The term of computeCombiCoeffsAdaptive for the neighbour m of l.
abbrev pub term : LevelVector → LevelVector → LevelVector → ℤ
term l tmp m = if geq m l && leq m tmp then power_of_minus_one (level_sum (subtract m l)) else pos 0

sum_term : LevelVector → LevelVector → ℤ
sum_term l m =
    if geq m l && leq m (add l (replicate (length l) 1))
    then power_of_minus_one (sum (subtract m l))
    else pos 0

neg_zero : neg_ℤ (pos 0) ≡ pos 0
neg_zero = omega signed_laws

power_same : (y z s : ℕ) → y ≡ z → power_of_minus_one (z - y + s) ≡ power_of_minus_one s
power_same y z s e = ap power_of_minus_one (omega arith)

power_next : (y z s : ℕ) → suc y ≡ z → power_of_minus_one (z - y + s) ≡ neg_ℤ (power_of_minus_one s)
power_next y z s e =
    let f : z - y + s ≡ suc s = omega arith in rw f (unfold power_of_minus_one in refl)

sum_term-cons :
    (y z : ℕ) (l m : LevelVector)
    → sum_term (y ∷ l) (z ∷ m)
      ≡ (if y == z then sum_term l m else if suc y == z then neg_ℤ (sum_term l m) else pos 0)
unfolding sum_term leq add subtract
sum_term-cons y z l m =
    ground
      (arith, power_same y z (sum (subtract m l)), power_next y z (sum (subtract m l)), neg_zero)

sum_term-weight :
    (n k l m : LevelVector)
    → Within k n
    → Within l n
    → Within m n
    → (if leq k l then sum_term l m else pos 0) ≡ weight k l m
unfolding leq weight step_weight subtract
sum_term-weight [] [] [] [] a b c = unfold sum_term add power_of_minus_one in refl
sum_term-weight [] [] [] (z ∷ m) a b c = elim c [ ]
sum_term-weight [] [] (y ∷ l) m a b c = elim b [ ]
sum_term-weight [] (x ∷ k) l m a b c = elim a [ ]
sum_term-weight (n ∷ ns) [] l m a b c = elim a [ ]
sum_term-weight (n ∷ ns) (x ∷ k) [] m a b c = elim b [ ]
sum_term-weight (n ∷ ns) (x ∷ k) (y ∷ l) [] a b c = elim c [ ]
sum_term-weight (n ∷ ns) (x ∷ k) (y ∷ l) (z ∷ m) a b c =
    rw (sum_term-cons y z l m) (ground (arith, sum_term-weight ns k l m a.2 b.2 c.2, neg_zero))

-- Restricted to l above k, the term of the code is the weight.
pub term-weight :
    (n k l m : LevelVector)
    → Within k n
    → Within l n
    → Within m n
    → (if leq k l then term l (add l (replicate (length l) 1)) m else pos 0) ≡ weight k l m
term-weight n k l m a b c =
    rw (level_sum-sum (subtract m l)) (unfold sum_term in sum_term-weight n k l m a b c)
