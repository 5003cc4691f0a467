-- ===== src/Scheme/BoxOrder.antt =====
-- The order in which a box is enumerated.
use dis_co_tec.Prelude.{
  ℕ, zero, suc, ◌≤◌, ◌<◌, Bool, List, [], ◌∷◌, ◌++◌, map, arith, keep_if, Bool-cases, All,
  All-append, All-map, All-All, All-keep_if, inl, inr,
}
use dis_co_tec.Prelude.Loops.{concat_range, All-concat_range}
use dis_co_tec.Level.{LevelVector, leq}
use dis_co_tec.Level.DownSet.{box}
use dis_co_tec.Scheme.BoxSum.{Within}
use dis_co_tec.Scheme.Adaptive.{NoneBelow, Ascending, Before, NonZero}

-- Every vector of the box lies in it.
pub box-Within : (l : LevelVector) → All (λ k. Within k l) (box l)
unfolding box
box-Within [] = (tt, tt)
box-Within (n ∷ l) =
    All-concat_range _ _ n 1
      (λ j le lt. All-map _ _ (box l) (pair j l le (omega arith) (box l) (box-Within l)))
  where
    pair :
        (j : ℕ) (l : LevelVector)
        → 1 ≤ j
        → j ≤ n
        → (ks : List LevelVector) → All (λ k. Within k l) ks
        → All (λ k. Within (j ∷ k) (n ∷ l)) ks
    pair j l a b [] h = tt
    pair j l a b (k ∷ ks) h = ((a, b, h.0), pair j l a b ks h.1)

Ascending-append :
    (xs ys : List LevelVector) → Ascending xs → Ascending ys → Before xs ys → Ascending (xs ++ ys)
Ascending-append [] ys a b c = b
Ascending-append (x ∷ xs) ys a b c = (All-append _ xs ys a.0 c.0, Ascending-append xs ys a.1 b c.1)

NoneBelow-cons :
    (i : ℕ) (m : LevelVector) (ks : List LevelVector)
    → NoneBelow m ks
    → NoneBelow (i ∷ m) (map (λ k. i ∷ k) ks)
unfolding leq
NoneBelow-cons i m [] h = tt
NoneBelow-cons i m (k ∷ ks) h = (ground arith, NoneBelow-cons i m ks h.1)

Ascending-cons : (i : ℕ) (ks : List LevelVector) → Ascending ks → Ascending (map (λ k. i ∷ k) ks)
Ascending-cons i [] a = tt
Ascending-cons i (k ∷ ks) a = (NoneBelow-cons i k ks a.0, Ascending-cons i ks a.1)

-- Slices with a larger first entry hold nothing below.
NoneBelow-later :
    (i : ℕ) (m : LevelVector) (B : List LevelVector) (n j : ℕ)
    → i < j
    → NoneBelow (i ∷ m) (concat_range n j (λ x. map (λ k. x ∷ k) B))
unfolding leq
NoneBelow-later i m B n j h =
    All-concat_range _ _ n j (λ x le lt. All-map _ _ B (All-All _ (λ k. ground arith) B))

Ascending-slices :
    (B : List LevelVector) (n i : ℕ)
    → Ascending B
    → Ascending (concat_range n i (λ x. map (λ k. x ∷ k) B))
unfolding concat_range
Ascending-slices B zero i a = tt
Ascending-slices B (suc n) i a =
    Ascending-append (map (λ k. i ∷ k) B) _ (Ascending-cons i B a) (Ascending-slices B n (suc i) a)
      (All-map _ _ B (All-All _ (λ k. NoneBelow-later i k B n (suc i) (omega arith)) B))

pub box-Ascending : (l : LevelVector) → Ascending (box l)
unfolding box
box-Ascending [] = (tt, tt)
box-Ascending (n ∷ l) = Ascending-slices (box l) n 1 (box-Ascending l)

pub keep_if-Ascending :
    (p : LevelVector → Bool) (xs : List LevelVector) → Ascending xs → Ascending (keep_if p xs)
unfolding keep_if
keep_if-Ascending p [] a = tt
keep_if-Ascending p (x ∷ xs) a = elim (Bool-cases (p x)) [
  | inl e ↦ rw e (All-keep_if _ p xs a.0, keep_if-Ascending p xs a.1)
  | inr e ↦ rw e (keep_if-Ascending p xs a.1)
]

pub box-NonZero : (n : ℕ) (l : LevelVector) (d : ℕ) → NonZero (suc d) (box (n ∷ l))
unfolding box leq
box-NonZero n l d =
    All-concat_range _ _ n 1
      (λ x le lt. All-map _ _ (box l) (All-All _ (λ k. ground arith) (box l)))
