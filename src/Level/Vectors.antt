-- ===== src/Level/Vectors.antt =====
-- The comparisons and sums of level vectors.
use dis_co_tec.Prelude.{ℕ, ◌+◌, ◌≤◌, ◌≡◌, refl, true, [], ◌∷◌, arith, length, sum}
use dis_co_tec.Level.{LevelVector, leq, level_sum, level_sum_from}

-- Componentwise order between vectors of one size.
abbrev pub Below : LevelVector → LevelVector → Type 0
Below [] [] = Unit
Below [] (y ∷ m) = ⊥
Below (x ∷ l) [] = ⊥
Below (x ∷ l) (y ∷ m) = (x ≤ y) × Below l m

abbrev pub Positive : LevelVector → Type 0
Positive [] = Unit
Positive (x ∷ l) = (1 ≤ x) × Positive l

level_sum_from-sum : (acc : ℕ) (l : LevelVector) → level_sum_from acc l ≡ acc + sum l
unfolding level_sum_from
level_sum_from-sum acc [] = omega arith
level_sum_from-sum acc (x ∷ l) = omega (arith, level_sum_from-sum (acc + x) l)

pub level_sum-sum : (l : LevelVector) → level_sum l ≡ sum l
unfolding level_sum
level_sum-sum l = omega (arith, level_sum_from-sum 0 l)

-- With the sizes equal, operator<= decides the componentwise order.
pub leq-Below : (l m : LevelVector) → length l ≡ length m → leq l m ≡ true → Below l m
unfolding leq
leq-Below [] [] e h = tt
leq-Below [] (y ∷ m) e h = omega arith
leq-Below (x ∷ l) [] e h = omega arith
leq-Below (x ∷ l) (y ∷ m) e h = ground (arith, leq-Below l m)

pub Below-leq : (l m : LevelVector) → Below l m → leq l m ≡ true
unfolding leq
Below-leq [] [] h = refl
Below-leq [] (y ∷ m) h = elim h [ ]
Below-leq (x ∷ l) [] h = elim h [ ]
Below-leq (x ∷ l) (y ∷ m) h = ground (arith, Below-leq l m h.1)
