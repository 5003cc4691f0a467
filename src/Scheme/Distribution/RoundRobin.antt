-- ===== src/Scheme/Distribution/RoundRobin.antt =====
-- getRoundRobinLevels, next to the selection of tasks by remainder.
use dis_co_tec.Prelude.{ℕ, ◌%◌, Bool, List, ◌==◌}
use dis_co_tec.Level.{LevelVector}

module _ {ℓ} {C : Type ℓ} (spare : C) (levels : List LevelVector) (coeffs : List C)
    (total my : ℕ) where
  abbrev pub is_mine : ℕ → Bool
  is_mine t = t % total == my
