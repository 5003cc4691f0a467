-- ===== src/Scheme/Distribution/Shares.antt =====
-- The share of a group as a selection of task numbers.
use mathlib.Core.List.{map-append}
use dis_co_tec.Prelude.{ℕ, zero, suc, ◌≡◌, sym, List, [], ◌∷◌, ◌++◌, map, get_or}
use dis_co_tec.Level.{LevelVector}
use dis_co_tec.Scheme.Distribution.{Share, push_task, push_task_at}

-- t, t + 1, …, `count` numbers
abbrev pub numbers : ℕ → ℕ → List ℕ
numbers zero t = []
numbers (suc count) t = t ∷ numbers count (suc t)

module _ {ℓ} {C : Type ℓ} (spare : C) (levels : List LevelVector) (coeffs : List C) where
  abbrev pub share_of : List ℕ → Share C
  share_of ts = record {
    levels = map (λ t. get_or levels t []) ts;
    coeffs = map (λ t. get_or coeffs t spare) ts;
    task_numbers = ts;
  }

  pub push-share_of :
      (t : ℕ) (ts : List ℕ)
      → push_task_at spare levels coeffs t (share_of ts) ≡ share_of (ts ++ t ∷ [])
  unfolding push_task_at push_task
  push-share_of t ts = λ i. record {
    levels = sym (map-append (λ t. get_or levels t []) ts (t ∷ [])) i;
    coeffs = sym (map-append (λ t. get_or coeffs t spare) ts (t ∷ [])) i;
    task_numbers = ts ++ t ∷ [];
  }
