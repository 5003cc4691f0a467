-- ===== src/Rescheduler/Groups.antt =====
-- The durations of the groups, and that every group in them has a task.
use dis_co_tec.Prelude.{
  ℕ, ◌≡◌, refl, Bool, true, false, ◌||◌, Option, none, some, List, [], ◌∷◌, keep_if, ltb, ◌==◌,
  arith, All, Bool-cases, Option-cases, inl, inr,
}
use dis_co_tec.Level.{LevelVector, equals_with_size_check}
use dis_co_tec.Rescheduler.{
  key_lt, put_group, find_group, index_group, add_to_group, init_groups, add_durations,
  slowest_from,
}

unfoldable pub has_group : ℕ → List (LevelVector × ℕ) → Bool
has_group g [] = false
has_group g ((l, h) ∷ m) = (h == g) || has_group g m

-- Every group has a task in m.
abbrev pub Covered : List (LevelVector × ℕ) → List (ℕ × ℕ) → Type 0
Covered m = All (λ x. has_group x.0 m ≡ true)

pub has_group-keep_if :
    (g : ℕ) (m : List (LevelVector × ℕ))
    → has_group g m ≡ true
    → (t : LevelVector × ℕ) × (ts : List (LevelVector × ℕ)) × (keep_if (λ t. t.1 == g) m ≡ t ∷ ts)
unfolding has_group keep_if
has_group-keep_if g [] h = absurd (cc)
has_group-keep_if g ((l, k) ∷ m) h = elim (Bool-cases (k == g)) [
  | inl e ↦ ((l, k), keep_if (λ t. t.1 == g) m, rw e refl)
  | inr e ↦ rw e (has_group-keep_if g m (rw e at h))
]

find_group-has_group :
    (l : LevelVector) (m : List (LevelVector × ℕ)) (g : ℕ)
    → find_group l m ≡ some g
    → has_group g m ≡ true
unfolding find_group has_group
find_group-has_group l [] g e = let e' : ◌≡◌ {A = Option ℕ} none (some g) = e in absurd (cc)
find_group-has_group l ((k, h) ∷ m) g e = elim (Bool-cases (equals_with_size_check k l)) [
  | inl same ↦
      let here : ◌≡◌ {A = Option ℕ} (some h) (some g) = rw same at e in
      let equal : h ≡ g = cc in ground arith
  | inr other ↦
      let later : has_group g m ≡ true = find_group-has_group l m g (rw other at e) in ground arith
]

put_group-has_group :
    (l : LevelVector) (g : ℕ) (m : List (LevelVector × ℕ)) → has_group g (put_group l g m) ≡ true
unfolding put_group has_group
put_group-has_group l g [] = ground arith
put_group-has_group l g ((k, h) ∷ m) = ground (arith, put_group-has_group l g m)

put_group-keeps :
    (l : LevelVector) (g : ℕ) (m : List (LevelVector × ℕ)) (h : ℕ)
    → find_group l m ≡ none
    → has_group h m ≡ true
    → has_group h (put_group l g m) ≡ true
unfolding put_group has_group find_group
put_group-keeps l g [] h e p = absurd (cc)
put_group-keeps l g ((k, j) ∷ m) h e p = elim (Bool-cases (equals_with_size_check k l)) [
  | inl same ↦ let e' : ◌≡◌ {A = Option ℕ} (some j) none = rw same at e in absurd (cc)
  | inr other ↦
      let e' : find_group l m ≡ none = rw other at e in
      rw other (ground (arith, put_group-keeps l g m h e'))
]

index_group-Covered :
    (l : LevelVector) (m : List (LevelVector × ℕ))
    → (has_group (index_group l m).0 (index_group l m).1 ≡ true)
      × ((h : ℕ) → has_group h m ≡ true → has_group h (index_group l m).1 ≡ true)
unfolding index_group
index_group-Covered l m = elim (Option-cases (find_group l m)) [
  | inl absent ↦
      let at : index_group l m ≡ (0, put_group l 0 m) = rw (absent, index_group) refl in
      rw at (put_group-has_group l 0 m, λ h p. put_group-keeps l 0 m h absent p)
  | inr (g, found) ↦
      let at : index_group l m ≡ (g, m) = rw (found, index_group) refl in
      rw at (find_group-has_group l m g found, λ h p. p)
]

All-add_to_group :
    (P : ℕ → Type 0) (g d : ℕ) (groups : List (ℕ × ℕ))
    → P g
    → All (λ x. P x.0) groups
    → All (λ x. P x.0) (add_to_group g d groups)
unfolding add_to_group
All-add_to_group P g d [] pg h = (pg, tt)
All-add_to_group P g d ((k, e) ∷ groups) pg h = elim (Bool-cases (g == k)) [
  | inl same ↦ rw same h
  | inr other ↦ elim (Bool-cases (ltb g k)) [
    | inl less ↦ rw (other, less) (pg, h)
    | inr more ↦ rw (other, more) (h.0, All-add_to_group P g d groups pg h.1)
  ]
]

All-weaken :
    (P Q : ℕ → Type 0) (groups : List (ℕ × ℕ))
    → ((g : ℕ) → P g → Q g)
    → All (λ x. P x.0) groups
    → All (λ x. Q x.0) groups
All-weaken P Q [] f h = tt
All-weaken P Q (x ∷ groups) f h = (f x.0 h.0, All-weaken P Q groups f h.1)

abbrev pub IsNonEmpty {ℓ} : {A : Type ℓ} → List A → Type 0
IsNonEmpty [] = ⊥
IsNonEmpty (x ∷ xs) = Unit

add_to_group-IsNonEmpty : (g d : ℕ) (groups : List (ℕ × ℕ)) → IsNonEmpty (add_to_group g d groups)
unfolding add_to_group
add_to_group-IsNonEmpty g d [] = tt
add_to_group-IsNonEmpty g d ((k, e) ∷ groups) = elim (Bool-cases (g == k)) [
  | inl same ↦ rw same tt
  | inr other ↦ elim (Bool-cases (ltb g k)) [
    | inl less ↦ rw (other, less) tt
    | inr more ↦ rw (other, more) tt
  ]
]

pub put_group-IsNonEmpty :
    (l : LevelVector) (g : ℕ) (m : List (LevelVector × ℕ)) → IsNonEmpty (put_group l g m)
unfolding put_group
put_group-IsNonEmpty l g [] = tt
put_group-IsNonEmpty l g ((k, h) ∷ m) = elim (Bool-cases (equals_with_size_check k l)) [
  | inl same ↦ rw same tt
  | inr other ↦ elim (Bool-cases (key_lt l k)) [
    | inl less ↦ rw (other, less) tt
    | inr more ↦ rw (other, more) tt
  ]
]

-- Every group of m gets an entry, and no other.
pub init_groups-Covered :
    (whole m : List (LevelVector × ℕ)) (groups : List (ℕ × ℕ))
    → ((h : ℕ) → has_group h m ≡ true → has_group h whole ≡ true)
    → Covered whole groups
    → Covered whole (init_groups m groups)
unfolding init_groups
init_groups-Covered whole [] groups f c = c
init_groups-Covered whole ((l, g) ∷ m) groups f c =
    init_groups-Covered whole m (add_to_group g 0 groups)
      (λ h p. f h (unfold has_group in ground arith))
      (All-add_to_group (λ h. has_group h whole ≡ true) g 0 groups
        (f g (unfold has_group in ground arith)) c)

init_groups-IsNonEmpty :
    (m : List (LevelVector × ℕ)) (groups : List (ℕ × ℕ))
    → IsNonEmpty groups
    → IsNonEmpty (init_groups m groups)
unfolding init_groups
init_groups-IsNonEmpty [] groups n = n
init_groups-IsNonEmpty ((l, g) ∷ m) groups n =
    init_groups-IsNonEmpty m (add_to_group g 0 groups) (add_to_group-IsNonEmpty g 0 groups)

pub init_groups-some : (m : List (LevelVector × ℕ)) → IsNonEmpty m → IsNonEmpty (init_groups m [])
unfolding init_groups
init_groups-some [] n = elim n [ ]
init_groups-some ((l, g) ∷ m) n =
    init_groups-IsNonEmpty m (add_to_group g 0 []) (add_to_group-IsNonEmpty g 0 [])

-- Adding the durations keeps this, with the map of the groups as it is then.
pub add_durations-Covered :
    (durations m : List (LevelVector × ℕ)) (groups : List (ℕ × ℕ))
    → Covered m groups
    → IsNonEmpty groups
    → Covered (add_durations durations m groups).0 (add_durations durations m groups).1
      × IsNonEmpty (add_durations durations m groups).1
unfolding add_durations
add_durations-Covered [] m groups c n = (c, n)
add_durations-Covered ((l, d) ∷ durations) m groups c n =
    let (here, keeps) = index_group-Covered l m in
    add_durations-Covered durations (index_group l m).1 (add_to_group (index_group l m).0 d groups)
      (All-add_to_group (λ h. has_group h (index_group l m).1 ≡ true) (index_group l m).0 d groups
        here
        (All-weaken (λ h. has_group h m ≡ true) (λ h. has_group h (index_group l m).1 ≡ true) groups
          keeps c))
      (add_to_group-IsNonEmpty (index_group l m).0 d groups)

pub slowest_from-All :
    (P : ℕ × ℕ → Type 0) (best : ℕ × ℕ) (groups : List (ℕ × ℕ))
    → P best
    → All P groups
    → P (slowest_from best groups)
unfolding slowest_from
slowest_from-All P best [] p h = p
slowest_from-All P best (x ∷ groups) p h = elim (Bool-cases (ltb x.1 best.1)) [
  | inl less ↦ rw less (slowest_from-All P best groups p h.1)
  | inr more ↦ rw more (slowest_from-All P x groups h.0 h.1)
]
