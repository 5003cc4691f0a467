-- ===== src/LoadModel/Window.antt =====
-- What AverageOfLastNLoadModel keeps after a series of durations.
use mathlib.Core.List.{append_assoc, append-nil}
use native.Mathlib.Nat.{mod-eq_of_lt}
use dis_co_tec.Prelude.{
  ℕ, zero, suc, ◌+◌, ◌-◌, ◌/◌, ◌%◌, ◌^◌, ◌≤◌, ◌<◌, ◌≡◌, refl, sym, ap, ◌∙◌, true, false, some, List,
  [], ◌∷◌, ◌++◌, length, drop, sum, leb, ltb, ◌==◌, arith, Bool-cases, inl, inr, length-append,
  length-drop,
}
use dis_co_tec.Prelude.Int.{pos}
use dis_co_tec.Level.{LevelVector, equals_with_size_check}
use dis_co_tec.LoadModel.{
  LoadModel, durations_of, set_durations, push_duration, add_duration_information, accumulate_int,
  eval_specific_uot, pop_front,
}

-- Durations in the order in which they come in.
unfoldable pub add_all : List ℕ → LevelVector → LoadModel → LoadModel
add_all [] l m = m
add_all (d ∷ ds) l m = add_all ds l (add_duration_information d l m)

-- The last n entries
abbrev pub last : ℕ → List ℕ → List ℕ
last n ds = drop (length ds - n) ds

equals_refl : (l : LevelVector) → equals_with_size_check l l ≡ true
unfolding equals_with_size_check
equals_refl [] = refl
equals_refl (x ∷ l) = ground (arith, equals_refl l)

durations_of-set_durations :
    (l : LevelVector) (ds : List ℕ) (m : List (LevelVector × List ℕ))
    → durations_of l (set_durations l ds m) ≡ ds
unfolding durations_of set_durations
durations_of-set_durations l ds [] = rw (equals_refl l) refl
durations_of-set_durations l ds ((k, es) ∷ m) = elim (Bool-cases (equals_with_size_check k l)) [
  | inl h ↦ rw (h, h) refl
  | inr h ↦ rw (h, h) (durations_of-set_durations l ds m)
]

drop-nil : (k : ℕ) → ◌≡◌ {A = List ℕ} (drop k []) []
drop-nil zero = refl
drop-nil (suc k) = refl

drop-append : (n : ℕ) (xs ys : List ℕ) → n ≤ length xs → drop n (xs ++ ys) ≡ drop n xs ++ ys
drop-append zero xs ys h = refl
drop-append (suc n) [] ys h = absurd (omega arith)
drop-append (suc n) (x ∷ xs) ys h = drop-append n xs ys (omega arith)

pop_front-drop : (k : ℕ) (xs : List ℕ) → pop_front (drop k xs) ≡ drop (suc k) xs
pop_front-drop zero [] = refl
pop_front-drop zero (x ∷ xs) = refl
pop_front-drop (suc k) [] = refl
pop_front-drop (suc k) (x ∷ xs) = pop_front-drop k xs

-- One push moves the window on.
push_duration-last :
    (n : ℕ) (ds : List ℕ) (d : ℕ) → 0 < n → push_duration n (last n ds) d ≡ last n (ds ++ d ∷ [])
unfolding push_duration
push_duration-last n ds d h = elim (Bool-cases (leb n (length (last n ds)))) [
  | inl full ↦
      let size : suc (length ds - n) ≡ length (ds ++ d ∷ []) - n =
        ground (arith, length-drop (length ds - n) ds, length-append ds (d ∷ [])) in
      let room : suc (length ds - n) ≤ length ds = ground (arith, length-drop (length ds - n) ds) in
      rw full (
        ap (λ xs. xs ++ d ∷ []) (pop_front-drop (length ds - n) ds)
        ∙ sym (drop-append (suc (length ds - n)) ds (d ∷ []) room)
        ∙ ap (λ (k : ℕ). drop k (ds ++ d ∷ [])) size)
  | inr some_room ↦
      let size : length ds - n ≡ length (ds ++ d ∷ []) - n =
        ground (arith, length-drop (length ds - n) ds, length-append ds (d ∷ [])) in
      rw some_room (
        sym (drop-append (length ds - n) ds (d ∷ []) (omega arith))
        ∙ ap (λ (k : ℕ). drop k (ds ++ d ∷ [])) size)
]

add_duration_information-last :
    (l : LevelVector) (m : LoadModel) (before : List ℕ) (d : ℕ)
    → 0 < m.last_n
    → durations_of l m.durations ≡ last m.last_n before
    → durations_of l (add_duration_information d l m).durations ≡ last m.last_n (before ++ d ∷ [])
unfolding add_duration_information
add_duration_information-last l m before d h e =
    durations_of-set_durations l _ m.durations
    ∙ ap (λ x. push_duration m.last_n x d) e
    ∙ push_duration-last m.last_n before d h

add_all-last :
    (l : LevelVector) (m : LoadModel) (before ds : List ℕ)
    → 0 < m.last_n
    → durations_of l m.durations ≡ last m.last_n before
    → durations_of l (add_all ds l m).durations ≡ last m.last_n (before ++ ds)
unfolding add_all add_duration_information
add_all-last l m before [] h e = e ∙ ap (last m.last_n) (sym (append-nil before))
add_all-last l m before (d ∷ ds) h e =
    add_all-last l (add_duration_information d l m) (before ++ d ∷ []) ds h
      (add_duration_information-last l m before d h e)
    ∙ ap (last m.last_n) (append_assoc before (d ∷ []) ds)

accumulate_int-sum :
    (acc : ℕ) (ds : List ℕ) → acc + sum ds < 2 ^ 31 → accumulate_int acc ds ≡ acc + sum ds
unfolding accumulate_int
accumulate_int-sum acc [] h = omega arith
accumulate_int-sum acc (d ∷ ds) h =
    let no_wrap : (acc + d) % 2 ^ 32 ≡ acc + d = mod-eq_of_lt (omega arith) in
    rw no_wrap (accumulate_int-sum (acc + d) ds (omega arith) ∙ omega arith)

-- For a task that had no durations before: after some durations the load model answers the average
-- of the last n of them, rounded down, if n is not 0 and their sum is below 2^31.
pub eval_specific_uot-last :
    (l : LevelVector) (m : LoadModel) (ds : List ℕ)
    → 0 < m.last_n
    → durations_of l m.durations ≡ []
    → 0 < length ds
    → sum (last m.last_n ds) < 2 ^ 31
    → eval_specific_uot l (add_all ds l m)
      ≡ some (pos (sum (last m.last_n ds) / length (last m.last_n ds)))
unfolding eval_specific_uot
eval_specific_uot-last l m ds h e some_duration small =
    let window : durations_of l (add_all ds l m).durations ≡ last m.last_n ds =
      add_all-last l m [] ds h (e ∙ sym (drop-nil (0 - m.last_n))) in
    let not_empty : (length (last m.last_n ds) == 0) ≡ false =
      ground (arith, length-drop (length ds - m.last_n) ds) in
    let total : accumulate_int 0 (last m.last_n ds) ≡ sum (last m.last_n ds) =
      accumulate_int-sum 0 (last m.last_n ds) (omega arith) ∙ omega arith in
    let fits : ltb (sum (last m.last_n ds)) (2 ^ 31) ≡ true = ground arith in
    rw (window, not_empty, total, fits) refl
