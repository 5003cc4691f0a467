-- ===== src/Scheme/BoxSum.antt =====
-- Sums of integers over boxes of level vectors: linearity, exchange of two sums, and the alternating
-- sum by which the combination coefficients cancel.
use dis_co_tec.Prelude.{
  ℕ, zero, suc, ◌+◌, ◌≤◌, ◌<◌, ◌≡◌, refl, sym, ap, ◌∙◌, fun_ext, Bool, inl, inr, List, [], ◌∷◌,
  ◌++◌, map, if◌then◌else◌, arith, keep_if, Bool-cases,
}
use dis_co_tec.Prelude.Int.{ℤ, pos, ◌+ℤ◌, neg_ℤ, signed_laws}
use dis_co_tec.Prelude.Loops.{concat_range}
use dis_co_tec.Level.{LevelVector}
use dis_co_tec.Level.DownSet.{box}

unfoldable pub range_sum : ℕ → ℕ → (ℕ → ℤ) → ℤ
range_sum zero i f = pos 0
range_sum (suc n) i f = f i +ℤ range_sum n (suc i) f

unfoldable pub box_sum : LevelVector → (LevelVector → ℤ) → ℤ
unfolding range_sum
box_sum [] F = F []
box_sum (n ∷ l) F = range_sum n 1 (λ i. box_sum l (λ k. F (i ∷ k)))

abbrev pub Within : LevelVector → LevelVector → Type 0
Within [] [] = Unit
Within [] (n ∷ l) = ⊥
Within (x ∷ k) [] = ⊥
Within (x ∷ k) (n ∷ l) = (1 ≤ x) × (x ≤ n) × Within k l

pub zero_add : (a : ℤ) → pos 0 +ℤ a ≡ a
zero_add a = omega signed_laws

pub add_zero : (a : ℤ) → a +ℤ pos 0 ≡ a
add_zero a = omega signed_laws

pub neg_add : (a : ℤ) → neg_ℤ a +ℤ a ≡ pos 0
neg_add a = omega signed_laws

range_sum-cong :
    (f g : ℕ → ℤ) (n i : ℕ)
    → ((j : ℕ) → i ≤ j → j < i + n → f j ≡ g j)
    → range_sum n i f ≡ range_sum n i g
unfolding range_sum
range_sum-cong f g zero i h = refl
range_sum-cong f g (suc n) i h =
    let first : f i ≡ g i = h i (omega arith) (omega arith) in
    let rest : range_sum n (suc i) f ≡ range_sum n (suc i) g =
      range_sum-cong f g n (suc i) (λ j p q. h j (omega arith) (omega arith)) in
    rw (first, rest) refl

range_sum-zero : (n i : ℕ) → range_sum n i (λ j. pos 0) ≡ pos 0
unfolding range_sum
range_sum-zero zero i = refl
range_sum-zero (suc n) i = zero_add _ ∙ range_sum-zero n (suc i)

range_sum-add :
    (f g : ℕ → ℤ) (n i : ℕ) → range_sum n i (λ j. f j +ℤ g j) ≡ range_sum n i f +ℤ range_sum n i g
unfolding range_sum
range_sum-add f g zero i = omega signed_laws
range_sum-add f g (suc n) i =
    ap (λ x. f i +ℤ g i +ℤ x) (range_sum-add f g n (suc i)) ∙ omega signed_laws

range_sum-neg : (f : ℕ → ℤ) (n i : ℕ) → range_sum n i (λ j. neg_ℤ (f j)) ≡ neg_ℤ (range_sum n i f)
unfolding range_sum
range_sum-neg f zero i = omega signed_laws
range_sum-neg f (suc n) i =
    ap (λ x. neg_ℤ (f i) +ℤ x) (range_sum-neg f n (suc i)) ∙ omega signed_laws

-- Two functions that agree inside the box have one sum.
pub box_sum-cong :
    (l : LevelVector) (F G : LevelVector → ℤ)
    → ((k : LevelVector) → Within k l → F k ≡ G k)
    → box_sum l F ≡ box_sum l G
unfolding box_sum
box_sum-cong [] F G h = h [] tt
box_sum-cong (n ∷ l) F G h =
    range_sum-cong _ _ n 1 (λ j p q. box_sum-cong l _ _ (λ k w. h (j ∷ k) (p, omega arith, w)))

pub box_sum-zero : (l : LevelVector) → box_sum l (λ k. pos 0) ≡ pos 0
unfolding box_sum
box_sum-zero [] = refl
box_sum-zero (n ∷ l) = ap (range_sum n 1) (fun_ext (λ i. box_sum-zero l)) ∙ range_sum-zero n 1

pub box_sum-add :
    (l : LevelVector) (F G : LevelVector → ℤ)
    → box_sum l (λ k. F k +ℤ G k) ≡ box_sum l F +ℤ box_sum l G
unfolding box_sum
box_sum-add [] F G = refl
box_sum-add (n ∷ l) F G =
    ap (range_sum n 1) (fun_ext (λ i. box_sum-add l (λ k. F (i ∷ k)) (λ k. G (i ∷ k))))
    ∙ range_sum-add _ _ n 1

pub box_sum-neg :
    (l : LevelVector) (F : LevelVector → ℤ) → box_sum l (λ k. neg_ℤ (F k)) ≡ neg_ℤ (box_sum l F)
unfolding box_sum
box_sum-neg [] F = refl
box_sum-neg (n ∷ l) F =
    ap (range_sum n 1) (fun_ext (λ i. box_sum-neg l (λ k. F (i ∷ k)))) ∙ range_sum-neg _ n 1

range_box_swap :
    (n i : ℕ) (l : LevelVector) (F : ℕ → LevelVector → ℤ)
    → range_sum n i (λ j. box_sum l (F j)) ≡ box_sum l (λ k. range_sum n i (λ j. F j k))
unfolding range_sum
range_box_swap zero i l F = sym (box_sum-zero l)
range_box_swap (suc n) i l F =
    ap (λ x. box_sum l (F i) +ℤ x) (range_box_swap n (suc i) l F)
    ∙ sym (box_sum-add l (F i) (λ k. range_sum n (suc i) (λ j. F j k)))

-- The order of two sums does not matter.
pub box_sum-swap :
    (l m : LevelVector) (F : LevelVector → LevelVector → ℤ)
    → box_sum l (λ a. box_sum m (F a)) ≡ box_sum m (λ b. box_sum l (λ a. F a b))
unfolding box_sum
box_sum-swap [] m F = refl
box_sum-swap (n ∷ l) m F =
    ap (range_sum n 1) (fun_ext (λ i. box_sum-swap l m (λ k. F (i ∷ k))))
    ∙ range_box_swap n 1 m (λ i b. box_sum l (λ k. F (i ∷ k) b))

unfoldable pub list_sum {ℓ} : {A : Type ℓ} → (A → ℤ) → List A → ℤ
list_sum F [] = pos 0
list_sum F (x ∷ xs) = F x +ℤ list_sum F xs

pub list_sum-append {ℓ} :
    {A : Type ℓ} (F : A → ℤ) (xs ys : List A)
    → list_sum F (xs ++ ys) ≡ list_sum F xs +ℤ list_sum F ys
unfolding list_sum
list_sum-append F [] ys = sym (zero_add _)
list_sum-append F (x ∷ xs) ys = ap (λ y. F x +ℤ y) (list_sum-append F xs ys) ∙ omega signed_laws

list_sum-map {ℓ κ} :
    {A : Type ℓ} {B : Type κ} (F : B → ℤ) (f : A → B) (xs : List A)
    → list_sum F (map f xs) ≡ list_sum (λ x. F (f x)) xs
unfolding list_sum
list_sum-map F f [] = refl
list_sum-map F f (x ∷ xs) = ap (λ y. F (f x) +ℤ y) (list_sum-map F f xs)

list_sum-concat_range {ℓ} :
    {A : Type ℓ} (F : A → ℤ) (g : ℕ → List A) (n i : ℕ)
    → list_sum F (concat_range n i g) ≡ range_sum n i (λ j. list_sum F (g j))
unfolding list_sum concat_range range_sum
list_sum-concat_range F g zero i = refl
list_sum-concat_range F g (suc n) i =
    list_sum-append F (g i) (concat_range n (suc i) g)
    ∙ ap (λ y. list_sum F (g i) +ℤ y) (list_sum-concat_range F g n (suc i))

list_sum-box : (l : LevelVector) (F : LevelVector → ℤ) → list_sum F (box l) ≡ box_sum l F
unfolding box box_sum list_sum
list_sum-box [] F = add_zero (F [])
list_sum-box (n ∷ l) F =
    list_sum-concat_range F _ n 1
    ∙ ap (range_sum n 1)
        (fun_ext (λ i. list_sum-map F (λ k. i ∷ k) (box l) ∙ list_sum-box l (λ k. F (i ∷ k))))

pub list_sum-keep_if {ℓ} :
    {A : Type ℓ} (F : A → ℤ) (p : A → Bool) (xs : List A)
    → list_sum F (keep_if p xs) ≡ list_sum (λ x. if p x then F x else pos 0) xs
unfolding list_sum keep_if
list_sum-keep_if F p [] = refl
list_sum-keep_if F p (x ∷ xs) = elim (Bool-cases (p x)) [
  | inl h ↦ rw h (ap (λ y. F x +ℤ y) (list_sum-keep_if F p xs))
  | inr h ↦ rw h (list_sum-keep_if F p xs ∙ sym (zero_add _))
]

-- A sum over the kept part of a box is a sum over the box.
pub list_sum-keep_if-box :
    (l : LevelVector) (F : LevelVector → ℤ) (p : LevelVector → Bool)
    → list_sum F (keep_if p (box l)) ≡ box_sum l (λ k. if p k then F k else pos 0)
list_sum-keep_if-box l F p = list_sum-keep_if F p (box l) ∙ list_sum-box l _
