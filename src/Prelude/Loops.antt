-- ===== src/Prelude/Loops.antt =====
-- Counted loops, and loops that append what each round yields.
use mathlib.Core.List.{append-nil, append_assoc, map-append}
use dis_co_tec.Prelude.{
  ℕ, zero, suc, ◌+◌, ◌*◌, ◌≡◌, refl, sym, ap, ◌∙◌, List, [], ◌∷◌, ◌++◌, map, arith, length, sum,
  length-append, sum-append, ltb, leb, ◌<◌, ◌≤◌, All, All-append, if◌then◌else◌,
}

-- for (k = i; k < i + n; ++k) s = body k s
unfoldable pub for_range {ℓ} : {S : Type ℓ} → ℕ → ℕ → (ℕ → S → S) → S → S
for_range zero i body s = s
for_range (suc n) i body s = for_range n (suc i) body (body i s)

-- g i ++ g (i + 1) ++ …, n parts
unfoldable pub concat_range {ℓ} : {A : Type ℓ} → ℕ → ℕ → (ℕ → List A) → List A
concat_range zero i g = []
concat_range (suc n) i g = g i ++ concat_range n (suc i) g

-- A loop whose every round appends is the concatenation of the parts.
pub for_range-concat {ℓ} :
    {A : Type ℓ} (body : ℕ → List A → List A) (g : ℕ → List A)
    → ((i : ℕ) (acc : List A) → body i acc ≡ acc ++ g i)
    → (n i : ℕ) (acc : List A) → for_range n i body acc ≡ acc ++ concat_range n i g
unfolding for_range concat_range
for_range-concat body g h zero i acc = sym (append-nil acc)
for_range-concat body g h (suc n) i acc =
    for_range-concat body g h n (suc i) (body i acc)
    ∙ ap (λ x. x ++ concat_range n (suc i) g) (h i acc)
    ∙ append_assoc acc (g i) (concat_range n (suc i) g)

-- f i + f (i + 1) + …, n terms
unfoldable pub sum_range : ℕ → ℕ → (ℕ → ℕ) → ℕ
sum_range zero i f = 0
sum_range (suc n) i f = f i + sum_range n (suc i) f

pub length-concat_range {ℓ} :
    {A : Type ℓ} (g : ℕ → List A) (n i : ℕ)
    → length (concat_range n i g) ≡ sum_range n i (λ j. length (g j))
unfolding concat_range sum_range
length-concat_range g zero i = refl
length-concat_range g (suc n) i =
    omega (arith, length-append (g i) (concat_range n (suc i) g), length-concat_range g n (suc i))

pub sum_range-cong :
    (f g : ℕ → ℕ) → ((i : ℕ) → f i ≡ g i) → (n i : ℕ) → sum_range n i f ≡ sum_range n i g
unfolding sum_range
sum_range-cong f g h zero i = refl
sum_range-cong f g h (suc n) i = omega (arith, h i, sum_range-cong f g h n (suc i))

pub sum_range-const : (c n i : ℕ) → sum_range n i (λ j. c) ≡ n * c
unfolding sum_range
sum_range-const c zero i = omega arith
sum_range-const c (suc n) i = omega (arith, sum_range-const c n (suc i))

pub sum_range-mul : (f : ℕ → ℕ) (c n i : ℕ) → sum_range n i (λ j. f j * c) ≡ sum_range n i f * c
unfolding sum_range
sum_range-mul f c zero i = omega arith
sum_range-mul f c (suc n) i = omega (arith, sum_range-mul f c n (suc i))

pub sum-concat_range :
    (g : ℕ → List ℕ) (n i : ℕ) → sum (concat_range n i g) ≡ sum_range n i (λ j. sum (g j))
unfolding concat_range sum_range
sum-concat_range g zero i = refl
sum-concat_range g (suc n) i =
    omega (arith, sum-append (g i) (concat_range n (suc i) g), sum-concat_range g n (suc i))

pub map-concat_range {ℓ κ} :
    {A : Type ℓ} {B : Type κ} (f : A → B) (g : ℕ → List A) (n i : ℕ)
    → map f (concat_range n i g) ≡ concat_range n i (λ j. map f (g j))
unfolding concat_range
map-concat_range f g zero i = refl
map-concat_range f g (suc n) i =
    map-append f (g i) (concat_range n (suc i) g)
    ∙ ap (λ x. map f (g i) ++ x) (map-concat_range f g n (suc i))

pub sum-map-mul {ℓ} :
    {A : Type ℓ} (c : ℕ) (f : A → ℕ) (xs : List A)
    → sum (map (λ x. c * f x) xs) ≡ c * sum (map f xs)
sum-map-mul c f [] = omega arith
sum-map-mul c f (x ∷ xs) = omega (arith, sum-map-mul c f xs)

-- A range that is cut by a test is a shorter range.
concat_range-nil {ℓ} :
    {A : Type ℓ} (G : ℕ → List A) (b n i : ℕ)
    → b < i
    → concat_range n i (λ j. if leb j b then G j else []) ≡ []
unfolding concat_range
concat_range-nil G b zero i h = refl
concat_range-nil G b (suc n) i h = rw (concat_range-nil G b n (suc i) (omega arith)) (ground arith)

concat_range-nil' {ℓ} :
    {A : Type ℓ} (G : ℕ → List A) (m n i : ℕ)
    → m < i
    → concat_range n i (λ j. if ltb m j then [] else G j) ≡ []
unfolding concat_range
concat_range-nil' G m zero i h = refl
concat_range-nil' G m (suc n) i h =
    rw (concat_range-nil' G m n (suc i) (omega arith)) (ground arith)

-- Two bounds on a loop: one ends it and the other skips rounds, or the other way round.
pub concat_range-cut {ℓ} :
    {A : Type ℓ} (G : ℕ → List A) (b m p q i : ℕ)
    → i + p ≡ suc b
    → i + q ≡ suc m
    → concat_range p i (λ j. if ltb m j then [] else G j)
      ≡ concat_range q i (λ j. if leb j b then G j else [])
unfolding concat_range
concat_range-cut G b m zero zero i e f = refl
concat_range-cut G b m zero (suc q) i e f = sym (concat_range-nil G b (suc q) i (omega arith))
concat_range-cut G b m (suc p) zero i e f = concat_range-nil' G m (suc p) i (omega arith)
concat_range-cut G b m (suc p) (suc q) i e f =
    ground (arith, concat_range-cut G b m p q (suc i) (omega arith) (omega arith))

pub All-concat_range {ℓ κ} :
    {A : Type ℓ} (P : A → Type κ) (g : ℕ → List A) (n i : ℕ)
    → ((j : ℕ) → i ≤ j → j < i + n → All P (g j))
    → All P (concat_range n i g)
unfolding concat_range
All-concat_range P g zero i h = tt
All-concat_range P g (suc n) i h =
    All-append P (g i) (concat_range n (suc i) g) (h i (omega arith) (omega arith))
      (All-concat_range P g n (suc i) (λ j le lt. h j (omega arith) (omega arith)))

pub concat_range-append {ℓ} :
    {A : Type ℓ} (g : ℕ → List A) (n m i : ℕ)
    → concat_range (n + m) i g ≡ concat_range n i g ++ concat_range m (i + n) g
unfolding concat_range
concat_range-append g zero m i =
    let e : 0 + m ≡ m = omega arith in let f : i + 0 ≡ i = omega arith in rw (e, f) refl
concat_range-append g (suc n) m i =
    let e : suc n + m ≡ suc (n + m) = omega arith in
    let f : i + suc n ≡ suc i + n = omega arith in
    rw (e, f)
      (ap (λ x. g i ++ x) (concat_range-append g n m (suc i))
        ∙ sym (append_assoc (g i) (concat_range n (suc i) g) (concat_range m (suc i + n) g)))

pub concat_range-cong {ℓ} :
    {A : Type ℓ} (g h : ℕ → List A) (n i : ℕ)
    → ((j : ℕ) → i ≤ j → j < i + n → g j ≡ h j)
    → concat_range n i g ≡ concat_range n i h
unfolding concat_range
concat_range-cong g h zero i eq = refl
concat_range-cong g h (suc n) i eq =
    ap (λ x. x ++ concat_range n (suc i) g) (eq i (omega arith) (omega arith))
    ∙ ap (λ x. h i ++ x)
        (concat_range-cong g h n (suc i) (λ j le lt. eq j (omega arith) (omega arith)))
