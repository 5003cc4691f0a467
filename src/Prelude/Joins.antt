-- ===== src/Prelude/Joins.antt =====
-- What a function yields for the entries of a list, in one list.
use mathlib.Core.List.{foldl, append_assoc, append-nil, map-append}
use dis_co_tec.Prelude.{◌≡◌, refl, sym, ap, ◌∙◌, List, [], ◌∷◌, ◌++◌, map}

unfoldable pub join_map {ℓ κ} : {A : Type ℓ} {B : Type κ} → (A → List B) → List A → List B
join_map f [] = []
join_map f (x ∷ xs) = f x ++ join_map f xs

module _ {ℓ κ} {A : Type ℓ} {B : Type κ} where
  pub join_map-append :
      (f : A → List B) (xs ys : List A) → join_map f (xs ++ ys) ≡ join_map f xs ++ join_map f ys
  unfolding join_map
  join_map-append f [] ys = refl
  join_map-append f (x ∷ xs) ys =
      ap (λ z. f x ++ z) (join_map-append f xs ys)
      ∙ sym (append_assoc (f x) (join_map f xs) (join_map f ys))

  pub foldl-join_map :
      (f : A → List B) (step : List B → A → List B)
      → ((acc : List B) (x : A) → step acc x ≡ acc ++ f x)
      → (acc : List B) (xs : List A) → foldl step acc xs ≡ acc ++ join_map f xs
  unfolding join_map
  foldl-join_map f step h acc [] = sym (append-nil acc)
  foldl-join_map f step h acc (x ∷ xs) =
      foldl-join_map f step h (step acc x) xs
      ∙ ap (λ z. z ++ join_map f xs) (h acc x)
      ∙ append_assoc acc (f x) (join_map f xs)

  pub map-join_map {μ} :
      {C : Type μ} (g : B → C) (f : A → List B) (xs : List A)
      → map g (join_map f xs) ≡ join_map (λ x. map g (f x)) xs
  unfolding join_map
  map-join_map g f [] = refl
  map-join_map g f (x ∷ xs) =
      map-append g (f x) (join_map f xs) ∙ ap (λ z. map g (f x) ++ z) (map-join_map g f xs)

  pub join_map-map {μ} :
      {C : Type μ} (g : C → A) (f : A → List B) (xs : List C)
      → join_map f (map g xs) ≡ join_map (λ x. f (g x)) xs
  unfolding join_map
  join_map-map g f [] = refl
  join_map-map g f (x ∷ xs) = ap (λ z. f (g x) ++ z) (join_map-map g f xs)

  pub join_map-join_map {μ} :
      {C : Type μ} (g : C → List A) (f : A → List B) (xs : List C)
      → join_map f (join_map g xs) ≡ join_map (λ x. join_map f (g x)) xs
  unfolding join_map
  join_map-join_map g f [] = refl
  join_map-join_map g f (x ∷ xs) =
      join_map-append f (g x) (join_map g xs)
      ∙ ap (λ z. join_map f (g x) ++ z) (join_map-join_map g f xs)

  pub join_map_single : (f : A → B) (xs : List A) → join_map (λ x. f x ∷ []) xs ≡ map f xs
  unfolding join_map
  join_map_single f [] = refl
  join_map_single f (x ∷ xs) = ap (λ z. f x ∷ z) (join_map_single f xs)
