-- ===== src/Grid/Owner.antt =====
-- Every index of a dimension has one owner among its parts, and the two searches of
-- src/fullgrid/DistributedFullGrid.hpp find it.
use dis_co_tec.Prelude.{
  ℕ, zero, suc, ◌+◌, ◌-◌, ◌≤◌, ◌<◌, ◌≡◌, refl, sym, ap, ◌∙◌, subst, ◌↔◌, inl, inr, true, List, [],
  ◌∷◌, arith, dec_lt, length, get_or, ltb, leb, if◌then◌else◌, ltb→lt, le→leb, Bool-cases,
}
use dis_co_tec.Prelude.Int.{ℤ, pos, negsuc}
use dis_co_tec.Cartesian.{get_cartesian_dimensions}
use dis_co_tec.Grid.{DistributedFullGrid, lower_bound, partition_coord_loop, get_partition_coord}
use dis_co_tec.Grid.Decomposition.{Ascends, Decomposes}

-- Where part k ends: at the start of the next one, or at the end of the dimension.
abbrev pub part_end : List ℕ → ℕ → ℕ → ℕ
part_end starts n k = get_or starts (suc k) n

-- Part k holds index i.
abbrev pub Owns : List ℕ → ℕ → ℕ → ℕ → Type 0
Owns starts n i k = ((k < length starts) × ((get_or starts k 0 ≤ i) × (i < part_end starts n k)))

-- The parts before the m-th start at or before the index, the others after it.
abbrev Splits : List ℕ → ℕ → ℕ → Type 0
Splits starts i m =
    ((m ≤ length starts)
      × (((k : ℕ) → k < m → get_or starts k 0 ≤ i)
          × ((k : ℕ) → m ≤ k → k < length starts → i < get_or starts k 0)))

Ascends-lower : (lo n k : ℕ) (xs : List ℕ) → Ascends lo n xs → k < length xs → lo ≤ get_or xs k 0
Ascends-lower lo n k [] h lt = absurd (omega arith)
Ascends-lower lo n zero (x ∷ xs) h lt = h.0
Ascends-lower lo n (suc k) (x ∷ xs) (le, (_, rest)) lt =
    omega (arith, Ascends-lower (suc x) n k xs rest (omega arith))

lower_bound-Splits :
    (lo n i : ℕ) (xs : List ℕ) → Ascends lo n xs → Splits xs i (lower_bound xs (i + 1))
unfolding lower_bound
lower_bound-Splits lo n i [] h =
    (omega arith, ((λ k lt. absurd (omega arith)), (λ k le lt. absurd (omega arith))))
lower_bound-Splits lo n i (x ∷ xs) (le, (below, rest)) = elim (Bool-cases (ltb x (i + 1))) [
  | inl t ↦
      rw t (
        later (ltb→lt x (i + 1) t) (lower_bound xs (i + 1))
          (lower_bound-Splits (suc x) n i xs rest))
  | inr f ↦ rw f (omega arith, ((λ k lt. absurd (omega arith)), all_after (ground arith)))
]
  where
    before' :
        x < i + 1
        → (m : ℕ) → ((k : ℕ) → k < m → get_or xs k 0 ≤ i)
        → (k : ℕ) → k < suc m
        → get_or (x ∷ xs) k 0 ≤ i
    before' lt m before zero h = omega arith
    before' lt m before (suc k) h = before k (omega arith)

    after' :
        (m : ℕ)
        → ((k : ℕ) → m ≤ k → k < length xs → i < get_or xs k 0)
        → (k : ℕ) → suc m ≤ k
        → k < suc (length xs)
        → i < get_or (x ∷ xs) k 0
    after' m after zero le h = absurd (omega arith)
    after' m after (suc k) le h = after k (omega arith) (omega arith)

    later : x < i + 1 → (m : ℕ) → Splits xs i m → Splits (x ∷ xs) i (suc m)
    later lt m (len, (before, after)) = (omega arith, (before' lt m before, after' m after))

    all_after : i < x → (k : ℕ) → 0 ≤ k → k < suc (length xs) → i < get_or (x ∷ xs) k 0
    all_after lt zero le h = lt
    all_after lt (suc k) le h = omega (arith, Ascends-lower (suc x) n k xs rest (omega arith))

partition_coord_loop-Splits :
    (starts : List ℕ) (i m n j : ℕ) (found : ℤ)
    → Splits starts i m
    → j + n ≡ length starts
    → partition_coord_loop i starts n j found ≡ (if ltb j m then pos (m - 1) else found)
unfolding partition_coord_loop
partition_coord_loop-Splits starts i m zero j found s e = ground (arith, s.0)
partition_coord_loop-Splits starts i m (suc n) j found (len, (before, after)) e =
    let test = leb (get_or starts j 0) i in
    let rest : partition_coord_loop i starts n (suc j) (if test then pos j else found)
        ≡ (if ltb (suc j) m then pos (m - 1) else (if test then pos j else found)) =
      partition_coord_loop-Splits starts i m n (suc j) (if test then pos j else found)
        (len, (before, after)) (omega arith) in
    rest ∙ here
  where
    here :
        (if ltb (suc j) m
          then pos (m - 1)
          else (if leb (get_or starts j 0) i then pos j else found))
        ≡ (if ltb j m then pos (m - 1) else found)
    here = elim (Bool-cases (ltb j m)) [
      | inl t ↦
          let b : leb (get_or starts j 0) i ≡ true = le→leb _ _ (before j (ltb→lt j m t)) in
          ground arith
      | inr f ↦ let b = after j (ground arith) (omega arith) in ground arith
    ]

pub get_or-length : (xs : List ℕ) (k n : ℕ) → length xs ≤ k → get_or xs k n ≡ n
get_or-length [] k n h = refl
get_or-length (x ∷ xs) zero n h = absurd (omega arith)
get_or-length (x ∷ xs) (suc k) n h = get_or-length xs k n (omega arith)

pub get_or_default : (xs : List ℕ) (k n : ℕ) → k < length xs → get_or xs k n ≡ get_or xs k 0
get_or_default [] k n h = absurd (omega arith)
get_or_default (x ∷ xs) zero n h = refl
get_or_default (x ∷ xs) (suc k) n h = get_or_default xs k n (omega arith)

-- The split decides the owner.
Splits-Owns : (starts : List ℕ) (n i m : ℕ) → i < n → Splits starts i (suc m) → Owns starts n i m
Splits-Owns starts n i m lt (len, (before, after)) = (
  omega arith,
  (
    before m (omega arith),
    elim (dec_lt (suc m) (length starts)) [
      | yes more ↦
          omega (arith, get_or_default starts (suc m) n more, after (suc m) (omega arith) more)
      | no last ↦ omega (arith, get_or-length starts (suc m) n (omega arith))
    ],
  ),
)

Owns-Splits : (starts : List ℕ) (n i m k : ℕ) → Splits starts i m → Owns starts n i k → suc k ≡ m
Owns-Splits starts n i m k (len, (before, after)) (inside, (from, to)) = elim (dec_lt k m) [
  | no past ↦ absurd (omega (arith, after k (omega arith) inside))
  | yes lt ↦ elim (dec_lt (suc k) m) [
    | no done ↦ omega arith
    | yes more ↦
        absurd (omega (arith, before (suc k) more, get_or_default starts (suc k) n (omega arith)))
  ]
]

-- A decomposition is split behind the first part or later.
decomposition-Splits :
    (starts : List ℕ) (n i : ℕ)
    → Decomposes n starts
    → (m : ℕ) × (lower_bound starts (i + 1) ≡ suc m) × Splits starts i (suc m)
unfolding lower_bound
decomposition-Splits [] n i h = elim h [ ]
decomposition-Splits (x ∷ xs) n i (first, (lt, rest)) =
    let split =
      lower_bound-Splits 0 n i (x ∷ xs)
        (omega arith, (omega arith, subst (λ y. Ascends (suc y) n xs) (sym first) rest)) in
    let t : ltb x (i + 1) ≡ true = ground arith in
    (lower_bound xs (i + 1), rw t refl, rw t at split)

-- For a decomposition of n points, every index below n has exactly one owner among the parts; both
-- std::lower_bound, less one, and the search of getPartitionCoords yield it.
pub owner_unique :
    (g : DistributedFullGrid) (d n i : ℕ)
    → Decomposes n (get_or g.decomposition d [])
    → get_or (get_cartesian_dimensions g.cartesian_utils) d 0 ≡ length (get_or g.decomposition d [])
    → i < n
    → (k : ℕ) × ((j : ℕ) → Owns (get_or g.decomposition d []) n i j ↔ (j ≡ k))
      × (lower_bound (get_or g.decomposition d []) (i + 1) - 1 ≡ k)
      × (get_partition_coord g d i ≡ pos k)
unfolding get_partition_coord
owner_unique g d n i h same lt =
    let starts = get_or g.decomposition d [] in
    let (m, bound, split) = decomposition-Splits starts n i h in
    let found : partition_coord_loop i starts (length starts) 0 (negsuc 0) ≡ pos (suc m - 1) =
      partition_coord_loop-Splits starts i (suc m) (length starts) 0 (negsuc 0) split (omega arith)
      ∙ ground arith in
    let e : suc m - 1 ≡ m = omega arith in
    (
      m,
      (λ j. (
        (λ owns. omega (arith, Owns-Splits starts n i (suc m) j split owns)),
        (λ e. subst (Owns starts n i) (sym e) (Splits-Owns starts n i m lt split)),
      )),
      omega arith,
      rw same (found ∙ ap pos e),
    )
