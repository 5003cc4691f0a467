-- ===== src/Cartesian/Ranks.antt =====
-- Ranks and partition coordinates of src/mpi/MPICartesianUtils.hpp determine each other.
use dis_co_tec.Prelude.{
  ℕ, zero, suc, ◌+◌, ◌<◌, ◌≡◌, refl, sym, ap, ◌∙◌, subst, ◌≢◌, inl, inr, some, List, [], ◌∷◌, arith,
  ℕ_discrete, length, get_or, set, replicate, length-set, length-replicate, product, ◌==◌,
  if◌then◌else◌, Bool-cases,
}
use dis_co_tec.Prelude.Loops.{for_range}
use dis_co_tec.Level.{ok, runtime_error}
use dis_co_tec.Tensor
use dis_co_tec.Tensor.{TensorIndexer, sequential_index, get_vector_index, size}
use dis_co_tec.Tensor.RoundTrip.{
  InRange, get_vector_index-sequential_index, sequential_index-get_vector_index,
  sequential_index-lt,
}
use dis_co_tec.Cartesian.{
  Communicator, MpiCartesianUtils, fill_partition_coords, make, find, get_partition_coords_of_rank,
  get_rank_from_partition_coords,
}

-- What MPI promises of MPI_Cart_coords and MPI_Cart_rank: on the ranks of a cartesian communicator
-- and the coordinates in its dimensions they are inverse to each other.
pub record Topology (cart_coords : ℕ → List ℕ) (cart_rank : List ℕ → ℕ) (dims : List ℕ)
    : Type 0 where
  pub coords_in_range : (r : ℕ) → r < product dims → InRange (cart_coords r) dims
  pub rank_in_range : (v : List ℕ) → InRange v dims → cart_rank v < product dims
  pub rank_coords : (r : ℕ) → r < product dims → cart_rank (cart_coords r) ≡ r
  pub coords_rank : (v : List ℕ) → InRange v dims → cart_coords (cart_rank v) ≡ v

get_or-set : (xs : List ℕ) (i v : ℕ) → i < length xs → get_or (set xs i v) i 0 ≡ v
get_or-set [] i v h = absurd (omega arith)
get_or-set (x ∷ xs) zero v h = refl
get_or-set (x ∷ xs) (suc i) v h = get_or-set xs i v (omega arith)

get_or-set_other : (xs : List ℕ) (i j v : ℕ) → i ≢ j → get_or (set xs i v) j 0 ≡ get_or xs j 0
get_or-set_other [] i j v h = refl
get_or-set_other (x ∷ xs) zero zero v h = absurd (h refl)
get_or-set_other (x ∷ xs) zero (suc j) v h = refl
get_or-set_other (x ∷ xs) (suc i) zero v h = refl
get_or-set_other (x ∷ xs) (suc i) (suc j) v h = get_or-set_other xs i j v (λ e. h (ap suc e))

-- The first place of an entry that occurs.
find-get_or :
    (xs : List ℕ) (k r : ℕ)
    → k < length xs
    → get_or xs k 0 ≡ r
    → (find r xs < length xs) × (get_or xs (find r xs) 0 ≡ r)
unfolding find
find-get_or [] k r h e = absurd (omega arith)
find-get_or (x ∷ xs) zero r h e = ground arith
find-get_or (x ∷ xs) (suc k) r h e =
    let rec = find-get_or xs k r (omega arith) e in
    elim (Bool-cases (x == r)) [
      | inl t ↦ rw t (omega arith, ground arith)
      | inr f ↦ rw f (omega arith, rec.1)
    ]

module _ {cart_coords : ℕ → List ℕ} {cart_rank : List ℕ → ℕ} {e : ℕ} {es : List ℕ}
    (topology : Topology cart_coords cart_rank (e ∷ es)) where
  abbrev pub tensor : TensorIndexer
  tensor = Tensor.make (e ∷ es)

  abbrev pub place : ℕ → ℕ
  place r = sequential_index tensor (cart_coords r)

  size-product : size tensor ≡ product (e ∷ es)
  unfolding size Tensor.make
  size-product = refl

  place-lt : (r : ℕ) → r < product (e ∷ es) → place r < product (e ∷ es)
  place-lt r h =
      omega (arith, size-product, sequential_index-lt e es _ (topology.coords_in_range r h))

  place_injective :
      (r s : ℕ) → r < product (e ∷ es) → s < product (e ∷ es) → place r ≡ place s → r ≡ s
  place_injective r s hr hs eq =
      let vr = get_vector_index-sequential_index (e ∷ es) _ (topology.coords_in_range r hr) in
      let vs = get_vector_index-sequential_index (e ∷ es) _ (topology.coords_in_range s hs) in
      sym (topology.rank_coords r hr)
      ∙ ap cart_rank (sym vr ∙ ap (get_vector_index tensor) eq ∙ vs)
      ∙ topology.rank_coords s hs

  abbrev pub Filled : ℕ → List ℕ → Type 0
  Filled i cells =
      (length cells ≡ product (e ∷ es)) × ((r : ℕ) → r < i → get_or cells (place r) 0 ≡ r)

  fill-step :
      (i : ℕ) (cells : List ℕ)
      → i < product (e ∷ es)
      → Filled i cells
      → Filled (suc i) (set cells (place i) i)
  fill-step i cells h (len, filled) = (
    length-set cells (place i) i ∙ len,
    λ r lt. elim (ℕ_discrete r i) [
      | yes eq ↦
          subst (λ s. get_or (set cells (place i) i) (place s) 0 ≡ s) (sym eq)
            (get_or-set cells (place i) i (omega (arith, place-lt i h)))
      | no ne ↦
          get_or-set_other cells (place i) (place r) i
            (λ eq. ne (sym (place_injective i r h (omega arith) eq)))
          ∙ filled r (omega arith)
    ],
  )

  fill-Filled :
      (n i : ℕ) (cells : List ℕ)
      → i + n ≡ product (e ∷ es)
      → Filled i cells
      → Filled (product (e ∷ es)) (fill_partition_coords cart_coords tensor n i cells)
  unfolding fill_partition_coords for_range
  fill-Filled zero i cells eq h = subst (λ k. Filled k cells) (omega arith) h
  fill-Filled (suc n) i cells eq h =
      fill-Filled n (suc i) (set cells (place i) i) (omega arith)
        (fill-step i cells (omega arith) h)

  -- Every cell holds the rank of its own coordinates.
  cell-rank :
      (cells : List ℕ) (k : ℕ)
      → Filled (product (e ∷ es)) cells
      → k < product (e ∷ es)
      → get_or cells k 0 ≡ cart_rank (get_vector_index tensor k)
  cell-rank cells k (len, filled) h =
      let (in_range, back) =
        sequential_index-get_vector_index (e ∷ es) k (omega (arith, size-product)) in
      let v = get_vector_index tensor k in
      let at_k : place (cart_rank v) ≡ k =
        ap (sequential_index tensor) (topology.coords_rank v in_range) ∙ back in
      subst (λ j. get_or cells j 0 ≡ cart_rank v) at_k
        (filled (cart_rank v) (topology.rank_in_range v in_range))

  abbrev pub Finished : MpiCartesianUtils → Type 0
  Finished u = (u.partition_coords_tensor ≡ tensor) × Filled (product (e ∷ es)) u.partition_coords

  pub rank_at :
      (u : MpiCartesianUtils) (v : List ℕ)
      → Finished u
      → InRange v (e ∷ es)
      → get_rank_from_partition_coords u v ≡ cart_rank v
  unfolding get_rank_from_partition_coords
  rank_at u v (is_tensor, filled) h = rw is_tensor (
      cell-rank u.partition_coords (sequential_index tensor v) filled
        (omega (arith, size-product, sequential_index-lt e es v h))
      ∙ ap cart_rank (get_vector_index-sequential_index (e ∷ es) v h))

  -- The coordinates that are found for a rank are those that MPI gives it.
  pub coords_of :
      (u : MpiCartesianUtils) (r : ℕ)
      → Finished u
      → r < product (e ∷ es)
      → get_partition_coords_of_rank u r ≡ cart_coords r
  unfolding get_partition_coords_of_rank
  coords_of u r (is_tensor, filled) h =
      let (found, at_found) =
        find-get_or u.partition_coords (place r) r (omega (arith, place-lt r h, filled.0))
          (filled.1 r h) in
      let k = find r u.partition_coords in
      let in_range =
        (sequential_index-get_vector_index (e ∷ es) k (omega (arith, size-product, filled.0))).0 in
      let rank_eq : cart_rank (get_vector_index tensor k) ≡ r =
        sym (cell-rank u.partition_coords k filled (omega (arith, filled.0))) ∙ at_found in
      rw is_tensor (sym (topology.coords_rank _ in_range) ∙ ap cart_coords rank_eq)

  -- The coordinates in range and the ranks, there and back.
  pub coords-rank_at :
      (u : MpiCartesianUtils) (v : List ℕ)
      → Finished u
      → InRange v (e ∷ es)
      → get_partition_coords_of_rank u (get_rank_from_partition_coords u v) ≡ v
  coords-rank_at u v finished h =
      ap (get_partition_coords_of_rank u) (rank_at u v finished h)
      ∙ coords_of u (cart_rank v) finished (topology.rank_in_range v h)
      ∙ topology.coords_rank v h

-- What the constructor returns.
abbrev made_of : Communicator → ℕ → List ℕ → List ℕ → MpiCartesianUtils
made_of comm e es own =
    let t = Tensor.make (e ∷ es) in
    let n = product (e ∷ es) in
    record {
      rank = comm.comm_rank;
      local_coords = own;
      partition_coords = fill_partition_coords comm.cart_coords t n 0 (replicate n 0);
      partition_coords_tensor = t;
    }

-- It is filled.
pub make-Finished :
    (comm : Communicator) {cart_rank : List ℕ → ℕ} (e : ℕ) (es own : List ℕ) (u : MpiCartesianUtils)
    (topology : Topology comm.cart_coords cart_rank (e ∷ es))
    → comm.cart ≡ some (e ∷ es, own)
    → make comm ≡ ok u
    → Finished topology u × (u.local_coords ≡ own)
unfolding make
make-Finished comm {cart_rank} e es own u topology is_cart returned =
    let t = Tensor.make (e ∷ es) in
    let n = product (e ∷ es) in
    let cells = fill_partition_coords comm.cart_coords t n 0 (replicate n 0) in
    let filled : Filled topology n cells =
      fill-Filled topology n 0 (replicate n 0) (omega arith)
        (length-replicate n 0, λ r lt. absurd (omega arith)) in
    let made = made_of comm e es own in
    let opened : (if comm.comm_size == n then ok made else runtime_error) ≡ ok u =
      rw is_cart at returned in
    let same : made ≡ u = elim (Bool-cases (comm.comm_size == n)) [
      | inl t ↦ ok_injective (rw t at opened)
      | inr f ↦ absurd (cannot_be_ok (rw f at opened))
    ] in
    subst (λ w. Finished topology w × (w.local_coords ≡ own)) same ((refl, filled), refl)
  where
    ok_injective : {a b : MpiCartesianUtils} → ok a ≡ ok b → a ≡ b
    ok_injective e = cc

    cannot_be_ok : {a : MpiCartesianUtils} → runtime_error ≡ ok a → ⊥
    cannot_be_ok e = cc

-- If the number of processes is the product of the dimensions, the constructor returns; for every
-- rank, its coordinates are those that MPI gives it, and the rank at these coordinates is this one.
pub make-rank_coords :
    (comm : Communicator) {cart_rank : List ℕ → ℕ} (e : ℕ) (es own : List ℕ) (r : ℕ)
    → Topology comm.cart_coords cart_rank (e ∷ es)
    → comm.cart ≡ some (e ∷ es, own)
    → comm.comm_size ≡ product (e ∷ es)
    → r < product (e ∷ es)
    → (u : MpiCartesianUtils) × (make comm ≡ ok u)
      × (get_partition_coords_of_rank u r ≡ comm.cart_coords r)
      × (get_rank_from_partition_coords u (comm.cart_coords r) ≡ r)
unfolding make
make-rank_coords comm {cart_rank} e es own r topology is_cart same_size h =
    let u = made_of comm e es own in
    let returned : make comm ≡ ok u = rw (is_cart, same_size) (ground arith) in
    let finished = (make-Finished comm e es own u topology is_cart returned).0 in
    (
      u,
      returned,
      coords_of topology u r finished h,
      rank_at topology u (comm.cart_coords r) finished (topology.coords_in_range r h)
          ∙ topology.rank_coords r h,
    )
