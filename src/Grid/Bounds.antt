-- ===== src/Grid/Bounds.antt =====
-- The bounds of a partition, getLowerBounds(r) and getUpperBounds(r) of
-- src/fullgrid/DistributedFullGrid.hpp. The loop of the latter reads coordinates through a reference
-- to a buffer that its own calls overwrite.
use dis_co_tec.Prelude.{
  ℕ, zero, suc, ◌+◌, ◌-◌, ◌≤◌, ◌<◌, ◌≡◌, refl, sym, ap, ◌∙◌, subst, inl, inr, some, List, [], ◌∷◌,
  arith, length, get_or, set, product, ltb, ltb→lt, Bool-cases,
}
use dis_co_tec.Level.{ok}
use dis_co_tec.Tensor
use dis_co_tec.Tensor.RoundTrip.{InRange}
use dis_co_tec.Cartesian
use dis_co_tec.Cartesian.{
  Communicator, MpiCartesianUtils, get_partition_coords_of_rank, get_rank_from_partition_coords,
  get_cartesian_dimensions,
}
use dis_co_tec.Cartesian.Ranks.{Topology, coords-rank_at, coords_of, make-Finished}
use dis_co_tec.Cartesian.Poles.{InRange-set, InRange-get_or}
use dis_co_tec.Grid.{
  lower_bounds_loop, get_lower_bounds_of_rank, upper_bound_round, upper_bounds_loop,
  get_upper_bounds_of_rank,
}
use dis_co_tec.Grid.Owner.{part_end, get_or_default, get_or-length}

-- Where the partition at these coordinates ends, in n dimensions from i on.
unfoldable pub part_ends : List (List ℕ) → List ℕ → List ℕ → ℕ → ℕ → List ℕ
part_ends decomposition sizes coords zero i = []
part_ends decomposition sizes coords (suc n) i =
    part_end (get_or decomposition i []) (get_or sizes i 0) (get_or coords i 0)
    ∷ part_ends decomposition sizes coords n (suc i)

lower_bounds_loop-get_or :
    (decomposition : List (List ℕ)) (coords : List ℕ) (n i k : ℕ)
    → k < n
    → get_or (lower_bounds_loop decomposition coords n i) k 0
      ≡ get_or (get_or decomposition (i + k) []) (get_or coords (i + k) 0) 0
unfolding lower_bounds_loop
lower_bounds_loop-get_or decomposition coords zero i k h = absurd (omega arith)
lower_bounds_loop-get_or decomposition coords (suc n) i zero h =
    let e : i ≡ i + 0 = omega arith in
    ap (λ j. get_or (get_or decomposition j []) (get_or coords j 0) 0) e
lower_bounds_loop-get_or decomposition coords (suc n) i (suc k) h =
    let e : suc i + k ≡ i + suc k = omega arith in
    lower_bounds_loop-get_or decomposition coords n (suc i) k (omega arith)
    ∙ ap (λ j. get_or (get_or decomposition j []) (get_or coords j 0) 0) e

get_or-set : (xs : List ℕ) (i v : ℕ) → i < length xs → get_or (set xs i v) i 0 ≡ v
get_or-set [] i v h = absurd (omega arith)
get_or-set (x ∷ xs) zero v h = refl
get_or-set (x ∷ xs) (suc i) v h = get_or-set xs i v (omega arith)

get_or-set_before : (xs : List ℕ) (i v k : ℕ) → i < k → get_or (set xs i v) k 0 ≡ get_or xs k 0
get_or-set_before [] i v k h = refl
get_or-set_before (x ∷ xs) i v zero h = absurd (omega arith)
get_or-set_before (x ∷ xs) zero v (suc k) h = refl
get_or-set_before (x ∷ xs) (suc i) v (suc k) h = get_or-set_before xs i v k (omega arith)

InRange-length : (v dims : List ℕ) → InRange v dims → length v ≡ length dims
InRange-length [] [] h = refl
InRange-length [] (e ∷ es) h = elim h [ ]
InRange-length (x ∷ v) [] h = elim h [ ]
InRange-length (x ∷ v) (e ∷ es) h = ap suc (InRange-length v es h.1)

-- The two searches of a process grid undo each other on the coordinates in range.
abbrev pub Inverse : MpiCartesianUtils → Type 0
Inverse u =
    (v : List ℕ)
    → InRange v (get_cartesian_dimensions u)
    → get_partition_coords_of_rank u (get_rank_from_partition_coords u v) ≡ v

-- One start for each process of a dimension.
abbrev pub OneEach : List ℕ → List (List ℕ) → Type 0
OneEach dims decomposition =
    (d : ℕ) → d < length dims → length (get_or decomposition d []) ≡ get_or dims d 0

module _ (u : MpiCartesianUtils) (decomposition : List (List ℕ)) (sizes coords : List ℕ)
    (inverse : Inverse u) (one_each : OneEach (get_cartesian_dimensions u) decomposition) where
  abbrev dims : List ℕ
  dims = get_cartesian_dimensions u

  -- What the buffer keeps: coordinates of some process, with those to come unchanged.
  abbrev Intact : ℕ → List ℕ → Type 0
  Intact i buffer = InRange buffer dims × ((k : ℕ) → i ≤ k → get_or buffer k 0 ≡ get_or coords k 0)

  round-part_end :
      (i : ℕ) (buffer : List ℕ)
      → i < length dims
      → Intact i buffer
      → Intact (suc i) (upper_bound_round u decomposition sizes (length dims) i buffer).0
        × ((upper_bound_round u decomposition sizes (length dims) i buffer).1
            ≡ part_end (get_or decomposition i []) (get_or sizes i 0) (get_or coords i 0))
  unfolding upper_bound_round get_lower_bounds_of_rank
  round-part_end i buffer lt (in_range, same) =
      let b = get_or buffer i 0 in
      let starts = get_or decomposition i [] in
      let nc = set buffer i (suc b) in
      let b-lt : b < get_or dims i 0 = InRange-get_or buffer dims i in_range lt in
      let here : b ≡ get_or coords i 0 = same i (omega arith) in
      elim (Bool-cases (ltb b (get_or dims i 0 - 1))) [
        | inl t ↦
            let nc_in : InRange nc dims =
              InRange-set buffer dims i (suc b) in_range (omega (arith, ltb→lt _ _ t)) in
            let back : get_partition_coords_of_rank u (get_rank_from_partition_coords u nc) ≡ nc =
              inverse nc nc_in in
            let at_i : get_or nc i 0 ≡ suc b =
              get_or-set buffer i (suc b) (omega (arith, InRange-length buffer dims in_range)) in
            let from_zero : 0 + i ≡ i = omega arith in
            let lower : get_or (lower_bounds_loop decomposition nc (length dims) 0) i 0
                ≡ get_or starts (suc b) 0 =
              lower_bounds_loop-get_or decomposition nc (length dims) 0 i lt
              ∙ ap (λ j. get_or (get_or decomposition j []) (get_or nc j 0) 0) from_zero
              ∙ ap (λ c. get_or starts c 0) at_i in
            rw (t, back)
              (
                (
                  nc_in,
                  λ k le. get_or-set_before buffer i (suc b) k (omega arith) ∙ same k (omega arith),
                ),
                lower
                    ∙ sym (
                        get_or_default starts (suc b) (get_or sizes i 0)
                          (omega (arith, one_each i lt, ltb→lt _ _ t)))
                    ∙ ap (λ c. part_end starts (get_or sizes i 0) c) here,
              )
        | inr f ↦ rw f (
          (in_range, λ k le. same k (omega arith)),
          sym (get_or-length starts (suc b) (get_or sizes i 0) (ground (arith, one_each i lt)))
              ∙ ap (λ c. part_end starts (get_or sizes i 0) c) here,
        )
      ]

  loop-part_ends :
      (n i : ℕ) (buffer : List ℕ)
      → i + n ≡ length dims
      → Intact i buffer
      → upper_bounds_loop u decomposition sizes (length dims) n i buffer
        ≡ part_ends decomposition sizes coords n i
  unfolding upper_bounds_loop part_ends
  loop-part_ends zero i buffer e h = refl
  loop-part_ends (suc n) i buffer e h =
      let (intact, bound) = round-part_end i buffer (omega arith) h in
      let next = (upper_bound_round u decomposition sizes (length dims) i buffer).0 in
      let rest : upper_bounds_loop u decomposition sizes (length dims) n (suc i) next
          ≡ part_ends decomposition sizes coords n (suc i) =
        loop-part_ends n (suc i) next (omega arith) intact in
      rw (bound, rest) refl

-- If the constructor of the process grid returns and each dimension has one start for each process:
-- the upper bounds of a rank are where the parts at its coordinates end, that is at the start of the
-- next part or at the end of the dimension, although the loop overwrites the coordinates it reads.
pub upper_bounds-part_ends :
    (comm : Communicator) {cart_rank : List ℕ → ℕ} (e : ℕ) (es own : List ℕ) (u : MpiCartesianUtils)
    (decomposition : List (List ℕ)) (sizes : List ℕ) (r : ℕ)
    → Topology comm.cart_coords cart_rank (e ∷ es)
    → comm.cart ≡ some (e ∷ es, own)
    → Cartesian.make comm ≡ ok u
    → OneEach (e ∷ es) decomposition
    → r < product (e ∷ es)
    → get_upper_bounds_of_rank u decomposition sizes (length (e ∷ es)) r
      ≡ part_ends decomposition sizes (comm.cart_coords r) (length (e ∷ es)) 0
unfolding get_upper_bounds_of_rank Tensor.make
upper_bounds-part_ends comm {cart_rank} e es own u decomposition sizes r topology is_cart returned
      one_each h =
    let finished = (make-Finished comm e es own u topology is_cart returned).0 in
    let same_dims : get_cartesian_dimensions u ≡ e ∷ es = ap (λ t. t.extents) finished.0 in
    let inverse : Inverse u =
      λ v in_range. coords-rank_at topology u v finished (subst (InRange v) same_dims in_range) in
    let c = comm.cart_coords r in
    let in_range : InRange c (get_cartesian_dimensions u) =
      subst (InRange c) (sym same_dims) (topology.coords_in_range r h) in
    let run : upper_bounds_loop u decomposition sizes (length (get_cartesian_dimensions u))
          (length (get_cartesian_dimensions u)) 0 c
        ≡ part_ends decomposition sizes c (length (get_cartesian_dimensions u)) 0 =
      loop-part_ends u decomposition sizes c inverse
        (subst (λ ds. OneEach ds decomposition) (sym same_dims) one_each)
        (length (get_cartesian_dimensions u)) 0 c (omega arith) (in_range, λ k le. refl) in
    ap (upper_bounds_loop u decomposition sizes (length (e ∷ es)) (length (e ∷ es)) 0)
      (coords_of topology u r finished h)
    ∙ subst
        (λ k. upper_bounds_loop u decomposition sizes k k 0 c ≡ part_ends decomposition sizes c k 0)
        (ap length same_dims) run
