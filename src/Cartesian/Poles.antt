-- ===== src/Cartesian/Poles.antt =====
-- The ranks of a pole, getAllMyPoleNeighborRanks of src/mpi/MPICartesianUtils.hpp.
use dis_co_tec.Prelude.{
  ℕ, zero, suc, ◌+◌, ◌-◌, ◌<◌, ◌≡◌, refl, sym, ap, ◌∙◌, some, List, [], ◌∷◌, ◌++◌, arith, length,
  get_or, set, ◌==◌, if◌then◌else◌,
}
use dis_co_tec.Prelude.Loops.{
  for_range, for_range-concat, concat_range, concat_range-append, concat_range-cong,
}
use dis_co_tec.Level.{ok}
use dis_co_tec.Tensor
use dis_co_tec.Tensor.RoundTrip.{InRange}
use dis_co_tec.Cartesian.{
  Communicator, MpiCartesianUtils, make, get_rank_from_partition_coords, push_pole_rank,
  get_all_my_pole_neighbor_ranks,
}
use dis_co_tec.Cartesian.Ranks.{Topology, rank_at, make-Finished}

pub InRange-set :
    (v dims : List ℕ) (d i : ℕ) → InRange v dims → i < get_or dims d 0 → InRange (set v d i) dims
InRange-set [] [] d i h lt = absurd (omega arith)
InRange-set [] (e ∷ es) d i h lt = elim h [ ]
InRange-set (x ∷ v) [] d i h lt = elim h [ ]
InRange-set (x ∷ v) (e ∷ es) zero i h lt = (lt, h.1)
InRange-set (x ∷ v) (e ∷ es) (suc d) i h lt = (h.0, InRange-set v es d i h.1 lt)

pub InRange-get_or :
    (v dims : List ℕ) (d : ℕ) → InRange v dims → d < length dims → get_or v d 0 < get_or dims d 0
InRange-get_or [] [] d h lt = absurd (omega arith)
InRange-get_or [] (e ∷ es) d h lt = elim h [ ]
InRange-get_or (x ∷ v) [] d h lt = elim h [ ]
InRange-get_or (x ∷ v) (e ∷ es) zero h lt = h.0
InRange-get_or (x ∷ v) (e ∷ es) (suc d) h lt = InRange-get_or v es d h.1 (omega arith)

-- Both loops of the pole as one range with the own place left out.
around :
    (g : ℕ → List ℕ) (own n : ℕ)
    → own < n
    → concat_range own 0 g ++ concat_range (n - (own + 1)) (own + 1) g
      ≡ concat_range n 0 (λ i. if i == own then [] else g i)
around g own n h =
    let other = λ (i : ℕ). if i == own then [] else g i in
    let e : n ≡ own + suc (n - (own + 1)) = omega arith in
    let f : own + 1 ≡ suc own = omega arith in
    let z : 0 + own ≡ own = omega arith in
    let self : other own ≡ [] = ground arith in
    let below : concat_range own 0 g ≡ concat_range own 0 other =
      concat_range-cong g other own 0 (λ j le lt. ground arith) in
    let above : concat_range (n - (own + 1)) (suc own) g
        ≡ concat_range (n - (own + 1)) (suc own) other =
      concat_range-cong g other (n - (own + 1)) (suc own) (λ j le lt. ground arith) in
    let middle : concat_range (suc (n - (own + 1))) own other
        ≡ concat_range (n - (own + 1)) (suc own) other =
      unfold concat_range in ap (λ x. x ++ concat_range (n - (own + 1)) (suc own) other) self in
    ap (λ k. concat_range own 0 g ++ concat_range (n - (own + 1)) k g) f
    ∙ ap (λ x. x ++ concat_range (n - (own + 1)) (suc own) g) below
    ∙ ap (λ x. concat_range own 0 other ++ x) (above ∙ sym middle)
    ∙ ap (λ k. concat_range own 0 other ++ concat_range (suc (n - (own + 1))) k other) (sym z)
    ∙ sym (concat_range-append other own (suc (n - (own + 1))) 0)
    ∙ ap (λ k. concat_range k 0 other) (sym e)

-- If the constructor returns for a process at coordinates in range, the ranks of its pole in a
-- dimension are those at its coordinates with this one replaced by every other, in ascending order.
pub pole_neighbor_ranks :
    (comm : Communicator) {cart_rank : List ℕ → ℕ} (e : ℕ) (es own : List ℕ) (u : MpiCartesianUtils)
    (d : ℕ)
    → Topology comm.cart_coords cart_rank (e ∷ es)
    → comm.cart ≡ some (e ∷ es, own)
    → make comm ≡ ok u
    → InRange own (e ∷ es)
    → d < length (e ∷ es)
    → get_all_my_pole_neighbor_ranks u d
      ≡ concat_range
          (get_or (e ∷ es) d 0)
          0
          (λ i. if i == get_or own d 0 then [] else cart_rank (set own d i) ∷ [])
unfolding get_all_my_pole_neighbor_ranks Tensor.make
pole_neighbor_ranks comm {cart_rank} e es own u d topology is_cart returned in_range lt =
    let (finished, is_own) = make-Finished comm e es own u topology is_cart returned in
    let n = get_or (e ∷ es) d 0 in
    let o = get_or own d 0 in
    let code = λ (i : ℕ). get_rank_from_partition_coords u (set own d i) ∷ [] in
    let spec = λ (i : ℕ). cart_rank (set own d i) ∷ [] in
    let o-lt : o < n = InRange-get_or own (e ∷ es) d in_range lt in
    let push =
      for_range-concat (push_pole_rank u d) code
        (λ i acc. unfold push_pole_rank in rw is_own refl) in
    let each : (i : ℕ) → i < n → code i ≡ spec i = λ i h.
      ap (λ r. r ∷ [])
        (rank_at topology u (set own d i) finished (InRange-set own (e ∷ es) d i in_range h)) in
    let both : for_range (n - (o + 1)) (o + 1) (push_pole_rank u d)
          (for_range o 0 (push_pole_rank u d) [])
        ≡ concat_range o 0 spec ++ concat_range (n - (o + 1)) (o + 1) spec =
      push (n - (o + 1)) (o + 1) (for_range o 0 (push_pole_rank u d) [])
      ∙ ap (λ x. x ++ concat_range (n - (o + 1)) (o + 1) code) (push o 0 [])
      ∙ ap (λ x. x ++ concat_range (n - (o + 1)) (o + 1) code)
          (concat_range-cong code spec o 0 (λ j a b. each j (omega arith)))
      ∙ ap (λ x. concat_range o 0 spec ++ x)
          (concat_range-cong code spec (n - (o + 1)) (o + 1) (λ j a b. each j (omega arith))) in
    let run = λ (c dims : List ℕ).
      for_range (get_or dims d 0 - (get_or c d 0 + 1)) (get_or c d 0 + 1) (push_pole_rank u d)
        (for_range (get_or c d 0) 0 (push_pole_rank u d) []) in
    ap (λ c. run c u.partition_coords_tensor.extents) is_own
    ∙ ap (λ t. run own t.extents) finished.0
    ∙ (both ∙ around spec o n o-lt)
