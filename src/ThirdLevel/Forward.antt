-- ===== src/ThirdLevel/Forward.antt =====
-- NetworkUtils::forward of src/third_level/NetworkUtils.cpp and forwardData of
-- third_level_manager/thirdLevelManager.cpp on data that stands in the connection as a whole.
use mathlib.Core.List.{append-nil, append_assoc}
use dis_co_tec.Prelude.{
  ℕ, zero, suc, ◌+◌, ◌-◌, ◌≤◌, ◌<◌, ◌≡◌, refl, sym, ap, ◌∙◌, true, false, List, [], ◌∷◌, ◌++◌, map,
  arith, length, take, drop, length-take, length-drop, ltb, ◌==◌, if◌then◌else◌,
}
use dis_co_tec.ThirdLevel.{
  Message, number, raw, System, done, receive_pos_number, recv, forward_loop, forward, forward_data,
}

unfoldable pub flatten : List (List ℕ) → List ℕ
flatten [] = []
flatten (p ∷ ps) = p ++ flatten ps

-- What is left of the data in front of the other messages.
abbrev pub left : List ℕ → List Message → List Message
left [] ms = ms
left (b ∷ bs) ms = raw (b ∷ bs) ∷ ms

take-drop : (n : ℕ) (bs : List ℕ) → take n bs ++ drop n bs ≡ bs
take-drop zero bs = refl
take-drop (suc n) [] = refl
take-drop (suc n) (b ∷ bs) = ap (λ x. b ∷ x) (take-drop n bs)

recv-left :
    (want : ℕ) (b : ℕ) (bs : List ℕ) (ms : List Message)
    → recv want (raw (b ∷ bs) ∷ ms) ≡ (take want (b ∷ bs), left (drop want (b ∷ bs)) ms)
unfolding recv
recv-left want b bs ms = ap (λ x. (take want (b ∷ bs), x)) (same (drop want (b ∷ bs)))
  where
    same : (rest : List ℕ) → (elim rest [ [] ↦ ms | c ∷ cs ↦ raw (c ∷ cs) ∷ ms ]) ≡ left rest ms
    same [] = refl
    same (c ∷ cs) = refl

abbrev pub system : ℕ → List Message → List Message → System
system id incoming outgoing = record { id = id; incoming = incoming; outgoing = outgoing }

module _ (chunksize size sid : ℕ) (sout ms : List Message) (rid : ℕ) (rin : List Message) where
  -- All the data goes on, in pieces.
  Forwarded : System × System → List Message → List ℕ → Type 0
  Forwarded ends rout bs =
      (ps : List (List ℕ)) × (ends ≡ (system sid ms sout, system rid rin (rout ++ map raw ps)))
      × (flatten ps ≡ bs)

  forward_loop-Forwarded :
      (fuel total : ℕ) (bs : List ℕ) (rout : List Message)
      → 0 < chunksize
      → total + length bs ≡ size
      → length bs ≤ fuel
      → Forwarded
          (forward_loop fuel chunksize size total
            (system sid (left bs ms) sout, system rid rin rout))
          rout
          bs
  unfolding forward_loop flatten Forwarded
  forward_loop-Forwarded zero total [] rout hc e le =
      ([], ap (λ o. (system sid ms sout, system rid rin o)) (sym (append-nil rout)), refl)
  forward_loop-Forwarded zero total (b ∷ bs) rout hc e le = absurd (omega arith)
  forward_loop-Forwarded (suc fuel) total [] rout hc e le =
      let t : ltb total size ≡ false = ground arith in
      rw t ([], ap (λ o. (system sid ms sout, system rid rin o)) (sym (append-nil rout)), refl)
  forward_loop-Forwarded (suc fuel) total (b ∷ bs) rout hc e le =
      let t : ltb total size ≡ true = ground arith in
      let remaining = size - total in
      let want = (if ltb remaining chunksize then remaining else chunksize) in
      let some_want : 0 < want = ground arith in
      let piece = take want (b ∷ bs) in
      let counted = length-take want (b ∷ bs) in
      let nonempty : (length piece == 0) ≡ false = ground arith in
      let (ps, eq, flat) =
        forward_loop-Forwarded fuel (total + length piece) (drop want (b ∷ bs))
          (rout ++ raw piece ∷ []) hc (omega (arith, counted, length-drop want (b ∷ bs)))
          (ground (arith, length-drop want (b ∷ bs))) in
      rw (t, recv-left want b bs ms, nonempty)
        (
          piece ∷ ps,
          eq
              ∙ ap (λ o. (system sid ms sout, system rid rin o))
                  (append_assoc rout (raw piece ∷ []) (map raw ps)),
          ap (λ x. piece ++ x) flat ∙ take-drop want (b ∷ bs),
        )

pub forward_data-pieces :
    (chunksize sid : ℕ) (sout ms : List Message) (rid : ℕ) (rin rout : List Message) (bs : List ℕ)
    → 0 < chunksize
    → (ps : List (List ℕ)) × (forward_data chunksize
          (system sid (number (length bs) ∷ left bs ms) sout)
          (system rid rin rout)
        ≡ done (
          system sid ms sout,
          system rid rin ((rout ++ number (length bs) ∷ []) ++ map raw ps),
          length bs,
        ))
      × (flatten ps ≡ bs)
unfolding forward_data receive_pos_number forward flatten Forwarded
forward_data-pieces chunksize sid sout ms rid rin rout [] hc =
    ([], ap (λ o. done (system sid ms sout, system rid rin o, 0)) (sym (append-nil _)), refl)
forward_data-pieces chunksize sid sout ms rid rin rout (b ∷ bs) hc =
    let n = length (b ∷ bs) in
    let (ps, eq, flat) =
      forward_loop-Forwarded chunksize n sid sout ms rid rin n 0 (b ∷ bs) (rout ++ number n ∷ []) hc
        (omega arith) (omega arith) in
    let z : (n == 0) ≡ false = ground arith in
    (ps, rw z (ap (λ ends. done (ends.0, ends.1, n)) eq), flat)
