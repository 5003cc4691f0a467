-- ===== src/Scheme/Classical/Counter.antt =====
-- The loop of computeCombiCoeffsClassical and its counter of eight bits.
use mathlib.Core.List.{append-nil, append_assoc}
use native.Mathlib.Nat.{mod-eq_of_lt, mod-lt}
use dis_co_tec.Prelude.{
  ℕ, zero, suc, ◌+◌, ◌%◌, ◌≤◌, ◌<◌, ◌≡◌, refl, sym, ap, ◌∙◌, true, false, none, some, List, [], ◌∷◌,
  ◌++◌, map, length, get_or, ltb, arith, length-append,
}
use dis_co_tec.Prelude.Int.{ℤ}
use dis_co_tec.Level.{LevelVector}
use dis_co_tec.Scheme.{Scheme}
use dis_co_tec.Scheme.Classical.{
  classical_coefficient, classical_loop, compute_combi_coeffs_classical,
}

get_or-append :
    (done : List LevelVector) (l : LevelVector) (rest : List LevelVector)
    → get_or (done ++ l ∷ rest) (length done) [] ≡ l
get_or-append [] l rest = refl
get_or-append (k ∷ done) l rest = get_or-append done l rest

module _ (binomial : ℕ → ℕ → ℤ) (n eff_dim : ℕ) (spaces : List LevelVector) where
  classical_loop-map :
      (fuel : ℕ) (done rest : List LevelVector) (cs : List ℤ)
      → done ++ rest ≡ spaces
      → length spaces < 256
      → length rest < fuel
      → classical_loop binomial n eff_dim spaces fuel (length done) cs
        ≡ some (cs ++ map (classical_coefficient binomial n eff_dim) rest)
  unfolding classical_loop
  classical_loop-map zero done rest cs e small enough = absurd (omega arith)
  classical_loop-map (suc fuel) done [] cs e small enough =
      let size : length (done ++ []) ≡ length spaces = ap length e in
      let ends : ltb (length done) (length spaces) ≡ false =
        ground (arith, length-append done []) in
      rw (ends, append-nil cs) refl
  classical_loop-map (suc fuel) done (l ∷ rest) cs e small enough =
      let size : length (done ++ l ∷ rest) ≡ length spaces = ap length e in
      let runs : ltb (length done) (length spaces) ≡ true =
        ground (arith, length-append done (l ∷ rest)) in
      let here : get_or spaces (length done) [] ≡ l =
        ap (λ (x : List LevelVector). get_or x (length done) []) (sym e)
        ∙ get_or-append done l rest in
      let next_i : (length done + 1) % 256 ≡ length (done ++ l ∷ []) =
        mod-eq_of_lt (omega (arith, length-append done (l ∷ rest)))
        ∙ omega (arith, length-append done (l ∷ [])) in
      rw (runs, here, next_i)
        (classical_loop-map fuel (done ++ l ∷ []) rest
            (cs ++ classical_coefficient binomial n eff_dim l ∷ [])
            (append_assoc done (l ∷ []) rest ∙ e) small (omega arith)
          ∙ ap some (
              append_assoc cs (classical_coefficient binomial n eff_dim l ∷ [])
                (map (classical_coefficient binomial n eff_dim) rest)))

  classical_loop-none :
      (fuel i : ℕ) (cs : List ℤ)
      → i < 256
      → 256 ≤ length spaces
      → classical_loop binomial n eff_dim spaces fuel i cs ≡ none
  unfolding classical_loop
  classical_loop-none zero i cs h large = refl
  classical_loop-none (suc fuel) i cs h large =
      let runs : ltb i (length spaces) ≡ true = ground arith in
      rw runs (classical_loop-none fuel ((i + 1) % 256) _ (mod-lt (i + 1) (omega arith)) large)

-- Up to 255 spaces the loop ends, within 256 rounds, and appends the signed binomial of each
-- space, in their order.
pub compute_combi_coeffs_classical-map :
    (binomial : ℕ → ℕ → ℤ) (s : Scheme)
    → length s.combi_spaces < 256
    → compute_combi_coeffs_classical binomial 256 s
      ≡ some (record s {
        coefficients =
            s.coefficients ++ map (classical_coefficient binomial s.n s.eff_dim) s.combi_spaces;
      })
unfolding compute_combi_coeffs_classical
compute_combi_coeffs_classical-map binomial s small =
    let run : classical_loop binomial s.n s.eff_dim s.combi_spaces 256 0 s.coefficients
        ≡ some
            (s.coefficients ++ map (classical_coefficient binomial s.n s.eff_dim) s.combi_spaces) =
      classical_loop-map binomial s.n s.eff_dim s.combi_spaces 256 [] s.combi_spaces s.coefficients
        refl small (omega arith) in
    rw (run, compute_combi_coeffs_classical) refl

-- From 256 spaces on the counter wraps before it reaches their number: the loop ends after no number
-- of rounds.
pub compute_combi_coeffs_classical-none :
    (binomial : ℕ → ℕ → ℤ) (fuel : ℕ) (s : Scheme)
    → 256 ≤ length s.combi_spaces
    → compute_combi_coeffs_classical binomial fuel s ≡ none
unfolding compute_combi_coeffs_classical
compute_combi_coeffs_classical-none binomial fuel s large =
    rw
      (
        classical_loop-none binomial s.n s.eff_dim s.combi_spaces fuel 0 s.coefficients
            (omega arith) large,
        compute_combi_coeffs_classical,
      )
      refl
