-- ===== src/ThirdLevel/Run.antt =====
-- A whole run of two systems, runtimeLoop of third_level_manager/thirdLevelManager.cpp.
use dis_co_tec.Prelude.{
  ℕ, zero, suc, ◌+◌, ◌≤◌, ◌<◌, ◌≡◌, refl, sym, ap, ◌∙◌, subst, false, List, [], ◌∷◌, arith, length,
  ltb, if◌then◌else◌,
}
use dis_co_tec.ThirdLevel.{
  Message, ready_to_combine, finished_computation, ready, System, Stats, ThirdLevelManager, Outcome,
  done, ◌>>=◌, combination, with_systems, erase_at, process_finished, process_message, serve,
  runtime_loop,
}
use dis_co_tec.ThirdLevel.Forward.{system}
use dis_co_tec.ThirdLevel.Combination.{
  blocks, total_bytes, there, back, exchange, combination-Exchanged,
}

-- What a system says: its blocks in each combination, and in the end that it is finished.
unfoldable pub talk : List (List (List ℕ)) → List Message
talk [] = finished_computation ∷ []
talk (bs ∷ rest) = ready_to_combine ∷ blocks bs (ready ∷ talk rest)

abbrev pub manager : ℕ → List System → Stats → ThirdLevelManager
manager chunksize systems stats = record { chunksize = chunksize; systems = systems; stats = stats }

swap : List (List ℕ × List ℕ) → List (List ℕ × List ℕ)
swap [] = []
swap (r ∷ rs) = (r.1, r.0) ∷ swap rs

swapped :
    (rs : List (List ℕ × List ℕ))
    → (there (swap rs) ≡ back rs)
      × (back (swap rs) ≡ there rs)
      × (total_bytes (swap rs) ≡ total_bytes rs)
unfolding swap total_bytes
swapped [] = (refl, refl, refl)
swapped (r ∷ rs) =
    let (a, b, c) = swapped rs in (ap (λ x. r.1 ∷ x) a, ap (λ x. r.0 ∷ x) b, omega (arith, c))

-- One combination, with either system as the initiator.
Combined :
    ℕ
    → System
    → System
    → Stats
    → List Message
    → List Message
    → ℕ
    → Outcome ThirdLevelManager
    → Type 0
Combined chunksize a b st ma mb bytes result =
    (a' : System) × (b' : System) × (st' : Stats) × (result
      ≡ done (manager chunksize (a' ∷ b' ∷ []) st'))
    × (a'.incoming ≡ ma)
    × (b'.incoming ≡ mb)
    × (st'.total_bytes_transferred_in_combination
        ≡ st.total_bytes_transferred_in_combination + bytes)
    × (st'.num_combinations ≡ st.num_combinations + 1)

module _ (chunksize : ℕ) (hc : 0 < chunksize) where
  first-Combined :
      (aid bid : ℕ) (aout bout : List Message) (st : Stats) (r : List (List ℕ × List ℕ))
      (ma mb : List Message)
      → let a = system aid (ready_to_combine ∷ blocks (there r) (ready ∷ ma)) aout in
        let b = system bid (ready_to_combine ∷ blocks (back r) (ready ∷ mb)) bout in
        Combined chunksize a b st ma mb
          (total_bytes r)
          (serve 0 (manager chunksize (a ∷ b ∷ []) st))
  unfolding serve process_message with_systems Combined
  first-Combined aid bid aout bout st r ma mb =
      let (x, run, (_, (_, (c, (d, (_, (_, bytes)))))), num) =
        combination-Exchanged chunksize aid bid ma mb r aout bout st hc in
      (x.initiator, x.other, x.exchange_stats, rw run refl, c, d, bytes, num)

  second-Combined :
      (aid bid : ℕ) (aout bout : List Message) (st : Stats) (r : List (List ℕ × List ℕ))
      (ma mb : List Message)
      → let a = system aid (ready_to_combine ∷ blocks (there r) (ready ∷ ma)) aout in
        let b = system bid (ready_to_combine ∷ blocks (back r) (ready ∷ mb)) bout in
        Combined chunksize a b st ma mb
          (total_bytes r)
          (serve 1 (manager chunksize (a ∷ b ∷ []) st))
  unfolding serve process_message with_systems Combined
  second-Combined aid bid aout bout st r ma mb =
      let (t, k, same_bytes) = swapped r in
      let (x, run, (_, (_, (c, (d, (_, (_, bytes)))))), num) =
        combination-Exchanged chunksize bid aid mb ma (swap r) bout aout st hc in
      let run' : combination chunksize (
            exchange (system bid (blocks (back r) (ready ∷ mb)) bout)
              (system aid (ready_to_combine ∷ blocks (there r) (ready ∷ ma)) aout) st)
          ≡ done x =
        rw (t, k) at run in
      (
        x.other,
        x.initiator,
        x.exchange_stats,
        rw run' refl,
        d,
        c,
        omega (arith, bytes, same_bytes),
        num,
      )

  -- The turn of either system, when both are ready to combine.
  serve-Combined :
      (s : ℕ) (a b : System) (st : Stats) (r : List (List ℕ × List ℕ)) (ma mb : List Message)
      → s < 2
      → a.incoming ≡ ready_to_combine ∷ blocks (there r) (ready ∷ ma)
      → b.incoming ≡ ready_to_combine ∷ blocks (back r) (ready ∷ mb)
      → Combined chunksize a b st ma mb
          (total_bytes r)
          (serve s (manager chunksize (a ∷ b ∷ []) st))
  unfolding Combined
  serve-Combined s a b st r ma mb lt ea eb =
      subst
        (λ m.
          Combined chunksize (system a.id m a.outgoing) b st ma mb (total_bytes r)
            (serve s (manager chunksize (system a.id m a.outgoing ∷ b ∷ []) st)))
        (sym ea)
        (subst
          (λ m.
            let a' = system a.id (ready_to_combine ∷ blocks (there r) (ready ∷ ma)) a.outgoing in
            let b' = system b.id m b.outgoing in
            Combined chunksize a' b' st ma mb (total_bytes r)
              (serve s (manager chunksize (a' ∷ b' ∷ []) st)))
          (sym eb) (literal s lt))
    where
      literal :
          (s : ℕ)
          → s < 2
          → let a' = system a.id (ready_to_combine ∷ blocks (there r) (ready ∷ ma)) a.outgoing in
            let b' = system b.id (ready_to_combine ∷ blocks (back r) (ready ∷ mb)) b.outgoing in
            Combined chunksize a' b' st ma mb
              (total_bytes r)
              (serve s (manager chunksize (a' ∷ b' ∷ []) st))
      literal zero lt = first-Combined a.id b.id a.outgoing b.outgoing st r ma mb
      literal (suc zero) lt = second-Combined a.id b.id a.outgoing b.outgoing st r ma mb
      literal (suc (suc s)) lt = absurd (omega arith)

  loop-empty :
      (fuel s : ℕ) (st : Stats)
      → runtime_loop fuel s (manager chunksize [] st) ≡ done (manager chunksize [] st)
  unfolding runtime_loop
  loop-empty zero s st = refl
  loop-empty (suc fuel) s st = refl

  loop-last :
      (fuel s : ℕ) (a : System) (st : Stats)
      → a.incoming ≡ finished_computation ∷ []
      → runtime_loop (suc fuel) (suc s) (manager chunksize (a ∷ []) st)
        ≡ done (manager chunksize [] st)
  unfolding runtime_loop serve process_message process_finished erase_at
  loop-last fuel s a st e =
      let past : ltb (suc s) 1 ≡ false = ground arith in rw (past, e) (loop-empty fuel 1 st)

  -- Both say that they are finished: the one whose turn it is leaves, the other one is left.
  serve-finished :
      (here : ℕ) (a b : System) (st : Stats)
      → here < 2
      → a.incoming ≡ finished_computation ∷ []
      → b.incoming ≡ finished_computation ∷ []
      → (c : System) × (serve here (manager chunksize (a ∷ b ∷ []) st)
          ≡ done (manager chunksize (c ∷ []) st))
        × (c.incoming ≡ finished_computation ∷ [])
  unfolding serve process_message process_finished erase_at
  serve-finished zero a b st lt ea eb = (b, rw ea refl, eb)
  serve-finished (suc zero) a b st lt ea eb = (a, rw eb refl, ea)
  serve-finished (suc (suc s)) a b st lt ea eb = absurd (omega arith)

  loop-finished :
      (fuel s : ℕ) (a b : System) (st : Stats)
      → a.incoming ≡ finished_computation ∷ []
      → b.incoming ≡ finished_computation ∷ []
      → runtime_loop (suc (suc fuel)) s (manager chunksize (a ∷ b ∷ []) st)
        ≡ done (manager chunksize [] st)
  unfolding runtime_loop
  loop-finished fuel s a b st ea eb =
      let here = (if ltb s 2 then s else 0) in
      let (c, served, ec) = serve-finished here a b st (ground arith) ea eb in
      ap (λ o. o >>= runtime_loop (suc fuel) (suc here)) served ∙ loop-last fuel here c st ec

abbrev pub all_there : List (List (List ℕ × List ℕ)) → List (List (List ℕ))
all_there [] = []
all_there (r ∷ rs) = there r ∷ all_there rs

abbrev pub all_back : List (List (List ℕ × List ℕ)) → List (List (List ℕ))
all_back [] = []
all_back (r ∷ rs) = back r ∷ all_back rs

unfoldable pub run_bytes : List (List (List ℕ × List ℕ)) → ℕ
run_bytes [] = 0
run_bytes (r ∷ rs) = total_bytes r + run_bytes rs

-- If the chunks are not empty and each of two systems is ready once for each of a number of
-- combinations, sends its blocks, and is finished in the end, then the loop of the manager ends,
-- whichever system has the first turn: with two turns more than there are combinations no system is
-- left, every combination is counted, and all bytes of both systems are in the statistics.
pub runtime_loop_ends :
    (chunksize : ℕ) (combinations : List (List (List ℕ × List ℕ))) (fuel s : ℕ) (a b : System)
    (st : Stats)
    → 0 < chunksize
    → length combinations + 2 ≤ fuel
    → a.incoming ≡ talk (all_there combinations)
    → b.incoming ≡ talk (all_back combinations)
    → (st' : Stats) × (runtime_loop fuel s (manager chunksize (a ∷ b ∷ []) st)
        ≡ done (manager chunksize [] st'))
      × (st'.num_combinations ≡ st.num_combinations + length combinations)
      × (st'.total_bytes_transferred_in_combination
          ≡ st.total_bytes_transferred_in_combination + run_bytes combinations)
unfolding talk run_bytes runtime_loop Combined
runtime_loop_ends chunksize combinations zero s a b st hc enough ea eb = absurd (omega arith)
runtime_loop_ends chunksize [] (suc zero) s a b st hc enough ea eb = absurd (omega arith)
runtime_loop_ends chunksize [] (suc (suc fuel)) s a b st hc enough ea eb =
    (st, loop-finished chunksize hc fuel s a b st ea eb, omega arith, omega arith)
runtime_loop_ends chunksize (r ∷ rest) (suc fuel) s a b st hc enough ea eb =
    let here = (if ltb s 2 then s else 0) in
    let (a', b', st', served, ea', eb', bytes, num) =
      serve-Combined chunksize hc here a b st r (talk (all_there rest)) (talk (all_back rest))
        (ground arith) ea eb in
    let (st2, ends, num2, bytes2) =
      runtime_loop_ends chunksize rest fuel (suc here) a' b' st' hc (omega arith) ea' eb' in
    (
      st2,
      ap (λ o. o >>= runtime_loop fuel (suc here)) served ∙ ends,
      omega (arith, num, num2),
      omega (arith, bytes, bytes2),
    )
