-- ===== src/Tests/Systems.antt =====
-- Two systems with two combinations between them.
use dis_co_tec.Prelude.{ℕ, ◌+◌, ◌≡◌, refl, List, [], ◌∷◌, ◌++◌, arith}
use dis_co_tec.ThirdLevel.{
  ready_to_combine, ready, Stats, done, Exchange, combination, runtime_loop,
}
use dis_co_tec.ThirdLevel.Forward.{flatten, system}
use dis_co_tec.ThirdLevel.Combination.{
  payload, blocks, total_bytes, there, back, exchange, Exchanged, combination-Exchanged,
}
use dis_co_tec.ThirdLevel.Run.{talk, manager, all_there, all_back, run_bytes, runtime_loop_ends}

abbrev no_stats : Stats
no_stats = record {
  total_bytes_transferred_in_combination = 0;
  total_bytes_transferred_in_size_exchange = 0;
  num_combinations = 0;
}

-- One block of three bytes for one of a single byte, and an empty one for one of two bytes.
abbrev rounds : List (List ℕ × List ℕ)
rounds = (7 ∷ 8 ∷ 9 ∷ [], 1 ∷ []) ∷ ([], 4 ∷ 5 ∷ []) ∷ []

combination-Exchanged_example :
    (x : Exchange) × (combination 2 (
        exchange
          (system 1 (blocks (there rounds) (ready ∷ [])) [])
          (system 2 (ready_to_combine ∷ blocks (back rounds) (ready ∷ [])) [])
          no_stats)
      ≡ done x)
    × Exchanged 1 2 [] []
        (payload [] ++ flatten (back rounds))
        (payload [] ++ flatten (there rounds))
        (0 + total_bytes rounds)
        x
    × (x.exchange_stats.num_combinations ≡ 0 + 1)
combination-Exchanged_example =
    combination-Exchanged 2 1 2 [] [] rounds [] [] no_stats (omega arith)

abbrev combinations : List (List (List ℕ × List ℕ))
combinations = rounds ∷ rounds ∷ []

runtime_loop_ends_example :
    (st' : Stats) × (runtime_loop 4 0 (
        manager 2
          (system 1 (talk (all_there combinations)) []
            ∷ system 2 (talk (all_back combinations)) []
            ∷ [])
          no_stats)
      ≡ done (manager 2 [] st'))
    × (st'.num_combinations ≡ 0 + 2)
    × (st'.total_bytes_transferred_in_combination ≡ 0 + run_bytes combinations)
runtime_loop_ends_example =
    runtime_loop_ends 2 combinations 4 0 (system 1 (talk (all_there combinations)) [])
      (system 2 (talk (all_back combinations)) []) no_stats (omega arith) (omega arith) refl refl
