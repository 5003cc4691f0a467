-- ===== src/LoadModel.antt =====
-- AverageOfLastNLoadModel of src/loadmodel: the last n durations of every task, and their average.
-- The map from level vectors to durations is an association list.
pub mod Window
use dis_co_tec.Prelude.{
  ℕ, zero, suc, ◌+◌, ◌-◌, ◌*◌, ◌/◌, ◌%◌, ◌^◌, Bool, true, false, Option, none, some, List, [], ◌∷◌,
  ◌++◌, map, length, ltb, leb, ◌==◌, if◌then◌else◌,
}
use dis_co_tec.Prelude.Int.{ℤ, pos, pos_part, neg_ℤ}
use dis_co_tec.Level.{LevelVector, equals_with_size_check}

pub record LoadModel : Type 0 where
  pub last_n : ℕ
  pub durations : List (LevelVector × List ℕ)

-- The constructor
unfoldable pub make : ℕ → List LevelVector → LoadModel
make n tasks = record { last_n = n; durations = map (λ l. (l, [])) tasks }

-- The entry of a key; operator[] inserts an empty deque for a new one.
unfoldable pub durations_of : LevelVector → List (LevelVector × List ℕ) → List ℕ
durations_of l [] = []
durations_of l ((k, ds) ∷ m) = if equals_with_size_check k l then ds else durations_of l m

unfoldable pub set_durations :
    LevelVector → List ℕ → List (LevelVector × List ℕ) → List (LevelVector × List ℕ)
set_durations l ds [] = (l, ds) ∷ []
set_durations l ds ((k, es) ∷ m) =
    if equals_with_size_check k l then (k, ds) ∷ m else (k, es) ∷ set_durations l ds m

abbrev pub pop_front : List ℕ → List ℕ
pop_front [] = []
pop_front (d ∷ ds) = ds

-- One duration more for the deque. With last_n = 0 the source pops the front of an empty deque,
-- which is undefined; here nothing is popped then.
unfoldable pub push_duration : ℕ → List ℕ → ℕ → List ℕ
push_duration last_n ds d = (if leb last_n (length ds) then pop_front ds else ds) ++ d ∷ []

unfoldable pub add_duration_information : ℕ → LevelVector → LoadModel → LoadModel
unfolding durations_of set_durations push_duration
add_duration_information d l m = record m {
  durations = set_durations l (push_duration m.last_n (durations_of l m.durations) d) m.durations;
}

-- std::accumulate from the int 0: every partial sum is an int again, of 32 bits.
unfoldable pub accumulate_int : ℕ → List ℕ → ℕ
accumulate_int acc [] = acc
accumulate_int acc (d ∷ ds) = accumulate_int ((acc + d) % 2 ^ 32) ds

-- The int with these bits.
abbrev pub int_of_bits : ℕ → ℤ
int_of_bits b = if ltb b (2 ^ 31) then pos b else neg_ℤ (pos (2 ^ 32 - b))

-- The quotient of an int and a size, cut off towards 0.
abbrev pub truncated_quotient : ℤ → ℕ → ℤ
truncated_quotient (pos a) n = pos (a / n)
truncated_quotient a n = neg_ℤ (pos (pos_part (neg_ℤ a) / n))

-- `none` is the conversion of 0.0 / 0.0 to a long, which is undefined.
unfoldable pub eval_specific_uot : LevelVector → LoadModel → Option ℤ
unfolding durations_of accumulate_int
eval_specific_uot l m =
    let ds = durations_of l m.durations in
    if length ds == 0
    then none
    else some (truncated_quotient (int_of_bits (accumulate_int 0 ds)) (length ds))

-- `no_history` is the load model for tasks without durations. The level vector is in the map, else
-- map::at throws.
unfoldable pub eval : (LevelVector → ℤ) → LevelVector → LoadModel → Option ℤ
unfolding eval_specific_uot durations_of
eval no_history l m =
    if length (durations_of l m.durations) == 0 then some (no_history l) else eval_specific_uot l m
