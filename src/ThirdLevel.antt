-- ===== src/ThirdLevel.antt =====
-- The manager between two systems, third_level_manager/thirdLevelManager.cpp with its System and
-- Stats, and NetworkUtils::forward of src/third_level/NetworkUtils.cpp. A system is what it still
-- has to say, in order, and what was sent to it; a connection delivers without loss, and a receive
-- that finds nothing fails and leaves the empty message. A failed assertion ends the program.
pub mod Forward
pub mod Combination
pub mod Run
use dis_co_tec.Prelude.{
  ℕ, zero, suc, ◌+◌, ◌-◌, ◌%◌, min, Bool, true, false, not, List, [], ◌∷◌, ◌++◌, length, get_elem?,
  set, take, drop, Option, none, some, ltb, ◌==◌, if◌then◌else◌,
}

-- The messages by their text; `number` is a number in digits and `raw` is a piece of data that
-- stands in the connection without a length in front.
pub data Message : Type 0 where
  ready_to_combine : Message
  ready_to_combine_file : Message
  ready_to_unify_subspace_sizes : Message
  ready_to_exchange_data : Message
  finished_computation : Message
  send_first : Message
  recv_first : Message
  write_ok : Message
  sending_data : Message
  ready : Message
  empty : Message
  number : ℕ → Message
  raw : List ℕ → Message

pub record System : Type 0 where
  pub id : ℕ
  pub incoming : List Message
  pub outgoing : List Message

pub record Stats : Type 0 where
  pub total_bytes_transferred_in_combination : ℕ
  pub total_bytes_transferred_in_size_exchange : ℕ
  pub num_combinations : ℕ

pub record ThirdLevelManager : Type 0 where
  pub chunksize : ℕ
  pub systems : List System
  pub stats : Stats

-- What a call comes to. `undefined` is the use of a number that was never received.
pub data Outcome {ℓ} (A : Type ℓ) : Type ℓ where
  done : A → Outcome A
  assertion_failed : Outcome A
  runtime_error : Outcome A
  undefined : Outcome A
  out_of_fuel : Outcome A

infixl 5 ◌>>=◌
abbrev pub ◌>>=◌ {ℓ κ} : {A : Type ℓ} {B : Type κ} → Outcome A → (A → Outcome B) → Outcome B
done a >>= f = f a
assertion_failed >>= f = assertion_failed
runtime_error >>= f = runtime_error
undefined >>= f = undefined
out_of_fuel >>= f = out_of_fuel

abbrev pub send_message : Message → System → System
send_message m s = record s { outgoing = s.outgoing ++ m ∷ [] }

abbrev pub received : System → Message
received s = elim s.incoming [ [] ↦ empty | m ∷ ms ↦ m ]

abbrev pub after_receive : System → System
after_receive s = record s { incoming = drop 1 s.incoming }

unfoldable pub same_message : Message → Message → Bool
same_message ready_to_combine ready_to_combine = true
same_message ready_to_combine_file ready_to_combine_file = true
same_message ready_to_unify_subspace_sizes ready_to_unify_subspace_sizes = true
same_message ready_to_exchange_data ready_to_exchange_data = true
same_message sending_data sending_data = true
same_message ready ready = true
same_message m n = false

-- receiveMessage with the assertion that this message came
unfoldable pub expect : Message → System → Outcome System
unfolding same_message
expect m s = if same_message (received s) m then done (after_receive s) else assertion_failed

unfoldable pub receive_pos_number : System → Outcome (ℕ × System)
receive_pos_number s = elim s.incoming [
  | [] ↦ undefined
  | m ∷ ms ↦ elim m [ number n ↦ done (n, after_receive s) | _ ↦ assertion_failed ]
]

-- recv: at most `want` bytes of the next piece; what is left of it stays in the connection.
unfoldable pub recv : ℕ → List Message → List ℕ × List Message
recv want [] = ([], [])
recv want (raw bs ∷ ms) =
    (take want bs, elim (drop want bs) [ [] ↦ ms | b ∷ rest ↦ raw (b ∷ rest) ∷ ms ])
recv want (m ∷ ms) = ([], m ∷ ms)

-- The loop of NetworkUtils::forward. A round moves at least one byte or ends the loop, so as many
-- rounds as bytes are enough.
unfoldable pub forward_loop : ℕ → ℕ → ℕ → ℕ → System × System → System × System
forward_loop zero chunksize size total_recvd ends = ends
forward_loop (suc fuel) chunksize size total_recvd ends =
    let remaining = size - total_recvd in
    let got = recv (if ltb remaining chunksize then remaining else chunksize) ends.0.incoming in
    let rest =
      forward_loop fuel chunksize size (total_recvd + length got.0)
        (record ends.0 { incoming = got.1 }, send_message (raw got.0) ends.1) in
    if not (ltb total_recvd size) then ends else if length got.0 == 0 then ends else rest

unfoldable pub forward : ℕ → ℕ → System × System → System × System
forward chunksize size ends = forward_loop size chunksize size 0 ends

-- The sender, the receiver and the number of bytes.
unfoldable pub forward_data : ℕ → System → System → Outcome (System × System × ℕ)
forward_data chunksize sender receiver = do
  found ← receive_pos_number sender
  let ends : System × System = (found.1, send_message (number found.0) receiver)
  let moved = if found.0 == 0 then ends else forward chunksize found.0 ends
  done (moved.0, moved.1, found.0)

-- The two systems of an exchange, which the source has as references, and the statistics.
pub record Exchange : Type 0 where
  pub initiator : System
  pub other : System
  pub exchange_stats : Stats

abbrev pub increase_num_combinations : Stats → Stats
increase_num_combinations s = record s { num_combinations = s.num_combinations + 1 }

abbrev pub add_to_bytes_transferred_in_combination : ℕ → Stats → Stats
add_to_bytes_transferred_in_combination n s = record s {
  total_bytes_transferred_in_combination = s.total_bytes_transferred_in_combination + n;
}

abbrev pub add_to_bytes_transferred_in_size_exchange : ℕ → Stats → Stats
add_to_bytes_transferred_in_size_exchange n s = record s {
  total_bytes_transferred_in_size_exchange = s.total_bytes_transferred_in_size_exchange + n;
}

-- One round of the loop of processCombination, after "sending_data" has come.
unfoldable pub combination_round : ℕ → Exchange → Outcome Exchange
combination_round chunksize x = do
  there ← forward_data chunksize x.initiator x.other
  other ← expect sending_data there.1
  back ← forward_data chunksize other there.0
  done (record {
    initiator = back.1;
    other = back.0;
    exchange_stats =
        add_to_bytes_transferred_in_combination back.2
          (add_to_bytes_transferred_in_combination there.2 x.exchange_stats);
  })

-- Each round takes a message of the initiator.
unfoldable pub combination_loop : ℕ → ℕ → Exchange → Outcome Exchange
combination_loop zero chunksize x = out_of_fuel
combination_loop (suc fuel) chunksize x = elim x.initiator.incoming [
  | [] ↦ done x
  | m ∷ ms ↦
      let y = record x { initiator = after_receive x.initiator } in
      let rest = combination_round chunksize y >>= combination_loop fuel chunksize in
      if same_message m ready
      then done y
      else if same_message m sending_data
      then rest
      else assertion_failed
]

unfoldable pub combination : ℕ → Exchange → Outcome Exchange
combination chunksize x = do
  other ← expect ready_to_combine x.other
  let y : Exchange = record {
    initiator = send_message send_first x.initiator;
    other = send_message recv_first other;
    exchange_stats = increase_num_combinations x.exchange_stats;
  }
  z ← combination_loop (suc (length y.initiator.incoming)) chunksize y
  last ← expect ready z.other
  done (record z { other = last })

unfoldable pub combination_file : Exchange → Outcome Exchange
combination_file x = do
  other ← expect ready_to_combine_file x.other
  initiator ← expect ready (send_message write_ok x.initiator)
  last ← expect ready (send_message write_ok other)
  done (record {
    initiator = initiator;
    other = last;
    exchange_stats = increase_num_combinations x.exchange_stats;
  })

-- If "sending_data" came, the data goes on; any other message is dropped.
unfoldable pub forward_if_sent : ℕ → System → System → Outcome (System × System × ℕ)
forward_if_sent chunksize sender receiver =
    if same_message (received sender) sending_data
    then forward_data chunksize (after_receive sender) receiver
    else done (after_receive sender, receiver, 0)

unfoldable pub unify_subspace_sizes : ℕ → Exchange → Outcome Exchange
unify_subspace_sizes chunksize x = do
  first ← expect ready_to_unify_subspace_sizes x.other
  there ←
      forward_if_sent chunksize (send_message send_first x.initiator)
        (send_message recv_first first)
  back ← forward_if_sent chunksize there.1 there.0
  initiator ← expect ready back.1
  other ← expect ready back.0
  done (record {
    initiator = initiator;
    other = other;
    exchange_stats =
        add_to_bytes_transferred_in_size_exchange back.2
          (add_to_bytes_transferred_in_size_exchange there.2 x.exchange_stats);
  })

-- The second half of processAnyData, by the message of the other system.
unfoldable pub any_data_back : ℕ → System → System → Outcome (System × System)
any_data_back chunksize initiator other =
    if same_message (received other) sending_data
    then (forward_data chunksize (after_receive other) initiator >>= λ back.
        expect ready back.1 >>= λ initiator.
        expect ready back.0 >>= λ other. done (initiator, other))
    else if same_message (received other) ready
    then (expect ready initiator >>= λ initiator. done (initiator, after_receive other))
    else runtime_error

unfoldable pub any_data : ℕ → Exchange → Outcome Exchange
any_data chunksize x = do
  first ← expect ready_to_exchange_data x.other
  there ←
      forward_if_sent chunksize (send_message send_first x.initiator)
        (send_message recv_first first)
  ends ← any_data_back chunksize there.0 there.1
  done (record x { initiator = ends.0; other = ends.1 })

-- The references to the initiator and the other of two systems, and what they refer to afterwards.
unfoldable pub with_systems :
    (Exchange → Outcome Exchange) → ℕ → ThirdLevelManager → Outcome ThirdLevelManager
with_systems process initiator_index t = elim t.systems [
  | [] ↦ assertion_failed
  | a ∷ rest ↦ elim rest [
    | [] ↦ assertion_failed
    | b ∷ bs ↦ elim bs [
      | [] ↦
          if initiator_index == 0
          then (process (record { initiator = a; other = b; exchange_stats = t.stats }) >>= λ x.
              done (record t { systems = x.initiator ∷ x.other ∷ []; stats = x.exchange_stats }))
          else (process (record { initiator = b; other = a; exchange_stats = t.stats }) >>= λ x.
              done (record t { systems = x.other ∷ x.initiator ∷ []; stats = x.exchange_stats }))
      | c ∷ cs ↦ assertion_failed
    ]
  ]
]

unfoldable pub erase_at : ℕ → List System → List System
erase_at i [] = []
erase_at zero (s ∷ systems) = systems
erase_at (suc i) (s ∷ systems) = s ∷ erase_at i systems

unfoldable pub process_finished : ℕ → ThirdLevelManager → ThirdLevelManager
process_finished sys_index t = record t { systems = erase_at sys_index t.systems }

-- A message of any other text is ignored.
unfoldable pub process_message : Message → ℕ → ThirdLevelManager → Outcome ThirdLevelManager
process_message ready_to_combine s t = with_systems (combination t.chunksize) s t
process_message ready_to_combine_file s t = with_systems combination_file s t
process_message ready_to_unify_subspace_sizes s t =
    with_systems (unify_subspace_sizes t.chunksize) s t
process_message ready_to_exchange_data s t = with_systems (any_data t.chunksize) s t
process_message finished_computation s t = done (process_finished s t)
process_message m s t = done t

-- One turn of the inner loop. A system that will say nothing more is one whose connection is
-- closed: it is readable, and the receive fails.
unfoldable pub serve : ℕ → ThirdLevelManager → Outcome ThirdLevelManager
unfolding process_message
serve s t = elim (get_elem? t.systems s) [
  | none ↦ done t
  | some sys ↦ elim sys.incoming [
    | [] ↦ runtime_error
    | m ∷ ms ↦ process_message m s (record t { systems = set t.systems s (after_receive sys) })
  ]
]

-- The loops of runtimeLoop: the index goes on by one, and over the end back to 0, until there is no
-- system left.
unfoldable pub runtime_loop : ℕ → ℕ → ThirdLevelManager → Outcome ThirdLevelManager
unfolding serve
runtime_loop zero s t = elim t.systems [ [] ↦ done t | _ ↦ out_of_fuel ]
runtime_loop (suc fuel) s t = elim t.systems [
  | [] ↦ done t
  | a ∷ rest ↦
      let here = if ltb s (length (a ∷ rest)) then s else 0 in
      serve here t >>= runtime_loop fuel (suc here)
]
