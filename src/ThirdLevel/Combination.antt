-- ===== src/ThirdLevel/Combination.antt =====
-- A whole combination between two systems, processCombination of
-- third_level_manager/thirdLevelManager.cpp.
use mathlib.Core.List.{append_assoc, append-nil}
use dis_co_tec.Prelude.{
  ℕ, zero, suc, ◌+◌, ◌≤◌, ◌<◌, ◌≡◌, refl, sym, ap, ◌∙◌, true, List, [], ◌∷◌, ◌++◌, map, arith,
  length, drop,
}
use dis_co_tec.ThirdLevel.{
  Message, ready_to_combine, send_first, recv_first, sending_data, ready, number, raw, System,
  Stats, done, ◌>>=◌, received, after_receive, expect, same_message, Exchange, combination_round,
  combination_loop, combination, increase_num_combinations, add_to_bytes_transferred_in_combination,
}
use dis_co_tec.ThirdLevel.Forward.{flatten, left, system, forward_data-pieces}

-- The data in what was sent.
unfoldable pub payload : List Message → List ℕ
payload [] = []
payload (raw bs ∷ ms) = bs ++ payload ms
payload (m ∷ ms) = payload ms

-- The blocks that a system sends, each announced and with its length, and then the other messages.
unfoldable pub blocks : List (List ℕ) → List Message → List Message
blocks [] ms = ms
blocks (b ∷ bs) ms = sending_data ∷ number (length b) ∷ left b (blocks bs ms)

payload-append : (ms ns : List Message) → payload (ms ++ ns) ≡ payload ms ++ payload ns
unfolding payload
payload-append [] ns = refl
payload-append (raw bs ∷ ms) ns =
    ap (λ x. bs ++ x) (payload-append ms ns) ∙ sym (append_assoc bs (payload ms) (payload ns))
payload-append (Message.ready_to_combine ∷ ms) ns = payload-append ms ns
payload-append (Message.ready_to_combine_file ∷ ms) ns = payload-append ms ns
payload-append (Message.ready_to_unify_subspace_sizes ∷ ms) ns = payload-append ms ns
payload-append (Message.ready_to_exchange_data ∷ ms) ns = payload-append ms ns
payload-append (Message.finished_computation ∷ ms) ns = payload-append ms ns
payload-append (Message.send_first ∷ ms) ns = payload-append ms ns
payload-append (Message.recv_first ∷ ms) ns = payload-append ms ns
payload-append (Message.write_ok ∷ ms) ns = payload-append ms ns
payload-append (Message.sending_data ∷ ms) ns = payload-append ms ns
payload-append (Message.ready ∷ ms) ns = payload-append ms ns
payload-append (Message.empty ∷ ms) ns = payload-append ms ns
payload-append (number n ∷ ms) ns = payload-append ms ns

payload-map : (ps : List (List ℕ)) → payload (map raw ps) ≡ flatten ps
unfolding payload flatten
payload-map [] = refl
payload-map (p ∷ ps) = ap (λ x. p ++ x) (payload-map ps)

-- forwardData adds just these bytes.
payload-forwarded :
    (out : List Message) (n : ℕ) (ps : List (List ℕ)) (bs : List ℕ)
    → flatten ps ≡ bs
    → payload ((out ++ number n ∷ []) ++ map raw ps) ≡ payload out ++ bs
unfolding payload
payload-forwarded out n ps bs flat =
    payload-append (out ++ number n ∷ []) (map raw ps)
    ∙ ap (λ x. x ++ payload (map raw ps)) (payload-append out (number n ∷ []) ∙ append-nil _)
    ∙ ap (λ x. payload out ++ x) (payload-map ps ∙ flat)

-- What an exchange has done: both systems have said the blocks, all the bytes went over, and were
-- counted.
abbrev pub Exchanged : ℕ → ℕ → List Message → List Message → List ℕ → List ℕ → ℕ → Exchange → Type 0
Exchanged iid oid mi mo to_initiator to_other bytes x =
    (x.initiator.id ≡ iid)
    × ((x.other.id ≡ oid)
        × ((x.initiator.incoming ≡ mi)
            × ((x.other.incoming ≡ mo)
                × ((payload x.initiator.outgoing ≡ to_initiator)
                    × ((payload x.other.outgoing ≡ to_other)
                        × (x.exchange_stats.total_bytes_transferred_in_combination ≡ bytes))))))

-- The bytes of both sides.
unfoldable pub total_bytes : List (List ℕ × List ℕ) → ℕ
total_bytes [] = 0
total_bytes (r ∷ rs) = length r.0 + length r.1 + total_bytes rs

abbrev pub there : List (List ℕ × List ℕ) → List (List ℕ)
there [] = []
there (r ∷ rs) = r.0 ∷ there rs

abbrev pub back : List (List ℕ × List ℕ) → List (List ℕ)
back [] = []
back (r ∷ rs) = r.1 ∷ back rs

abbrev pub exchange : System → System → Stats → Exchange
exchange i o st = record { initiator = i; other = o; exchange_stats = st }

loop-Exchanged :
    (chunksize iid oid : ℕ) (mi mo : List Message) (rounds : List (List ℕ × List ℕ)) (fuel : ℕ)
    (iout oout : List Message) (st : Stats)
    → 0 < chunksize
    → length rounds < fuel
    → (x : Exchange) × (combination_loop fuel chunksize (
          exchange
            (system iid (blocks (there rounds) (ready ∷ mi)) iout)
            (system oid (blocks (back rounds) mo) oout)
            st)
        ≡ done x)
      × Exchanged iid oid mi mo
          (payload iout ++ flatten (back rounds))
          (payload oout ++ flatten (there rounds))
          (st.total_bytes_transferred_in_combination + total_bytes rounds)
          x
      × (x.exchange_stats.num_combinations ≡ st.num_combinations)
unfolding combination_loop combination_round blocks flatten total_bytes expect same_message
loop-Exchanged chunksize iid oid mi mo rounds zero iout oout st hc h = absurd (omega arith)
loop-Exchanged chunksize iid oid mi mo [] (suc fuel) iout oout st hc h = (
  exchange (system iid mi iout) (system oid mo oout) st,
  refl,
  (refl, (refl, (refl, (refl, (sym (append-nil _), (sym (append-nil _), omega arith)))))),
  refl,
)
loop-Exchanged chunksize iid oid mi mo (r ∷ rounds) (suc fuel) iout oout st hc h =
    let mi' = blocks (there rounds) (ready ∷ mi) in
    let mo' = blocks (back rounds) mo in
    let (ps, first, flat) =
      forward_data-pieces chunksize iid iout mi' oid
        (sending_data ∷ number (length r.1) ∷ left r.1 mo') oout r.0 hc in
    let oout' = (oout ++ number (length r.0) ∷ []) ++ map raw ps in
    let (qs, second, flat') = forward_data-pieces chunksize oid oout' mo' iid mi' iout r.1 hc in
    let iout' = (iout ++ number (length r.1) ∷ []) ++ map raw qs in
    let st' =
      add_to_bytes_transferred_in_combination (length r.1)
        (add_to_bytes_transferred_in_combination (length r.0) st) in
    let (x, run, (a, (b, (c, (d, (to_i, (to_o, bytes)))))), num) =
      loop-Exchanged chunksize iid oid mi mo rounds fuel iout' oout' st' hc (omega arith) in
    (
      x,
      rw (first, second) run,
      (
        a,
        (
          b,
          (
            c,
            (
              d,
              (
                to_i
                    ∙ ap (λ p. p ++ flatten (back rounds))
                        (payload-forwarded iout (length r.1) qs r.1 flat')
                    ∙ append_assoc (payload iout) r.1 (flatten (back rounds)),
                (
                  to_o
                      ∙ ap (λ p. p ++ flatten (there rounds))
                          (payload-forwarded oout (length r.0) ps r.0 flat)
                      ∙ append_assoc (payload oout) r.0 (flatten (there rounds)),
                  omega (arith, bytes),
                ),
              ),
            ),
          ),
        ),
      ),
      num,
    )

length-left : (bs : List ℕ) (ms : List Message) → length ms ≤ length (left bs ms)
length-left [] ms = omega arith
length-left (b ∷ bs) ms = omega arith

length-blocks :
    (rounds : List (List ℕ × List ℕ)) (ms : List Message)
    → length rounds ≤ length (blocks (there rounds) ms)
unfolding blocks
length-blocks [] ms = omega arith
length-blocks (r ∷ rounds) ms =
    omega (arith, length-blocks rounds ms, length-left r.0 (blocks (there rounds) ms))

pub expect-same :
    (m : Message) (s : System) (ms : List Message)
    → same_message m m ≡ true
    → s.incoming ≡ m ∷ ms
    → expect m s ≡ done (after_receive s)
unfolding expect
expect-same m s ms same h =
    let e : received s ≡ m = ap (λ ns. received (record s { incoming = ns })) h in
    let t : same_message (received s) m ≡ true = ap (λ k. same_message k m) e ∙ same in rw t refl

-- If the chunks are not empty, one system says the first blocks of all rounds, and the other one that
-- it is ready and then the second blocks: the combination comes to an end, both systems have said
-- all of this and nothing more, every byte of each has reached the other, in order, the bytes of both
-- are added to the statistics, and one combination is counted.
pub combination-Exchanged :
    (chunksize iid oid : ℕ) (mi mo : List Message) (rounds : List (List ℕ × List ℕ))
    (iout oout : List Message) (st : Stats)
    → 0 < chunksize
    → (x : Exchange) × (combination chunksize (
          exchange
            (system iid (blocks (there rounds) (ready ∷ mi)) iout)
            (system oid (ready_to_combine ∷ blocks (back rounds) (ready ∷ mo)) oout)
            st)
        ≡ done x)
      × Exchanged iid oid mi mo
          (payload iout ++ flatten (back rounds))
          (payload oout ++ flatten (there rounds))
          (st.total_bytes_transferred_in_combination + total_bytes rounds)
          x
      × (x.exchange_stats.num_combinations ≡ st.num_combinations + 1)
unfolding combination expect same_message payload
combination-Exchanged chunksize iid oid mi mo rounds iout oout st hc =
    let fuel = suc (length (blocks (there rounds) (ready ∷ mi))) in
    let (x, run, (a, (b, (c, (d, (to_i, (to_o, bytes)))))), num) =
      loop-Exchanged chunksize iid oid mi (ready ∷ mo) rounds fuel (iout ++ send_first ∷ [])
        (oout ++ recv_first ∷ []) (increase_num_combinations st) hc
        (omega (arith, length-blocks rounds (ready ∷ mi))) in
    (
      record x { other = record x.other { incoming = drop 1 x.other.incoming } },
      rw run (
          ap (λ o. o >>= λ last. done (record x { other = last }))
            (expect-same ready x.other mo refl d)),
      (
        a,
        (
          b,
          (
            c,
            (
              ap (drop 1) d,
              (
                to_i ∙ ap (λ p. p ++ flatten (back rounds)) (control iout send_first refl),
                (
                  to_o ∙ ap (λ p. p ++ flatten (there rounds)) (control oout recv_first refl),
                  bytes,
                ),
              ),
            ),
          ),
        ),
      ),
      num,
    )
  where
    control :
        (out : List Message) (m : Message)
        → payload (m ∷ []) ≡ []
        → payload (out ++ m ∷ []) ≡ payload out
    control out m e = payload-append out (m ∷ []) ∙ (ap (λ x. payload out ++ x) e ∙ append-nil _)
