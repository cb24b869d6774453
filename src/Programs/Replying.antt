-- ===== src/Programs/Replying.antt =====
-- What the procedures of the example programs send.
use autobahn_cpp_aw.Common.{
  ◌<◌, ℕ, zero, suc, ◌+◌, ◌^◌, String, Bool, true, false, List, [], ◌∷◌, ◌≡◌, arith, if◌then◌else◌,
}
use autobahn_cpp_aw.Exception.{ok, Action}
use autobahn_cpp_aw.Msgpack.{Msgpack, as_uint64}
use autobahn_cpp_aw.Message.{Message}
use autobahn_cpp_aw.Invocation.{Invocation, Reply, perform, run}
use autobahn_cpp_aw.Invocation.Replies.{noting, perform_lem, reply_fields}
use autobahn_cpp_aw.Accessors.Invocations
use autobahn_cpp_aw.Programs.{one_number, longop_from, longop}

module _ ⦃m : Msgpack⦄ (lexical_cast : ℕ → String) {S : Type 0}
    (send : Message → Action S (Unit {0}))
    (sends : (message : Message) (s : S) → (send message s).0 ≡ ok tt) where
  -- the messages of `n` rounds from the one of `i` on, over those sent before
  abbrev pub rounds : Bool → ℕ → ℕ → ℕ → List Message → List Message
  rounds expected id zero i log = log
  rounds expected id (suc n) i log =
      rounds expected id n (suc i)
        (if expected then reply_fields (Reply.progress (one_number i)) id ∷ log else log)

  -- one round leaves the invocation open
  round-sends :
      (k : ℕ) (i : Invocation) (s : S) (log : List Message)
      → i.send_result_fn ≡ true
      → let message = reply_fields (Reply.progress (one_number k)) i.request_id in
        perform (noting send) (Reply.progress (one_number k)) (i, (s, log)) ≡ (
          ok tt,
          (
            i,
            (
              if i.progressive_results_expected then (send message s).1 else s,
              if i.progressive_results_expected then message ∷ log else log,
            ),
          ),
        )
  unfolding noting
  round-sends k i s log opened = ground (
    arith,
    perform_lem (noting send) (Reply.progress (one_number k)) i (s, log),
    sends (reply_fields (Reply.progress (one_number k)) i.request_id) s,
  )

  run-round :
      (n k : ℕ) (i : Invocation) (s : S) (log : List Message)
      → i.send_result_fn ≡ true
      → let message = reply_fields (Reply.progress (one_number k)) i.request_id in
        run (noting send) (longop_from lexical_cast (suc n) k) (i, (s, log))
        ≡ run (noting send) (longop_from lexical_cast n (suc k)) (
          i,
          (
            if i.progressive_results_expected then (send message s).1 else s,
            if i.progressive_results_expected then message ∷ log else log,
          ),
        )
  unfolding longop_from run
  run-round n k i s log opened = ground (arith, round-sends k i s log opened)

  longop_from-sends :
      (n k : ℕ) (i : Invocation) (s : S) (log : List Message)
      → i.send_result_fn ≡ true
      → let (r, (i', (s', log'))) =
          run (noting send) (longop_from lexical_cast n k) (i, (s, log)) in
        (r ≡ ok tt)
        × (i' ≡ record i { send_result_fn = false })
        × (log'
            ≡ reply_fields (Reply.result (one_number (n + k))) i.request_id
              ∷ rounds i.progressive_results_expected i.request_id n k log)
  unfolding longop_from run noting
  longop_from-sends zero k i s log opened = ground (
    arith,
    perform_lem (noting send) (Reply.result (one_number k)) i (s, log),
    sends (reply_fields (Reply.result (one_number k)) i.request_id) s,
  )
  longop_from-sends (suc n) k i s log opened =
      let message = reply_fields (Reply.progress (one_number k)) i.request_id in
      let s' : S = if i.progressive_results_expected then (send message s).1 else s in
      let log' : List Message = if i.progressive_results_expected then message ∷ log else log in
      let count : ◌+◌ (suc n) k ≡ n + suc k = omega arith in
      rw (run-round n k i s log opened, count) (longop_from-sends n (suc k) i s' log' opened)

  longop-loops :
      (i : Invocation) (a : ℕ)
      → Invocations.argument as_uint64 lexical_cast i 0 ≡ ok a
      → longop lexical_cast i ≡ longop_from lexical_cast a 0
  unfolding longop
  longop-loops i a given = ground arith

  -- `longop` counts: called with a number below 2 ^ 31, on an invocation that can send, through a sender
  -- that does not raise, it sends, where progressive results are expected, one intermediary YIELD for
  -- each number below its argument, in their order, and then one final YIELD with the argument itself;
  -- where they are not expected, only the last; it returns, and the invocation can send no more.
  pub run-longop :
      (i : Invocation) (a : ℕ) (s : S)
      → i.send_result_fn ≡ true
      → Invocations.argument as_uint64 lexical_cast i 0 ≡ ok a
      → a < 2 ^ 31
      → let (r, (i', (s', log))) = run (noting send) (longop lexical_cast i) (i, (s, [])) in
        (r ≡ ok tt)
        × (i' ≡ record i { send_result_fn = false })
        × (log
            ≡ reply_fields (Reply.result (one_number a)) i.request_id
              ∷ rounds i.progressive_results_expected i.request_id a 0 [])
  run-longop i a s opened given small =
      let count : ◌+◌ a 0 ≡ a = omega arith in
      rw (longop-loops i a given) (rw count at (longop_from-sends a 0 i s [] opened))
