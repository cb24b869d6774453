-- ===== src/Examples/Programs.antt =====
-- The theorems on the example programs: a procedure that counts to two, and a sum over a session.
use autobahn_cpp_aw.Common.{ℕ, String, pos, true, false, some, [], ◌∷◌, ◌≡◌, refl, arith}
use autobahn_cpp_aw.Exception.{Action, ok}
use autobahn_cpp_aw.Message.{Message}
use autobahn_cpp_aw.Accessors.Invocations
use autobahn_cpp_aw.Arguments.Access.{element}
use autobahn_cpp_aw.Arguments.{value_for_key_or, find_key}
use autobahn_cpp_aw.Client.{Client}
use autobahn_cpp_aw.Invocation.{Invocation, Reply, new_invocation, set_details, run}
use autobahn_cpp_aw.Invocation.Replies.{noting, reply_fields}
use autobahn_cpp_aw.Session.{Session, new_session}
use autobahn_cpp_aw.Session.Send.{send_message, transmit}
use autobahn_cpp_aw.Session.Incoming.Invoke.{process_invocation}
use autobahn_cpp_aw.Programs.{add2, longop, one_number}
use autobahn_cpp_aw.Programs.Replying.{run-longop}
use autobahn_cpp_aw.Programs.Serving.{process_invocation-add2}
use autobahn_cpp_aw.Sample
use autobahn_cpp_aw.Sample.{Tree, Wire, number, items, item, end, dictionary, empty, sample_msgpack}

abbrev unprinted : ℕ → String
unprinted x = "?"

-- a sender that does nothing
abbrev silent : Message → Action (Unit {0}) (Unit {0})
silent message s = (ok tt, s)

abbrev counting : Invocation
counting = record {
  uri = "";
  arguments = items (item (number (pos 2)) end);
  kw_arguments = dictionary empty;
  request_id = 8;
  progressive_results_expected = true;
  send_result_fn = true;
}

run-longop_example :
    let (r, (i, (s, log))) = run (noting silent) (longop unprinted counting) (counting, (tt, [])) in
    (r ≡ ok tt)
    × (i ≡ record counting { send_result_fn = false })
    × (log
        ≡ reply_fields (Reply.result (one_number 2)) 8
          ∷ reply_fields (Reply.progress (one_number 1)) 8
          ∷ reply_fields (Reply.progress (one_number 0)) 8
          ∷ [])
unfolding Invocations.argument element
run-longop_example =
    run-longop unprinted silent (λ message s. refl) counting 2 tt refl refl (omega arith)

-- a user whose procedures all are `add2`
instance abbrev adder : Client
adder = record Sample.sample_client { script = λ p i. add2 unprinted i }

abbrev wire : Wire
wire = record { sent = []; broken = false }

-- a joined session with a procedure
abbrev serving : Session
serving = record new_session {
  transport = some wire;
  session_id = 77;
  running = true;
  procedures = (20, 1) ∷ [];
}

abbrev sum : Message
sum = reply_fields (Reply.result (one_number 23)) 8

process_invocation-add2_example :
    process_invocation
      (number (pos 68)
        ∷ number (pos 8)
        ∷ number (pos 20)
        ∷ dictionary empty
        ∷ items (item (number (pos 21)) (item (number (pos 2)) end))
        ∷ [])
      serving
    ≡ (ok tt, record serving { transport = some (record wire { sent = sum ∷ [] }) })
unfolding set_details new_invocation send_message transmit value_for_key_or find_key
process_invocation-add2_example =
    process_invocation-add2 unprinted (number (pos 68)) (number (pos 8)) (number (pos 20))
      (dictionary empty) (items (item (number (pos 21)) (item (number (pos 2)) end)))
      (number (pos 21)) (number (pos 2)) [] 8 20 21 2 (record new_invocation { request_id = 8 }) 1
      serving (record serving { transport = some (record wire { sent = sum ∷ [] }) }) refl refl refl
      refl refl refl refl (λ j. refl) refl refl refl refl refl
