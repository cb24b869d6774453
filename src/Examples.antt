-- ===== src/Examples.antt =====
-- The theorems at concrete sessions.
mod Answers
mod Routing
mod Transport
mod Reading
mod Websocket
mod Owners
mod Later
mod Ordering
mod Protocol
mod Programs
mod Results
mod Secrets
mod Challenges
use autobahn_cpp_aw.Common.{
  ℕ, contains, if◌then◌else◌, pos, true, false, none, some, List, [], ◌∷◌, ◌≡◌, refl, ◌≤◌, ◌⊎◌,
  length, ◌&&◌,
}
use autobahn_cpp_aw.Common.Table.{find}
use autobahn_cpp_aw.Exception.{Exception, ok, err, modify}
use autobahn_cpp_aw.Message.{Message}
use autobahn_cpp_aw.MessageType.{MessageType, code, of_code}
use autobahn_cpp_aw.Promise.{is_pending, pending, failed, satisfied, unit_value}
use autobahn_cpp_aw.Session.{Session, new_session}
use autobahn_cpp_aw.Session.Send.{
  on_disconnect, send_message, subscribe_responses, unsubscribe_responses, register_responses,
  unregister_responses, call_results,
}
use autobahn_cpp_aw.Session.Tasks.{attempt, run_call}
use autobahn_cpp_aw.Session.Disconnect.{on_disconnect-promises, on_disconnect_lem}
use autobahn_cpp_aw.Session.Sending.{SendOutcome, send_message-outcome}
use autobahn_cpp_aw.Session.Attempts.{WasSent, HasFailed}
use autobahn_cpp_aw.Message.{size, field, field_as, is_field_type}
use autobahn_cpp_aw.Invocation.{Invocation, Reply, perform, run}
use autobahn_cpp_aw.Invocation.Replies.{noting, close_if, succeeded, perform_lem, run_sends_once}
use autobahn_cpp_aw.Session.{start_task}
use autobahn_cpp_aw.Session.Send.{set_promise, set_start}
use autobahn_cpp_aw.Session.Requests
use autobahn_cpp_aw.Session.Requests.{dispatch}
use autobahn_cpp_aw.Session.Tasks.{run_start, run_task, on_attach}
use autobahn_cpp_aw.Session.Disconnect.{settled, waiting}
use autobahn_cpp_aw.Session.Frame.{Frame}
use autobahn_cpp_aw.Session.Incoming.{on_message}
use autobahn_cpp_aw.Session.Incoming.Control.{process_goodbye, process_abort}
use autobahn_cpp_aw.Session.Incoming.Replies.{
  expect_type, optional_field, request_field, process_call_result,
}
use autobahn_cpp_aw.Session.Incoming.Invoke.{send_reply}
use autobahn_cpp_aw.Session.Incoming.Calls.{answered, result_of, process_call_result-answers}
use autobahn_cpp_aw.Session.Incoming.Closing.{process_goodbye-unanswered, process_abort-refused}
use autobahn_cpp_aw.Session.Steps.{
  UserCall, request, requests, runs, attaches, Reachable, initial, next,
}
use autobahn_cpp_aw.Session.Lifecycle.{IsStarted, Reachable-IsStarted}
use autobahn_cpp_aw.Sample.{
  answers, item, Tree, number, text, items, dictionary, empty, end, Wire, sample_msgpack,
  sample_client,
}

-- A joined session with call 5 in flight, whose future is at address 2.
abbrev joined : Session
joined = record new_session {
  transport = some (record { sent = []; broken = false });
  request_id = 5;
  session_id = 77;
  session_start = satisfied unit_value;
  running = true;
  calls = (5, record { result = 2 }) ∷ [];
  next_promise = 4;
}

abbrev unplugged : Session
unplugged = record joined { transport = some (record { sent = []; broken = true }) }

abbrev any_message : Message
any_message = number (pos 48) ∷ number (pos 6) ∷ []

on_disconnect-promises_example :
    let s' = (on_disconnect false "gone" joined).1 in
    let v = failed (Exception.network_error "gone") in
    ((a : ℕ)
      → s'.promises a ≡ (
          if is_pending (joined.promises a) && contains a (waiting joined)
          then v
          else joined.promises a))
    × (s'.session_join ≡ v)
    × (s'.session_leave ≡ v)
    × (s'.session_start ≡ satisfied unit_value)
    × (s'.session_stop ≡ pending)
on_disconnect-promises_example = on_disconnect-promises false "gone" joined

send_message-outcome_example :
    let (r, s') = send_message any_message true unplugged in
    SendOutcome any_message true unplugged r s'
send_message-outcome_example = send_message-outcome any_message true unplugged

abbrev result_rest : List Tree
result_rest = items (item (text "four") end) ∷ []

process_call_result-answers_example :
    process_call_result (number (pos 50) ∷ number (pos 5) ∷ dictionary empty ∷ result_rest) joined
    ≡ (ok tt, answered 5 (record { result = 2 }) (result_of result_rest) joined)
process_call_result-answers_example =
    process_call_result-answers (number (pos 50)) (number (pos 5)) (dictionary empty) result_rest 5
      (record { result = 2 }) joined refl refl refl refl refl refl

abbrev invoked : Invocation
invoked = record {
  uri = "";
  arguments = items end;
  kw_arguments = dictionary empty;
  request_id = 9;
  progressive_results_expected = false;
  send_result_fn = true;
}

perform_lem_example :
    perform send_reply (Reply.error "wamp.error") (invoked, joined)
    ≡ let (r, s') =
        send_reply
          (number (pos 8)
            ∷ number (pos 68)
            ∷ number (pos 9)
            ∷ dictionary empty
            ∷ text "wamp.error"
            ∷ [])
          joined in
      (r, (close_if (succeeded r && true) invoked, s'))
unfolding code
perform_lem_example = perform_lem send_reply (Reply.error "wamp.error") invoked joined

run_sends_once_example :
    length (run (noting send_reply) (answers 1 invoked) (invoked, (joined, []))).1.1.1 ≤ 1
run_sends_once_example = run_sends_once send_reply (answers 1 invoked) invoked joined refl

process_goodbye-unanswered_example :
    process_goodbye (number (pos 6) ∷ dictionary empty ∷ text "wamp.close" ∷ []) joined
    ≡ (err Exception.no_session_error, record joined { session_id = 0 })
process_goodbye-unanswered_example =
    process_goodbye-unanswered (number (pos 6) ∷ dictionary empty ∷ text "wamp.close" ∷ []) joined
      refl refl refl

process_abort-refused_example :
    process_abort (number (pos 3) ∷ dictionary empty ∷ text "wamp.error.no_such_realm" ∷ []) joined
    ≡ (err (Exception.protocol_error "ABORT - Details must be a dictionary"), joined)
process_abort-refused_example =
    process_abort-refused (number (pos 3)) (dictionary empty) (text "wamp.error.no_such_realm")
      joined refl refl

abbrev wire : Wire
wire = record { sent = []; broken = false }

-- A new session with a transport, started.
running-Reachable :
    Reachable
      (run_start (record (Requests.start (on_attach wire new_session).1).1 { tasks = [] })).1
unfolding run_task request Requests.start dispatch on_attach
running-Reachable =
    next (next (next initial (attaches wire)) (requests UserCall.start))
      (runs [] [] start_task refl)

Reachable-IsStarted_example :
    IsStarted
      (run_start (record (Requests.start (on_attach wire new_session).1).1 { tasks = [] })).1
Reachable-IsStarted_example = Reachable-IsStarted refl running-Reachable
