-- ===== src/Examples/Later.antt =====
-- The theorems on what a session may become at a session whose user has called a procedure, and that
-- is given a RESULT for no call, then one for the call, and of others that join
-- and leave.
use autobahn_cpp_aw.Common.{true, some, ℕ, ◌≤◌, [], ◌∷◌, ◌≡◌, refl, arith, pos, false}
use autobahn_cpp_aw.Message.{Message, size, field, field_as, is_field_type}
use autobahn_cpp_aw.Message.Build.{build}
use autobahn_cpp_aw.MessageType.{of_code}
use autobahn_cpp_aw.Promise.{satisfied, session_value, pending, is_pending}
use autobahn_cpp_aw.Session.{Session, new_session}
use autobahn_cpp_aw.Session.Requests.{dispatch, next_request_id, new_promise}
use autobahn_cpp_aw.Session.Requests
use autobahn_cpp_aw.Session.Requests.Calls
use autobahn_cpp_aw.Session.Send.{
  set_start, set_join, set_promise, send_message, transmit, on_disconnect,
}
use autobahn_cpp_aw.Session.Tasks.{run_join, run_task, run_start, run_call, attempt, on_attach}
use autobahn_cpp_aw.Session.Incoming.{on_message, dispatch_message}
use autobahn_cpp_aw.Session.Incoming.Control.{process_welcome}
use autobahn_cpp_aw.Session.Incoming.Replies.{
  process_call_result, expect_type, optional_field, request_field,
}
use autobahn_cpp_aw.Session.Steps.{request, Reachable, next, runs, receives, disconnects}
use autobahn_cpp_aw.Session.Owners.{waits}
use autobahn_cpp_aw.Session.Owners.Kept.{none_bad}
use autobahn_cpp_aw.Exception.{ok}
use autobahn_cpp_aw.Session.Phases.{phase, ◌⟶◌, Step-phase}
use autobahn_cpp_aw.Session.Disconnect.{waiting}
use autobahn_cpp_aw.Session.Joining.{greeting, run_join-on_message}
use autobahn_cpp_aw.Session.Final.Later.{here, further, Later-promises}
use autobahn_cpp_aw.Session.Final.Waiting.{Later-waits}
use autobahn_cpp_aw.Sample.{number, dictionary, empty, sample_msgpack, sample_client}
use autobahn_cpp_aw.Examples.Owners.{wire, calling, queued_call, calling-tasks, calling-Reachable}

-- the call is in the table
abbrev sent : Session
sent = (run_task queued_call (record calling { tasks = [] })).1

abbrev result_for : ℕ → Message
result_for id = number (pos 50) ∷ number (pos id) ∷ dictionary empty ∷ []

abbrev refused : Session
refused = (on_message (result_for 9) sent).1

abbrev answered : Session
answered = (on_message (result_for 1) refused).1

abbrev lost : Session
lost = (on_disconnect false "gone" answered).1

answered_lem :
    (sent.next_promise ≡ 1)
    × (refused.next_promise ≡ 1)
    × (refused.promises 0 ≡ pending)
    × (answered.next_promise ≡ 1)
    × (is_pending (answered.promises 0) ≡ false)
unfolding run_task run_start set_start set_join request on_attach Requests.start dispatch on_message
    dispatch_message of_code process_welcome size field field_as is_field_type Calls.call
    next_request_id new_promise build run_call attempt send_message transmit set_promise
    process_call_result expect_type optional_field request_field
answered_lem = (refl, refl, refl, refl, refl)

sent-Reachable : Reachable sent
sent-Reachable = next calling-Reachable (runs [] [] queued_call calling-tasks)

Later-waits_example : waits 0 none_bad sent ≤ waits 0 none_bad refused
Later-waits_example =
    let (made, few, still, _, _) = answered_lem in
    Later-waits 0 sent-Reachable (further here (receives (result_for 9))) (rw few (omega arith))
      (rw made (omega arith)) still

Later-promises_example : lost.promises 0 ≡ answered.promises 0
Later-promises_example =
    let (_, _, _, made, done) = answered_lem in
    Later-promises 0 (further here (disconnects false "gone")) (rw made (omega arith)) done

-- started, and not joined yet
abbrev ready : Session
ready = record new_session { running = true; transport = some wire }

abbrev welcome : Message
welcome = number (pos 2) ∷ number (pos 77) ∷ dictionary empty ∷ []

run_join-on_message_example :
    let (sent, waiting) = run_join (result_for 0) ready in
    (sent ≡ ok tt)
    × (waiting ≡ greeting (result_for 0) wire ready)
    × (on_message welcome waiting
        ≡ (ok tt, record waiting { session_id = 77; session_join = satisfied (session_value 77) }))
run_join-on_message_example =
    run_join-on_message (result_for 0) ready wire (number (pos 2)) (number (pos 77))
      (dictionary empty ∷ []) 77 refl refl refl refl refl refl refl refl

Step-phase_example : phase 0 calling ⟶ phase 0 sent
Step-phase_example =
    Step-phase 0 calling-Reachable (runs [] [] queued_call calling-tasks)
      (rw (answered_lem.0) (omega arith))

-- joined, with a call in flight
abbrev parting : Session
parting = record ready { session_id = 77; calls = (1, record { result = 0 }) ∷ [] }
