-- ===== src/Examples/Answers.antt =====
-- The theorems on requests and their errors at a concrete session.
use autobahn_cpp_aw.Common.{pos, true, false, some, List, [], ◌∷◌, ◌≡◌, refl}
use autobahn_cpp_aw.Exception.{Exception, ok, err}
use autobahn_cpp_aw.MessageType.{MessageType, code}
use autobahn_cpp_aw.Promise.{satisfied, rejected, unit_value}
use autobahn_cpp_aw.Session.{Session, new_session, update, start_task}
use autobahn_cpp_aw.Session.Steps.{UserCall, request}
use autobahn_cpp_aw.Session.Layouts.{task_of, taken, request_lem}
use autobahn_cpp_aw.Session.Incoming.Replies.{process_error}
use autobahn_cpp_aw.Session.Incoming.Errors.{
  error_of, process_error-answers, process_error-unhandled,
}
use autobahn_cpp_aw.Sample.{
  item, Tree, number, text, items, dictionary, empty, end, sample_msgpack, sample_client,
}

-- A joined session with call 5 in flight, whose last request id is the greatest one.
abbrev calling : Session
calling = record new_session {
  transport = some (record { sent = []; broken = false });
  request_id = 18446744073709551615;
  session_id = 77;
  session_start = satisfied unit_value;
  running = true;
  calls = (5, record { result = 2 }) ∷ [];
  next_promise = 4;
  tasks = start_task ∷ [];
}

abbrev hello_call : UserCall
hello_call = UserCall.call "com.example.hello" (record { timeout = pos 0 })

request_lem_example :
    request hello_call calling
    ≡ record (taken calling) { tasks = start_task ∷ task_of hello_call 0 4 ∷ [] }
request_lem_example = request_lem hello_call calling

abbrev complaint : List Tree
complaint = items (item (text "no") end) ∷ []

process_error-answers_example :
    process_error
      (number (pos 8)
        ∷ number (pos 48)
        ∷ number (pos 5)
        ∷ dictionary empty
        ∷ text "com.example.error"
        ∷ complaint)
      calling
    ≡ (
      ok tt,
      record calling {
        promises = update calling.promises 2 (
            rejected
              (error_of MessageType.call 5 "com.example.error" (dictionary empty) complaint));
        calls = [];
      },
    )
unfolding code
process_error-answers_example =
    process_error-answers (number (pos 8)) (number (pos 48)) (number (pos 5)) (dictionary empty)
      (text "com.example.error") complaint 5 "com.example.error" (record { result = 2 }) calling
      refl refl refl refl refl refl refl refl refl refl

process_error-unhandled_example :
    process_error
      (number (pos 8)
        ∷ number (pos 32)
        ∷ number (pos 5)
        ∷ dictionary empty
        ∷ text "com.example.error"
        ∷ [])
      calling
    ≡ (err (Exception.protocol_error "unhandled ERROR message"), calling)
unfolding code
process_error-unhandled_example =
    process_error-unhandled (number (pos 8)) (number (pos 32)) (number (pos 5)) (dictionary empty)
      (text "com.example.error") [] MessageType.subscribe 5 "com.example.error" calling refl refl
      refl (λ q. cc) refl refl refl refl refl tt
