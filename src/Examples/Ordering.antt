-- ===== src/Examples/Ordering.antt =====
-- The theorem on the order of requests at a publication and a call, over a transport that notes what
-- it is given.
use autobahn_cpp_aw.Common.{pos, true, none, some, List, [], ◌∷◌, ◌≡◌, refl}
use autobahn_cpp_aw.Message.{Message}
use autobahn_cpp_aw.MessageType.{code}
use autobahn_cpp_aw.Options.{call_options_object}
use autobahn_cpp_aw.Client.{Client}
use autobahn_cpp_aw.Session.{Session, new_session}
use autobahn_cpp_aw.Session.Steps.{UserCall}
use autobahn_cpp_aw.Session.Ordering.{run_all, request_all, run_all-request_all}
use autobahn_cpp_aw.Sample
use autobahn_cpp_aw.Sample.{number, text, dictionary, field, empty, sample_msgpack}

instance abbrev notebook : Client
notebook = record Sample.sample_client {
  Link = List Message;
  transmit = λ log message. (message ∷ log, none);
}

abbrev joined : Session
joined = record new_session { running = true; transport = some []; session_id = 77; request_id = 4 }

abbrev wishes : List UserCall
wishes =
    UserCall.publish "com.example.topic"
    ∷ UserCall.call "com.example.add" (record { timeout = pos 0 })
    ∷ []

run_all-request_all_example :
    let s = run_all 2 (request_all wishes joined) in
    (s.transport
      ≡ some (
          (number (pos 48) ∷ number (pos 6) ∷ dictionary empty ∷ text "com.example.add" ∷ [])
          ∷ (number (pos 16) ∷ number (pos 5) ∷ dictionary empty ∷ text "com.example.topic" ∷ [])
          ∷ []))
    × (s.tasks ≡ [])
unfolding code call_options_object
run_all-request_all_example =
    run_all-request_all wishes joined [] (λ l message. refl) (refl, (refl, tt))
      (refl, refl, λ e. cc e) refl
