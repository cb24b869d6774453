-- ===== src/Examples/Routing.antt =====
-- The theorems on subscriptions and registrations at a concrete session.
use autobahn_cpp_aw.Common.{pos, true, false, some, [], ◌∷◌, ◌≡◌, refl}
use autobahn_cpp_aw.Exception.{ok}
use autobahn_cpp_aw.Arguments.{value_for_key_or, find_key}
use autobahn_cpp_aw.Invocation.{Invocation, new_invocation}
use autobahn_cpp_aw.Promise.{satisfied, unit_value}
use autobahn_cpp_aw.Client.{Event}
use autobahn_cpp_aw.Session.{Session, new_session}
use autobahn_cpp_aw.Session.Incoming.Invoke.{process_event, process_invocation}
use autobahn_cpp_aw.Session.Incoming.Subscriptions.{process_event-delivers}
use autobahn_cpp_aw.Session.Incoming.Served.{concluded, process_invocation-serves}
use autobahn_cpp_aw.Session.Send.{send_message}
use autobahn_cpp_aw.Invocation.{run}
use autobahn_cpp_aw.Sample.{
  answers, item, Tree, number, text, items, dictionary, field, empty, end, sample_msgpack,
  sample_client,
}

-- A joined session with a request of each kind under way, two handlers of subscription 30, of
-- which the second throws, and the procedure 0 under registration 40.
abbrev busy : Session
busy = record new_session {
  transport = some (record { sent = []; broken = false });
  request_id = 9;
  session_id = 77;
  session_start = satisfied unit_value;
  running = true;
  subscribe_requests = (6, record { handler = 5; response = 1 }) ∷ [];
  unsubscribe_requests = (7, record { subscription = 30; response = 2 }) ∷ [];
  subscription_handlers = (30, 4) ∷ (31, 8) ∷ (30, 13) ∷ (30, 5) ∷ [];
  register_requests = (8, record { procedure = 1; response = 3 }) ∷ [];
  unregister_requests = (9, record { registration = 40; response = 4 }) ∷ [];
  procedures = (40, 0) ∷ [];
  next_promise = 5;
}

abbrev topic : Tree
topic = dictionary (field (text "topic") (text "weather") empty)

abbrev sunny : Event
sunny = record {
  uri = "weather";
  arguments = items (item (text "sunny") end);
  kw_arguments = dictionary empty;
}

process_event-delivers_example :
    process_event
      (number (pos 36)
        ∷ number (pos 30)
        ∷ number (pos 2)
        ∷ topic
        ∷ items (item (text "sunny") end)
        ∷ dictionary empty
        ∷ [])
      busy
    ≡ (ok tt, record busy { delivered = (13, sunny) ∷ (4, sunny) ∷ [] })
unfolding value_for_key_or find_key
process_event-delivers_example =
    process_event-delivers (number (pos 36)) (number (pos 30)) (number (pos 2)) topic
      (items (item (text "sunny") end) ∷ dictionary empty ∷ []) 30 2 "weather" busy refl refl refl
      refl refl refl (refl, refl)

abbrev seen : Invocation
seen = record {
  uri = "";
  arguments = items (item (text "four") end);
  kw_arguments = dictionary empty;
  request_id = 12;
  progressive_results_expected = false;
  send_result_fn = true;
}

process_invocation-serves_example :
    process_invocation
      (number (pos 68)
        ∷ number (pos 12)
        ∷ number (pos 40)
        ∷ dictionary empty
        ∷ items (item (text "four") end)
        ∷ [])
      busy
    ≡ concluded 12 (run (λ message. send_message message true) (answers 0 seen) (seen, busy))
unfolding value_for_key_or find_key new_invocation
process_invocation-serves_example =
    process_invocation-serves (number (pos 68)) (number (pos 12)) (number (pos 40))
      (dictionary empty) (items (item (text "four") end) ∷ []) 12 40 "" false 0 busy refl refl refl
      refl refl refl refl refl refl
