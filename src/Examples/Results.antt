-- ===== src/Examples/Results.antt =====
-- The theorem on answers to calls over a raw socket, at two calls that are answered in the other
-- order.
use autobahn_cpp_aw.Common.{ℕ, pos, true, some, List, [], ◌∷◌, ◌++◌, ◌≡◌, refl, arith, map}
use autobahn_cpp_aw.Session.{Session, new_session}
use autobahn_cpp_aw.Session.Connection.{session_handler}
use autobahn_cpp_aw.Session.Incoming.Results.{
  Answer, Every, HasResult, after_results, result_message,
}
use autobahn_cpp_aw.Session.Wire.{arrive-results}
use autobahn_cpp_aw.Transport.RawSocket.{RawSocket}
use autobahn_cpp_aw.Transport.RawSocket.Receive.{arrive}
use autobahn_cpp_aw.Transport.RawSocket.Frames.{Unpacks, Listening}
use autobahn_cpp_aw.Transport.RawSocket.Streams.{frames}
use autobahn_cpp_aw.Sample.{number, dictionary, empty, items, item, end, sample_msgpack}
use autobahn_cpp_aw.Sample.Network.{user, sample_network, socket_client}
use autobahn_cpp_aw.Examples.Transport.{listening}

-- two calls in flight
abbrev asking : Session
asking = record new_session {
  transport = some listening;
  session_id = 77;
  running = true;
  calls = (5, record { result = 0 }) ∷ (6, record { result = 1 }) ∷ [];
}

abbrev answer_to : ℕ → ℕ → Answer
answer_to id future = record {
  code = number (pos 50);
  request = number (pos id);
  details = dictionary empty;
  rest = [];
  id = id;
  call = record { result = future };
}

abbrev answers : List Answer
answers = answer_to 6 1 ∷ answer_to 5 0 ∷ []

abbrev heard : RawSocket
heard = record listening { message_length = 4 }

six-Unpacks : Unpacks [] (result_message (answer_to 6 1))
six-Unpacks = record {
  object = items (item (number (pos 50)) (item (number (pos 6)) (item (dictionary empty) end)));
  finds = refl;
  reads = refl;
  ends = refl;
  short = omega arith;
}

five-Unpacks : Unpacks [] (result_message (answer_to 5 0))
five-Unpacks = record {
  object = items (item (number (pos 50)) (item (number (pos 5)) (item (dictionary empty) end)));
  finds = refl;
  reads = refl;
  ends = refl;
  short = omega arith;
}

arrive-results_example :
    (arrive session_handler 5 (frames (map result_message answers) ++ 9 ∷ []) (listening, asking)
      ≡ arrive session_handler 1 (9 ∷ []) (heard, after_results answers asking))
    × Listening [] heard
    × Every (HasResult (after_results answers asking)) answers
arrive-results_example =
    arrive-results user [] answers 1 (9 ∷ []) listening asking (refl, refl, refl)
      (six-Unpacks, (five-Unpacks, tt))
      ((refl, refl, refl, refl, refl, tt), ((refl, refl, refl, refl, refl, tt), tt))
      ((refl, refl), ((refl, refl), tt)) (((refl, refl), tt), (tt, tt))
