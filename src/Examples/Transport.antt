-- ===== src/Examples/Transport.antt =====
-- The theorems on transports at a concrete raw socket and session.
use autobahn_cpp_aw.Common.{not, pos, true, false, none, some, [], ◌∷◌, ◌++◌, ◌≡◌, ◌≢◌, refl, arith}
use autobahn_cpp_aw.Exception.{Exception, ok, err}
use autobahn_cpp_aw.Message.{Message, size, field, field_as, is_field_type}
use autobahn_cpp_aw.MessageType.{of_code}
use autobahn_cpp_aw.Promise.{pending, satisfied, unit_value}
use autobahn_cpp_aw.Session.{Session, new_session, update}
use autobahn_cpp_aw.Session.Send.{transmit, set_promise}
use autobahn_cpp_aw.Session.Incoming.{on_message, dispatch_message}
use autobahn_cpp_aw.Session.Incoming.Replies.{process_unsubscribed, request_field, expect_type}
use autobahn_cpp_aw.Session.Connection.{
  session_handler, gone, transmit-send_message, close_socket-lost, attach-session,
}
use autobahn_cpp_aw.Transport.RawSocket
use autobahn_cpp_aw.Transport.RawSocket.{
  RawSocket, Waiting, new_transport, write_message, close_socket, htonl,
}
use autobahn_cpp_aw.Transport.RawSocket.Receive.{arrive, unpack_messages}
use autobahn_cpp_aw.Transport.RawSocket.Frames.{Unpacks, frame, unpack_messages-enough}
use autobahn_cpp_aw.Transport.RawSocket.Streams.{arrive-raises}
use autobahn_cpp_aw.Transport.RawSocket.Wire.{Logs, send_all, arrive-send_all}
use autobahn_cpp_aw.Sample.{number, items, item, end, sample_msgpack}
use autobahn_cpp_aw.Session.Incoming.Invoke.{process_event}
use autobahn_cpp_aw.Sample.Network.{Pipe, user, sample_network, socket_client}

abbrev pub line : Pipe
line = record { open_end = true; broken_end = false; log = [] }

abbrev pub fresh : RawSocket
fresh = record {
  socket = line;
  connect_promise = pending;
  disconnect_promise = pending;
  pause_handler = none;
  resume_handler = none;
  handler = true;
  handshake_buffer = 0 ∷ 0 ∷ 0 ∷ 0 ∷ [];
  message_length = 0;
  message_unpacker = [];
  waiting = Waiting.handshake_reply;
  called = [];
}

abbrev pub listening : RawSocket
listening = record fresh {
  waiting = Waiting.message_header;
  connect_promise = satisfied unit_value;
}

-- A joined session over the listening transport, which waits for the end of subscription 30.
abbrev member : Session
member = record new_session {
  transport = some listening;
  session_id = 77;
  running = true;
  unsubscribe_requests = (7, record { subscription = 30; response = 2 }) ∷ [];
  subscription_handlers = (30, 4) ∷ [];
}

unpack_messages-enough_example :
    unpack_messages session_handler 4
      (record listening { message_unpacker = 2 ∷ 35 ∷ 7 ∷ [] }, member)
    ≢ none
unpack_messages-enough_example =
    unpack_messages-enough session_handler 4
      (record listening { message_unpacker = 2 ∷ 35 ∷ 7 ∷ [] }) member (omega arith)

abbrev ended : Message
ended = number (pos 35) ∷ number (pos 7) ∷ []

ended-Unpacks : Unpacks [] ended
ended-Unpacks = record {
  object = items (item (number (pos 35)) (item (number (pos 7)) end));
  finds = refl;
  reads = refl;
  ends = refl;
  short = omega arith;
}

abbrev after : Session
after = record member {
  subscription_handlers = [];
  promises = update member.promises 2 (satisfied unit_value);
  unsubscribe_requests = [];
}

pipe-Logs : Logs (λ p. not p.broken_end) (λ p. p.log)
pipe-Logs p bytes works = ground arith

arrive-send_all_example :
    let (r, (sender', owner')) = send_all session_handler (ended ∷ []) (fresh, member) in
    (r ≡ ok tt)
    × (arrive session_handler 3 (sender'.socket.log ++ 0 ∷ []) (listening, member)
        ≡ arrive session_handler 1 (0 ∷ []) (record listening { message_length = 3 }, after))
unfolding on_message dispatch_message of_code process_unsubscribed request_field expect_type
    set_promise size field field_as is_field_type
arrive-send_all_example =
    arrive-send_all session_handler session_handler (λ p. not p.broken_end) (λ p. p.log) fresh
      member [] (ended ∷ []) 1 (0 ∷ []) listening member after pipe-Logs refl refl
      (refl, refl, refl) (ended-Unpacks, tt) refl

-- an event with a code and nothing else
abbrev short_event : Message
short_event = number (pos 36) ∷ []

short_event-Unpacks : Unpacks [] short_event
short_event-Unpacks = record {
  object = items (item (number (pos 36)) end);
  finds = refl;
  reads = refl;
  ends = refl;
  short = omega arith;
}

arrive-raises_example :
    arrive session_handler 2 (frame short_event ++ 9 ∷ []) (listening, member) ≡ (
      err (Exception.protocol_error "EVENT - length must be 4, 5 or 6"),
      9 ∷ [],
      (record listening { message_length = 2; waiting = Waiting.nothing }, member),
    )
unfolding on_message dispatch_message of_code process_event size field field_as is_field_type
arrive-raises_example =
    arrive-raises session_handler [] short_event 0 (9 ∷ []) listening member member
      (Exception.protocol_error "EVENT - length must be 4, 5 or 6") (refl, refl, refl)
      short_event-Unpacks refl

transmit-send_message_example :
    let (r, (t', s')) = RawSocket.send_message session_handler ended (listening, member) in
    transmit ended member ≡ (r, record s' { transport = some t' })
transmit-send_message_example = transmit-send_message user ended listening member refl

close_socket-lost_example :
    close_socket session_handler false "reset" (listening, member)
    ≡ (err (Exception.network_error "reset"), (listening, gone user listening member "reset"))
close_socket-lost_example = close_socket-lost user listening member "reset" refl refl

attach-session_example :
    RawSocket.attach session_handler (record listening { handler = false }, member)
    ≡ (err (Exception.protocol_error "Transport already attached to session"), (listening, member))
attach-session_example = attach-session user (record listening { handler = false }) member
