-- ===== src/Examples/Websocket.antt =====
-- The theorem on websockets at a concrete websocket beside a raw socket.
use autobahn_cpp_aw.Common.{true, false, none, [], ◌∷◌, ◌≡◌, refl}
use autobahn_cpp_aw.Exception.{ok}
use autobahn_cpp_aw.Session.{Session, new_session}
use autobahn_cpp_aw.Session.Incoming.{on_message}
use autobahn_cpp_aw.Session.Connection.{session_handler}
use autobahn_cpp_aw.Transport.{TransportHandler}
use autobahn_cpp_aw.Transport.RawSocket.{RawSocket, new_transport}
use autobahn_cpp_aw.Transport.RawSocket.Receive.{receive_message_body}
use autobahn_cpp_aw.Transport.WebSocket.{WebSocket, new_websocket, on_ws_message}
use autobahn_cpp_aw.Transport.WebSocket.Agreement.{
  raw_view, web_view, receive_message_body-on_ws_message,
}
use autobahn_cpp_aw.Sample.{sample_msgpack}
use autobahn_cpp_aw.Sample.Network.{Pipe, sample_network, sample_endpoint, socket_client}

-- a session that a websocket gives its messages to
abbrev web_handler : TransportHandler WebSocket Session
web_handler = record {
  on_attach = λ t s. (ok tt, s);
  on_detach = λ was_clean reason s. (ok tt, s);
  on_disconnect = λ was_clean reason s. (ok tt, s);
  on_message = on_message;
}

abbrev line : Pipe
line = record { open_end = true; broken_end = false; log = [] }

abbrev member : Session
member = record new_session {
  session_id = 77;
  running = true;
  unsubscribe_requests = (7, record { subscription = 30; response = 2 }) ∷ [];
  subscription_handlers = (30, 4) ∷ [];
}

abbrev raw : RawSocket
raw = record (new_transport line []) { handler = true }

abbrev web : WebSocket
web = record (new_websocket "ws://localhost/ws" [] []) { handler = true }

receive_message_body-on_ws_message_example :
    raw_view (receive_message_body session_handler none (2 ∷ 35 ∷ 7 ∷ []) (raw, member))
    ≡ web_view (on_ws_message web_handler true (2 ∷ 35 ∷ 7 ∷ []) (web, member))
unfolding new_transport new_websocket
receive_message_body-on_ws_message_example =
    receive_message_body-on_ws_message session_handler web_handler refl (2 ∷ 35 ∷ 7 ∷ []) raw web
      member refl refl refl
