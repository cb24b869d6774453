-- ===== src/Session/Connection.antt =====
-- A session over a raw socket: autobahn/wamp_session.ipp as the handler of
-- autobahn/wamp_rawsocket_transport.ipp, and that transport as the link of the session.
use autobahn_cpp_aw.Common.{
  String, true, false, ◌&&◌, Option, none, some, ◌≡◌, arith, is_some, Option-cases, inl, inr,
  if◌then◌else◌,
}
use autobahn_cpp_aw.Exception.{
  ok, err, network_error, protocol_error, logic_error, assertion_failed,
}
use autobahn_cpp_aw.Msgpack.{Msgpack}
use autobahn_cpp_aw.Message.{Message}
use autobahn_cpp_aw.Promise.{pending, satisfied, failed, unit_value}
use autobahn_cpp_aw.Client.{Client}
use autobahn_cpp_aw.Transport.{TransportHandler, Network}
use autobahn_cpp_aw.Transport.RawSocket
use autobahn_cpp_aw.Transport.RawSocket.{RawSocket, write_message, close_socket, set_disconnect}
use autobahn_cpp_aw.Session.{Session}
use autobahn_cpp_aw.Session.Send.{on_disconnect, transmit}
use autobahn_cpp_aw.Session.Tasks.{on_attach, on_detach}
use autobahn_cpp_aw.Session.Incoming.{on_message}
use autobahn_cpp_aw.Session.Attempts.{waiting-sent}
use autobahn_cpp_aw.Session.Disconnect.{settled, waiting, on_disconnect_lem}

-- `wamp_session` as a `wamp_transport_handler`: the arguments of `on_detach` are not used
abbrev pub session_handler : ⦃m : Msgpack⦄ ⦃c : Client⦄ → TransportHandler c.Link Session
session_handler = record {
  on_attach = on_attach;
  on_detach = λ was_clean reason. on_detach;
  on_disconnect = on_disconnect;
  on_message = on_message;
}

module _ ⦃m : Msgpack⦄ ⦃n : Network⦄ where
  -- A message given to the transport, as the session sees it: whether the transport reports a broken
  -- connection to its handler, which keeps it from closing its socket.
  abbrev pub link_transmit : RawSocket → Message → RawSocket × Option String
  link_transmit t message =
      let (t', failure) = write_message message t in
      elim failure [
        | none ↦ (t', none)
        | some e ↦
            if t'.handler && n.is_open t'.socket
            then (t', some (n.message e))
            else if n.is_open t'.socket
            then (record t' { socket = n.close t'.socket }, none)
            else (t', none)
      ]

  -- the same user over a raw socket
  abbrev pub over_socket : Client → Client
  over_socket c = record {
    Link = RawSocket;
    transmit = link_transmit;
    Handler = c.Handler;
    handler_throws = c.handler_throws;
    Procedure = c.Procedure;
    script = c.script;
    on_challenge = c.on_challenge;
    copy_exception = c.copy_exception;
    library_what = c.library_what;
    asserts = c.asserts;
  }

module _ ⦃m : Msgpack⦄ ⦃n : Network⦄ (c : Client) where
  abbrev handler : TransportHandler RawSocket (Session ⦃c = over_socket c⦄)
  handler = session_handler ⦃c = over_socket c⦄

  -- The link of a session is what the transport's `send_message` makes of it: sending through the
  -- session's own transport gives the session and the transport that `send_message` leaves, and
  -- raises the same, whether the message is written or a write fails.
  pub transmit-send_message :
      (message : Message) (t : RawSocket) (s : Session ⦃c = over_socket c⦄)
      → s.transport ≡ some t
      → let (r, (t', s')) = RawSocket.send_message handler message (t, s) in
        transmit ⦃c = over_socket c⦄ message s ≡ (r, record s' { transport = some t' })
  unfolding RawSocket.send_message close_socket transmit
  transmit-send_message message t s attached =
      let w = write_message message t in
      elim (Option-cases w.1) [
        | inl fine ↦ ground arith
        | inr (e, lost) ↦
            let reason = n.message e in
            ground (
              arith,
              waiting-sent ⦃c = over_socket c⦄ s w.0,
              on_disconnect_lem ⦃c = over_socket c⦄ false reason s,
              on_disconnect_lem ⦃c = over_socket c⦄ false reason
                  (record s { transport = some w.0 }),
            )
      ]

  module _ (t : RawSocket) (s : Session ⦃c = over_socket c⦄) where
    -- a session whose connection is gone
    abbrev pub gone : String → Session ⦃c = over_socket c⦄
    gone reason =
        let error = failed (network_error reason) in
        record (settled ⦃c = over_socket c⦄ error (waiting ⦃c = over_socket c⦄ s) s) {
          session_id = 0;
        }

    -- A connection that breaks: the session fails its futures and raises, and the exception keeps
    -- the transport from closing its socket, which stays open.
    pub close_socket-lost :
        (reason : String)
        → t.handler ≡ true
        → n.is_open t.socket ≡ true
        → close_socket handler false reason (t, s) ≡ (err (network_error reason), (t, gone reason))
    unfolding close_socket
    close_socket-lost reason attached open' =
        ground (arith, on_disconnect_lem ⦃c = over_socket c⦄ false reason s)

    -- A disconnect that the user asks for: the session fails the futures that wait, the socket is
    -- closed, and the future of `disconnect` is satisfied.
    disconnect-session :
        t.handler ≡ true
        → n.is_open t.socket ≡ true
        → t.disconnect_promise ≡ pending
        → RawSocket.disconnect handler (t, s) ≡ (
          ok tt,
          (
            record t { socket = n.close t.socket; disconnect_promise = satisfied unit_value },
            gone "wamp.error.goodbye",
          ),
        )
    unfolding RawSocket.disconnect close_socket set_disconnect
    disconnect-session attached open' fresh =
        ground (arith, on_disconnect_lem ⦃c = over_socket c⦄ true "wamp.error.goodbye" s)

    -- Attaching, on every branch: a transport with a handler refuses; a session that has a transport
    -- refuses and yet stays the transport's handler; a session that runs without one ends the
    -- process, where `assert` is compiled in; else, and so for a session that runs where `assert` is
    -- not compiled in, each has the other.
    pub attach-session :
        let t' = record t { handler = true } in
        RawSocket.attach handler (t, s) ≡ (
          if t.handler
          then (err (logic_error "handler already attached"), (t, s))
          else if is_some s.transport
          then (err (protocol_error "Transport already attached to session"), (t', s))
          else if c.asserts && s.running
          then (err assertion_failed, (t', s))
          else (ok tt, (t', record s { transport = some t' })))
    unfolding RawSocket.attach on_attach
    attach-session = ground arith
