-- ===== src/Transport/WebSocket.antt =====
-- autobahn/wamp_websocket_transport.ipp and wamp_websocketpp_websocket_transport.ipp: a transport over
-- a websocket. The first leaves `is_open`, `async_connect`, `write` and `close` to the second, which
-- forwards them to an endpoint of websocketpp.
pub mod Agreement
use autobahn_cpp_aw.Common.{
  ℕ, zero, suc, ◌+◌, String, Bool, true, false, not, Option, none, some, List, [], ◌∷◌,
  if◌then◌else◌,
}
use autobahn_cpp_aw.Exception.{
  Exception, Result, ok, err, network_error, logic_error, type_error, assertion_failed, Action,
  ◌>>=◌, ◌>>◌, skip, throw_if,
}
use autobahn_cpp_aw.Msgpack.{Msgpack, Object}
use autobahn_cpp_aw.Message.{Message}
use autobahn_cpp_aw.Promise.{Promise, pending, failed, satisfied, unit_value, settle}
use autobahn_cpp_aw.Transport.{TransportHandler, Network}

-- websocketpp's client: `get_connection`, `connect`, `send` of a binary frame, and `close`, which
-- raises where it fails
pub record Endpoint (ErrorCode : Type 0) : Type 1 where
  pub Connections : Type 0
  pub get_connection : Connections → String → Connections × Option ErrorCode
  pub connect : Connections → Connections
  pub send : Connections → List ℕ → Connections × Option ErrorCode
  pub close : Connections → Result Connections

module _ ⦃m : Msgpack⦄ ⦃n : Network⦄ ⦃w : Endpoint n.ErrorCode⦄ where
  pub record WebSocket : Type 0 where
    pub uri : String
    pub connect_promise : Promise
    pub disconnect_promise : Promise
    pub pause_handler : Option n.Callback
    pub resume_handler : Option n.Callback
    -- whether `m_handler` is set
    pub handler : Bool
    pub message_unpacker : n.Unpacker
    pub client : w.Connections
    pub opened : Bool
    pub done : Bool
    -- the pause and resume handlers that were called, the last one first
    pub called : List n.Callback

  unfoldable pub new_websocket : String → w.Connections → n.Unpacker → WebSocket
  new_websocket uri client unpacker = record {
    uri = uri;
    connect_promise = pending;
    disconnect_promise = pending;
    pause_handler = none;
    resume_handler = none;
    handler = false;
    message_unpacker = unpacker;
    client = client;
    opened = false;
    done = false;
    called = [];
  }

  unfoldable pub is_open : WebSocket → Bool
  is_open t = t.opened

  unfoldable pub is_connected : WebSocket → Bool
  is_connected t = is_open t

  unfoldable pub has_handler : WebSocket → Bool
  has_handler t = t.handler

  module _ {H : Type 0} (h : TransportHandler WebSocket H) where
    abbrev pub Method : Type 0 → Type 0
    Method A = Action (WebSocket × H) A

    abbrev transport : Method WebSocket
    transport (t, s) = (ok t, (t, s))

    abbrev change : (WebSocket → WebSocket) → Method (Unit {0})
    change f (t, s) = (ok tt, (f t, s))

    abbrev tell : Action H (Unit {0}) → Method (Unit {0})
    tell act (t, s) = let (r, s') = act s in (r, (t, s'))

    unfoldable pub set_connect : Promise → Method (Unit {0})
    unfolding settle
    set_connect v (t, s) = elim (settle v t.connect_promise) [
      | ok p ↦ (ok tt, (record t { connect_promise = p }, s))
      | err e ↦ (err e, (t, s))
    ]

    unfoldable pub set_disconnect : Promise → Method (Unit {0})
    unfolding settle
    set_disconnect v (t, s) = elim (settle v t.disconnect_promise) [
      | ok p ↦ (ok tt, (record t { disconnect_promise = p }, s))
      | err e ↦ (err e, (t, s))
    ]

    -- The handle of the connection is part of the endpoint's state.
    unfoldable pub async_connect : String → Method (Unit {0})
    async_connect uri (t, s) =
        let (client, failure) = w.get_connection t.client uri in
        let t' = record t { client = client } in
        elim failure [
          | some e ↦ set_connect (failed (n.system_error e "connect")) (t', s)
          | none ↦ (ok tt, (record t' { client = w.connect client }, s))
        ]

    unfoldable pub connect : Method (Unit {0})
    connect = do
      t ← transport
      if is_open t
          then set_connect (failed (network_error "network transport already connected"))
          else async_connect t.uri

    unfoldable pub close : Method (Unit {0})
    close (t, s) = elim (w.close t.client) [
      | ok client ↦ (ok tt, (record t { client = client }, s))
      | err e ↦ (err e, (t, s))
    ]

    unfoldable pub disconnect : Method (Unit {0})
    disconnect = do
      t ← transport
      throw_if (not (is_open t)) (network_error "network transport already disconnected")
      close
      set_disconnect (satisfied unit_value)

    -- the error code of `send` is not looked at
    unfoldable pub write : List ℕ → Method (Unit {0})
    write payload = change (λ t. record t { client = (w.send t.client payload).0 })

    unfoldable pub send_message : Message → Method (Unit {0})
    send_message message = write (n.pack message)

    unfoldable pub set_pause_handler : n.Callback → Method (Unit {0})
    set_pause_handler callback = change (λ t. record t { pause_handler = some callback })

    unfoldable pub set_resume_handler : n.Callback → Method (Unit {0})
    set_resume_handler callback = change (λ t. record t { resume_handler = some callback })

    abbrev notify : Option n.Callback → Method (Unit {0})
    notify none = skip
    notify (some callback) = change (λ t. record t { called = callback ∷ t.called })

    unfoldable pub pause : Method (Unit {0})
    pause = do t ← transport; notify t.pause_handler

    unfoldable pub resume : Method (Unit {0})
    resume = do t ← transport; notify t.resume_handler

    unfoldable pub attach : Method (Unit {0})
    attach = do
      t ← transport
      throw_if t.handler (logic_error "handler already attached")
      change (λ t. record t { handler = true })
      t' ← transport
      tell (h.on_attach t')

    unfoldable pub detach : Method (Unit {0})
    detach = do
      t ← transport
      throw_if (not t.handler) (logic_error "no handler attached")
      tell (h.on_detach true "wamp.error.goodbye")
      change (λ t. record t { handler = false })

    -- the loop over `m_message_unpacker.next`, with fuel; `none` means that the fuel ran out
    unfoldable pub unpack_messages :
        ℕ → WebSocket × H → Option (Result (Unit {0}) × (WebSocket × H))
    unpack_messages zero s = none
    unpack_messages (suc fuel) (t, s) = elim (n.next t.message_unpacker) [
      | err e ↦ some (err e, (t, s))
      | ok found ↦ elim found [
        | none ↦ some (ok tt, (t, s))
        | some (o, unpacker) ↦
            let t' = record t { message_unpacker = unpacker } in
            elim (n.as_fields o) [
              | none ↦ some (err type_error, (t', s))
              | some fields ↦
                  let (r, s') = tell (h.on_message fields) (t', s) in
                  elim r [ ok _ ↦ unpack_messages fuel s' | err e ↦ some (err e, s') ]
            ]
      ]
    ]

    -- The fuel is more than the bytes that the unpacker holds, each of which is read once.
    abbrev unpack_all : Method (Unit {0})
    unpack_all (t, s) = elim (unpack_messages (n.held t.message_unpacker + 1) (t, s)) [
      | none ↦ (err assertion_failed, (t, s))
      | some outcome ↦ outcome
    ]

    unfoldable pub receive_message : List ℕ → Method (Unit {0})
    receive_message payload (t, s) =
        let unpacker = n.consume t.message_unpacker payload in
        let handled = unpack_all (record t { message_unpacker = unpacker }, s) in
        if t.handler then handled else (ok tt, (t, s))

    unfoldable pub on_ws_open : Method (Unit {0})
    on_ws_open = do change (λ t. record t { opened = true }); set_connect (satisfied unit_value)

    unfoldable pub on_ws_close : Method (Unit {0})
    on_ws_close = change (λ t. record t { done = true })

    unfoldable pub on_ws_fail : Method (Unit {0})
    on_ws_fail = do
      t ← transport
      if not t.opened then set_connect (failed (network_error "failed to connect")) else skip
      change (λ t. record t { done = true })

    -- a frame whose opcode is `binary`, or another, which is dropped
    unfoldable pub on_ws_message : Bool → List ℕ → Method (Unit {0})
    on_ws_message true payload = receive_message payload
    on_ws_message false payload = skip
