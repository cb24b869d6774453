-- ===== src/Transport/RawSocket.antt =====
-- autobahn/wamp_rawsocket_transport.hpp and wamp_rawsocket_transport.ipp: a transport over a stream
-- socket. Every method acts on the transport and on the state of its handler.
pub mod Receive
pub mod Handshake
pub mod Frames
pub mod Streams
pub mod Wire
use autobahn_cpp_aw.Common.{
  ℕ, zero, suc, ◌+◌, ◌-◌, ◌*◌, ◌/◌, ◌%◌, ◌^◌, String, Bool, true, false, not, ◌&&◌, Option, none,
  some, List, [], ◌∷◌, ◌==◌, if◌then◌else◌, length, get_elem?,
}
use Prim.Native.String.{◌++◌ as append_text}
use autobahn_cpp_aw.Exception.{
  Exception, Result, ok, err, network_error, protocol_error, logic_error, type_error, out_of_range,
  Action, ◌>>=◌, ◌>>◌, gets, lift, modify, or_throw, pure, skip, throw, throw_if,
}
use autobahn_cpp_aw.Msgpack.{Msgpack, Object}
use autobahn_cpp_aw.Message.{Message}
use autobahn_cpp_aw.Promise.{Promise, pending, failed, satisfied, unit_value, settle}
use autobahn_cpp_aw.Transport.{TransportHandler, Network}

-- the big-endian bytes of a `uint32_t` on the wire, `htonl`, and back, `ntohl`
unfoldable pub htonl : ℕ → List ℕ
htonl x = (x / 2 ^ 24) % 256 ∷ (x / 2 ^ 16) % 256 ∷ (x / 2 ^ 8) % 256 ∷ x % 256 ∷ []

unfoldable pub ntohl : List ℕ → ℕ
ntohl (a ∷ b ∷ c ∷ d ∷ []) = ((a * 256 + b) * 256 + c) * 256 + d
ntohl _ = 0

module _ ⦃m : Msgpack⦄ ⦃n : Network⦄ where
  -- the asynchronous operation that is under way, whose completion the io service will report
  pub data Waiting : Type 0 where
    nothing connecting handshake_reply message_header : Waiting
    message_body : ℕ → Waiting

  pub record RawSocket : Type 0 where
    pub socket : n.Socket
    pub connect_promise : Promise
    pub disconnect_promise : Promise
    pub pause_handler : Option n.Callback
    pub resume_handler : Option n.Callback
    -- whether `m_handler` is set
    pub handler : Bool
    pub handshake_buffer : List ℕ
    pub message_length : ℕ
    pub message_unpacker : n.Unpacker
    pub waiting : Waiting
    -- the pause and resume handlers that were called, the last one first
    pub called : List n.Callback

  -- the constructor
  unfoldable pub new_transport : n.Socket → n.Unpacker → RawSocket
  new_transport socket unpacker = record {
    socket = socket;
    connect_promise = pending;
    disconnect_promise = pending;
    pause_handler = none;
    resume_handler = none;
    handler = false;
    handshake_buffer = 0 ∷ 0 ∷ 0 ∷ 0 ∷ [];
    message_length = 0;
    message_unpacker = unpacker;
    waiting = nothing;
    called = [];
  }

  unfoldable pub is_connected : RawSocket → Bool
  is_connected t = n.is_open t.socket

  unfoldable pub has_handler : RawSocket → Bool
  has_handler t = t.handler

  -- the length and then the message, unless the length could not be written
  unfoldable pub write_message : Message → RawSocket → RawSocket × Option n.ErrorCode
  write_message message t =
      let buffer = n.pack message in
      let (socket, failure) = n.write t.socket (htonl (length buffer)) in
      elim failure [
        | some e ↦ (record t { socket = socket }, some e)
        | none ↦
            let (socket', failure') = n.write socket buffer in
            (record t { socket = socket' }, failure')
      ]

  module _ {H : Type 0} (h : TransportHandler RawSocket H) where
    abbrev pub Method : Type 0 → Type 0
    Method A = Action (RawSocket × H) A

    abbrev transport : Method RawSocket
    transport (t, s) = (ok t, (t, s))

    abbrev change : (RawSocket → RawSocket) → Method (Unit {0})
    change f (t, s) = (ok tt, (f t, s))

    -- a call of the handler
    abbrev tell : Action H (Unit {0}) → Method (Unit {0})
    tell act (t, s) = let (r, s') = act s in (r, (t, s'))

    unfoldable pub set_connect : Promise → Method (Unit {0})
    unfolding settle
    set_connect v (t, s) = elim (settle v t.connect_promise) [
      | ok p ↦ (ok tt, (record t { connect_promise = p }, s))
      | err e ↦ (err e, (t, s))
    ]

    unfoldable pub set_disconnect : Promise → Method (Unit {0})
    unfolding settle
    set_disconnect v (t, s) = elim (settle v t.disconnect_promise) [
      | ok p ↦ (ok tt, (record t { disconnect_promise = p }, s))
      | err e ↦ (err e, (t, s))
    ]

    unfoldable pub connect : Method (Unit {0})
    connect = do
      t ← transport
      if n.is_open t.socket
          then set_connect (failed (network_error "network transport already connected"))
          else change (λ t. record t { socket = n.opened t.socket; waiting = connecting })

    -- The completion of `async_connect`. The write raises what it meets; the reading that is
    -- started reports its errors to `handshake_reply_handler`.
    unfoldable pub connect_handler : Option n.ErrorCode → Method (Unit {0})
    connect_handler (some e) s = set_connect (failed (n.system_error e "connect")) s
    connect_handler none (t, s) =
        let buffer : List ℕ = 0x7F ∷ 0xF2 ∷ 0 ∷ 0 ∷ [] in
        let (socket, failure) = n.write t.socket buffer in
        let t' = record t { handshake_buffer = buffer; socket = socket } in
        elim failure [
          | none ↦ (ok tt, (record t' { waiting = handshake_reply }, s))
          | some e ↦ (err (n.system_error e "write"), (t', s))
        ]

    unfoldable pub close_socket : Bool → String → Method (Unit {0})
    close_socket was_clean reason = do
      t ← transport
      if t.handler && n.is_open t.socket then tell (h.on_disconnect was_clean reason) else skip
      t' ← transport
      if n.is_open t'.socket then change (λ t. record t { socket = n.close t.socket }) else skip

    unfoldable pub disconnect : Method (Unit {0})
    disconnect = do
      t ← transport
      throw_if (not (n.is_open t.socket)) (network_error "network transport already disconnected")
      close_socket true "wamp.error.goodbye"
      set_disconnect (satisfied unit_value)

    unfoldable pub send_message : Message → Method (Unit {0})
    send_message message (t, s) =
        let (t', failure) = write_message message t in
        elim failure [ none ↦ (ok tt, (t', s)) | some e ↦ close_socket false (n.message e) (t', s) ]

    unfoldable pub set_pause_handler : n.Callback → Method (Unit {0})
    set_pause_handler callback = change (λ t. record t { pause_handler = some callback })

    unfoldable pub set_resume_handler : n.Callback → Method (Unit {0})
    set_resume_handler callback = change (λ t. record t { resume_handler = some callback })

    abbrev notify : Option n.Callback → Method (Unit {0})
    notify none = skip
    notify (some callback) = change (λ t. record t { called = callback ∷ t.called })

    unfoldable pub pause : Method (Unit {0})
    pause = do t ← transport; notify t.pause_handler

    unfoldable pub resume : Method (Unit {0})
    resume = do t ← transport; notify t.resume_handler

    unfoldable pub attach : Method (Unit {0})
    attach = do
      t ← transport
      throw_if t.handler (logic_error "handler already attached")
      change (λ t. record t { handler = true })
      t' ← transport
      tell (h.on_attach t')

    unfoldable pub detach : Method (Unit {0})
    detach = do
      t ← transport
      throw_if (not t.handler) (logic_error "no handler attached")
      tell (h.on_detach true "wamp.error.goodbye")
      change (λ t. record t { handler = false })
