-- ===== src/Transport/RawSocket/Receive.antt =====
-- autobahn/wamp_rawsocket_transport.ipp: the handshake's reply and the loop that receives messages,
-- each a function that the io service calls when a reading has completed.
use autobahn_cpp_aw.Common.{
  ℕ, zero, suc, ◌+◌, ◌-◌, ◌%◌, String, true, false, not, Option, none, some, List, ◌==◌,
  if◌then◌else◌, length, get_elem?, leb, take, drop,
}
use Prim.Native.String.{◌++◌ as append_text}
use autobahn_cpp_aw.Exception.{Result, ok, err, protocol_error, type_error, assertion_failed, ◌>>◌}
use autobahn_cpp_aw.Msgpack.{Msgpack}
use autobahn_cpp_aw.Message.{Message}
use autobahn_cpp_aw.Promise.{failed, satisfied, unit_value}
use autobahn_cpp_aw.Transport.{TransportHandler, Network}
use autobahn_cpp_aw.Transport.RawSocket.{
  RawSocket, Waiting, Method, set_connect, close_socket, connect_handler, ntohl,
}

module _ ⦃m : Msgpack⦄ ⦃n : Network⦄ where
  abbrev byte : List ℕ → ℕ → ℕ
  byte buffer i = elim (get_elem? buffer i) [ none ↦ 0 | some b ↦ b ]

  abbrev pub parenthesised : String → ℕ → String
  parenthesised text x = append_text text (append_text "(" (append_text (n.print_number x) ")"))

  -- the text of an error reply, from its high four bits
  unfoldable pub handshake_error : ℕ → String
  handshake_error error =
      if error == 0x00
      then parenthesised "illegal error code " error
      else if error == 0x10
      then "serializer unsupported"
      else if error == 0x20
      then "maximum message length unacceptable"
      else if error == 0x30
      then "use of reserved bits (unsupported feature)"
      else if error == 0x40
      then "maximum connection count reached"
      else parenthesised "unknown/reserved error code " error

  module _ {H : Type 0} (h : TransportHandler RawSocket H) where
    -- starts the reading of a message's length
    unfoldable pub receive_message : Method h (Unit {0})
    receive_message (t, s) = (ok tt, (record t { waiting = Waiting.message_header }, s))

    -- `x & 0x0F` and `x & 0xF0` of a byte
    unfoldable pub handshake_reply_handler : Option n.ErrorCode → Method h (Unit {0})
    handshake_reply_handler (some e) (t, s) =
        set_connect h (failed (n.system_error e "async_read")) (t, s)
    handshake_reply_handler none (t, s) =
        let reply = byte t.handshake_buffer 1 in
        let serializer_type = reply % 16 in
        if not (byte t.handshake_buffer 0 == 0x7F)
        then set_connect h (failed (protocol_error "invalid handshake frame")) (t, s)
        else if serializer_type == 0x00
        then set_connect h (failed (protocol_error (handshake_error (reply - reply % 16)))) (t, s)
        else if serializer_type == 0x01
        then set_connect h (failed (protocol_error "json currently not supported")) (t, s)
        else if serializer_type == 0x02
        then (do set_connect h (satisfied unit_value); receive_message) (t, s)
        else set_connect h
            (failed (
              protocol_error (
                parenthesised "rawsocket handshake error: invalid serializer type "
                  serializer_type)))
            (t, s)

    -- the bytes of the length are those of `m_message_length` as they came
    unfoldable pub receive_message_header : Option n.ErrorCode → List ℕ → Method h (Unit {0})
    receive_message_header (some e) bytes s =
        close_socket h false (n.print_error "Receive error: " e) s
    receive_message_header none bytes (t, s) =
        let length = ntohl bytes in
        (ok tt, (record t { message_length = length; waiting = Waiting.message_body length }, s))

    -- `if (m_handler) { m_handler->on_message(std::move(message)); }`
    abbrev hand_over : Message → Method h (Unit {0})
    hand_over message (t, s) =
        let heard : Result (Unit {0}) × (RawSocket × H) =
          let (r, s') = h.on_message message s in (r, (t, s')) in
        if t.handler then heard else (ok tt, (t, s))

    -- `while (m_message_unpacker.next(&result)) { … }`, with fuel; `none` means that the fuel ran out
    unfoldable pub unpack_messages :
        ℕ → RawSocket × H → Option (Result (Unit {0}) × (RawSocket × H))
    unpack_messages zero s = none
    unpack_messages (suc fuel) (t, s) = elim (n.next t.message_unpacker) [
      | err e ↦ some (err e, (t, s))
      | ok found ↦ elim found [
        | none ↦ some (ok tt, (t, s))
        | some (o, unpacker) ↦
            let t' = record t { message_unpacker = unpacker } in
            elim (n.as_fields o) [
              | none ↦ some (err type_error, (t', s))
              | some fields ↦
                  let (r, s') = hand_over fields (t', s) in
                  elim r [ ok _ ↦ unpack_messages fuel s' | err e ↦ some (err e, s') ]
            ]
      ]
    ]

    -- The loop, with the fuel that `unpack_messages-enough` shows to be enough.
    abbrev unpack_all : Method h (Unit {0})
    unpack_all (t, s) = elim (unpack_messages (n.held t.message_unpacker + 1) (t, s)) [
      | none ↦ (err assertion_failed, (t, s))
      | some outcome ↦ outcome
    ]

    unfoldable pub receive_message_body : Option n.ErrorCode → List ℕ → Method h (Unit {0})
    receive_message_body (some e) bytes s =
        close_socket h false (n.print_error "Receive error: " e) s
    receive_message_body none bytes (t, s) =
        let unpacker = n.consume t.message_unpacker bytes in
        let handled =
          (unpack_all >> receive_message) (record t { message_unpacker = unpacker }, s) in
        if t.handler then handled else receive_message (t, s)

    -- what the io service calls when the operation under way has completed with these bytes
    unfoldable pub complete : Waiting → Option n.ErrorCode → List ℕ → Method h (Unit {0})
    complete Waiting.nothing e bytes s = (ok tt, s)
    complete Waiting.connecting e bytes s = connect_handler h e s
    complete Waiting.handshake_reply e bytes (t, s) =
        handshake_reply_handler e (record t { handshake_buffer = bytes }, s)
    complete Waiting.message_header e bytes s = receive_message_header e bytes s
    complete (Waiting.message_body length) e bytes s = receive_message_body e bytes s

    unfoldable pub completed : Option n.ErrorCode → List ℕ → Method h (Unit {0})
    completed e bytes (t, s) =
        complete t.waiting e bytes (record t { waiting = Waiting.nothing }, s)

  -- the bytes that a reading waits for
  abbrev pub needed : Waiting → Option ℕ
  needed Waiting.handshake_reply = some 4
  needed Waiting.message_header = some 4
  needed (Waiting.message_body length) = some length
  needed _ = none

  module _ {H : Type 0} (h : TransportHandler RawSocket H) where
    -- What the io service does with bytes that have arrived: it completes the readings that they
    -- suffice for, at most `fuel` of them, and keeps the rest. A handler that raises ends it.
    unfoldable pub arrive :
        ℕ → List ℕ → RawSocket × H → Result (Unit {0}) × List ℕ × (RawSocket × H)
    arrive zero bytes s = (ok tt, bytes, s)
    arrive (suc fuel) bytes (t, s) = elim (needed t.waiting) [
      | none ↦ (ok tt, bytes, (t, s))
      | some k ↦ elim (leb k (length bytes)) [
        | false ↦ (ok tt, bytes, (t, s))
        | true ↦
            let (r, s') = completed h none (take k bytes) (t, s) in
            elim r [ ok _ ↦ arrive fuel (drop k bytes) s' | err e ↦ (err e, drop k bytes, s') ]
      ]
    ]
