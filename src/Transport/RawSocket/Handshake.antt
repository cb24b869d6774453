-- ===== src/Transport/RawSocket/Handshake.antt =====
-- The handshake of a raw socket.
use autobahn_cpp_aw.Common.{
  ℕ, ◌-◌, ◌*◌, ◌/◌, ◌%◌, not, Bool, ◌&&◌, none, List, [], ◌∷◌, ◌==◌, ◌≡◌, arith, if◌then◌else◌,
}
use autobahn_cpp_aw.Exception.{ok, protocol_error}
use autobahn_cpp_aw.Msgpack.{Msgpack}
use autobahn_cpp_aw.Promise.{Promise, pending, failed, satisfied, unit_value}
use autobahn_cpp_aw.Transport.{TransportHandler, Network}
use autobahn_cpp_aw.Transport.RawSocket.{RawSocket, Waiting, set_connect}
use autobahn_cpp_aw.Transport.RawSocket.Receive.{
  complete, completed, handshake_reply_handler, handshake_error, parenthesised, receive_message,
}

module _ ⦃m : Msgpack⦄ ⦃n : Network⦄ where
  abbrev pub accepts : ℕ → ℕ → Bool
  accepts magic reply = (magic == 0x7F) && (reply % 16 == 0x02)

  -- What a reply makes of the future of `connect`: its first byte, and of the second the serializer
  -- in the low four bits and the error in the high four.
  abbrev pub verdict : ℕ → ℕ → Promise
  verdict magic reply =
      let serializer = reply % 16 in
      let error = 16 * (reply / 16) in
      if accepts magic reply
      then satisfied unit_value
      else failed (
          protocol_error (
            if not (magic == 0x7F)
            then "invalid handshake frame"
            else if serializer == 0
            then handshake_error error
            else if serializer == 1
            then "json currently not supported"
            else parenthesised "rawsocket handshake error: invalid serializer type " serializer))

  module _ {H : Type 0} (h : TransportHandler RawSocket H) where
    -- The reply to a handshake, whatever its four bytes: MessagePack after the magic byte satisfies
    -- the future of `connect` and starts the receiving of messages; any other reply fails the future
    -- with the reason and starts nothing. No reply raises or reaches the handler.
    completed-reply :
        (b0 b1 b2 b3 : ℕ) (t : RawSocket) (s : H)
        → t.waiting ≡ Waiting.handshake_reply
        → t.connect_promise ≡ pending
        → let buffer : List ℕ = b0 ∷ b1 ∷ b2 ∷ b3 ∷ [] in
          completed h none buffer (t, s) ≡ (
            ok tt,
            (
              record t {
                handshake_buffer = buffer;
                connect_promise = verdict b0 b1;
                waiting = if accepts b0 b1 then Waiting.message_header else Waiting.nothing;
              },
              s,
            ),
          )
    unfolding completed complete handshake_reply_handler set_connect receive_message
    completed-reply b0 b1 b2 b3 t s w c =
        let rounded : b1 - b1 % 16 ≡ 16 * (b1 / 16) = omega arith in ground (arith, rounded)
