-- ===== src/Transport/RawSocket/Frames.antt =====
-- The frame of a message on the wire, and the readings that it completes.
use autobahn_cpp_aw.Common.{
  ℕ, zero, suc, ◌+◌, ◌-◌, ◌^◌, ◌<◌, true, Option, none, some, List, ◌++◌, ◌≡◌, ◌≢◌, refl, arith,
  length, Option-cases, inl, inr,
}
use autobahn_cpp_aw.Exception.{Exception, Result, ok, err}
use autobahn_cpp_aw.Msgpack.{Msgpack, Object}
use autobahn_cpp_aw.Message.{Message}
use autobahn_cpp_aw.Transport.{TransportHandler, Network}
use autobahn_cpp_aw.Transport.RawSocket.{RawSocket, Waiting, htonl, ntohl}
use autobahn_cpp_aw.Transport.RawSocket.Receive.{
  complete, completed, unpack_messages, receive_message, receive_message_header,
  receive_message_body,
}

ntohl-htonl : (x : ℕ) → x < 2 ^ 32 → ntohl (htonl x) ≡ x
unfolding ntohl htonl
ntohl-htonl x h = omega arith

module _ ⦃m : Msgpack⦄ ⦃n : Network⦄ where
  module _ {H : Type 0} (h : TransportHandler RawSocket H) where
    enough_step :
        (fuel : ℕ) (t : RawSocket) (s : H) (found : Result (Option (Object × n.Unpacker)))
        → n.next t.message_unpacker ≡ found
        → ((t' : RawSocket) (s' : H)
            → n.held t'.message_unpacker < n.held t.message_unpacker
            → unpack_messages h fuel (t', s') ≢ none)
        → unpack_messages h (suc fuel) (t, s) ≢ none
    unfolding unpack_messages
    enough_step fuel t s (err e) p ih = ground arith
    enough_step fuel t s (ok none) p ih = ground arith
    enough_step fuel t s (ok (some (o, u))) p ih = elim (Option-cases (n.as_fields o)) [
      | inl none_eq ↦ ground arith
      | inr (fields, eq) ↦ ground (
        arith,
        n.next_shrinks t.message_unpacker u o p,
        ih (record t { message_unpacker = u }) s,
        ih (record t { message_unpacker = u }) (h.on_message fields s).1,
      )
    ]

    -- The loop over the unpacked messages ends: with more fuel than the unpacker holds bytes, it does
    -- not run out, whatever the messages are and whatever the handler does.
    pub unpack_messages-enough :
        (fuel : ℕ) (t : RawSocket) (s : H)
        → n.held t.message_unpacker < fuel
        → unpack_messages h fuel (t, s) ≢ none
    unpack_messages-enough zero t s lt = absurd (omega arith)
    unpack_messages-enough (suc fuel) t s lt =
        enough_step fuel t s (n.next t.message_unpacker) refl
          (λ t' s' less. unpack_messages-enough fuel t' s' (omega arith))

  -- What the code relies on of the unpacker and the conversion of fields: an unpacker that is given
  -- the packed bytes of a message finds that message and then nothing, and is left as it was.
  pub record Unpacks (idle : n.Unpacker) (message : Message) : Type 0 where
    pub object : Object
    pub finds : n.next (n.consume idle (n.pack message)) ≡ ok (some (object, idle))
    pub reads : n.as_fields object ≡ some message
    pub ends : n.next idle ≡ ok none
    pub short : length (n.pack message) < 2 ^ 32

  -- a transport that waits for the next message
  abbrev pub Listening : n.Unpacker → RawSocket → Type 0
  Listening idle t =
      (t.waiting ≡ Waiting.message_header) × (t.handler ≡ true) × (t.message_unpacker ≡ idle)

  -- a message on the wire: the length of its bytes, and its bytes
  abbrev pub frame : Message → List ℕ
  frame message = htonl (length (n.pack message)) ++ n.pack message

  module _ {H : Type 0} (h : TransportHandler RawSocket H) where
    unpack_one :
        (idle : n.Unpacker) (message : Message) (t : RawSocket) (s : H) (fuel : ℕ) (s' : H)
        → Unpacks idle message
        → t.handler ≡ true
        → t.message_unpacker ≡ n.consume idle (n.pack message)
        → h.on_message message s ≡ (ok tt, s')
        → unpack_messages h (suc (suc fuel)) (t, s)
          ≡ some (ok tt, (record t { message_unpacker = idle }, s'))
    unfolding unpack_messages
    unpack_one idle message t s fuel s' u hd um heard = ground arith

    unpack_raises :
        (idle : n.Unpacker) (message : Message) (t : RawSocket) (s : H) (fuel : ℕ) (s' : H)
        (e : Exception)
        → Unpacks idle message
        → t.handler ≡ true
        → t.message_unpacker ≡ n.consume idle (n.pack message)
        → h.on_message message s ≡ (err e, s')
        → unpack_messages h (suc fuel) (t, s)
          ≡ some (err e, (record t { message_unpacker = idle }, s'))
    unfolding unpack_messages
    unpack_raises idle message t s fuel s' e u hd um heard = ground arith

    pub header_completed :
        (idle : n.Unpacker) (message : Message) (t : RawSocket) (s : H)
        → Listening idle t
        → Unpacks idle message
        → let k = length (n.pack message) in
          completed h none (htonl k) (t, s)
          ≡ (ok tt, (record t { message_length = k; waiting = Waiting.message_body k }, s))
    unfolding completed complete receive_message_header
    header_completed idle message t s l u =
        ground (arith, ntohl-htonl (length (n.pack message)) u.short)

    pub body_completed :
        (idle : n.Unpacker) (message : Message) (t : RawSocket) (s : H) (s' : H)
        → Unpacks idle message
        → t.handler ≡ true
        → t.message_unpacker ≡ idle
        → t.waiting ≡ Waiting.message_body (length (n.pack message))
        → h.on_message message s ≡ (ok tt, s')
        → completed h none (n.pack message) (t, s)
          ≡ (ok tt, (record t { waiting = Waiting.message_header }, s'))
    unfolding completed complete receive_message_body receive_message
    body_completed idle message t s s' u hd um w heard =
        let used = n.consume idle (n.pack message) in
        let t1 = record t { message_unpacker = used; waiting = Waiting.nothing } in
        let enough : n.held used + 1 ≡ suc (suc (n.held used - 1)) =
          omega (arith, n.next_shrinks used idle u.object u.finds) in
        let unpacked : unpack_messages h (n.held used + 1) (t1, s)
            ≡ some (ok tt, (record t1 { message_unpacker = idle }, s')) =
          rw enough (unpack_one idle message t1 s (n.held used - 1) s' u hd refl heard) in
        ground arith

    pub body_raises :
        (idle : n.Unpacker) (message : Message) (t : RawSocket) (s s' : H) (e : Exception)
        → Unpacks idle message
        → t.handler ≡ true
        → t.message_unpacker ≡ idle
        → t.waiting ≡ Waiting.message_body (length (n.pack message))
        → h.on_message message s ≡ (err e, s')
        → completed h none (n.pack message) (t, s)
          ≡ (err e, (record t { waiting = Waiting.nothing }, s'))
    unfolding completed complete receive_message_body receive_message
    body_raises idle message t s s' e u hd um w heard =
        let used = n.consume idle (n.pack message) in
        let t1 = record t { message_unpacker = used; waiting = Waiting.nothing } in
        let enough : n.held used + 1 ≡ suc (n.held used) = omega arith in
        let unpacked : unpack_messages h (n.held used + 1) (t1, s)
            ≡ some (err e, (record t1 { message_unpacker = idle }, s')) =
          rw enough (unpack_raises idle message t1 s (n.held used) s' e u hd refl heard) in
        ground arith
