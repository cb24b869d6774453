-- ===== src/Transport/WebSocket/Agreement.antt =====
-- The two transports compared, on one payload.
use autobahn_cpp_aw.Common.{
  ℕ, zero, suc, ◌+◌, true, Option, none, some, List, ◌≡◌, refl, arith, Option-cases, inl, inr, ap,
}
use autobahn_cpp_aw.Exception.{Result, ok, err}
use autobahn_cpp_aw.Msgpack.{Msgpack, Object}
use autobahn_cpp_aw.Transport.{TransportHandler, Network}
use autobahn_cpp_aw.Transport.RawSocket.{RawSocket}
use autobahn_cpp_aw.Transport.RawSocket.Receive as Raw
use autobahn_cpp_aw.Transport.WebSocket as Web
use autobahn_cpp_aw.Transport.WebSocket.{WebSocket, Endpoint}

module _ ⦃m : Msgpack⦄ ⦃n : Network⦄ where
  -- what a transport has raised, what it holds unread, and the state of its handler
  abbrev pub Seen : Type 0 → Type 0
  Seen H = Result (Unit {0}) × n.Unpacker × H

module _ ⦃m : Msgpack⦄ ⦃n : Network⦄ ⦃w : Endpoint n.ErrorCode⦄ {H : Type 0} where
  abbrev pub raw_view : Result (Unit {0}) × (RawSocket × H) → Seen H
  raw_view (r, (t, s)) = (r, t.message_unpacker, s)

  abbrev pub web_view : Result (Unit {0}) × (WebSocket × H) → Seen H
  web_view (r, (t, s)) = (r, t.message_unpacker, s)

  abbrev map_view : {A : Type 0} → (A → Seen H) → Option A → Option (Seen H)
  map_view f none = none
  map_view f (some a) = some (f a)

  module _ (h : TransportHandler RawSocket H) (g : TransportHandler WebSocket H)
      (same : h.on_message ≡ g.on_message) where
    agree_step :
        (fuel : ℕ) (t : RawSocket) (t' : WebSocket) (s : H)
        (found : Result (Option (Object × n.Unpacker)))
        → n.next t.message_unpacker ≡ found
        → t'.message_unpacker ≡ t.message_unpacker
        → t.handler ≡ true
        → ((u : RawSocket) (u' : WebSocket) (s' : H)
            → u'.message_unpacker ≡ u.message_unpacker
            → u.handler ≡ true
            → map_view raw_view (Raw.unpack_messages h fuel (u, s'))
              ≡ map_view web_view (Web.unpack_messages g fuel (u', s')))
        → map_view raw_view (Raw.unpack_messages h (suc fuel) (t, s))
          ≡ map_view web_view (Web.unpack_messages g (suc fuel) (t', s))
    unfolding Raw.unpack_messages Web.unpack_messages
    agree_step fuel t t' s (err e) p q r ih = ground arith
    agree_step fuel t t' s (ok none) p q r ih = ground arith
    agree_step fuel t t' s (ok (some (o, u))) p q r ih = elim (Option-cases (n.as_fields o)) [
      | inl no_fields ↦ ground arith
      | inr (fields, eq) ↦
          let heard : h.on_message fields s ≡ g.on_message fields s = ap (λ f. f fields s) same in
          ground (
            arith,
            heard,
            ih (record t { message_unpacker = u }) (record t' { message_unpacker = u })
                (g.on_message fields s).1,
          )
    ]

    agree :
        (fuel : ℕ) (t : RawSocket) (t' : WebSocket) (s : H)
        → t'.message_unpacker ≡ t.message_unpacker
        → t.handler ≡ true
        → map_view raw_view (Raw.unpack_messages h fuel (t, s))
          ≡ map_view web_view (Web.unpack_messages g fuel (t', s))
    unfolding Raw.unpack_messages Web.unpack_messages
    agree zero t t' s q r = refl
    agree (suc fuel) t t' s q r =
        agree_step fuel t t' s (n.next t.message_unpacker) refl q r (agree fuel)

    -- A payload means the same on both transports: with a handler attached that takes messages alike,
    -- and the same bytes left unread before, the raw socket's body of a message and the binary frame
    -- of a websocket raise the same, leave the same unread, and bring the handler into the same state.
    pub receive_message_body-on_ws_message :
        (payload : List ℕ) (t : RawSocket) (t' : WebSocket) (s : H)
        → t'.message_unpacker ≡ t.message_unpacker
        → t.handler ≡ true
        → t'.handler ≡ true
        → raw_view (Raw.receive_message_body h none payload (t, s))
          ≡ web_view (Web.on_ws_message g true payload (t', s))
    unfolding Raw.receive_message_body Raw.receive_message Web.on_ws_message Web.receive_message
    receive_message_body-on_ws_message payload t t' s q r r' =
        let u = n.consume t.message_unpacker payload in
        ground (
          arith,
          agree (n.held u + 1) (record t { message_unpacker = u })
              (record t' { message_unpacker = u }) s refl r,
        )
