-- ===== src/Transport/RawSocket/Streams.antt =====
-- Streams of messages: the frames of messages, as a transport that listens receives them.
use mathlib.Core.List.{append_assoc}
use autobahn_cpp_aw.Common.{
  ℕ, suc, ◌+◌, ◌*◌, ap, none, some, List, [], ◌∷◌, ◌++◌, ◌≡◌, refl, arith, length, ◌∙◌,
  length-append, take-append, drop-append,
}
use autobahn_cpp_aw.Exception.{Exception, ok, err, Action, ◌>>◌}
use autobahn_cpp_aw.Msgpack.{Msgpack}
use autobahn_cpp_aw.Message.{Message}
use autobahn_cpp_aw.Transport.{TransportHandler, Network}
use autobahn_cpp_aw.Transport.RawSocket.{RawSocket, Waiting, htonl}
use autobahn_cpp_aw.Transport.RawSocket.Receive.{arrive, needed, completed}
use autobahn_cpp_aw.Transport.RawSocket.Frames.{
  Unpacks, frame, Listening, header_completed, body_completed, body_raises,
}

module _ ⦃m : Msgpack⦄ ⦃n : Network⦄ where
  abbrev pub frames : List Message → List ℕ
  frames [] = []
  frames (message ∷ rest) = frame message ++ frames rest

  abbrev pub last_length : List Message → ℕ → ℕ
  last_length [] k = k
  last_length (message ∷ rest) k = last_length rest (length (n.pack message))

  abbrev pub UnpacksAll : n.Unpacker → List Message → Type 0
  UnpacksAll idle [] = Unit {0}
  UnpacksAll idle (message ∷ rest) = Unpacks idle message × UnpacksAll idle rest

  module _ {H : Type 0} (h : TransportHandler RawSocket H) where
    -- one reading completes, and the bytes behind it are left for the next
    arrive_one :
        (fuel : ℕ) (now rest : List ℕ) (t t' : RawSocket) (s s' : H)
        → needed t.waiting ≡ some (length now)
        → completed h none now (t, s) ≡ (ok tt, (t', s'))
        → arrive h (suc fuel) (now ++ rest) (t, s) ≡ arrive h fuel rest (t', s')
    unfolding arrive
    arrive_one fuel now rest t t' s s' w c =
        ground (arith, length-append now rest, take-append now rest, drop-append now rest)

    arrive_raises :
        (fuel : ℕ) (now rest : List ℕ) (t t' : RawSocket) (s s' : H) (e : Exception)
        → needed t.waiting ≡ some (length now)
        → completed h none now (t, s) ≡ (err e, (t', s'))
        → arrive h (suc fuel) (now ++ rest) (t, s) ≡ (err e, rest, (t', s'))
    unfolding arrive
    arrive_raises fuel now rest t t' s s' e w c =
        ground (arith, length-append now rest, take-append now rest, drop-append now rest)

    -- the calls of the handler for these messages, one after another
    abbrev pub hear : List Message → Action H (Unit {0})
    hear [] s = (ok tt, s)
    hear (message ∷ rest) s = (h.on_message message >> hear rest) s

    htonl-length : (x : ℕ) → length (htonl x) ≡ 4
    unfolding htonl
    htonl-length x = refl

    -- the frame of one message, whose handler call succeeds
    arrive-frame :
        (idle : n.Unpacker) (message : Message) (fuel : ℕ) (rest : List ℕ) (t : RawSocket)
        (s s' : H)
        → Listening idle t
        → Unpacks idle message
        → h.on_message message s ≡ (ok tt, s')
        → arrive h (suc (suc fuel)) (frame message ++ rest) (t, s)
          ≡ arrive h fuel rest (record t { message_length = length (n.pack message) }, s')
    arrive-frame idle message fuel rest t s s' l u heard =
        let k = length (n.pack message) in
        let t1 = record t { message_length = k; waiting = Waiting.message_body k } in
        ap (λ bytes. arrive h (suc (suc fuel)) bytes (t, s))
          (append_assoc (htonl k) (n.pack message) rest)
        ∙ arrive_one (suc fuel) (htonl k) (n.pack message ++ rest) t t1 s s
            (ground (arith, htonl-length k)) (header_completed h idle message t s l u)
        ∙ arrive_one fuel (n.pack message) rest t1 (record t { message_length = k }) s s' refl
            (body_completed h idle message t1 s s' u (l.1) (l.2) refl heard ∙ (ground (arith, l)))

    hear_first :
        (message : Message) (messages : List Message) (s s' : H)
        → hear (message ∷ messages) s ≡ (ok tt, s')
        → (s1 : H) × (h.on_message message s ≡ (ok tt, s1)) × (hear messages s1 ≡ (ok tt, s'))
    hear_first message messages s s' heard =
        ((h.on_message message s).1, ground arith, ground arith)

    -- the frames of a list of messages, in two readings for each message
    pub arrive-frames :
        (idle : n.Unpacker) (messages : List Message) (fuel : ℕ) (rest : List ℕ) (t : RawSocket)
        (s s' : H)
        → Listening idle t
        → UnpacksAll idle messages
        → hear messages s ≡ (ok tt, s')
        → arrive h (length messages * 2 + fuel) (frames messages ++ rest) (t, s)
          ≡ arrive h fuel rest
              (record t { message_length = last_length messages t.message_length }, s')
    arrive-frames idle [] fuel rest t s s' l u heard =
        let count : ◌+◌ 0 fuel ≡ fuel = omega arith in
        let same : s ≡ s' = ap (λ p. p.1) heard in ground (arith, count)
    arrive-frames idle (message ∷ messages) fuel rest t s s' l u heard =
        let (s1, first, others) = hear_first message messages s s' heard in
        let t1 = record t { message_length = length (n.pack message) } in
        let count : suc (length messages) * 2 + fuel ≡ suc (suc (length messages * 2 + fuel)) =
          omega arith in
        ap (λ k. arrive h k (frames (message ∷ messages) ++ rest) (t, s)) count
        ∙ ap (λ bytes. arrive h (suc (suc (length messages * 2 + fuel))) bytes (t, s))
            (append_assoc (frame message) (frames messages) rest)
        ∙ arrive-frame idle message (length messages * 2 + fuel) (frames messages ++ rest) t s s1 l
            (u.0) first
        ∙ arrive-frames idle messages fuel rest t1 s1 s' l (u.1) others

    -- A message whose handler raises ends the receiving: the exception reaches the io service, no
    -- reading is started any more, and the socket is as it was; the bytes behind it stay unread.
    pub arrive-raises :
        (idle : n.Unpacker) (message : Message) (fuel : ℕ) (rest : List ℕ) (t : RawSocket)
        (s s' : H) (e : Exception)
        → Listening idle t
        → Unpacks idle message
        → h.on_message message s ≡ (err e, s')
        → arrive h (suc (suc fuel)) (frame message ++ rest) (t, s) ≡ (
          err e,
          rest,
          (record t { message_length = length (n.pack message); waiting = Waiting.nothing }, s'),
        )
    arrive-raises idle message fuel rest t s s' e l u heard =
        let k = length (n.pack message) in
        let t1 = record t { message_length = k; waiting = Waiting.message_body k } in
        ap (λ bytes. arrive h (suc (suc fuel)) bytes (t, s))
          (append_assoc (htonl k) (n.pack message) rest)
        ∙ arrive_one (suc fuel) (htonl k) (n.pack message ++ rest) t t1 s s
            (ground (arith, htonl-length k)) (header_completed h idle message t s l u)
        ∙ arrive_raises fuel (n.pack message) rest t1 (record t1 { waiting = Waiting.nothing }) s s'
            e refl (body_raises h idle message t1 s s' e u (l.1) (l.2) refl heard)
