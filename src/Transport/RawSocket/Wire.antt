-- ===== src/Transport/RawSocket/Wire.antt =====
-- Two transports: what `send_message` of one writes, the other receives.
use mathlib.Core.List.{append_assoc, append-nil}
use autobahn_cpp_aw.Common.{
  ℕ, Bool, true, ◌+◌, ◌*◌, ap, none, List, [], ◌∷◌, ◌++◌, ◌≡◌, refl, sym, arith, length, ◌∙◌,
}
use autobahn_cpp_aw.Exception.{ok, ◌>>◌}
use autobahn_cpp_aw.Msgpack.{Msgpack}
use autobahn_cpp_aw.Message.{Message}
use autobahn_cpp_aw.Transport.{TransportHandler, Network}
use autobahn_cpp_aw.Transport.RawSocket
use autobahn_cpp_aw.Transport.RawSocket.{RawSocket, htonl, write_message}
use autobahn_cpp_aw.Transport.RawSocket.Receive.{arrive}
use autobahn_cpp_aw.Transport.RawSocket.Frames.{frame, Listening}
use autobahn_cpp_aw.Transport.RawSocket.Streams.{
  frames, UnpacksAll, last_length, hear, arrive-frames,
}

module _ ⦃m : Msgpack⦄ ⦃n : Network⦄ where
  -- on a socket that works every write succeeds and leaves it working, and `log` is what was written
  abbrev pub Logs : (n.Socket → Bool) → (n.Socket → List ℕ) → Type 0
  Logs works log =
      (socket : n.Socket) (bytes : List ℕ)
      → works socket ≡ true
      → let (socket', failure) = n.write socket bytes in
        (failure ≡ none) × (log socket' ≡ log socket ++ bytes) × (works socket' ≡ true)

  module _ {H : Type 0} (h : TransportHandler RawSocket H) where
    -- the calls of `send_message` for these messages, one after another
    unfoldable pub send_all : List Message → RawSocket.Method h (Unit {0})
    send_all [] s = (ok tt, s)
    send_all (message ∷ rest) s = (RawSocket.send_message h message >> send_all rest) s

    send_message-Logs :
        (works : n.Socket → Bool) (log : n.Socket → List ℕ) (message : Message) (t : RawSocket)
        (s : H)
        → Logs works log
        → works t.socket ≡ true
        → let (r, (t', s')) = RawSocket.send_message h message (t, s) in
          (r ≡ ok tt)
          × (s' ≡ s)
          × (log t'.socket ≡ log t.socket ++ frame message)
          × (works t'.socket ≡ true)
    unfolding RawSocket.send_message write_message
    send_message-Logs works log message t s logs ok_now =
        let size = htonl (length (n.pack message)) in
        let w = n.write t.socket size in
        ground (
          arith,
          logs t.socket size ok_now,
          logs w.0 (n.pack message) (logs t.socket size ok_now).2,
          append_assoc (log t.socket) size (n.pack message),
        )

    send_all-Logs :
        (works : n.Socket → Bool) (log : n.Socket → List ℕ) (messages : List Message)
        (t : RawSocket) (s : H)
        → Logs works log
        → works t.socket ≡ true
        → let (r, (t', s')) = send_all messages (t, s) in
          (r ≡ ok tt) × (s' ≡ s) × (log t'.socket ≡ log t.socket ++ frames messages)
    unfolding send_all
    send_all-Logs works log [] t s logs ok_now = (refl, refl, sym (append-nil (log t.socket)))
    send_all-Logs works log (message ∷ rest) t s logs ok_now =
        let (r, (t1, s1)) = RawSocket.send_message h message (t, s) in
        ground (
          arith,
          send_message-Logs works log message t s logs ok_now,
          send_all-Logs works log rest t1 s1 logs
              (send_message-Logs works log message t s logs ok_now).3,
          append_assoc (log t.socket) (frame message) (frames rest),
        )

  module _ {H H' : Type 0} (h : TransportHandler RawSocket H)
      (h' : TransportHandler RawSocket H') where
    -- From one transport to another: if `send_message` is called for a list of messages on a transport
    -- whose socket works, taking every write, and has taken none before, then no call raises, and where a
    -- transport that listens, over an unpacker that reads these messages back, gets the bytes that
    -- the socket took and any others behind them, its handler is called with the same messages in
    -- the same order, provided that it raises for none of them; each message takes two readings, the
    -- bytes behind are left for the readings to come, and the transport listens again.
    pub arrive-send_all :
        (works : n.Socket → Bool) (log : n.Socket → List ℕ) (sender : RawSocket) (owner : H)
        (idle : n.Unpacker) (messages : List Message) (fuel : ℕ) (rest : List ℕ) (t : RawSocket)
        (s s' : H')
        → Logs works log
        → works sender.socket ≡ true
        → log sender.socket ≡ []
        → Listening idle t
        → UnpacksAll idle messages
        → hear h' messages s ≡ (ok tt, s')
        → let (r, (sender', owner')) = send_all h messages (sender, owner) in
          (r ≡ ok tt)
          × (arrive h' (length messages * 2 + fuel) (log sender'.socket ++ rest) (t, s)
              ≡ arrive h' fuel rest
                  (record t { message_length = last_length messages t.message_length }, s'))
    arrive-send_all works log sender owner idle messages fuel rest t s s' logs fit unused l u
          heard =
        let (fine, same, written) = send_all-Logs h works log messages sender owner logs fit in
        (
          fine,
          ap (λ bytes. arrive h' (length messages * 2 + fuel) (bytes ++ rest) (t, s))
                (written ∙ ap (λ bytes. bytes ++ frames messages) unused)
              ∙ arrive-frames h' idle messages fuel rest t s s' l u heard,
        )
