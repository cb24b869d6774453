-- ===== src/Session/Wire.antt =====
-- Answers to calls as bytes on a raw socket, and what the session behind it makes of them.
use autobahn_cpp_aw.Common.{ℕ, ◌+◌, ◌*◌, List, [], ◌∷◌, ◌++◌, ◌≡◌, refl, arith, length, map}
use autobahn_cpp_aw.Exception.{ok}
use autobahn_cpp_aw.Msgpack.{Msgpack}
use autobahn_cpp_aw.Message.{Message}
use autobahn_cpp_aw.Session.Incoming.Calls.{result_of, answered}
use autobahn_cpp_aw.Client.{Client}
use autobahn_cpp_aw.Transport.{Network}
use autobahn_cpp_aw.Transport.RawSocket.{RawSocket}
use autobahn_cpp_aw.Transport.RawSocket.Receive.{arrive}
use autobahn_cpp_aw.Transport.RawSocket.Frames.{Listening}
use autobahn_cpp_aw.Transport.RawSocket.Streams.{
  frames, UnpacksAll, last_length, hear, arrive-frames,
}
use autobahn_cpp_aw.Session.{Session}
use autobahn_cpp_aw.Session.Connection.{session_handler, over_socket}
use autobahn_cpp_aw.Session.Incoming.Results.{
  Answer, result_message, IsResult, InFlight, HasResult, Every, AllApart, after_results,
  on_message-result, still-InFlight, after_results-HasResult,
}

module _ ⦃m : Msgpack⦄ ⦃n : Network⦄ (c : Client) where
  abbrev Answers : Type 0
  Answers = List (Answer ⦃c = over_socket c⦄)

  abbrev messages : Answers → List Message
  messages answers = map (result_message ⦃c = over_socket c⦄) answers

  hear-results :
      (answers : Answers) (s : Session ⦃c = over_socket c⦄)
      → Every ⦃c = over_socket c⦄ (IsResult ⦃c = over_socket c⦄) answers
      → Every ⦃c = over_socket c⦄ (InFlight ⦃c = over_socket c⦄ s) answers
      → AllApart ⦃c = over_socket c⦄ answers
      → hear (session_handler ⦃c = over_socket c⦄) (messages answers) s
        ≡ (ok tt, after_results ⦃c = over_socket c⦄ answers s)
  hear-results [] s forms flying apart = refl
  hear-results (a ∷ rest) s (form, forms) (first, flying) (apart, others) =
      let t = answered ⦃c = over_socket c⦄ a.id a.call (result_of ⦃c = over_socket c⦄ a.rest) s in
      let heard = on_message-result ⦃c = over_socket c⦄ a s form first in
      let later =
        hear-results rest t forms (still-InFlight ⦃c = over_socket c⦄ a rest s apart flying)
          others in
      ground arith

  -- Answers find their calls, in any order and in one burst: when the frames of well-formed RESULT
  -- messages, each for a call in flight with its own id and future, come in one after another on a
  -- raw socket that listens, whatever the order of the calls was, the session behind it gives each
  -- future the arguments of its own message and frees each id; nothing is raised, the bytes behind
  -- the frames stay for the readings to come, and the transport listens again.
  pub arrive-results :
      (idle : n.Unpacker) (answers : Answers) (fuel : ℕ) (rest : List ℕ) (t : RawSocket)
      (s : Session ⦃c = over_socket c⦄)
      → Listening idle t
      → UnpacksAll idle (messages answers)
      → Every ⦃c = over_socket c⦄ (IsResult ⦃c = over_socket c⦄) answers
      → Every ⦃c = over_socket c⦄ (InFlight ⦃c = over_socket c⦄ s) answers
      → AllApart ⦃c = over_socket c⦄ answers
      → let s' = after_results ⦃c = over_socket c⦄ answers s in
        let t' = record t { message_length = last_length (messages answers) t.message_length } in
        let h = session_handler ⦃c = over_socket c⦄ in
        (arrive h (length (messages answers) * 2 + fuel) (frames (messages answers) ++ rest) (t, s)
          ≡ arrive h fuel rest (t', s'))
        × Listening idle t'
        × Every ⦃c = over_socket c⦄ (HasResult ⦃c = over_socket c⦄ s') answers
  arrive-results idle answers fuel rest t s listens unpacks forms flying apart = (
    arrive-frames (session_handler ⦃c = over_socket c⦄) idle (messages answers) fuel rest t s
        (after_results ⦃c = over_socket c⦄ answers s) listens unpacks
        (hear-results answers s forms flying apart),
    listens,
    after_results-HasResult ⦃c = over_socket c⦄ answers s apart,
  )
