-- ===== src/Session/Incoming/Closing.antt =====
-- GOODBYE and ABORT from the router.
use autobahn_cpp_aw.Common.{true, false, [], ◌∷◌, ◌≡◌, refl, arith, is_some}
use autobahn_cpp_aw.Exception.{err, protocol_error, no_session_error}
use autobahn_cpp_aw.Msgpack.{Msgpack, Object, type_of, map_type, str_type}
use autobahn_cpp_aw.Message.{Message, size}
use autobahn_cpp_aw.Client.{Client}
use autobahn_cpp_aw.Session.{Session}
use autobahn_cpp_aw.Session.Send.{send_message}
use autobahn_cpp_aw.Session.Incoming.Control.{process_goodbye, process_abort}
use autobahn_cpp_aw.Session.Incoming.Fields.{is_field_type-eq}

module _ ⦃m : Msgpack⦄ ⦃c : Client⦄ where
  -- A router's GOODBYE that the client did not ask for is never answered: in a session that runs
  -- and has a transport, and whether it is joined or not, the handler raises `no_session_error`,
  -- the session is left unjoined and nothing else of it changes, so that the transport is given
  -- no message and the future of `leave` stays as it was.
  pub process_goodbye-unanswered :
      (message : Message) (s : Session)
      → s.goodbye_sent ≡ false
      → s.running ≡ true
      → is_some s.transport ≡ true
      → process_goodbye message s ≡ (err no_session_error, record s { session_id = 0 })
  unfolding process_goodbye send_message
  process_goodbye-unanswered message s unsent run attached = ground arith

  -- An ABORT of the protocol's form, with a dictionary and a text, is refused as malformed, and the
  -- session does not change, the future of `join` included.
  pub process_abort-refused :
      (code details reason : Object) (s : Session)
      → type_of details ≡ map_type
      → type_of reason ≡ str_type
      → process_abort (code ∷ details ∷ reason ∷ []) s
        ≡ (err (protocol_error "ABORT - Details must be a dictionary"), s)
  unfolding process_abort size
  process_abort-refused code details reason s td tr =
      ground (arith, is_field_type-eq (code ∷ details ∷ reason ∷ []) 1 map_type details refl)
