-- ===== src/Session/Joining.antt =====
-- `join`, from the handler that sends HELLO to the WELCOME of the router.
use autobahn_cpp_aw.Common.{false, true, ℕ, pos, List, ◌∷◌, ◌≡◌, refl, arith, none, some}
use autobahn_cpp_aw.Exception.{ok, err, promise_already_satisfied}
use autobahn_cpp_aw.Msgpack.{Msgpack, Object, type_of, positive_integer_type, as_uint64, as_int}
use autobahn_cpp_aw.Message.{Message, field, field_as, is_field_type, size}
use autobahn_cpp_aw.MessageType.{of_code}
use autobahn_cpp_aw.Promise.{pending, satisfied, session_value, is_pending}
use autobahn_cpp_aw.Client.{Client}
use autobahn_cpp_aw.Session.{Session}
use autobahn_cpp_aw.Session.Tasks.{run_join}
use autobahn_cpp_aw.Session.Send.{send_message, transmit, set_join}
use autobahn_cpp_aw.Session.Incoming.{on_message, dispatch_message}
use autobahn_cpp_aw.Session.Incoming.Control.{process_welcome}

module _ ⦃m : Msgpack⦄ ⦃c : Client⦄ where
  -- the session that waits for the router's answer to a HELLO
  abbrev pub greeting : Message → c.Link → Session → Session
  greeting message link s = record s { transport = some (c.transmit link message).0 }

  run_join-sent :
      (message : Message) (s : Session) (link : c.Link)
      → s.running ≡ true
      → s.transport ≡ some link
      → s.session_id ≡ 0
      → (c.transmit link message).1 ≡ none
      → run_join message s ≡ (ok tt, greeting message link s)
  unfolding run_join send_message transmit
  run_join-sent message s link run at out fine = ground arith

  welcomed :
      (h o : Object) (rest : List Object) (id : ℕ) (s : Session)
      → type_of h ≡ positive_integer_type
      → as_int h ≡ some (pos 2)
      → as_uint64 o ≡ some id
      → s.session_join ≡ pending
      → on_message (h ∷ o ∷ rest) s
        ≡ (ok tt, record s { session_id = id; session_join = satisfied (session_value id) })
  unfolding on_message dispatch_message process_welcome set_join field_as field is_field_type
      of_code size
  welcomed h o rest id s th vh vo waiting = ground arith

  -- A session joins: if a session is running over a transport that takes the message, has no id and a
  -- pending future of `join`, the handler of `join` writes its message and changes nothing else, and
  -- the WELCOME that comes then is accepted, gives the session the router's id, and gives that id to
  -- the future of `join`.
  pub run_join-on_message :
      (message : Message) (s : Session) (link : c.Link) (h o : Object) (rest : List Object) (id : ℕ)
      → s.running ≡ true
      → s.transport ≡ some link
      → s.session_id ≡ 0
      → s.session_join ≡ pending
      → (c.transmit link message).1 ≡ none
      → type_of h ≡ positive_integer_type
      → as_int h ≡ some (pos 2)
      → as_uint64 o ≡ some id
      → let (sent, waiting) = run_join message s in
        (sent ≡ ok tt)
        × (waiting ≡ greeting message link s)
        × (on_message (h ∷ o ∷ rest) waiting ≡ (
          ok tt,
          record waiting { session_id = id; session_join = satisfied (session_value id) },
        ))
  run_join-on_message message s link h o rest id run at out waiting fine th vh vo =
      rw (run_join-sent message s link run at out fine)
        (refl, refl, welcomed h o rest id (greeting message link s) th vh vo waiting)

  -- A WELCOME where the future of `join` is settled, as it is for a session that has joined, left and
  -- sent a second HELLO, raises, and gives the session the router's id nevertheless.
  on_message-rejoined :
      (h o : Object) (rest : List Object) (id : ℕ) (s : Session)
      → type_of h ≡ positive_integer_type
      → as_int h ≡ some (pos 2)
      → as_uint64 o ≡ some id
      → is_pending s.session_join ≡ false
      → on_message (h ∷ o ∷ rest) s ≡ (err promise_already_satisfied, record s { session_id = id })
  unfolding on_message dispatch_message process_welcome set_join field_as field is_field_type
      of_code size
  on_message-rejoined h o rest id s th vh vo settled = ground arith
