-- ===== src/Session/Leaving.antt =====
-- `leave` and then `stop`, from the handler that sends GOODBYE to the end of the session.
use autobahn_cpp_aw.Common.{true, false, ◌≡◌, arith, none, some}
use autobahn_cpp_aw.Exception.{ok}
use autobahn_cpp_aw.Msgpack.{Msgpack}
use autobahn_cpp_aw.Message.{Message}
use autobahn_cpp_aw.Promise.{pending, satisfied, reason_value}
use autobahn_cpp_aw.Client.{Client}
use autobahn_cpp_aw.Session.{Session}
use autobahn_cpp_aw.Session.Tasks.{run_leave, send_goodbye}
use autobahn_cpp_aw.Session.Send.{send_message, transmit, set_leave}

module _ ⦃m : Msgpack⦄ ⦃c : Client⦄ where
  -- the session that has said goodbye
  abbrev pub left_with : Message → c.Link → Session → Session
  left_with message link s = record s {
    transport = some (c.transmit link message).0;
    goodbye_sent = true;
    session_leave = satisfied (reason_value "leaving");
    session_id = 0;
  }

  pub run_leave-sent :
      (message : Message) (s : Session) (link : c.Link)
      → s.running ≡ true
      → s.transport ≡ some link
      → s.goodbye_sent ≡ false
      → s.session_leave ≡ pending
      → (c.transmit link message).1 ≡ none
      → run_leave message s ≡ (ok tt, left_with message link s)
  unfolding run_leave send_goodbye send_message transmit set_leave
  run_leave-sent message s link run at unsent fresh fine = ground arith
