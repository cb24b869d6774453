-- ===== src/Session/Frame/Messages.antt =====
-- `on_message` and the frame of a session.
use autobahn_cpp_aw.Msgpack.{Msgpack}
use autobahn_cpp_aw.Message.{Message}
use autobahn_cpp_aw.Client.{Client}
use autobahn_cpp_aw.Session.{Session}
use autobahn_cpp_aw.Session.Send.{send_message}
use autobahn_cpp_aw.Session.Incoming.{on_message}
use autobahn_cpp_aw.Session.Incoming.Closed.{Closed, on_message-Closed}
use autobahn_cpp_aw.Session.Incoming.Replies.{
  process_error, process_call_result, process_subscribed, process_unsubscribed, process_registered,
  process_unregistered,
}
use autobahn_cpp_aw.Session.Frame.{
  Frame, Frame-refl, Frame-trans, Frame-Silent, send_message-Frame, process_error-Silent,
  process_call_result-Silent, process_subscribed-Silent, process_unsubscribed-Silent,
  process_registered-Silent, process_unregistered-Silent,
}

module _ ⦃m : Msgpack⦄ ⦃c : Client⦄ where
  Frame-Closed : (s : Session) → Closed (Frame s)
  Frame-Closed s = record {
    sends = λ message b t out h.
        Frame-trans s t (send_message message b t).1 h (send_message-Frame message b t);
    errors = λ message t h.
        Frame-trans s t (process_error message t).1 h
          (Frame-Silent t (process_error message t).1 (process_error-Silent message t));
    results = λ message t h.
        Frame-trans s t (process_call_result message t).1 h
          (Frame-Silent t (process_call_result message t).1 (process_call_result-Silent message t));
    subscribes = λ message t h.
        Frame-trans s t (process_subscribed message t).1 h
          (Frame-Silent t (process_subscribed message t).1 (process_subscribed-Silent message t));
    unsubscribes = λ message t h.
        Frame-trans s t (process_unsubscribed message t).1 h (
          Frame-Silent t (process_unsubscribed message t).1
            (process_unsubscribed-Silent message t));
    registers = λ message t h.
        Frame-trans s t (process_registered message t).1 h
          (Frame-Silent t (process_registered message t).1 (process_registered-Silent message t));
    unregisters = λ message t h.
        Frame-trans s t (process_unregistered message t).1 h (
          Frame-Silent t (process_unregistered message t).1
            (process_unregistered-Silent message t));
    joins = λ v t h. h;
    leaves = λ v t h. h;
    identifies = λ id t h. h;
    delivers = λ x e t h. h;
    queues = λ message t out h. h;
  }

  -- No message, well-formed or not, starts or stops a session, attaches or detaches its transport,
  -- or changes the futures of `start` and `stop`.
  pub on_message-Frame : (message : Message) (s : Session) → Frame s (on_message message s).1
  on_message-Frame message s = on_message-Closed (Frame s) (Frame-Closed s) message s (Frame-refl s)
