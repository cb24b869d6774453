-- ===== src/Session/Owners/Kept/Incoming.antt =====
-- `on_message`, the handlers of the session's own calls, and the requests that a pending promise
-- still has.
use autobahn_cpp_aw.Common.{ℕ, true, ◌≡◌}
use autobahn_cpp_aw.Msgpack.{Msgpack}
use autobahn_cpp_aw.Message.{Message}
use autobahn_cpp_aw.Client.{Client}
use autobahn_cpp_aw.Session.{Session, Task}
use autobahn_cpp_aw.Session.Send.{send_message, on_disconnect}
use autobahn_cpp_aw.Session.Tasks.{run_task}
use autobahn_cpp_aw.Session.Incoming.{on_message}
use autobahn_cpp_aw.Session.Incoming.Closed.{Closed, on_message-Closed}
use autobahn_cpp_aw.Session.Incoming.Replies.{
  process_error, process_call_result, process_subscribed, process_unsubscribed, process_registered,
  process_unregistered,
}
use autobahn_cpp_aw.Session.Owners.Controls.{Quiet, is_control, run_task-Quiet}
use autobahn_cpp_aw.Session.Owners.Kept.{
  Leaves, Leaves-refl, Leaves-trans, send_message-Leaves, on_disconnect-Leaves,
}
use autobahn_cpp_aw.Session.Owners.Kept.Replies.{
  process_error-Leaves, process_call_result-Leaves, process_subscribed-Leaves,
  process_unsubscribed-Leaves, process_registered-Leaves, process_unregistered-Leaves,
}

module _ ⦃m : Msgpack⦄ ⦃c : Client⦄ (a : ℕ) where
  Leaves-Closed : (s : Session) → Closed (Leaves a s)
  Leaves-Closed s = record {
    sends = λ message b t out h.
        Leaves-trans a s t (send_message message b t).1 h (send_message-Leaves a message b t);
    errors = λ message t h.
        Leaves-trans a s t (process_error message t).1 h (process_error-Leaves a message t);
    results = λ message t h.
        Leaves-trans a s t (process_call_result message t).1 h
          (process_call_result-Leaves a message t);
    subscribes = λ message t h.
        Leaves-trans a s t (process_subscribed message t).1 h
          (process_subscribed-Leaves a message t);
    unsubscribes = λ message t h.
        Leaves-trans a s t (process_unsubscribed message t).1 h
          (process_unsubscribed-Leaves a message t);
    registers = λ message t h.
        Leaves-trans a s t (process_registered message t).1 h
          (process_registered-Leaves a message t);
    unregisters = λ message t h.
        Leaves-trans a s t (process_unregistered message t).1 h
          (process_unregistered-Leaves a message t);
    joins = λ v t h. h;
    leaves = λ v t h. h;
    identifies = λ id t h. h;
    delivers = λ x e t h. h;
    queues = λ message t out h. h;
  }

  pub on_message-Leaves : (message : Message) (s : Session) → Leaves a s (on_message message s).1
  on_message-Leaves message s =
      on_message-Closed (Leaves a s) (Leaves-Closed s) message s (Leaves-refl a s)

  Leaves-Quiet : (s : Session) → Quiet (λ _. Unit {0}) (Leaves a s)
  Leaves-Quiet s = record {
    sends = λ message b t q h.
        Leaves-trans a s t (send_message message b t).1 h (send_message-Leaves a message b t);
    drops = λ b reason t h.
        Leaves-trans a s t (on_disconnect b reason t).1 h (on_disconnect-Leaves a b reason t);
    starts = λ v t h. h;
    stops = λ v t h. h;
    joins = λ v t h. h;
    leaves = λ v t h. h;
    turns = λ b t h. h;
    says_goodbye = λ t h. h;
    identifies = λ id t h. h;
  }

  pub control-Leaves : (t : Task) (s : Session) → is_control t ≡ true → Leaves a s (run_task t s).1
  control-Leaves t s e =
      run_task-Quiet (λ _. Unit {0}) (Leaves a s) (Leaves-Quiet s) t s e (λ _. tt) (Leaves-refl a s)
