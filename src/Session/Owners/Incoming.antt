-- ===== src/Session/Owners/Incoming.antt =====
-- `on_message` and the owners of promises.
use autobahn_cpp_aw.Common.{ℕ, Bool, [], ◌∷◌, ◌++◌, arith, ◌≡◌, ◌∙◌}
use autobahn_cpp_aw.Msgpack.{Msgpack}
use autobahn_cpp_aw.Message.{Message}
use autobahn_cpp_aw.Client.{Client}
use autobahn_cpp_aw.Session.{Session, authenticate_task}
use autobahn_cpp_aw.Session.Send.{send_message}
use autobahn_cpp_aw.Session.Incoming.{on_message}
use autobahn_cpp_aw.Session.Incoming.Closed.{Closed, on_message-Closed}
use autobahn_cpp_aw.Session.Incoming.Replies.{
  process_error, process_call_result, process_subscribed, process_unsubscribed, process_registered,
  process_unregistered,
}
use autobahn_cpp_aw.Session.Owners.{
  queued, owns, queued-append, Keeps, Keeps-refl, Keeps-trans, send_message-Keeps,
}
use autobahn_cpp_aw.Session.Owners.Replies.{
  process_error-Keeps, process_call_result-Keeps, process_subscribed-Keeps,
  process_unsubscribed-Keeps, process_registered-Keeps, process_unregistered-Keeps,
}

module _ ⦃m : Msgpack⦄ ⦃c : Client⦄ (a : ℕ) (bad : ℕ → ℕ → Bool) where
  queued-authenticate :
      (message : Message) (s : Session)
      → queued a bad (s.tasks ++ authenticate_task message ∷ []) ≡ queued a bad s.tasks
  unfolding queued owns
  queued-authenticate message s =
      queued-append a bad s.tasks (authenticate_task message ∷ []) ∙ omega arith

  Keeps-Closed : (s : Session) → Closed (Keeps a bad s)
  Keeps-Closed s = record {
    sends = λ message b t out h.
        Keeps-trans a bad s t (send_message message b t).1 h (send_message-Keeps a bad message b t);
    errors = λ message t h.
        Keeps-trans a bad s t (process_error message t).1 h (process_error-Keeps a bad message t);
    results = λ message t h.
        Keeps-trans a bad s t (process_call_result message t).1 h
          (process_call_result-Keeps a bad message t);
    subscribes = λ message t h.
        Keeps-trans a bad s t (process_subscribed message t).1 h
          (process_subscribed-Keeps a bad message t);
    unsubscribes = λ message t h.
        Keeps-trans a bad s t (process_unsubscribed message t).1 h
          (process_unsubscribed-Keeps a bad message t);
    registers = λ message t h.
        Keeps-trans a bad s t (process_registered message t).1 h
          (process_registered-Keeps a bad message t);
    unregisters = λ message t h.
        Keeps-trans a bad s t (process_unregistered message t).1 h
          (process_unregistered-Keeps a bad message t);
    joins = λ v t h. h;
    leaves = λ v t h. h;
    identifies = λ id t h. h;
    delivers = λ x e t h. h;
    queues = λ message t out (w, q, n, i, p). (w, queued-authenticate message t ∙ q, n, i, p);
  }

  pub on_message-Keeps : (message : Message) (s : Session) → Keeps a bad s (on_message message s).1
  on_message-Keeps message s =
      on_message-Closed (Keeps a bad s) (Keeps-Closed s) message s (Keeps-refl a bad s)
