-- ===== src/Session/Protocol/Incoming.antt =====
-- `on_message` gives the transport only messages that a client may send.
use autobahn_cpp_aw.Common.{Option, [], ◌∷◌, ◌++◌, refl}
use autobahn_cpp_aw.Msgpack.{Msgpack}
use autobahn_cpp_aw.Client.{Client}
use autobahn_cpp_aw.Session.{Session, authenticate_task}
use autobahn_cpp_aw.Session.Incoming.Closed.{Closed}
use autobahn_cpp_aw.Session.Incoming.Replies.{
  process_error, process_call_result, process_subscribed, process_unsubscribed, process_registered,
  process_unregistered,
}
use autobahn_cpp_aw.Session.Frame.{
  Silent, process_error-Silent, process_call_result-Silent, process_subscribed-Silent,
  process_unsubscribed-Silent, process_registered-Silent, process_unregistered-Silent,
}
use autobahn_cpp_aw.Session.Protocol.{Speaks, same-Speaks, send_message-Speaks}
use autobahn_cpp_aw.Session.Protocol.Requests.{queued-Speaks}

module _ ⦃m : Msgpack⦄ ⦃c : Client⦄ where
  Silent-Speaks : (o : Option c.Link) (s t : Session) → Silent s t → Speaks o s → Speaks o t
  Silent-Speaks o s t (_, at, _, _, queue) h = same-Speaks o s t queue at h

  pub Speaks-Closed : (o : Option c.Link) → Closed (Speaks o)
  Speaks-Closed o = record {
    sends = λ message b t out h. send_message-Speaks o message b t out h;
    errors = λ message t h.
        Silent-Speaks o t (process_error message t).1 (process_error-Silent message t) h;
    results = λ message t h.
        Silent-Speaks o t (process_call_result message t).1 (process_call_result-Silent message t)
          h;
    subscribes = λ message t h.
        Silent-Speaks o t (process_subscribed message t).1 (process_subscribed-Silent message t) h;
    unsubscribes = λ message t h.
        Silent-Speaks o t (process_unsubscribed message t).1 (process_unsubscribed-Silent message t)
          h;
    registers = λ message t h.
        Silent-Speaks o t (process_registered message t).1 (process_registered-Silent message t) h;
    unregisters = λ message t h.
        Silent-Speaks o t (process_unregistered message t).1 (process_unregistered-Silent message t)
          h;
    joins = λ v t h. same-Speaks o t (record t { session_join = v }) refl refl h;
    leaves = λ v t h. same-Speaks o t (record t { session_leave = v }) refl refl h;
    identifies = λ id t h. same-Speaks o t (record t { session_id = id }) refl refl h;
    delivers =
        λ x e t h. same-Speaks o t (record t { delivered = (x, e) ∷ t.delivered }) refl refl h;
    queues = λ message t out h.
        queued-Speaks o t (record t { tasks = t.tasks ++ authenticate_task message ∷ [] })
          (authenticate_task message) refl refl (λ e. out) h;
  }
