-- ===== src/Session/Protocol/Steps.antt =====
-- Every step of a session gives its transport nothing but what a client may send.
use mathlib.Core.Option.{map as map_option}
use autobahn_cpp_aw.Common.{
  is_some, ℕ, true, Option, none, some, List, [], ◌++◌, ◌≡◌, refl, ap, ◌∙◌, arith,
}
use autobahn_cpp_aw.Common.Table.{emplace}
use autobahn_cpp_aw.Exception.{◌>>◌}
use autobahn_cpp_aw.Msgpack.{Msgpack}
use autobahn_cpp_aw.Message.{Message}
use autobahn_cpp_aw.Message.Outgoing.{IsOutgoing}
use autobahn_cpp_aw.Promise.{Promise, failed, satisfied, unit_value}
use autobahn_cpp_aw.Client.{Client}
use autobahn_cpp_aw.Session.{
  Session, Method, Task, publish_task, subscribe_task, unsubscribe_task, call_task, provide_task,
  unprovide_task,
}
use autobahn_cpp_aw.Session.Send.{send_message, set_promise}
use autobahn_cpp_aw.Session.Tasks.{
  run_task, attempt, run_publish, run_subscribe, run_unsubscribe, run_call, run_provide,
  run_unprovide, on_attach, on_detach,
}
use autobahn_cpp_aw.Session.Incoming.Closed.{on_message-Closed}
use autobahn_cpp_aw.Session.Owners.Controls.{Quiet, bind-Quiet, catch_std-Quiet, run_task-Quiet}
use autobahn_cpp_aw.Session.Ordering.{All, transmit_all}
use autobahn_cpp_aw.Session.Protocol.{
  IsReady, Speaks, All-without, same-Speaks, send_message-Speaks, on_disconnect-Speaks,
}
use autobahn_cpp_aw.Session.Steps.{
  Step, requests, runs, receives, disconnects, attaches, detaches, Reachable, initial, next,
}
use autobahn_cpp_aw.Session.Protocol.Requests.{request-Speaks}
use autobahn_cpp_aw.Session.Protocol.Incoming.{Speaks-Closed}

module _ ⦃m : Msgpack⦄ ⦃c : Client⦄ where
  Speaks-Quiet : (o : Option c.Link) → Quiet IsOutgoing (Speaks o)
  Speaks-Quiet o = record {
    sends = λ message b t out h. send_message-Speaks o message b t out h;
    drops = λ b reason t h. on_disconnect-Speaks o b reason t h;
    starts = λ v t h. same-Speaks o t (record t { session_start = v }) refl refl h;
    stops = λ v t h. same-Speaks o t (record t { session_stop = v }) refl refl h;
    joins = λ v t h. same-Speaks o t (record t { session_join = v }) refl refl h;
    leaves = λ v t h. same-Speaks o t (record t { session_leave = v }) refl refl h;
    turns = λ b t h. same-Speaks o t (record t { running = b }) refl refl h;
    says_goodbye = λ t h. same-Speaks o t (record t { goodbye_sent = true }) refl refl h;
    identifies = λ id t h. same-Speaks o t (record t { session_id = id }) refl refl h;
  }

  set_promise-Speaks :
      (o : Option c.Link) (a : ℕ) (v : Promise) (s : Session)
      → Speaks o s
      → Speaks o (set_promise a v s).1
  unfolding set_promise
  set_promise-Speaks o a v s h =
      same-Speaks o s (set_promise a v s).1 (ground arith) (ground arith) h

  attempt-Speaks :
      (o : Option c.Link) (message : Message) (a : ℕ) (rest : Method (Unit {0})) (s : Session)
      → IsOutgoing message
      → ((t : Session) → Speaks o t → Speaks o (rest t).1)
      → Speaks o s
      → Speaks o (attempt message a rest s).1
  unfolding attempt
  attempt-Speaks o message a rest s out keep h =
      catch_std-Quiet IsOutgoing (Speaks o) (Speaks-Quiet o) s
        (λ e. set_promise a (failed (c.copy_exception e))) ((send_message message true >> rest) s)
        (bind-Quiet IsOutgoing (Speaks o) (Speaks-Quiet o) s (λ v. rest)
          (send_message message true s) (send_message-Speaks o message true s out h) (λ v. keep))
        (λ e t. set_promise-Speaks o a (failed (c.copy_exception e)) t)

  run_task-Speaks :
      (o : Option c.Link) (t : Task) (s : Session)
      → IsReady t
      → Speaks o s
      → Speaks o (run_task t s).1
  unfolding run_task run_publish run_subscribe run_unsubscribe run_call run_provide run_unprovide
  run_task-Speaks o (publish_task message a) s fine h =
      attempt-Speaks o message a _ s (fine refl) (set_promise-Speaks o a (satisfied unit_value)) h
  run_task-Speaks o (subscribe_task message id r) s fine h =
      attempt-Speaks o message r.response _ s (fine refl)
        (λ t.
          same-Speaks o t (record t { subscribe_requests = emplace id r t.subscribe_requests }) refl
            refl)
        h
  run_task-Speaks o (unsubscribe_task message id r) s fine h =
      attempt-Speaks o message r.response _ s (fine refl)
        (λ t.
          same-Speaks o t (record t { unsubscribe_requests = emplace id r t.unsubscribe_requests })
            refl refl)
        h
  run_task-Speaks o (call_task message id r) s fine h =
      attempt-Speaks o message r.result _ s (fine refl)
        (λ t. same-Speaks o t (record t { calls = emplace id r t.calls }) refl refl) h
  run_task-Speaks o (provide_task message id r) s fine h =
      attempt-Speaks o message r.response _ s (fine refl)
        (λ t.
          same-Speaks o t (record t { register_requests = emplace id r t.register_requests }) refl
            refl)
        h
  run_task-Speaks o (unprovide_task message id r) s fine h =
      attempt-Speaks o message r.response _ s (fine refl)
        (λ t.
          same-Speaks o t (record t { unregister_requests = emplace id r t.unregister_requests })
            refl refl)
        h
  run_task-Speaks o t s fine h =
      run_task-Quiet IsOutgoing (Speaks o) (Speaks-Quiet o) t s refl fine h

  fresh-Speaks : (s : Session) → All IsReady s.tasks → Speaks s.transport s
  fresh-Speaks s ready = record {
    ready = ready;
    sent = [];
    outgoing = tt;
    fed = nothing s.transport;
  }
    where
      nothing : (o : Option c.Link) → o ≡ map_option (transmit_all []) o
      nothing none = refl
      nothing (some l) = refl

  on_attach-attached :
      (link : c.Link) (s : Session) → is_some s.transport ≡ true → (on_attach link s).1 ≡ s
  unfolding on_attach
  on_attach-attached link s h = ground arith

  on_detach-attached :
      (s : Session) → is_some (on_detach s).1.transport ≡ true → (on_detach s).1 ≡ s
  unfolding on_detach
  on_detach-attached s h = ground arith

  on_attach-tasks : (link : c.Link) (s : Session) → (on_attach link s).1.tasks ≡ s.tasks
  unfolding on_attach
  on_attach-tasks link s = ground arith

  on_detach-tasks : (s : Session) → (on_detach s).1.tasks ≡ s.tasks
  unfolding on_detach
  on_detach-tasks s = ground arith

  -- what a step keeps, over the transport `o`
  abbrev Kept : Option c.Link → Session → Session → Type 0
  Kept o s t =
      All IsReady t.tasks × (is_some s.transport ≡ true → is_some t.transport ≡ true → Speaks o t)

  always : (o : Option c.Link) (s t : Session) → Speaks o t → Kept o s t
  always o s t h = (h.ready, λ _ _. h)

  Step-Speaks : (o : Option c.Link) {s t : Session} → Step s t → Speaks o s → Kept o s t
  Step-Speaks o {s} (requests u) h = always o s _ (request-Speaks o u s h)
  Step-Speaks o {s} (runs before after t e) h =
      let (fine, rest) = All-without IsReady before after t (rw (← e) h.ready) in
      let s' = record s { tasks = before ++ after } in
      let h' : Speaks o s' = record {
        ready = rest;
        sent = h.sent;
        outgoing = h.outgoing;
        fed = h.fed;
      } in
      always o s _ (run_task-Speaks o t s' fine h')
  Step-Speaks o {s} (receives message) h =
      always o s _ (on_message-Closed (Speaks o) (Speaks-Closed o) message s h)
  Step-Speaks o {s} (disconnects b reason) h = always o s _ (on_disconnect-Speaks o b reason s h)
  Step-Speaks o {s} (attaches link) h =
      (rw (on_attach-tasks link s) h.ready, λ before _. rw (on_attach-attached link s before) h)
  Step-Speaks o {s} detaches h =
      (rw (on_detach-tasks s) h.ready, λ _ after. rw (on_detach-attached s after) h)

  Reachable-ready : {s : Session} → Reachable s → All IsReady s.tasks
  Reachable-ready initial = tt
  Reachable-ready (next {s} r step) =
      (Step-Speaks s.transport step (fresh-Speaks s (Reachable-ready r))).0

  -- What can become of a session while it has a transport.
  pub data Attached (s : Session) : Session → Type 0 where
    here : Attached s s
    further : {t u : Session} → Attached s t → Step t u → is_some u.transport ≡ true → Attached s u

  Attached-Speaks :
      (s t : Session)
      → Attached s t
      → is_some s.transport ≡ true
      → Speaks s.transport s
      → (is_some t.transport ≡ true) × Speaks s.transport t
  Attached-Speaks s _ here at h = (at, h)
  Attached-Speaks s _ (further {t} path step at') at h =
      let (on, speaks) = Attached-Speaks s t path at h in
      (at', (Step-Speaks s.transport step speaks).1 on at')

  -- Only well-formed messages: whatever has happened to a session since it was made, and whatever
  -- then happens to it while it has a transport, in any number of steps and any order, be they calls
  -- of users, handlers of the io service, messages of the router with the procedures and event
  -- handlers that they run, or lost connections, its transport takes nothing but messages of the
  -- types that a client may send, with the number and the types of fields that the WAMP
  -- specification lays down for each. The arguments at the end of a message are those that users
  -- give, and nothing is said of their types.
  pub Reachable-sends :
      {s t : Session}
      → Reachable s
      → Attached s t
      → (link : c.Link) → s.transport ≡ some link
      → (messages : List Message) × All IsOutgoing messages
        × (t.transport ≡ some (transmit_all messages link))
  Reachable-sends {s} {t} r path link at =
      let h = (Attached-Speaks s t path (rw at refl) (fresh-Speaks s (Reachable-ready r))).1 in
      (h.sent, h.outgoing, h.fed ∙ ap (map_option (transmit_all h.sent)) at)
