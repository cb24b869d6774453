-- ===== src/Session/Final/Later.antt =====
-- What a session may become, and what it keeps of promises and of the requests that wait for them.
use autobahn_cpp_aw.Common.{ℕ, ◌≤◌, ◌<◌, true, false, ◌++◌, ◌≡◌, refl, arith, ap, ◌∙◌}
use autobahn_cpp_aw.Msgpack.{Msgpack}
use autobahn_cpp_aw.Message.{Message}
use autobahn_cpp_aw.Promise.{is_pending, satisfied, unit_value}
use autobahn_cpp_aw.Client.{Client}
use autobahn_cpp_aw.Session.{
  Session, Method, Task, start_task, stop_task, join_task, leave_task, publish_task, subscribe_task,
  unsubscribe_task, call_task, provide_task, unprovide_task, authenticate_task,
}
use autobahn_cpp_aw.Session.Send.{set_promise, on_disconnect, send_message}
use autobahn_cpp_aw.Session.Tasks.{
  run_task, run_publish, run_subscribe, run_unsubscribe, run_call, run_provide, run_unprovide,
  attempt, on_attach, on_detach,
}
use autobahn_cpp_aw.Session.Layouts.{request_lem}
use autobahn_cpp_aw.Session.Steps.{
  UserCall, request, Step, requests, runs, receives, disconnects, attaches, detaches,
}
use autobahn_cpp_aw.Session.Incoming.Closed.{Closed, on_message-Closed}
use autobahn_cpp_aw.Session.Incoming.Replies.{
  process_error, process_call_result, process_subscribed, process_unsubscribed, process_registered,
  process_unregistered,
}
use autobahn_cpp_aw.Session.Owners.Controls.{Quiet, is_control, run_task-Quiet}
use autobahn_cpp_aw.Session.Owners.Running.{attempt-ends}
use autobahn_cpp_aw.Session.Owners.Kept.Reach.{Step-made}
use autobahn_cpp_aw.Session.Final.{
  Stays, Stays-refl, Stays-trans, set_promise-Stays, on_disconnect-Stays, send_message-Stays,
  process_error-Stays, process_call_result-Stays, process_subscribed-Stays,
  process_unsubscribed-Stays, process_registered-Stays, process_unregistered-Stays,
}

module _ ⦃m : Msgpack⦄ ⦃c : Client⦄ where
  -- what a session can become, with itself
  pub data Later (s : Session) : Session → Type 0 where
    here : Later s s
    further : {v u : Session} → Later s v → Step v u → Later s u

module _ ⦃m : Msgpack⦄ ⦃c : Client⦄ (a : ℕ) where
  Stays-Closed : (s : Session) → Closed (Stays a s)
  Stays-Closed s = record {
    sends = λ message b t out h.
        Stays-trans a s t (send_message message b t).1 h (send_message-Stays a message b t);
    errors = λ message t h.
        Stays-trans a s t (process_error message t).1 h (process_error-Stays a message t);
    results = λ message t h.
        Stays-trans a s t (process_call_result message t).1 h
          (process_call_result-Stays a message t);
    subscribes = λ message t h.
        Stays-trans a s t (process_subscribed message t).1 h (process_subscribed-Stays a message t);
    unsubscribes = λ message t h.
        Stays-trans a s t (process_unsubscribed message t).1 h
          (process_unsubscribed-Stays a message t);
    registers = λ message t h.
        Stays-trans a s t (process_registered message t).1 h (process_registered-Stays a message t);
    unregisters = λ message t h.
        Stays-trans a s t (process_unregistered message t).1 h
          (process_unregistered-Stays a message t);
    joins = λ v t h. h;
    leaves = λ v t h. h;
    identifies = λ id t h. h;
    delivers = λ x e t h. h;
    queues = λ message t out h. h;
  }

  Stays-Quiet : (s : Session) → Quiet (λ _. Unit {0}) (Stays a s)
  Stays-Quiet s = record {
    sends = λ message b t q h.
        Stays-trans a s t (send_message message b t).1 h (send_message-Stays a message b t);
    drops = λ b reason t h.
        Stays-trans a s t (on_disconnect b reason t).1 h (on_disconnect-Stays a b reason t);
    starts = λ v t h. h;
    stops = λ v t h. h;
    joins = λ v t h. h;
    leaves = λ v t h. h;
    turns = λ b t h. h;
    says_goodbye = λ t h. h;
    identifies = λ id t h. h;
  }

  control-Stays : (t : Task) (s : Session) → is_control t ≡ true → Stays a s (run_task t s).1
  control-Stays t s e =
      run_task-Quiet (λ _. Unit {0}) (Stays a s) (Stays-Quiet s) t s e (λ _. tt) (Stays-refl a s)

  attempt-Stays :
      (message : Message) (b : ℕ) (rest : Method (Unit {0})) (s : Session)
      → ((t : Session) → Stays a t (rest t).1)
      → Stays a s (attempt message b rest s).1
  attempt-Stays message b rest s more =
      let t = (send_message message true s).1 in
      let sent = send_message-Stays a message true s in
      attempt-ends (λ t. Stays a s t) message b rest s sent
        (Stays-trans a s t (rest t).1 sent (more t))
        (λ v t h. Stays-trans a s t (set_promise b v t).1 h (set_promise-Stays a b v t))

  run_task-Stays : (t : Task) (s : Session) → Stays a s (run_task t s).1
  unfolding run_task run_publish run_subscribe run_unsubscribe run_call run_provide run_unprovide
  run_task-Stays (publish_task message b) s =
      attempt-Stays message b _ s (λ t. set_promise-Stays a b (satisfied unit_value) t)
  run_task-Stays (subscribe_task message id r) s =
      attempt-Stays message r.response _ s (λ t h. refl)
  run_task-Stays (unsubscribe_task message id r) s =
      attempt-Stays message r.response _ s (λ t h. refl)
  run_task-Stays (call_task message id r) s = attempt-Stays message r.result _ s (λ t h. refl)
  run_task-Stays (provide_task message id r) s = attempt-Stays message r.response _ s (λ t h. refl)
  run_task-Stays (unprovide_task message id r) s =
      attempt-Stays message r.response _ s (λ t h. refl)
  run_task-Stays start_task s = control-Stays start_task s refl
  run_task-Stays stop_task s = control-Stays stop_task s refl
  run_task-Stays (join_task message) s = control-Stays (join_task message) s refl
  run_task-Stays (leave_task message) s = control-Stays (leave_task message) s refl
  run_task-Stays (authenticate_task message) s = control-Stays (authenticate_task message) s refl

  request-Stays : (u : UserCall) (s : Session) → a < s.next_promise → Stays a s (request u s)
  request-Stays u s made h = rw (request_lem u s) (ground arith)

  attaches-Stays : (link : c.Link) (s : Session) → Stays a s (on_attach link s).1
  unfolding on_attach
  attaches-Stays link s h = ground arith

  detaches-Stays : (s : Session) → Stays a s (on_detach s).1
  unfolding on_detach
  detaches-Stays s h = ground arith

  pub Step-Stays : (s t : Session) → Step s t → a < s.next_promise → Stays a s t
  Step-Stays s t (requests u) made = request-Stays u s made
  Step-Stays s t (runs before after task e) made =
      run_task-Stays task (record s { tasks = before ++ after })
  Step-Stays s t (receives message) made =
      on_message-Closed (Stays a s) (Stays-Closed s) message s (Stays-refl a s)
  Step-Stays s t (disconnects was_clean reason) made = on_disconnect-Stays a was_clean reason s
  Step-Stays s t (attaches link) made = attaches-Stays link s
  Step-Stays s t detaches made = detaches-Stays s

  pub Later-made : (s t : Session) → Later s t → s.next_promise ≤ t.next_promise
  Later-made s _ here = omega arith
  Later-made s t (further {v} l st) = omega (arith, Later-made s v l, Step-made a v t st)

  -- A future that has a value or an exception keeps it for ever: whatever the user calls, the io
  -- service runs and the router or the connection does, in any order and number, from any session on,
  -- a promise that has been made and is settled holds the same afterwards.
  pub Later-promises :
      {s t : Session}
      → Later s t
      → a < s.next_promise
      → is_pending (s.promises a) ≡ false
      → t.promises a ≡ s.promises a
  Later-promises here made h = refl
  Later-promises {s} {t} (further {v} l st) made h =
      let more = Later-made s v l in
      let e = Later-promises l made h in Step-Stays v t st (omega arith) (ap is_pending e ∙ h) ∙ e
