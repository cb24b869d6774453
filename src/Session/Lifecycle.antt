-- ===== src/Session/Lifecycle.antt =====
-- Starting and stopping a session.
use autobahn_cpp_aw.Common.{
  ℕ, String, Bool, true, false, none, some, ◌++◌, ◌≡◌, refl, arith, is_some,
}
use autobahn_cpp_aw.Exception.{ok}
use autobahn_cpp_aw.Msgpack.{Msgpack}
use autobahn_cpp_aw.Message.{Message}
use autobahn_cpp_aw.Promise.{Promise, satisfied, is_pending, unit_value}
use autobahn_cpp_aw.Client.{Client}
use autobahn_cpp_aw.Session.{
  Session, Method, Task, start_task, stop_task, join_task, leave_task, publish_task, subscribe_task,
  unsubscribe_task, call_task, provide_task, unprovide_task, authenticate_task,
}
use autobahn_cpp_aw.Session.Send.{
  set_start, set_stop, set_join, set_leave, set_promise, on_disconnect, send_message,
}
use autobahn_cpp_aw.Session.Requests
use autobahn_cpp_aw.Session.Requests.Calls
use autobahn_cpp_aw.Session.Requests.{next_request_id, new_promise, dispatch}
use autobahn_cpp_aw.Session.Tasks.{
  run_start, run_stop, run_join, run_leave, leave_failed, send_goodbye, attempt, run_publish,
  run_subscribe, run_unsubscribe, run_call, run_provide, run_unprovide, run_authenticate, run_task,
  on_attach, on_detach,
}
use autobahn_cpp_aw.Session.Disconnect.{on_disconnect_lem}
use autobahn_cpp_aw.Session.Frame.{Frame, send_message-Frame}
use autobahn_cpp_aw.Session.Frame.Messages.{on_message-Frame}
use autobahn_cpp_aw.Session.Steps.{
  UserCall, request, Step, requests, runs, receives, disconnects, attaches, detaches, Reachable,
  initial, next,
}

module _ ⦃m : Msgpack⦄ ⦃c : Client⦄ where
  pub record IsStarted (s : Session) : Type 0 where
    pub attached : s.running ≡ true → is_some s.transport ≡ true
    pub started : s.running ≡ true → is_pending s.session_start ≡ false

  Frame-IsStarted : (s t : Session) → Frame s t → IsStarted s → IsStarted t
  Frame-IsStarted s t f h = ground arith

  request-Frame : (u : UserCall) (s : Session) → Frame s (request u s)
  unfolding request next_request_id new_promise dispatch Requests.start Requests.stop Requests.join
      Requests.leave Requests.publish Requests.publish_arguments Requests.publish_kw_arguments
      Requests.subscribe Requests.unsubscribe Calls.call Calls.call_arguments
      Calls.call_kw_arguments Requests.provide Requests.unprovide
  request-Frame UserCall.start s = ground arith
  request-Frame u s = ground arith

  pub attempt-Frame :
      (message : Message) (a : ℕ) (rest : Method (Unit {0})) (s : Session)
      → ((t : Session) → Frame t (rest t).1)
      → Frame s (attempt message a rest s).1
  unfolding attempt set_promise
  attempt-Frame message a rest s keep =
      ground (arith, send_message-Frame message true s, keep (send_message message true s).1)

  set_promise-Frame : (a : ℕ) (v : Promise) (s : Session) → Frame s (set_promise a v s).1
  unfolding set_promise
  set_promise-Frame a v s = ground arith

  run_join-Frame : (message : Message) (s : Session) → Frame s (run_join message s).1
  unfolding run_join set_join
  run_join-Frame message s = ground (arith, send_message-Frame message false s)

  run_leave-Frame : (message : Message) (s : Session) → Frame s (run_leave message s).1
  unfolding run_leave send_goodbye leave_failed set_leave
  run_leave-Frame message s = ground (arith, send_message-Frame message false s)

  run_authenticate-Frame :
      (message : Message) (s : Session) → Frame s (run_authenticate message s).1
  unfolding run_authenticate
  run_authenticate-Frame message s = ground (arith, send_message-Frame message false s)

  run_start-IsStarted : (s : Session) → IsStarted s → IsStarted (run_start s).1
  unfolding run_start set_start
  run_start-IsStarted s h = ground arith

  run_stop-IsStarted : (s : Session) → IsStarted s → IsStarted (run_stop s).1
  unfolding run_stop set_start set_stop
  run_stop-IsStarted s h =
      ground (arith, on_disconnect_lem true "stop called" (record s { running = false }))

  run_task-IsStarted : (t : Task) (s : Session) → IsStarted s → IsStarted (run_task t s).1
  unfolding run_task run_publish run_subscribe run_unsubscribe run_call run_provide run_unprovide
  run_task-IsStarted start_task s h = run_start-IsStarted s h
  run_task-IsStarted stop_task s h = run_stop-IsStarted s h
  run_task-IsStarted (join_task message) s h = Frame-IsStarted s _ (run_join-Frame message s) h
  run_task-IsStarted (leave_task message) s h = Frame-IsStarted s _ (run_leave-Frame message s) h
  run_task-IsStarted (publish_task message a) s h =
      Frame-IsStarted s _ (attempt-Frame message a _ s (set_promise-Frame a (satisfied unit_value)))
        h
  run_task-IsStarted (subscribe_task message id request) s h =
      Frame-IsStarted s _ (attempt-Frame message _ _ s (λ t. (refl, refl, refl, refl))) h
  run_task-IsStarted (unsubscribe_task message id request) s h =
      Frame-IsStarted s _ (attempt-Frame message _ _ s (λ t. (refl, refl, refl, refl))) h
  run_task-IsStarted (call_task message id call) s h =
      Frame-IsStarted s _ (attempt-Frame message _ _ s (λ t. (refl, refl, refl, refl))) h
  run_task-IsStarted (provide_task message id request) s h =
      Frame-IsStarted s _ (attempt-Frame message _ _ s (λ t. (refl, refl, refl, refl))) h
  run_task-IsStarted (unprovide_task message id request) s h =
      Frame-IsStarted s _ (attempt-Frame message _ _ s (λ t. (refl, refl, refl, refl))) h
  run_task-IsStarted (authenticate_task message) s h =
      Frame-IsStarted s _ (run_authenticate-Frame message s) h

  on_disconnect-IsStarted :
      (b : Bool) (reason : String) (s : Session)
      → IsStarted s
      → IsStarted (on_disconnect b reason s).1
  on_disconnect-IsStarted b reason s h = ground (arith, on_disconnect_lem b reason s)

  on_attach-IsStarted : (l : c.Link) (s : Session) → IsStarted s → IsStarted (on_attach l s).1
  unfolding on_attach
  on_attach-IsStarted l s h = ground arith

  on_detach-IsStarted : (s : Session) → c.asserts ≡ true → IsStarted s → IsStarted (on_detach s).1
  unfolding on_detach
  on_detach-IsStarted s on h = ground arith

  Step-IsStarted : {s t : Session} → c.asserts ≡ true → Step s t → IsStarted s → IsStarted t
  Step-IsStarted {s} on (requests u) h = Frame-IsStarted s _ (request-Frame u s) h
  Step-IsStarted {s} on (runs before after t e) h =
      run_task-IsStarted t (record s { tasks = before ++ after })
        (record { attached = h.attached; started = h.started })
  Step-IsStarted {s} on (receives message) h = Frame-IsStarted s _ (on_message-Frame message s) h
  Step-IsStarted {s} on (disconnects b reason) h = on_disconnect-IsStarted b reason s h
  Step-IsStarted {s} on (attaches l) h = on_attach-IsStarted l s h
  Step-IsStarted {s} on detaches h = on_detach-IsStarted s on h

  -- Where `assert` is compiled in, every session that is reachable from a new one, by any steps in any
  -- order, has a transport whenever it runs, and its future of `start` is then settled.
  pub Reachable-IsStarted : {s : Session} → c.asserts ≡ true → Reachable s → IsStarted s
  Reachable-IsStarted on initial = ground arith
  Reachable-IsStarted on (next r st) = Step-IsStarted on st (Reachable-IsStarted on r)

  -- Where it is not, a session that runs and loses its transport by `detach` runs without one.
  on_detach-running :
      (s : Session) (link : c.Link)
      → c.asserts ≡ false
      → s.running ≡ true
      → s.transport ≡ some link
      → on_detach s ≡ (ok tt, record s { transport = none })
  unfolding on_detach
  on_detach-running s link off run at = ground arith
