-- ===== src/Session/Tasks.antt =====
-- autobahn/wamp_session.ipp: the handlers that the user's calls leave to the io service, and the
-- attaching and detaching of a transport.
use Prim.Native.String.{◌++◌ as append_text}
use autobahn_cpp_aw.Common.{ℕ, String, true, false, not, ◌&&◌, none, some, if◌then◌else◌, is_some}
use autobahn_cpp_aw.Common.Table.{emplace}
use autobahn_cpp_aw.Exception.{
  Exception, ok, err, abort_error, network_error, protocol_error, no_session_error,
  no_transport_error, out_of_range, runtime_error, logic_error, std_exception, assertion_failed,
  ◌>>=◌, ◌>>◌, gets, throw, modify, catch_std,
}
use autobahn_cpp_aw.Msgpack.{Msgpack}
use autobahn_cpp_aw.Message.{Message}
use autobahn_cpp_aw.Promise.{failed, satisfied, unit_value, reason_value}
use autobahn_cpp_aw.Client.{Client}
use autobahn_cpp_aw.Session.{
  Method, Task, start_task, stop_task, join_task, leave_task, publish_task, subscribe_task,
  unsubscribe_task, call_task, provide_task, unprovide_task, authenticate_task, Call,
  SubscribeRequest, UnsubscribeRequest, RegisterRequest, UnregisterRequest,
}
use autobahn_cpp_aw.Session.Send.{
  set_start, set_stop, set_join, set_leave, set_promise, on_disconnect, send_message, is_joined,
}

module _ ⦃m : Msgpack⦄ ⦃c : Client⦄ where
  -- `e.what()`
  unfoldable pub what : Exception → String
  what (abort_error message) = message
  what (network_error message) = message
  what (protocol_error message) = message
  what (out_of_range message) = message
  what (runtime_error message) = message
  what (logic_error message) = message
  what (std_exception message) = message
  what no_session_error = "session not joined"
  what no_transport_error = "session not attached"
  what e = c.library_what e

  unfoldable pub run_start : Method (Unit {0})
  run_start s =
      if s.running
      then set_start (failed (protocol_error "session already started")) s
      else if is_some s.transport
      then set_start (satisfied unit_value) (record s { running = true })
      else set_start (failed no_transport_error) s

  unfoldable pub run_stop : Method (Unit {0})
  run_stop s =
      if not s.running
      then set_stop (failed (protocol_error "session already stopped")) s
      else if not (is_some s.transport)
      then set_start (failed no_transport_error) s
      else if is_joined s.session_id
      then set_stop (failed (protocol_error "session still joined")) s
      else (do
        modify (λ s. record s { running = false })
        on_disconnect true "stop called"
        set_stop (satisfied unit_value))
          s

  unfoldable pub run_join : Message → Method (Unit {0})
  run_join message s =
      if is_joined s.session_id
      then set_join (failed (protocol_error "session already joined")) s
      else catch_std (send_message message false) (λ e. set_join (failed (c.copy_exception e))) s

  -- `catch (const network_error&) { throw; } catch (const std::exception& e) { … }`
  unfoldable pub leave_failed : Exception → Method (Unit {0})
  leave_failed (network_error reason) = throw (network_error reason)
  leave_failed e = set_leave (failed (c.copy_exception e))

  unfoldable pub send_goodbye : Message → Method (Unit {0})
  send_goodbye message =
      catch_std
        (do
          send_message message false
          modify (λ s. record s { goodbye_sent = true })
          set_leave (satisfied (reason_value "leaving")))
        leave_failed

  unfoldable pub run_leave : Message → Method (Unit {0})
  run_leave message = do
    sent ← gets (λ s. s.goodbye_sent)
    if sent
        then set_leave (failed (protocol_error "goodbye already sent"))
        else send_goodbye message
    modify (λ s. record s { session_id = 0 })

  -- the `try` of every request: send, do the rest, and give the promise what was thrown
  unfoldable pub attempt : Message → ℕ → Method (Unit {0}) → Method (Unit {0})
  attempt message a rest =
      catch_std (do send_message message true; rest)
        (λ e. set_promise a (failed (c.copy_exception e)))

  unfoldable pub run_publish : Message → ℕ → Method (Unit {0})
  run_publish message a = attempt message a (set_promise a (satisfied unit_value))

  unfoldable pub run_subscribe : Message → ℕ → SubscribeRequest → Method (Unit {0})
  run_subscribe message id request =
      attempt message request.response
        (modify (λ s. record s { subscribe_requests = emplace id request s.subscribe_requests }))

  unfoldable pub run_unsubscribe : Message → ℕ → UnsubscribeRequest → Method (Unit {0})
  run_unsubscribe message id request =
      attempt message request.response (
        modify (λ s. record s { unsubscribe_requests = emplace id request s.unsubscribe_requests }))

  unfoldable pub run_call : Message → ℕ → Call → Method (Unit {0})
  run_call message id call =
      attempt message call.result (modify (λ s. record s { calls = emplace id call s.calls }))

  unfoldable pub run_provide : Message → ℕ → RegisterRequest → Method (Unit {0})
  run_provide message id request =
      attempt message request.response
        (modify (λ s. record s { register_requests = emplace id request s.register_requests }))

  unfoldable pub run_unprovide : Message → ℕ → UnregisterRequest → Method (Unit {0})
  run_unprovide message id request =
      attempt message request.response
        (modify (λ s. record s { unregister_requests = emplace id request s.unregister_requests }))

  -- the handler in `process_challenge`
  unfoldable pub run_authenticate : Message → Method (Unit {0})
  run_authenticate message = catch_std (send_message message false) (λ e.
      throw (protocol_error (append_text "authentication error: failed send signature:" (what e))))

  unfoldable pub run_task : Task → Method (Unit {0})
  run_task start_task = run_start
  run_task stop_task = run_stop
  run_task (join_task message) = run_join message
  run_task (leave_task message) = run_leave message
  run_task (publish_task message a) = run_publish message a
  run_task (subscribe_task message id request) = run_subscribe message id request
  run_task (unsubscribe_task message id request) = run_unsubscribe message id request
  run_task (call_task message id call) = run_call message id call
  run_task (provide_task message id request) = run_provide message id request
  run_task (unprovide_task message id request) = run_unprovide message id request
  run_task (authenticate_task message) = run_authenticate message

  -- A failed `assert` ends the process: nothing comes after it. Where it is not compiled in, both go
  -- on with a session that runs.
  unfoldable pub on_attach : c.Link → Method (Unit {0})
  on_attach transport s =
      if is_some s.transport
      then (err (protocol_error "Transport already attached to session"), s)
      else if c.asserts && s.running
      then (err assertion_failed, s)
      else (ok tt, record s { transport = some transport })

  unfoldable pub on_detach : Method (Unit {0})
  on_detach s =
      if not (is_some s.transport)
      then (err (protocol_error "Transport already detached from session"), s)
      else if c.asserts && s.running
      then (err assertion_failed, s)
      else (ok tt, record s { transport = none })
