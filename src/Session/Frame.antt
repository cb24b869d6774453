-- ===== src/Session/Frame.antt =====
-- What no message from the router and no failed write can change: whether the session runs, has a
-- transport, and has been started or stopped.
pub mod Messages
use autobahn_cpp_aw.Common.{
  ℕ, String, Bool, true, false, Option, none, some, List, [], ◌∷◌, ◌≡◌, refl, sym, arith, is_some,
  ap, ◌∙◌,
}
use autobahn_cpp_aw.Exception.{Exception, Result, ok, err, Action}
use autobahn_cpp_aw.Msgpack.{Msgpack, positive_integer_type, map_type, array_type, str_type}
use autobahn_cpp_aw.Arguments.{empty_arguments, empty_kw_arguments}
use autobahn_cpp_aw.Message.{Message, size, field, field_as, is_field_type}
use autobahn_cpp_aw.Promise.{Promise}
use autobahn_cpp_aw.Client.{Client}
use autobahn_cpp_aw.Session.{Session}
use autobahn_cpp_aw.Session.Send.{set_promise, set_join, set_leave, send_message}
use autobahn_cpp_aw.Session.Sending.{
  SendOutcome, not_running, not_attached, not_joined, written, lost, send_message-outcome,
}
use autobahn_cpp_aw.Session.Incoming.Replies.{
  expect_type, optional_field, request_field, reject, process_error, process_call_result,
  process_subscribed, process_unsubscribed, process_registered, process_unregistered,
}
use autobahn_cpp_aw.Session.Incoming.Fields.{
  expect_type-state, request_field-state, optional_field-state,
}

module _ ⦃m : Msgpack⦄ ⦃c : Client⦄ where
  abbrev pub Frame : Session → Session → Type 0
  Frame s t =
      (t.running ≡ s.running)
      × (is_some t.transport ≡ is_some s.transport)
      × (t.session_start ≡ s.session_start)
      × (t.session_stop ≡ s.session_stop)

  pub Frame-refl : (s : Session) → Frame s s
  Frame-refl s = (refl, refl, refl, refl)

  pub Frame-trans : (s t u : Session) → Frame s t → Frame t u → Frame s u
  Frame-trans s t u f g = (g.0 ∙ f.0, g.1 ∙ f.1, g.2 ∙ f.2, g.3 ∙ f.3)

  outcome-Frame :
      (message : Message) (b : Bool) (s t : Session) (r : Result (Unit {0}))
      → SendOutcome message b s r t
      → Frame s t
  outcome-Frame message b s t r (not_running _ _ e) = rw e (Frame-refl s)
  outcome-Frame message b s t r (not_attached _ _ _ e) = rw e (Frame-refl s)
  outcome-Frame message b s t r (not_joined _ _ _ _ _ e) = rw e (Frame-refl s)
  outcome-Frame message b s t r (written link _ att _ _ _ e) = rw e (refl, rw att, refl, refl)
  outcome-Frame message b s t r (lost link reason _ att _ _ _ e) = rw e (refl, rw att, refl, refl)

  pub send_message-Frame :
      (message : Message) (b : Bool) (s : Session) → Frame s (send_message message b s).1
  send_message-Frame message b s = outcome-Frame message b s _ _ (send_message-outcome message b s)

  -- What an answer to a request cannot change.
  abbrev pub Silent : Session → Session → Type 0
  Silent s t =
      (t.running ≡ s.running)
      × (t.transport ≡ s.transport)
      × (t.session_start ≡ s.session_start)
      × (t.session_stop ≡ s.session_stop)
      × (t.tasks ≡ s.tasks)

  pub Frame-Silent : (s t : Session) → Silent s t → Frame s t
  Frame-Silent s t (run, at, start, stop, queue) = (run, ap is_some at, start, stop)

  pub process_call_result-Silent :
      (message : Message) (s : Session) → Silent s (process_call_result message s).1
  unfolding process_call_result set_promise
  process_call_result-Silent message s = ground (
    arith,
    request_field-state message 1 "RESULT - CALL.Request must be an id" s,
    expect_type-state message 2 "RESULT - Details must be a dictionary" s map_type,
    optional_field-state message 3 "RESULT - YIELD.Arguments must be a list" s array_type
        empty_arguments,
    optional_field-state message 4 "RESULT - YIELD.ArgumentsKw must be a dictionary" s map_type
        empty_kw_arguments,
  )

  pub process_error-Silent :
      (message : Message) (s : Session) → Silent s (process_error message s).1
  unfolding process_error reject set_promise
  process_error-Silent message s = ground (
    arith,
    expect_type-state message 1 "invalid ERROR message structure - REQUEST.Type must be an integer"
        s positive_integer_type,
    request_field-state message 2
        "invalid ERROR message structure - REQUEST.Request must be an integer" s,
    expect_type-state message 3 "invalid ERROR message structure - Details must be a dictionary" s
        map_type,
    expect_type-state message 4 "invalid ERROR message - Error must be a string (URI)" s str_type,
    optional_field-state message 5 "invalid ERROR message structure - Arguments must be a list" s
        array_type empty_arguments,
    optional_field-state message 6
        "invalid ERROR message structure - ArgumentsKw must be a dictionary" s map_type
        empty_kw_arguments,
  )

  pub process_subscribed-Silent :
      (message : Message) (s : Session) → Silent s (process_subscribed message s).1
  unfolding process_subscribed expect_type request_field set_promise size field field_as
      is_field_type
  process_subscribed-Silent message s = ground arith

  pub process_unsubscribed-Silent :
      (message : Message) (s : Session) → Silent s (process_unsubscribed message s).1
  unfolding process_unsubscribed expect_type request_field set_promise size field field_as
      is_field_type
  process_unsubscribed-Silent message s = ground arith

  pub process_registered-Silent :
      (message : Message) (s : Session) → Silent s (process_registered message s).1
  unfolding process_registered expect_type request_field set_promise size field field_as
      is_field_type
  process_registered-Silent message s = ground arith

  pub process_unregistered-Silent :
      (message : Message) (s : Session) → Silent s (process_unregistered message s).1
  unfolding process_unregistered expect_type request_field set_promise size field field_as
      is_field_type
  process_unregistered-Silent message s = ground arith
