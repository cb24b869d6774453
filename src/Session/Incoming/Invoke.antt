-- ===== src/Session/Incoming/Invoke.antt =====
-- autobahn/wamp_session.ipp: INVOCATION and EVENT, which run the user's code.
use autobahn_cpp_aw.Common.{
  String, true, ◌||◌, Option, none, some, List, [], ◌∷◌, ltb, if◌then◌else◌,
}
use autobahn_cpp_aw.Common.Table.{find, equal_range}
use autobahn_cpp_aw.Exception.{
  Exception, Result, ok, err, protocol_error, unknown_exception, ◌>>=◌, ◌>>◌, gets, lift, pure,
  skip, throw_if, or_throw, catch,
}
use autobahn_cpp_aw.Msgpack.{
  Msgpack, Object, as_string, text_object, map_object, map_type, array_type,
}
use autobahn_cpp_aw.Message.{Message, size, field}
use autobahn_cpp_aw.Arguments.{empty_arguments, empty_kw_arguments, value_for_key_or}
use autobahn_cpp_aw.Invocation.{Invocation, new_invocation, set_details, Reply, perform, run}
use autobahn_cpp_aw.Client.{Client, Event}
use autobahn_cpp_aw.Session.{Session, Method}
use autobahn_cpp_aw.Session.Send.{send_message}
use autobahn_cpp_aw.Session.Tasks.{what}
use autobahn_cpp_aw.Session.Incoming.Replies.{expect_type, optional_field, request_field}

module _ ⦃m : Msgpack⦄ ⦃c : Client⦄ where
  -- The arguments of an invocation or an event: the keyword arguments are looked at only where
  -- there are positional ones.
  unfoldable pub argument_fields : Message → String → String → Method (Object × Object)
  argument_fields message complaint kw_complaint = do
    arguments ← optional_field message 4 array_type complaint empty_arguments
    kw_arguments ← optional_field message 5 map_type kw_complaint empty_kw_arguments
    pure (arguments, kw_arguments)

  -- `send_result_fn`, on the io service's thread
  unfoldable pub send_reply : Message → Method (Unit {0})
  send_reply message = send_message message true

  -- the two `catch` blocks around the procedure
  unfoldable pub describe_failure : Exception → Invocation → Option Reply
  describe_failure unknown_exception i =
      if i.send_result_fn then some (Reply.error "wamp.error.runtime_error") else none
  describe_failure e i =
      if i.send_result_fn
      then some (
          Reply.kw_error "wamp.error.runtime_error" empty_arguments
            (map_object (("what", text_object (what e)) ∷ [])))
      else none

  abbrev pub finish :
      Option Reply → Invocation × Session → Result (Unit {0}) × (Invocation × Session)
  finish none s = (ok tt, s)
  finish (some reply) s = perform send_reply reply s

  unfoldable pub invoke : c.Procedure → Invocation → Method (Unit {0})
  invoke procedure invocation s =
      let (r, after) = run send_reply (c.script procedure invocation) (invocation, s) in
      elim r [
        | ok _ ↦ (ok tt, after.1)
        | err e ↦ let (r', (_, s')) = finish (describe_failure e after.0) after in (r', s')
      ]

  -- [INVOCATION, Request|id, REGISTERED.Registration|id, Details|dict, CALL.Arguments|list,
  -- CALL.ArgumentsKw|dict], the last two optional
  unfoldable pub process_invocation : Message → Method (Unit {0})
  process_invocation message = do
    throw_if (ltb (size message) 4 || ltb 6 (size message))
        (protocol_error "INVOCATION message length must be 4, 5 or 6")
    request_id ← request_field message 1 "INVOCATION.Request must be an integer"
    registration_id ← request_field message 2 "INVOCATION.Registration must be an integer"
    procedures ← gets (λ s. s.procedures)
    procedure ← lift (
        or_throw (find registration_id procedures)
          (protocol_error "bogus INVOCATION message for non-registered registration ID"))
    expect_type message 3 map_type "INVOCATION.Details must be a map"
    details ← lift (field message 3)
    invocation ← lift (set_details details (record new_invocation { request_id = request_id }))
    (arguments, kw_arguments) ←
        argument_fields message "INVOCATION.Arguments must be an array/vector"
          "INVOCATION.KwArguments must be a map"
    invoke procedure (record invocation {
      arguments = arguments;
      kw_arguments = kw_arguments;
      send_result_fn = true;
    })

  -- the loop over the handlers, which the first exception ends
  unfoldable pub deliver : List c.Handler → Event → Method (Unit {0})
  deliver [] event s = (ok tt, s)
  deliver (h ∷ rest) event s =
      let s' = record s { delivered = (h, event) ∷ s.delivered } in
      let later = deliver rest event s' in
      if c.handler_throws h event then (err unknown_exception, s') else later

  -- `catch (...) {}`, whatever was thrown
  unfoldable pub deliver_all : List c.Handler → Event → Method (Unit {0})
  deliver_all handlers event = catch (deliver handlers event) (λ _. skip)

  unfoldable pub make_event : Message → Method Event
  make_event message = do
    request_field message 2 "EVENT - PUBLISHED.Publication must be an id"
    expect_type message 3 map_type "EVENT - Details must be a dictionary"
    details ← lift (field message 3)
    uri ← lift (value_for_key_or as_string details "topic" "")
    (arguments, kw_arguments) ←
        argument_fields message "EVENT - EVENT.Arguments must be a list"
          "EVENT - EVENT.ArgumentsKw must be a dictionary"
    pure (record { uri = uri; arguments = arguments; kw_arguments = kw_arguments })

  -- [EVENT, SUBSCRIBED.Subscription|id, PUBLISHED.Publication|id, Details|dict,
  -- PUBLISH.Arguments|list, PUBLISH.ArgumentsKw|dict], the last two optional; an event of an unknown
  -- subscription is dropped
  unfoldable pub process_event : Message → Method (Unit {0})
  process_event message = do
    throw_if (ltb (size message) 4 || ltb 6 (size message))
        (protocol_error "EVENT - length must be 4, 5 or 6")
    subscription_id ← request_field message 1 "EVENT - SUBSCRIBED.Subscription must be an integer"
    handlers ← gets (λ s. equal_range subscription_id s.subscription_handlers)
    elim handlers [
      | [] ↦ skip
      | h ∷ rest ↦ do event ← make_event message; deliver_all (h ∷ rest) event
    ]
