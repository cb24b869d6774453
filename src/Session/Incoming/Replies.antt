-- ===== src/Session/Incoming/Replies.antt =====
-- autobahn/wamp_session.ipp: the router's answers to the session's requests: ERROR, RESULT,
-- SUBSCRIBED, UNSUBSCRIBED, REGISTERED and UNREGISTERED.
use autobahn_cpp_aw.Common.{
  ℕ, String, Bool, true, false, not, ◌||◌, Option, some, ◌==◌, ltb, if◌then◌else◌,
}
use autobahn_cpp_aw.Common.Table.{find, erase, assign, insert}
use autobahn_cpp_aw.Exception.{
  protocol_error, ◌>>=◌, ◌>>◌, gets, lift, pure, throw, throw_if, modify, or_throw,
}
use autobahn_cpp_aw.Msgpack.{
  Msgpack, Object, ObjectType, as_uint64, as_int, as_string, positive_integer_type, map_type,
  array_type, str_type,
}
use autobahn_cpp_aw.Message.{Message, size, field, field_as, is_field_type}
use autobahn_cpp_aw.MessageType.{MessageType, of_int}
use autobahn_cpp_aw.Arguments.{empty_arguments, empty_kw_arguments}
use autobahn_cpp_aw.Promise.{
  satisfied, rejected, WampError, unit_value, call_result_value, subscription_value,
  registration_value,
}
use autobahn_cpp_aw.Client.{Client}
use autobahn_cpp_aw.Session.{Method}
use autobahn_cpp_aw.Session.Send.{set_promise}

module _ ⦃m : Msgpack⦄ ⦃c : Client⦄ where
  -- `if (!message.is_field_type(index, type)) { throw protocol_error(complaint); }`
  unfoldable pub expect_type : Message → ℕ → ObjectType → String → Method (Unit {0})
  expect_type message index type complaint = do
    fits ← lift (is_field_type message index type)
    throw_if (not fits) (protocol_error complaint)

  -- an argument that only a message longer than its index has
  unfoldable pub optional_field : Message → ℕ → ObjectType → String → Object → Method Object
  optional_field message index type complaint default =
      if ltb index (size message)
      then (do expect_type message index type complaint; lift (field message index))
      else pure default

  -- `message.field<uint64_t>(1)`, the request's id
  unfoldable pub request_field : Message → ℕ → String → Method ℕ
  request_field message index complaint = do
    expect_type message index positive_integer_type complaint
    lift (field_as as_uint64 message index)

  abbrev pub is_request : Option MessageType → Bool
  is_request (some MessageType.call) = true
  is_request (some MessageType.register) = true
  is_request (some MessageType.unregister) = true
  is_request (some MessageType.publish) = true
  is_request (some MessageType.subscribe) = true
  is_request (some MessageType.unsubscribe) = true
  is_request _ = false

  -- the last `switch` of `process_error`
  unfoldable pub reject : Option MessageType → (MessageType → WampError) → Method (Unit {0})
  reject (some MessageType.call) make_error = do
    let e = make_error MessageType.call
    pending_calls ← gets (λ s. s.calls)
    call ← lift (
        or_throw (find e.id pending_calls)
          (protocol_error "bogus ERROR message for non-pending CALL request ID"))
    set_promise call.result (rejected e)
    modify (λ s. record s { calls = erase e.id s.calls })
  reject other make_error = throw (protocol_error "unhandled ERROR message")

  -- [ERROR, REQUEST.Type|int, REQUEST.Request|id, Details|dict, Error|uri, Arguments|list,
  -- ArgumentsKw|dict], the last two optional
  unfoldable pub process_error : Message → Method (Unit {0})
  process_error message = do
    throw_if (ltb (size message) 5 || ltb 7 (size message))
        (protocol_error "invalid ERROR message structure - length must be 5, 6 or 7")
    expect_type message 1 positive_integer_type
        "invalid ERROR message structure - REQUEST.Type must be an integer"
    number ← lift (field_as as_int message 1)
    throw_if (not (is_request (of_int number))) (
        protocol_error
          "invalid ERROR message - ERROR.Type must one of CALL, REGISTER, UNREGISTER, SUBSCRIBE, UNSUBSCRIBE")
    request_id ←
        request_field message 2
          "invalid ERROR message structure - REQUEST.Request must be an integer"
    expect_type message 3 map_type "invalid ERROR message structure - Details must be a dictionary"
    details ← lift (field message 3)
    expect_type message 4 str_type "invalid ERROR message - Error must be a string (URI)"
    error_uri ← lift (field_as as_string message 4)
    args ←
        optional_field message 5 array_type
          "invalid ERROR message structure - Arguments must be a list" empty_arguments
    kw_args ←
        optional_field message 6 map_type
          "invalid ERROR message structure - ArgumentsKw must be a dictionary" empty_kw_arguments
    reject (of_int number) λ type. (record {
      type = type;
      id = request_id;
      uri = error_uri;
      details = details;
      args = args;
      kw_args = kw_args;
    })

  -- [RESULT, CALL.Request|id, Details|dict, YIELD.Arguments|list, YIELD.ArgumentsKw|dict], the last
  -- two optional
  unfoldable pub process_call_result : Message → Method (Unit {0})
  process_call_result message = do
    throw_if (ltb (size message) 3 || ltb 5 (size message))
        (protocol_error "RESULT - length must be 3, 4 or 5")
    request_id ← request_field message 1 "RESULT - CALL.Request must be an id"
    pending_calls ← gets (λ s. s.calls)
    call ← lift (
        or_throw (find request_id pending_calls)
          (protocol_error "bogus RESULT message for non-pending request ID"))
    expect_type message 2 map_type "RESULT - Details must be a dictionary"
    arguments ←
        optional_field message 3 array_type "RESULT - YIELD.Arguments must be a list"
          empty_arguments
    kw_arguments ←
        optional_field message 4 map_type "RESULT - YIELD.ArgumentsKw must be a dictionary"
          empty_kw_arguments
    set_promise call.result (
        satisfied
          (call_result_value (record { arguments = arguments; kw_arguments = kw_arguments })))
    modify (λ s. record s { calls = erase request_id s.calls })

  -- [SUBSCRIBED, SUBSCRIBE.Request|id, Subscription|id]
  unfoldable pub process_subscribed : Message → Method (Unit {0})
  process_subscribed message = do
    throw_if (not (size message == 3)) (protocol_error "SUBSCRIBED - length must be 3")
    request_id ← request_field message 1 "SUBSCRIBED - SUBSCRIBED.Request must be an integer"
    requests ← gets (λ s. s.subscribe_requests)
    request ←
        lift (
          or_throw (find request_id requests) (protocol_error "SUBSCRIBED - no pending request ID"))
    id ← request_field message 2 "SUBSCRIBED - SUBSCRIBED.Subscription must be an integer"
    modify (λ s. record s {
      subscription_handlers = insert id request.handler s.subscription_handlers;
    })
    set_promise request.response (satisfied (subscription_value id))
    modify (λ s. record s { subscribe_requests = erase request_id s.subscribe_requests })

  -- [UNSUBSCRIBED, UNSUBSCRIBE.Request|id]
  unfoldable pub process_unsubscribed : Message → Method (Unit {0})
  process_unsubscribed message = do
    throw_if (not (size message == 2)) (protocol_error "UNSUBSCRIBED - length must be 2")
    request_id ← request_field message 1 "UNSUBSCRIBED - UNSUBSCRIBED.Request must be an integer"
    requests ← gets (λ s. s.unsubscribe_requests)
    request ← lift (
        or_throw (find request_id requests) (protocol_error "UNSUBSCRIBED - no pending request ID"))
    modify (λ s. record s {
      subscription_handlers = erase request.subscription s.subscription_handlers;
    })
    set_promise request.response (satisfied unit_value)
    modify (λ s. record s { unsubscribe_requests = erase request_id s.unsubscribe_requests })

  -- [REGISTERED, REGISTER.Request|id, Registration|id]
  unfoldable pub process_registered : Message → Method (Unit {0})
  process_registered message = do
    throw_if (not (size message == 3)) (protocol_error "REGISTERED - length must be 3")
    request_id ← request_field message 1 "REGISTERED - REGISTERED.Request must be an integer"
    requests ← gets (λ s. s.register_requests)
    request ←
        lift (
          or_throw (find request_id requests) (protocol_error "REGISTERED - no pending request ID"))
    id ← request_field message 2 "REGISTERED - REGISTERED.Registration must be an integer"
    modify (λ s. record s { procedures = assign id request.procedure s.procedures })
    set_promise request.response (satisfied (registration_value id))
    modify (λ s. record s { register_requests = erase request_id s.register_requests })

  -- [UNREGISTERED, UNREGISTER.Request|id]
  unfoldable pub process_unregistered : Message → Method (Unit {0})
  process_unregistered message = do
    throw_if (not (size message == 2)) (protocol_error "UNREGISTERED - length must be 2")
    request_id ← request_field message 1 "UNREGISTERED - UNREGISTERED.Request must be an integer"
    requests ← gets (λ s. s.unregister_requests)
    request ← lift (
        or_throw (find request_id requests) (protocol_error "UNREGISTERED - no pending request ID"))
    modify (λ s. record s { procedures = erase request.registration s.procedures })
    set_promise request.response (satisfied unit_value)
    modify (λ s. record s { unregister_requests = erase request_id s.unregister_requests })
