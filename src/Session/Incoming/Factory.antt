-- ===== src/Session/Incoming/Factory.antt =====
-- autobahn/wamp_message_factory.hpp: an error as a value, read from an ERROR, beside what the session
-- does with the message. `make_wamp_call_result` of the same header is not modelled: it calls a
-- `wamp_call_result::set_id` that does not exist.
use autobahn_cpp_aw.Common.{ℤ, Bool, true, ◌||◌, ◌≡◌, arith, ltb}
use autobahn_cpp_aw.Exception.{ok, err, protocol_error, ◌>>=◌, ◌>>◌, lift, pure, throw_if}
use autobahn_cpp_aw.Msgpack.{
  Msgpack, as_int, as_string, map_type, array_type, str_type, positive_integer_type,
}
use autobahn_cpp_aw.Message.{Message, size, field, field_as}
use autobahn_cpp_aw.MessageType.{MessageType, of_int}
use autobahn_cpp_aw.Arguments.{empty_arguments, empty_kw_arguments}
use autobahn_cpp_aw.Promise.{WampError}
use autobahn_cpp_aw.Client.{Client}
use autobahn_cpp_aw.Session.{Session, Method}
use autobahn_cpp_aw.Session.Incoming.Replies.{
  expect_type, optional_field, request_field, is_request, reject, process_error,
}
use autobahn_cpp_aw.Session.Incoming.Fields.{expect_type-state}

module _ ⦃m : Msgpack⦄ ⦃c : Client⦄ where
  -- The number of the request's type, which is not checked, and the error for the type that it
  -- stands for. Written as a method, since it reads fields as the session does.
  unfoldable pub make_wamp_error : Message → Method (ℤ × (MessageType → WampError))
  make_wamp_error message = do
    throw_if (ltb (size message) 5 || ltb 7 (size message))
        (protocol_error "invalid ERROR message structure - length must be 5, 6 or 7")
    expect_type message 1 positive_integer_type
        "invalid ERROR message structure - REQUEST.Type must be an integer"
    number ← lift (field_as as_int message 1)
    request_id ←
        request_field message 2
          "invalid ERROR message structure - REQUEST.Request must be an integer"
    expect_type message 3 map_type "invalid ERROR message structure - Details must be a dictionary"
    details ← lift (field message 3)
    expect_type message 4 str_type "invalid ERROR message - Error must be a string (URI)"
    error_uri ← lift (field_as as_string message 4)
    args ←
        optional_field message 5 array_type
          "invalid ERROR message structure - Arguments must be a list" empty_arguments
    kw_args ←
        optional_field message 6 map_type
          "invalid ERROR message structure - ArgumentsKw must be a dictionary" empty_kw_arguments
    pure (
      number,
      λ type. (record {
        type = type;
        id = request_id;
        uri = error_uri;
        details = details;
        args = args;
        kw_args = kw_args;
      }),
    )

  -- the type of an ERROR is one of those that the session lets through, if it has one
  abbrev pub names_request : Message → Bool
  names_request message = elim (field_as as_int message 1) [
    | ok number ↦ is_request (of_int number)
    | err e ↦ true
  ]

  -- Reading an ERROR that names a type of requests is what the session does with it before it looks
  -- for the request: `process_error` is `make_wamp_error` followed by the switch on the type, with
  -- the same result, the same exception and the same session on every message.
  pub process_error-make_wamp_error :
      (message : Message) (s : Session)
      → names_request message ≡ true
      → process_error message s
        ≡ (make_wamp_error message >>= λ made. reject (of_int made.0) made.1) s
  unfolding process_error make_wamp_error
  process_error-make_wamp_error message s named = ground (
    arith,
    expect_type-state message 1 "invalid ERROR message structure - REQUEST.Type must be an integer"
        s positive_integer_type,
  )
