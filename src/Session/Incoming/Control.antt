-- ===== src/Session/Incoming/Control.antt =====
-- autobahn/wamp_session.ipp: CHALLENGE, WELCOME, ABORT and GOODBYE.
use Prim.Native.String.{◌++◌ as append_text}
use text.Mathlib.Text.{◌==◌ as str_eq}
use autobahn_cpp_aw.Common.{
  ℤ, pos, String, true, not, Option, none, some, List, [], ◌∷◌, ◌==◌, if◌then◌else◌,
}
use autobahn_cpp_aw.Exception.{
  Result, ok, err, abort_error, protocol_error, type_error, ◌>>=◌, ◌>>◌, gets, lift, pure, skip,
  throw, throw_if, modify, catch_std, or_throw,
}
use autobahn_cpp_aw.Msgpack.{
  Msgpack, Object, as_uint64, as_int, as_string, as_string_map, text_object, map_object, map_type,
  str_type,
}
use autobahn_cpp_aw.Message.{Message, size, field, field_as, is_field_type}
use autobahn_cpp_aw.Message.Build.{build, type_object}
use autobahn_cpp_aw.MessageType.{MessageType}
use autobahn_cpp_aw.Promise.{failed, satisfied, session_value, reason_value}
use autobahn_cpp_aw.Client.{Client, Challenge}
use autobahn_cpp_aw.Session.{Method, authenticate_task}
use autobahn_cpp_aw.Session.Send.{set_join, set_leave, send_message}
use autobahn_cpp_aw.Session.Requests.{dispatch}
use autobahn_cpp_aw.Session.Tasks.{what}

module _ ⦃m : Msgpack⦄ ⦃c : Client⦄ where
  -- `details.find(key)` on the converted `std::unordered_map`
  unfoldable pub find_detail : String → List (String × Object) → Option Object
  find_detail key [] = none
  find_detail key ((k, v) ∷ rest) = if str_eq k key then some v else find_detail key rest

  abbrev require : List (String × Object) → String → String → Method Object
  require details key complaint =
      lift (or_throw (find_detail key details) (protocol_error complaint))

  abbrev pub make_challenge : String → String → String → ℤ → ℤ → Challenge
  make_challenge authmethod challenge salt iterations keylen = record {
    authmethod = authmethod;
    challenge = challenge;
    salt = salt;
    iterations = iterations;
    keylen = keylen;
  }

  -- the salt, the iterations and the length of the key
  unfoldable pub parse_salt : List (String × Object) → Method (String × ℤ × ℤ)
  unfolding find_detail
  parse_salt details = elim (find_detail "salt" details) [
    | none ↦ pure ("", pos 0, pos 0)
    | some o ↦ do
      salt ← lift (or_throw (as_string o) type_error)
      iterations ←
          require details "iterations"
            "wampcra must always tell a number of iterations when introducing salting ( in details )"
      count ← lift (or_throw (as_int iterations) type_error)
      keylen ←
          require details "keylen"
            "wampcra must always tell a key length (keylen) when introducing salting ( in details )"
      length ← lift (or_throw (as_int keylen) type_error)
      pure (salt, count, length)
  ]

  -- the inner `try`
  unfoldable pub parse_wampcra : Message → Method Challenge
  unfolding find_detail
  parse_wampcra message = do
    object ← lift (field message 2)
    details ← lift (or_throw (as_string_map object) type_error)
    o ← require details "challenge" "wampcra must always introduce a challenge ( in details )"
    challenge ← lift (or_throw (as_string o) type_error)
    (salt, iterations, keylen) ← parse_salt details
    pure (make_challenge "wampcra" challenge salt iterations keylen)

  unfoldable pub parse_challenge : Message → Method Challenge
  parse_challenge message = do
    what_auth ← lift (field_as as_string message 1)
    if str_eq what_auth "wampcra"
        then (do
          is_map ← lift (is_field_type message 2 map_type)
          throw_if (not is_map) (protocol_error "CHALLENGE - Details must be a dictionary")
          catch_std (parse_wampcra message) (λ e. throw (
              protocol_error
                (append_text "wampcra authentication: Failed parse challange details:" (what e)))))
        else if str_eq what_auth "ticket"
        then pure (make_challenge "ticket" "" "" (pos 0) (pos 0))
        else throw (
            protocol_error
              "not supported challenge type - can now only handle 'wampcra' and 'ticket'")

  -- the continuation of `on_challenge`; what it throws stays in a future that nobody reads
  unfoldable pub authenticate : Result String → Method (Unit {0})
  unfolding build
  authenticate (err e) = skip
  authenticate (ok signature) = do
    message ← lift (
        build 3 (
          (0, type_object MessageType.authenticate)
          ∷ (1, text_object signature)
          ∷ (2, map_object [])
          ∷ []))
    dispatch (authenticate_task message)

  unfoldable pub process_challenge : Message → Method (Unit {0})
  process_challenge message = do
    challenge ← parse_challenge message
    authenticate (c.on_challenge challenge)

  unfoldable pub process_welcome : Message → Method (Unit {0})
  process_welcome message = do
    id ← lift (field_as as_uint64 message 1)
    modify (λ s. record s { session_id = id })
    set_join (satisfied (session_value id))

  -- [ABORT, Details|dict, Reason|uri]
  unfoldable pub process_abort : Message → Method (Unit {0})
  process_abort message = do
    throw_if (not (size message == 3)) (protocol_error "ABORT - length must be 3")
    details_is_map ← lift (is_field_type message 1 map_type)
    throw_if details_is_map (protocol_error "ABORT - Details must be a dictionary")
    reason_is_str ← lift (is_field_type message 2 str_type)
    throw_if reason_is_str (protocol_error "ABORT - REASON must be a string (URI)")
    uri ← lift (field_as as_string message 2)
    set_join (failed (abort_error uri))

  -- [GOODBYE, Details|dict, Reason|uri]
  unfoldable pub process_goodbye : Message → Method (Unit {0})
  unfolding build
  process_goodbye message = do
    modify (λ s. record s { session_id = 0 })
    sent ← gets (λ s. s.goodbye_sent)
    if sent then skip else do
      goodbye ← lift (
          build 3 (
            (0, type_object MessageType.goodbye)
            ∷ (1, map_object [])
            ∷ (2, text_object "wamp.error.goodbye_and_out")
            ∷ []))
      send_message goodbye true
      reason ← lift (field_as as_string message 2)
      set_leave (satisfied (reason_value reason))
