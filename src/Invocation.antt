-- ===== src/Invocation.antt =====
-- autobahn/wamp_invocation.hpp and wamp_invocation.ipp: the object that a procedure is invoked
-- with, and the replies that it sends.
pub mod Replies
use autobahn_cpp_aw.Common.{
  ℕ, String, Bool, true, false, not, ◌&&◌, List, [], ◌∷◌, Option, none, some, if◌then◌else◌,
}
use autobahn_cpp_aw.Exception.{
  Exception, Result, ok, err, runtime_error, Action, ◌>>=◌, ◌>>◌, lift, gets, skip, throw, throw_if,
  modify, raised,
}
use autobahn_cpp_aw.Msgpack.{
  Msgpack, Object, as_string, as_bool, number_object, text_object, bool_object, map_object,
}
use autobahn_cpp_aw.Message.{Message}
use autobahn_cpp_aw.Message.Build.{build, type_object}
use autobahn_cpp_aw.MessageType.{MessageType}
use autobahn_cpp_aw.Arguments.{empty_arguments, empty_kw_arguments, value_for_key_or}

module _ ⦃m : Msgpack⦄ where
  pub record Invocation : Type 0 where
    pub uri : String
    pub arguments : Object
    pub kw_arguments : Object
    pub request_id : ℕ
    pub progressive_results_expected : Bool
    -- whether `m_send_result_fn` has a target; the target is the parameter `send` below
    pub send_result_fn : Bool

  unfoldable pub new_invocation : Invocation
  unfolding empty_arguments empty_kw_arguments
  new_invocation = record {
    uri = "";
    arguments = empty_arguments;
    kw_arguments = empty_kw_arguments;
    request_id = 0;
    progressive_results_expected = false;
    send_result_fn = false;
  }

  unfoldable pub set_details : Object → Invocation → Result Invocation
  unfolding value_for_key_or
  set_details details i = elim (value_for_key_or as_string details "procedure" "") [
    | ok uri ↦ elim (value_for_key_or as_bool details "receive_progress" false) [
      | ok expected ↦ ok (record i { uri = uri; progressive_results_expected = expected })
      | err e ↦ err e
    ]
    | err e ↦ err e
  ]

  pub data ResultType : Type 0 where
    intermediary final : ResultType

  abbrev pub is_intermediary : ResultType → Bool
  is_intermediary intermediary = true
  is_intermediary final = false

  unfoldable pub result_details : ResultType → Object
  result_details intermediary = map_object (("progress", bool_object true) ∷ [])
  result_details final = map_object []

  -- [YIELD, INVOCATION.Request|id, Options|dict]
  unfoldable pub empty_result_message : Invocation → Result Message
  unfolding build
  empty_result_message i = build 3 (
      (0, type_object MessageType.yield)
      ∷ (1, number_object i.request_id)
      ∷ (2, map_object [])
      ∷ [])

  -- [YIELD, INVOCATION.Request|id, Options|dict, Arguments|list]
  unfoldable pub result_message : Invocation → Object → ResultType → Result Message
  unfolding build result_details
  result_message i arguments type = build 4 (
      (0, type_object MessageType.yield)
      ∷ (1, number_object i.request_id)
      ∷ (2, result_details type)
      ∷ (3, arguments)
      ∷ [])

  -- [YIELD, INVOCATION.Request|id, Options|dict, Arguments|list, ArgumentsKw|dict]
  unfoldable pub kw_result_message : Invocation → Object → Object → ResultType → Result Message
  unfolding build result_details
  kw_result_message i arguments kw_arguments type = build 5 (
      (0, type_object MessageType.yield)
      ∷ (1, number_object i.request_id)
      ∷ (2, result_details type)
      ∷ (3, arguments)
      ∷ (4, kw_arguments)
      ∷ [])

  -- [ERROR, INVOCATION, INVOCATION.Request|id, Details|dict, Error|uri]
  unfoldable pub error_message : Invocation → String → Result Message
  unfolding build
  error_message i error_uri = build 5 (
      (0, type_object MessageType.error)
      ∷ (1, type_object MessageType.invocation)
      ∷ (2, number_object i.request_id)
      ∷ (3, map_object [])
      ∷ (4, text_object error_uri)
      ∷ [])

  -- [ERROR, INVOCATION, INVOCATION.Request|id, Details|dict, Error|uri, Arguments|list]
  unfoldable pub arguments_error_message : Invocation → String → Object → Result Message
  unfolding build
  arguments_error_message i error_uri arguments = build 6 (
      (0, type_object MessageType.error)
      ∷ (1, type_object MessageType.invocation)
      ∷ (2, number_object i.request_id)
      ∷ (3, map_object [])
      ∷ (4, text_object error_uri)
      ∷ (5, arguments)
      ∷ [])

  -- [ERROR, INVOCATION, INVOCATION.Request|id, Details|dict, Error|uri, Arguments|list,
  -- ArgumentsKw|dict]
  unfoldable pub kw_error_message : Invocation → String → Object → Object → Result Message
  unfolding build
  kw_error_message i error_uri arguments kw_arguments = build 7 (
      (0, type_object MessageType.error)
      ∷ (1, type_object MessageType.invocation)
      ∷ (2, number_object i.request_id)
      ∷ (3, map_object [])
      ∷ (4, text_object error_uri)
      ∷ (5, arguments)
      ∷ (6, kw_arguments)
      ∷ [])

  -- A call that a procedure makes on its invocation.
  pub data Reply : Type 0 where
    empty_result : Reply
    progress result : Object → Reply
    kw_progress kw_result : Object → Object → Reply
    error : String → Reply
    arguments_error : String → Object → Reply
    kw_error : String → Object → Object → Reply

  -- What a procedure does, as its session sees it: it makes a reply and goes on according to the
  -- exception, if any, that the reply raised; or it returns; or it throws.
  pub data Script : Type 0 where
    return : Script
    throws : Exception → Script
    reply : Reply → (Option Exception → Script) → Script

  -- The methods, over the state of whoever sends: `send` is the target of `m_send_result_fn`.
  module _ {S : Type 0} (send : Message → Action S (Unit {0})) where
    abbrev Method : Type 0
    Method = Action (Invocation × S) (Unit {0})

    unfoldable pub sendable : Action (Invocation × S) Bool
    sendable = gets (λ (s : Invocation × S). s.0.send_result_fn)

    unfoldable pub throw_if_not_sendable : Method
    unfolding sendable
    throw_if_not_sendable = do
      open_for_reply ← sendable
      throw_if (not open_for_reply) (
          runtime_error
            "tried to call result() or error() but wamp_invocation is not sendable (double call?)")

    -- `m_send_result_fn(message)`
    unfoldable pub send_result_fn : Message → Method
    send_result_fn message (i, s) = let (r, s') = send message s in (r, (i, s'))

    -- `m_send_result_fn = send_result_fn()`
    unfoldable pub clear_send_result_fn : Method
    clear_send_result_fn =
        modify (λ (s : Invocation × S). (record (s.0) { send_result_fn = false }, s.1))

    unfoldable pub send_final : (Invocation → Result Message) → Method
    unfolding throw_if_not_sendable send_result_fn clear_send_result_fn
    send_final make = do
      throw_if_not_sendable
      i ← gets (λ (s : Invocation × S). s.0)
      message ← lift (make i)
      send_result_fn message
      clear_send_result_fn

    unfoldable pub send_result : (Invocation → Result Message) → ResultType → Method
    unfolding throw_if_not_sendable send_result_fn clear_send_result_fn
    send_result make type = do
      throw_if_not_sendable
      i ← gets (λ (s : Invocation × S). s.0)
      if is_intermediary type && not i.progressive_results_expected then skip else do
        message ← lift (make i)
        send_result_fn message
        if is_intermediary type then skip else clear_send_result_fn

    unfoldable pub perform : Reply → Method
    unfolding send_final send_result empty_result_message result_message kw_result_message
        error_message arguments_error_message kw_error_message
    perform empty_result = send_final empty_result_message
    perform (progress a) = send_result (λ i. result_message i a intermediary) intermediary
    perform (result a) = send_result (λ i. result_message i a final) final
    perform (kw_progress a k) = send_result (λ i. kw_result_message i a k intermediary) intermediary
    perform (kw_result a k) = send_result (λ i. kw_result_message i a k final) final
    perform (error uri) = send_final (λ i. error_message i uri)
    perform (arguments_error uri a) = send_final (λ i. arguments_error_message i uri a)
    perform (kw_error uri a k) = send_final (λ i. kw_error_message i uri a k)

    -- the procedure runs to its end
    unfoldable pub run : Script → Method
    unfolding perform
    run return s = (ok tt, s)
    run (throws e) s = (err e, s)
    run (reply call next) s = let (r, s') = perform call s in run (next (raised r)) s'
