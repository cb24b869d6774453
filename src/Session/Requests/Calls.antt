-- ===== src/Session/Requests/Calls.antt =====
-- autobahn/wamp_session.ipp: the three overloads of `call`.
use autobahn_cpp_aw.Common.{ℕ, String, [], ◌∷◌}
use autobahn_cpp_aw.Exception.{◌>>=◌, ◌>>◌, lift, pure}
use autobahn_cpp_aw.Msgpack.{Msgpack, Object, number_object, text_object}
use autobahn_cpp_aw.Message.Build.{build, type_object}
use autobahn_cpp_aw.MessageType.{MessageType}
use autobahn_cpp_aw.Options.{CallOptions, call_options_object}
use autobahn_cpp_aw.Client.{Client}
use autobahn_cpp_aw.Session.{Method, call_task}
use autobahn_cpp_aw.Session.Requests.{next_request_id, new_promise, dispatch}

module _ ⦃m : Msgpack⦄ ⦃c : Client⦄ where
  unfoldable pub call : String → CallOptions → Method ℕ
  unfolding build
  call procedure options = do
    request_id ← next_request_id
    message ← lift (
        build 4 (
          (0, type_object MessageType.call)
          ∷ (1, number_object request_id)
          ∷ (2, call_options_object options)
          ∷ (3, text_object procedure)
          ∷ []))
    a ← new_promise
    dispatch (call_task message request_id (record { result = a }))
    pure a

  unfoldable pub call_arguments : String → Object → CallOptions → Method ℕ
  unfolding build
  call_arguments procedure arguments options = do
    request_id ← next_request_id
    message ← lift (
        build 5 (
          (0, type_object MessageType.call)
          ∷ (1, number_object request_id)
          ∷ (2, call_options_object options)
          ∷ (3, text_object procedure)
          ∷ (4, arguments)
          ∷ []))
    a ← new_promise
    dispatch (call_task message request_id (record { result = a }))
    pure a

  unfoldable pub call_kw_arguments : String → Object → Object → CallOptions → Method ℕ
  unfolding build
  call_kw_arguments procedure arguments kw_arguments options = do
    request_id ← next_request_id
    message ← lift (
        build 6 (
          (0, type_object MessageType.call)
          ∷ (1, number_object request_id)
          ∷ (2, call_options_object options)
          ∷ (3, text_object procedure)
          ∷ (4, arguments)
          ∷ (5, kw_arguments)
          ∷ []))
    a ← new_promise
    dispatch (call_task message request_id (record { result = a }))
    pure a
  -- `provide_options` is a map of options
