-- ===== src/Session/Requests.antt =====
-- autobahn/wamp_session.ipp: the member functions that a user calls. Each builds its message and
-- leaves the rest to the io service; what its handler does there is in Session/Tasks. The result is
-- the address of the promise behind the returned future, or nothing where the session owns it. The
-- calls of procedures are in Session/Requests/Calls.
pub mod Calls
use autobahn_cpp_aw.Common.{ℕ, ◌+◌, ◌%◌, ◌^◌, String, true, List, [], ◌∷◌, ◌++◌, map}
use autobahn_cpp_aw.Exception.{ok, ◌>>=◌, ◌>>◌, lift, pure}
use autobahn_cpp_aw.Msgpack.{
  Msgpack, Object, number_object, text_object, bool_object, list_object, map_object,
}
use autobahn_cpp_aw.Message.Build.{build, type_object}
use autobahn_cpp_aw.MessageType.{MessageType}
use autobahn_cpp_aw.Options.{
  CallOptions, SubscribeOptions, call_options_object, subscribe_options_object,
}
use autobahn_cpp_aw.Promise.{pending}
use autobahn_cpp_aw.Client.{Client}
use autobahn_cpp_aw.Session.{
  Method, Task, start_task, stop_task, join_task, leave_task, publish_task, subscribe_task,
  unsubscribe_task, call_task, provide_task, unprovide_task, update,
}

module _ ⦃m : Msgpack⦄ ⦃c : Client⦄ where
  -- `++m_request_id`, a `std::atomic<uint64_t>`
  unfoldable pub next_request_id : Method ℕ
  next_request_id s = let id = (s.request_id + 1) % 2 ^ 64 in (ok id, record s { request_id = id })

  -- the promise of a new request object
  unfoldable pub new_promise : Method ℕ
  new_promise s = (
    ok s.next_promise,
    record s {
      promises = update s.promises s.next_promise pending;
      next_promise = s.next_promise + 1;
    },
  )

  -- `m_io_service.dispatch`
  unfoldable pub dispatch : Task → Method (Unit {0})
  dispatch task s = (ok tt, record s { tasks = s.tasks ++ task ∷ [] })

  unfoldable pub start : Method (Unit {0})
  start = dispatch start_task

  unfoldable pub stop : Method (Unit {0})
  stop = dispatch stop_task

  abbrev features : String → String × Object
  features role =
      (role, map_object (("features", map_object (("call_timeout", bool_object true) ∷ [])) ∷ []))

  abbrev roles : Object
  roles = map_object (
      features "caller"
      ∷ features "callee"
      ∷ ("publisher", map_object [])
      ∷ ("subscriber", map_object [])
      ∷ [])

  unfoldable pub join : String → List String → String → Method (Unit {0})
  unfolding build
  join realm authentication_methods authentication_id = do
    message ← lift (
        build 3 (
          (0, type_object MessageType.hello)
          ∷ (1, text_object realm)
          ∷ (
            2,
            map_object (
                ("roles", roles)
                ∷ ("authmethods", list_object (map text_object authentication_methods))
                ∷ ("authid", text_object authentication_id)
                ∷ []),
          )
          ∷ []))
    dispatch (join_task message)

  unfoldable pub leave : String → Method (Unit {0})
  unfolding build
  leave reason = do
    message ← lift (
        build 3 (
          (0, type_object MessageType.goodbye) ∷ (1, map_object []) ∷ (2, text_object reason) ∷ []))
    dispatch (leave_task message)

  unfoldable pub publish : String → Method ℕ
  unfolding build
  publish topic = do
    request_id ← next_request_id
    message ← lift (
        build 4 (
          (0, type_object MessageType.publish)
          ∷ (1, number_object request_id)
          ∷ (2, map_object [])
          ∷ (3, text_object topic)
          ∷ []))
    a ← new_promise
    dispatch (publish_task message a)
    pure a

  unfoldable pub publish_arguments : String → Object → Method ℕ
  unfolding build
  publish_arguments topic arguments = do
    request_id ← next_request_id
    message ← lift (
        build 5 (
          (0, type_object MessageType.publish)
          ∷ (1, number_object request_id)
          ∷ (2, map_object [])
          ∷ (3, text_object topic)
          ∷ (4, arguments)
          ∷ []))
    a ← new_promise
    dispatch (publish_task message a)
    pure a

  unfoldable pub publish_kw_arguments : String → Object → Object → Method ℕ
  unfolding build
  publish_kw_arguments topic arguments kw_arguments = do
    request_id ← next_request_id
    message ← lift (
        build 6 (
          (0, type_object MessageType.publish)
          ∷ (1, number_object request_id)
          ∷ (2, map_object [])
          ∷ (3, text_object topic)
          ∷ (4, arguments)
          ∷ (5, kw_arguments)
          ∷ []))
    a ← new_promise
    dispatch (publish_task message a)
    pure a

  unfoldable pub subscribe : String → c.Handler → SubscribeOptions → Method ℕ
  unfolding build
  subscribe topic handler options = do
    request_id ← next_request_id
    message ← lift (
        build 4 (
          (0, type_object MessageType.subscribe)
          ∷ (1, number_object request_id)
          ∷ (2, subscribe_options_object options)
          ∷ (3, text_object topic)
          ∷ []))
    a ← new_promise
    dispatch (subscribe_task message request_id (record { handler = handler; response = a }))
    pure a

  -- a `wamp_subscription` is its id
  unfoldable pub unsubscribe : ℕ → Method ℕ
  unfolding build
  unsubscribe subscription = do
    request_id ← next_request_id
    message ← lift (
        build 3 (
          (0, type_object MessageType.unsubscribe)
          ∷ (1, number_object request_id)
          ∷ (2, number_object subscription)
          ∷ []))
    a ← new_promise
    dispatch
        (unsubscribe_task message request_id (record { subscription = subscription; response = a }))
    pure a

  unfoldable pub provide : String → c.Procedure → List (String × Object) → Method ℕ
  unfolding build
  provide name procedure options = do
    request_id ← next_request_id
    message ← lift (
        build 4 (
          (0, type_object MessageType.register)
          ∷ (1, number_object request_id)
          ∷ (2, map_object options)
          ∷ (3, text_object name)
          ∷ []))
    a ← new_promise
    dispatch (provide_task message request_id (record { procedure = procedure; response = a }))
    pure a

  -- a `wamp_registration` is its id
  unfoldable pub unprovide : ℕ → Method ℕ
  unfolding build
  unprovide registration = do
    request_id ← next_request_id
    message ← lift (
        build 3 (
          (0, type_object MessageType.unregister)
          ∷ (1, number_object request_id)
          ∷ (2, number_object registration)
          ∷ []))
    a ← new_promise
    dispatch
        (unprovide_task message request_id (record { registration = registration; response = a }))
    pure a
