-- ===== src/Session/Layouts.antt =====
-- The messages of requests, as the WAMP specification lays them out.
use autobahn_cpp_aw.Common.{
  ℕ, ◌+◌, ◌%◌, ◌^◌, String, Bool, true, false, List, [], ◌∷◌, ◌++◌, map, ◌≡◌, refl, if◌then◌else◌,
}
use autobahn_cpp_aw.Msgpack.{
  Msgpack, Object, number_object, text_object, bool_object, list_object, map_object,
}
use autobahn_cpp_aw.Message.{Message}
use autobahn_cpp_aw.Message.Build.{build, type_object}
use autobahn_cpp_aw.MessageType.{MessageType}
use autobahn_cpp_aw.Options.{call_options_object, subscribe_options_object}
use autobahn_cpp_aw.Promise.{pending}
use autobahn_cpp_aw.Client.{Client}
use autobahn_cpp_aw.Session.{
  Session, Task, start_task, stop_task, join_task, leave_task, publish_task, subscribe_task,
  unsubscribe_task, call_task, provide_task, unprovide_task, update,
}
use autobahn_cpp_aw.Session.Requests
use autobahn_cpp_aw.Session.Requests.Calls
use autobahn_cpp_aw.Session.Requests.{next_request_id, new_promise, dispatch}
use autobahn_cpp_aw.Session.Steps.{UserCall, request}

module _ ⦃m : Msgpack⦄ ⦃c : Client⦄ where
  abbrev call_timeout : Object
  call_timeout =
      map_object (("features", map_object (("call_timeout", bool_object true) ∷ [])) ∷ [])

  -- [HELLO, Realm|uri, Details|dict]
  abbrev pub hello : String → List String → String → Message
  hello realm methods id =
      type_object MessageType.hello
      ∷ text_object realm
      ∷ map_object (
          (
            "roles",
            map_object (
                ("caller", call_timeout)
                ∷ ("callee", call_timeout)
                ∷ ("publisher", map_object [])
                ∷ ("subscriber", map_object [])
                ∷ []),
          )
          ∷ ("authmethods", list_object (map text_object methods))
          ∷ ("authid", text_object id)
          ∷ [])
      ∷ []

  -- [TYPE, Request|id, …]
  abbrev pub layout : MessageType → ℕ → List Object → Message
  layout type id rest = type_object type ∷ number_object id ∷ rest

  -- whether a call takes a request id and makes a promise
  abbrev pub numbered : UserCall → Bool
  numbered UserCall.start = false
  numbered UserCall.stop = false
  numbered (UserCall.join realm methods id) = false
  numbered (UserCall.leave reason) = false
  numbered u = true

  -- the handler that a call leaves, with its request id and the address of its promise
  abbrev pub task_of : UserCall → ℕ → ℕ → Task
  task_of UserCall.start id a = start_task
  task_of UserCall.stop id a = stop_task
  task_of (UserCall.join realm methods name) id a = join_task (hello realm methods name)
  task_of (UserCall.leave reason) id a =
      leave_task (type_object MessageType.goodbye ∷ map_object [] ∷ text_object reason ∷ [])
  task_of (UserCall.publish topic) id a =
      publish_task (layout MessageType.publish id (map_object [] ∷ text_object topic ∷ [])) a
  task_of (UserCall.publish_arguments topic l) id a =
      publish_task (layout MessageType.publish id (map_object [] ∷ text_object topic ∷ l ∷ [])) a
  task_of (UserCall.publish_kw_arguments topic l k) id a =
      publish_task (layout MessageType.publish id (map_object [] ∷ text_object topic ∷ l ∷ k ∷ []))
        a
  task_of (UserCall.subscribe topic handler options) id a =
      subscribe_task
        (layout MessageType.subscribe id
          (subscribe_options_object options ∷ text_object topic ∷ []))
        id (record { handler = handler; response = a })
  task_of (UserCall.unsubscribe subscription) id a =
      unsubscribe_task (layout MessageType.unsubscribe id (number_object subscription ∷ [])) id
        (record { subscription = subscription; response = a })
  task_of (UserCall.call procedure options) id a =
      call_task
        (layout MessageType.call id (call_options_object options ∷ text_object procedure ∷ [])) id
        (record { result = a })
  task_of (UserCall.call_arguments procedure l options) id a =
      call_task
        (layout MessageType.call id (call_options_object options ∷ text_object procedure ∷ l ∷ []))
        id (record { result = a })
  task_of (UserCall.call_kw_arguments procedure l k options) id a =
      call_task
        (layout MessageType.call id
          (call_options_object options ∷ text_object procedure ∷ l ∷ k ∷ []))
        id (record { result = a })
  task_of (UserCall.provide name procedure options) id a =
      provide_task (layout MessageType.register id (map_object options ∷ text_object name ∷ [])) id
        (record { procedure = procedure; response = a })
  task_of (UserCall.unprovide registration) id a =
      unprovide_task (layout MessageType.unregister id (number_object registration ∷ [])) id
        (record { registration = registration; response = a })

  -- the next id and the next promise, taken
  abbrev pub taken : Session → Session
  taken s = record s {
    request_id = (s.request_id + 1) % 2 ^ 64;
    promises = update s.promises s.next_promise pending;
    next_promise = s.next_promise + 1;
  }

  -- Each of the user's calls, on every branch: it takes the next request id, modulo 2 ^ 64, and a
  -- new pending promise, unless it is `start`, `stop`, `join` or `leave`; it leaves, behind the
  -- handlers that wait, one handler with the message that the WAMP specification lays out, with
  -- this id and this promise; and it changes nothing else.
  pub request_lem :
      (u : UserCall) (s : Session)
      → let id = (s.request_id + 1) % 2 ^ 64 in
        let s' = if numbered u then taken s else s in
        request u s ≡ record s' { tasks = s.tasks ++ task_of u id s.next_promise ∷ [] }
  unfolding request build next_request_id new_promise dispatch Requests.start Requests.stop
      Requests.join Requests.leave Requests.publish Requests.publish_arguments
      Requests.publish_kw_arguments Requests.subscribe Requests.unsubscribe Calls.call
      Calls.call_arguments Calls.call_kw_arguments Requests.provide Requests.unprovide
  request_lem UserCall.start s = refl
  request_lem UserCall.stop s = refl
  request_lem (UserCall.join realm methods id) s = refl
  request_lem (UserCall.leave reason) s = refl
  request_lem u s = refl
