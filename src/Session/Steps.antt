-- ===== src/Session/Steps.antt =====
-- How a session may run: user calls, the io service's handlers in any order, messages, lost
-- connections, and attaching and detaching a transport, in any interleaving.
use autobahn_cpp_aw.Common.{ℕ, String, Bool, List, ◌∷◌, ◌++◌, ◌≡◌}
use autobahn_cpp_aw.Msgpack.{Msgpack, Object}
use autobahn_cpp_aw.Message.{Message}
use autobahn_cpp_aw.Options.{CallOptions, SubscribeOptions}
use autobahn_cpp_aw.Client.{Client}
use autobahn_cpp_aw.Session.{Session, Task, new_session}
use autobahn_cpp_aw.Session.Send.{on_disconnect}
use autobahn_cpp_aw.Session.Requests
use autobahn_cpp_aw.Session.Requests.Calls
use autobahn_cpp_aw.Session.Tasks.{run_task, on_attach, on_detach}
use autobahn_cpp_aw.Session.Incoming.{on_message}

module _ ⦃m : Msgpack⦄ ⦃c : Client⦄ where
  -- a call of a user
  pub data UserCall : Type 0 where
    start stop : UserCall
    join : String → List String → String → UserCall
    leave : String → UserCall
    publish : String → UserCall
    publish_arguments : String → Object → UserCall
    publish_kw_arguments : String → Object → Object → UserCall
    subscribe : String → c.Handler → SubscribeOptions → UserCall
    unsubscribe : ℕ → UserCall
    call : String → CallOptions → UserCall
    call_arguments : String → Object → CallOptions → UserCall
    call_kw_arguments : String → Object → Object → CallOptions → UserCall
    provide : String → c.Procedure → List (String × Object) → UserCall
    unprovide : ℕ → UserCall

  -- the session after the call has returned
  unfoldable pub request : UserCall → Session → Session
  request start s = (Requests.start s).1
  request stop s = (Requests.stop s).1
  request (join realm methods id) s = (Requests.join realm methods id s).1
  request (leave reason) s = (Requests.leave reason s).1
  request (publish topic) s = (Requests.publish topic s).1
  request (publish_arguments topic a) s = (Requests.publish_arguments topic a s).1
  request (publish_kw_arguments topic a k) s = (Requests.publish_kw_arguments topic a k s).1
  request (subscribe topic handler options) s = (Requests.subscribe topic handler options s).1
  request (unsubscribe subscription) s = (Requests.unsubscribe subscription s).1
  request (call procedure options) s = (Calls.call procedure options s).1
  request (call_arguments procedure a options) s = (Calls.call_arguments procedure a options s).1
  request (call_kw_arguments procedure a k options) s =
      (Calls.call_kw_arguments procedure a k options s).1
  request (provide name procedure options) s = (Requests.provide name procedure options s).1
  request (unprovide registration) s = (Requests.unprovide registration s).1

  pub data Step (s : Session) : Session → Type 0 where
    requests : (u : UserCall) → Step s (request u s)
    runs :
        (before after : List Task) (t : Task)
        → s.tasks ≡ before ++ t ∷ after
        → Step s (run_task t (record s { tasks = before ++ after })).1
    receives : (message : Message) → Step s (on_message message s).1
    disconnects : (was_clean : Bool) (reason : String) → Step s (on_disconnect was_clean reason s).1
    attaches : (link : c.Link) → Step s (on_attach link s).1
    detaches : Step s (on_detach s).1

  -- what can become of a new session
  pub data Reachable : Session → Type 0 where
    initial : Reachable new_session
    next : {s t : Session} → Reachable s → Step s t → Reachable t
