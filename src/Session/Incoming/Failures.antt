-- ===== src/Session/Incoming/Failures.antt =====
-- What a session sends for a procedure that throws.
use autobahn_cpp_aw.Common.{ℕ, true, List, [], ◌∷◌, ◌≡◌, arith, if◌then◌else◌}
use autobahn_cpp_aw.Exception.{Exception, ok, err, unknown_exception}
use autobahn_cpp_aw.Msgpack.{Msgpack, Object, number_object, text_object, map_object}
use autobahn_cpp_aw.Message.{Message}
use autobahn_cpp_aw.Message.Build.{type_object}
use autobahn_cpp_aw.MessageType.{MessageType}
use autobahn_cpp_aw.Arguments.{empty_arguments}
use autobahn_cpp_aw.Invocation.{Invocation, Reply, run}
use autobahn_cpp_aw.Invocation.Replies.{perform_lem}
use autobahn_cpp_aw.Client.{Client}
use autobahn_cpp_aw.Session.{Session}
use autobahn_cpp_aw.Session.Send.{send_message}
use autobahn_cpp_aw.Session.Tasks.{what}
use autobahn_cpp_aw.Session.Incoming.Invoke.{invoke, send_reply, describe_failure}

module _ ⦃m : Msgpack⦄ ⦃c : Client⦄ where
  -- what describes an exception: nothing but the URI for one that is not a `std::exception`
  abbrev failure_arguments : Exception → List Object
  failure_arguments unknown_exception = []
  failure_arguments e = empty_arguments ∷ map_object (("what", text_object (what e)) ∷ []) ∷ []

  -- [ERROR, INVOCATION, INVOCATION.Request|id, Details|dict, Error|uri, …]
  abbrev pub failure : Exception → ℕ → Message
  failure e id =
      type_object MessageType.error
      ∷ type_object MessageType.invocation
      ∷ number_object id
      ∷ map_object []
      ∷ text_object "wamp.error.runtime_error"
      ∷ failure_arguments e

  -- Where a procedure has thrown and can still reply, the session sends one ERROR that describes
  -- the exception under the invocation's request id, and what that send does and raises is all that
  -- happens; where the procedure has replied before it threw, nothing is sent and nothing raised.
  pub invoke-failure :
      (procedure : c.Procedure) (i i' : Invocation) (s s' : Session) (e : Exception)
      → run send_reply (c.script procedure i) (i, s) ≡ (err e, (i', s'))
      → invoke procedure i s ≡ (
          if i'.send_result_fn then send_message (failure e i'.request_id) true s' else (ok tt, s'))
  unfolding invoke describe_failure send_reply
  invoke-failure procedure i i' s s' unknown_exception h =
      ground (arith, perform_lem send_reply (Reply.error "wamp.error.runtime_error") i' s')
  invoke-failure procedure i i' s s' e h = ground (
    arith,
    perform_lem send_reply
        (Reply.kw_error "wamp.error.runtime_error" empty_arguments
          (map_object (("what", text_object (what e)) ∷ [])))
        i' s',
  )
