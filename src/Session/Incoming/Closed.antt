-- ===== src/Session/Incoming/Closed.antt =====
-- What holds of every session that `on_message` may leave, for predicates that the parts of it keep.
use autobahn_cpp_aw.Common.{
  ℕ, Bool, true, String, Option, none, some, List, [], ◌∷◌, ◌++◌, ◌≡◌, arith, inl, inr,
}
use autobahn_cpp_aw.Exception.{Result, ok, err, raised, Result-cases, ◌>>=◌}
use autobahn_cpp_aw.Msgpack.{
  Msgpack, Object, bool_object, text_object, map_object, map_type, array_type,
}
use autobahn_cpp_aw.Message.{Message}
use autobahn_cpp_aw.Message.Build.{type_object}
use autobahn_cpp_aw.Message.Outgoing.{IsOutgoing, no_arguments, arguments, kw_arguments}
use autobahn_cpp_aw.MessageType.{MessageType}
use autobahn_cpp_aw.Promise.{Promise}
use autobahn_cpp_aw.Arguments.{empty_arguments, empty_kw_arguments}
use autobahn_cpp_aw.Invocation.{Invocation, Reply, Script, return, throws, reply, perform, run}
use autobahn_cpp_aw.Invocation.Replies.{perform_lem, reply_fields}
use autobahn_cpp_aw.Client.{Client, Event}
use autobahn_cpp_aw.Session.{Session, authenticate_task}
use autobahn_cpp_aw.Session.Send.{set_join, set_leave, send_message}
use autobahn_cpp_aw.Session.Requests.{dispatch}
use autobahn_cpp_aw.Session.Incoming.{dispatch_message, on_message}
use autobahn_cpp_aw.Session.Incoming.Replies.{
  process_error, process_call_result, process_subscribed, process_unsubscribed, process_registered,
  process_unregistered,
}
use autobahn_cpp_aw.Session.Incoming.Control.{
  parse_salt, parse_wampcra, parse_challenge, authenticate, process_challenge, process_welcome,
  process_abort, process_goodbye,
}
use autobahn_cpp_aw.Session.Incoming.Fields.{
  expect_type-state, request_field-state, optional_field-state,
}
use autobahn_cpp_aw.Session.Incoming.Invoke.{
  argument_fields, send_reply, describe_failure, invoke, process_invocation, deliver, deliver_all,
  make_event, process_event, finish,
}

module _ ⦃m : Msgpack⦄ ⦃c : Client⦄ where
  -- the parts of `on_message` that change a session keep `P`
  pub record Closed (P : Session → Type 0) : Type 0 where
    pub sends :
        (message : Message) (established : Bool) (s : Session)
        → IsOutgoing message
        → P s
        → P (send_message message established s).1
    pub errors : (message : Message) (s : Session) → P s → P (process_error message s).1
    pub results : (message : Message) (s : Session) → P s → P (process_call_result message s).1
    pub subscribes : (message : Message) (s : Session) → P s → P (process_subscribed message s).1
    pub unsubscribes :
        (message : Message) (s : Session) → P s → P (process_unsubscribed message s).1
    pub registers : (message : Message) (s : Session) → P s → P (process_registered message s).1
    pub unregisters : (message : Message) (s : Session) → P s → P (process_unregistered message s).1
    pub joins : (v : Promise) (s : Session) → P s → P (record s { session_join = v })
    pub leaves : (v : Promise) (s : Session) → P s → P (record s { session_leave = v })
    pub identifies : (id : ℕ) (s : Session) → P s → P (record s { session_id = id })
    pub delivers :
        (h : c.Handler) (e : Event) (s : Session)
        → P s
        → P (record s { delivered = (h, e) ∷ s.delivered })
    pub queues :
        (message : Message) (s : Session)
        → IsOutgoing message
        → P s
        → P (record s { tasks = s.tasks ++ authenticate_task message ∷ [] })

  parse_salt-state : (details : List (String × Object)) (s : Session) → (parse_salt details s).1 ≡ s
  unfolding parse_salt
  parse_salt-state details s = ground arith

  parse_wampcra-state : (message : Message) (s : Session) → (parse_wampcra message s).1 ≡ s
  unfolding parse_wampcra parse_salt
  parse_wampcra-state message s = ground arith

  parse_challenge-state : (message : Message) (s : Session) → (parse_challenge message s).1 ≡ s
  unfolding parse_challenge
  parse_challenge-state message s = ground (arith, parse_wampcra-state message s)

  argument_fields-state :
      (message : Message) (x y : String) (s : Session) → (argument_fields message x y s).1 ≡ s
  unfolding argument_fields
  argument_fields-state message x y s = ground (
    arith,
    optional_field-state message 4 x s array_type empty_arguments,
    optional_field-state message 5 y s map_type empty_kw_arguments,
  )

  make_event-state : (message : Message) (s : Session) → (make_event message s).1 ≡ s
  unfolding make_event
  make_event-state message s = ground (
    arith,
    request_field-state message 2 "EVENT - PUBLISHED.Publication must be an id" s,
    expect_type-state message 3 "EVENT - Details must be a dictionary" s map_type,
    argument_fields-state message "EVENT - EVENT.Arguments must be a list"
        "EVENT - EVENT.ArgumentsKw must be a dictionary" s,
  )

  reply_fields-IsOutgoing : (r : Reply) (id : ℕ) → IsOutgoing (reply_fields r id)
  reply_fields-IsOutgoing Reply.empty_result id = IsOutgoing.yield id [] [] no_arguments
  reply_fields-IsOutgoing (Reply.progress a) id =
      IsOutgoing.yield id (("progress", bool_object true) ∷ []) (a ∷ []) (arguments a)
  reply_fields-IsOutgoing (Reply.result a) id = IsOutgoing.yield id [] (a ∷ []) (arguments a)
  reply_fields-IsOutgoing (Reply.kw_progress a k) id =
      IsOutgoing.yield id (("progress", bool_object true) ∷ []) (a ∷ k ∷ []) (kw_arguments a k)
  reply_fields-IsOutgoing (Reply.kw_result a k) id =
      IsOutgoing.yield id [] (a ∷ k ∷ []) (kw_arguments a k)
  reply_fields-IsOutgoing (Reply.error uri) id = IsOutgoing.error id [] uri [] no_arguments
  reply_fields-IsOutgoing (Reply.arguments_error uri a) id =
      IsOutgoing.error id [] uri (a ∷ []) (arguments a)
  reply_fields-IsOutgoing (Reply.kw_error uri a k) id =
      IsOutgoing.error id [] uri (a ∷ k ∷ []) (kw_arguments a k)

  module _ (P : Session → Type 0) (k : Closed P) where
    set_join-Closed : (v : Promise) (s : Session) → P s → P (set_join v s).1
    unfolding set_join
    set_join-Closed v s h = grind (arith, k.joins)

    set_leave-Closed : (v : Promise) (s : Session) → P s → P (set_leave v s).1
    unfolding set_leave
    set_leave-Closed v s h = grind (arith, k.leaves)

    bind-Closed :
        {A B : Type 0} (s : Session) (f : A → Session → Result B × Session) (o : Result A × Session)
        → P o.1
        → ((v : A) (t : Session) → P t → P (f v t).1)
        → P (((λ t. o) >>= f) s).1
    bind-Closed s f (ok v, t) first rest = rest v t first
    bind-Closed s f (err e, t) first rest = first

    process_welcome-Closed :
        (message : Message) (s : Session) → P s → P (process_welcome message s).1
    unfolding process_welcome
    process_welcome-Closed message s h = grind (arith, set_join-Closed, k.identifies)

    process_abort-Closed : (message : Message) (s : Session) → P s → P (process_abort message s).1
    unfolding process_abort
    process_abort-Closed message s h = grind (arith, set_join-Closed)

    process_goodbye-Closed :
        (message : Message) (s : Session) → P s → P (process_goodbye message s).1
    unfolding process_goodbye
    process_goodbye-Closed message s h =
        let away = k.identifies 0 s h in
        let out : Message =
          type_object MessageType.goodbye
          ∷ map_object []
          ∷ text_object "wamp.error.goodbye_and_out"
          ∷ [] in
        let sends : (b : Bool) (t : Session) → P t → P (send_message out b t).1 =
          λ b t. k.sends out b t (IsOutgoing.goodbye [] "wamp.error.goodbye_and_out") in
        grind (arith, set_leave-Closed, sends)

    process_challenge-Closed :
        (message : Message) (s : Session) → P s → P (process_challenge message s).1
    unfolding process_challenge authenticate dispatch
    process_challenge-Closed message s h =
        let out : String → Message = λ signature.
          type_object MessageType.authenticate ∷ text_object signature ∷ map_object [] ∷ [] in
        let queues : (signature : String) (t : Session)
            → P t
            → P (record t { tasks = t.tasks ++ authenticate_task (out signature) ∷ [] }) =
          λ signature t. k.queues (out signature) t (IsOutgoing.authenticate signature []) in
        grind (arith, parse_challenge-state message s, queues)

    deliver-Closed : (hs : List c.Handler) (e : Event) (s : Session) → P s → P (deliver hs e s).1
    unfolding deliver
    deliver-Closed [] e s h = h
    deliver-Closed (x ∷ xs) e s h =
        let one = k.delivers x e s h in
        ground (arith, deliver-Closed xs e (record s { delivered = (x, e) ∷ s.delivered }) one)

    send_reply-Closed :
        (r : Reply) (id : ℕ) (s : Session) → P s → P (send_reply (reply_fields r id) s).1
    unfolding send_reply
    send_reply-Closed r id s h = k.sends (reply_fields r id) true s (reply_fields-IsOutgoing r id) h

    perform-Closed :
        (r : Reply) (i : Invocation) (s : Session) → P s → P (perform send_reply r (i, s)).1.1
    perform-Closed r i s h =
        ground (arith, perform_lem send_reply r i s, send_reply-Closed r i.request_id s h)

    run-Closed : (p : Script) (s : Invocation × Session) → P s.1 → P (run send_reply p s).1.1
    unfolding run
    run-Closed return s h = h
    run-Closed (throws e) s h = h
    run-Closed (reply r next) s h =
        let first = perform send_reply r s in
        run-Closed (next (raised first.0)) first.1 (perform-Closed r s.0 s.1 h)

    finish-Closed : (o : Option Reply) (s : Invocation × Session) → P s.1 → P (finish o s).1.1
    finish-Closed none s h = h
    finish-Closed (some r) s h = perform-Closed r s.0 s.1 h

    invoke-Closed : (p : c.Procedure) (i : Invocation) (s : Session) → P s → P (invoke p i s).1
    unfolding invoke
    invoke-Closed p i s h =
        let ran = run send_reply (c.script p i) (i, s) in
        let kept = run-Closed (c.script p i) (i, s) h in
        elim (Result-cases ran.0) [
          | inl (x, e) ↦ ground arith
          | inr (ex, e) ↦
              let answer = describe_failure ex ran.1.0 in
              let more = finish-Closed answer ran.1 kept in ground arith
        ]

    deliver_all-Closed :
        (hs : List c.Handler) (e : Event) (s : Session) → P s → P (deliver_all hs e s).1
    unfolding deliver_all
    deliver_all-Closed hs e s h = ground (arith, deliver-Closed hs e s h)

    process_event-Closed : (message : Message) (s : Session) → P s → P (process_event message s).1
    unfolding process_event
    process_event-Closed message s h = grind (
      arith,
      request_field-state message 1 "EVENT - SUBSCRIBED.Subscription must be an integer" s,
      make_event-state message s,
      deliver_all-Closed,
    )

    process_invocation-Closed :
        (message : Message) (s : Session) → P s → P (process_invocation message s).1
    unfolding process_invocation
    process_invocation-Closed message s h = grind (
      arith,
      request_field-state message 1 "INVOCATION.Request must be an integer" s,
      request_field-state message 2 "INVOCATION.Registration must be an integer" s,
      expect_type-state message 3 "INVOCATION.Details must be a map" s map_type,
      argument_fields-state message "INVOCATION.Arguments must be an array/vector"
          "INVOCATION.KwArguments must be a map" s,
      invoke-Closed,
    )

    dispatch_message-Closed :
        (t : Option MessageType) (message : Message) (s : Session)
        → P s
        → P (dispatch_message t message s).1
    unfolding dispatch_message
    dispatch_message-Closed (some MessageType.welcome) message s h =
        process_welcome-Closed message s h
    dispatch_message-Closed (some MessageType.abort) message s h = process_abort-Closed message s h
    dispatch_message-Closed (some MessageType.challenge) message s h =
        process_challenge-Closed message s h
    dispatch_message-Closed (some MessageType.goodbye) message s h =
        process_goodbye-Closed message s h
    dispatch_message-Closed (some MessageType.error) message s h = k.errors message s h
    dispatch_message-Closed (some MessageType.subscribed) message s h = k.subscribes message s h
    dispatch_message-Closed (some MessageType.unsubscribed) message s h = k.unsubscribes message s h
    dispatch_message-Closed (some MessageType.event) message s h = process_event-Closed message s h
    dispatch_message-Closed (some MessageType.result) message s h = k.results message s h
    dispatch_message-Closed (some MessageType.registered) message s h = k.registers message s h
    dispatch_message-Closed (some MessageType.unregistered) message s h = k.unregisters message s h
    dispatch_message-Closed (some MessageType.invocation) message s h =
        process_invocation-Closed message s h
    dispatch_message-Closed t message s h = h

    pub on_message-Closed : (message : Message) (s : Session) → P s → P (on_message message s).1
    unfolding on_message
    on_message-Closed message s h = grind (arith, dispatch_message-Closed)
