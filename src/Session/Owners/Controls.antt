-- ===== src/Session/Owners/Controls.antt =====
-- What holds of every session that the handlers of `start`, `stop`, `join`, `leave` and of an answer
-- to a challenge may leave, for predicates that the parts of them keep.
use autobahn_cpp_aw.Common.{Bool, true, false, String, [], ◌≡◌, refl, arith, if◌then◌else◌, ℕ}
use autobahn_cpp_aw.Msgpack.{Msgpack}
use autobahn_cpp_aw.Message.{Message}
use autobahn_cpp_aw.Promise.{Promise, failed, satisfied, reason_value}
use autobahn_cpp_aw.Exception.{
  Exception, Result, ok, err, unknown_exception, network_error, protocol_error, catch_std, modify,
  ◌>>=◌, ◌>>◌,
}
use autobahn_cpp_aw.Client.{Client}
use autobahn_cpp_aw.Session.{
  Session, Method, Task, start_task, stop_task, join_task, leave_task, authenticate_task,
  publish_task, subscribe_task, unsubscribe_task, call_task, provide_task, unprovide_task,
}
use autobahn_cpp_aw.Session.Send.{
  set_start, set_stop, set_join, set_leave, send_message, on_disconnect,
}
use autobahn_cpp_aw.Session.Tasks.{
  run_task, run_start, run_stop, run_join, run_leave, send_goodbye, leave_failed, run_authenticate,
}

module _ ⦃m : Msgpack⦄ ⦃c : Client⦄ where
  -- the parts of these handlers that change a session keep `P`, where their messages satisfy `Q`
  pub record Quiet (Q : Message → Type 0) (P : Session → Type 0) : Type 0 where
    pub sends :
        (message : Message) (established : Bool) (s : Session)
        → Q message
        → P s
        → P (send_message message established s).1
    pub drops :
        (was_clean : Bool) (reason : String) (s : Session)
        → P s
        → P (on_disconnect was_clean reason s).1
    pub starts : (v : Promise) (s : Session) → P s → P (record s { session_start = v })
    pub stops : (v : Promise) (s : Session) → P s → P (record s { session_stop = v })
    pub joins : (v : Promise) (s : Session) → P s → P (record s { session_join = v })
    pub leaves : (v : Promise) (s : Session) → P s → P (record s { session_leave = v })
    pub turns : (b : Bool) (s : Session) → P s → P (record s { running = b })
    pub says_goodbye : (s : Session) → P s → P (record s { goodbye_sent = true })
    pub identifies : (id : ℕ) (s : Session) → P s → P (record s { session_id = id })

  abbrev pub is_control : Task → Bool
  is_control start_task = true
  is_control stop_task = true
  is_control (join_task message) = true
  is_control (leave_task message) = true
  is_control (authenticate_task message) = true
  is_control t = false

  -- the message that a handler sends
  abbrev pub has_message : Task → Bool
  has_message start_task = false
  has_message stop_task = false
  has_message t = true

  abbrev pub message_of : Task → Message
  message_of start_task = []
  message_of stop_task = []
  message_of (join_task message) = message
  message_of (leave_task message) = message
  message_of (authenticate_task message) = message
  message_of (publish_task message a) = message
  message_of (subscribe_task message id r) = message
  message_of (unsubscribe_task message id r) = message
  message_of (call_task message id r) = message
  message_of (provide_task message id r) = message
  message_of (unprovide_task message id r) = message

  module _ (Q : Message → Type 0) (P : Session → Type 0) (k : Quiet Q P) where
    set_start-Quiet : (v : Promise) (s : Session) → P s → P (set_start v s).1
    unfolding set_start
    set_start-Quiet v s h = grind (arith, k.starts)

    set_stop-Quiet : (v : Promise) (s : Session) → P s → P (set_stop v s).1
    unfolding set_stop
    set_stop-Quiet v s h = grind (arith, k.stops)

    set_join-Quiet : (v : Promise) (s : Session) → P s → P (set_join v s).1
    unfolding set_join
    set_join-Quiet v s h = grind (arith, k.joins)

    set_leave-Quiet : (v : Promise) (s : Session) → P s → P (set_leave v s).1
    unfolding set_leave
    set_leave-Quiet v s h = grind (arith, k.leaves)

    pub bind-Quiet :
        {A B : Type 0} (s : Session) (f : A → Method B) (o : Result A × Session)
        → P o.1
        → ((v : A) (t : Session) → P t → P (f v t).1)
        → P (((λ t. o) >>= f) s).1
    bind-Quiet s f (ok v, t) first rest = rest v t first
    bind-Quiet s f (err e, t) first rest = first

    pub catch_std-Quiet :
        {A : Type 0} (s : Session) (f : Exception → Method A) (o : Result A × Session)
        → P o.1
        → ((e : Exception) (t : Session) → P t → P (f e t).1)
        → P (catch_std (λ t. o) f s).1
    catch_std-Quiet s f (ok v, t) first rest = first
    catch_std-Quiet s f (err unknown_exception, t) first rest = first
    catch_std-Quiet s f (err e, t) first rest = rest e t first

    run_start-Quiet : (s : Session) → P s → P (run_start s).1
    unfolding run_start
    run_start-Quiet s h = let on = k.turns true s h in grind (arith, set_start-Quiet)

    run_stop-Quiet : (s : Session) → P s → P (run_stop s).1
    unfolding run_stop
    run_stop-Quiet s h =
        let off = k.turns false s h in
        let dropped = k.drops true "stop called" (record s { running = false }) off in
        grind (arith, set_start-Quiet, set_stop-Quiet)

    run_join-Quiet : (message : Message) (s : Session) → Q message → P s → P (run_join message s).1
    unfolding run_join
    run_join-Quiet message s q h = grind (arith, set_join-Quiet, k.sends message false s q h)

    leave_failed-Quiet : (e : Exception) (s : Session) → P s → P (leave_failed e s).1
    unfolding leave_failed
    leave_failed-Quiet (network_error reason) s h = h
    leave_failed-Quiet e s h = set_leave-Quiet (failed (c.copy_exception e)) s h

    send_goodbye-Quiet :
        (message : Message) (s : Session) → Q message → P s → P (send_goodbye message s).1
    unfolding send_goodbye
    send_goodbye-Quiet message s q h =
        let mark : Method (Unit {0}) = modify (λ t. record t { goodbye_sent = true }) in
        let leave : Method (Unit {0}) = set_leave (satisfied (reason_value "leaving")) in
        catch_std-Quiet s leave_failed ((send_message message false >> (mark >> leave)) s)
          (bind-Quiet s (λ v. mark >> leave) (send_message message false s)
            (k.sends message false s q h)
            (λ v t g.
              set_leave-Quiet (satisfied (reason_value "leaving"))
                (record t { goodbye_sent = true }) (k.says_goodbye t g)))
          leave_failed-Quiet

    run_leave-Quiet :
        (message : Message) (s : Session) → Q message → P s → P (run_leave message s).1
    unfolding run_leave
    run_leave-Quiet message s q h =
        let refused = set_leave (failed (protocol_error "goodbye already sent")) in
        bind-Quiet s (λ v. modify (λ t. record t { session_id = 0 }))
          ((if s.goodbye_sent then refused else send_goodbye message) s)
          (ground (
            arith,
            set_leave-Quiet (failed (protocol_error "goodbye already sent")) s h,
            send_goodbye-Quiet message s q h,
          ))
          (λ v t g. k.identifies 0 t g)

    run_authenticate-Quiet :
        (message : Message) (s : Session) → Q message → P s → P (run_authenticate message s).1
    unfolding run_authenticate
    run_authenticate-Quiet message s q h = ground (arith, k.sends message false s q h)

    pub run_task-Quiet :
        (t : Task) (s : Session)
        → is_control t ≡ true
        → (has_message t ≡ true → Q (message_of t))
        → P s
        → P (run_task t s).1
    unfolding run_task
    run_task-Quiet start_task s e q h = run_start-Quiet s h
    run_task-Quiet stop_task s e q h = run_stop-Quiet s h
    run_task-Quiet (join_task message) s e q h = run_join-Quiet message s (q refl) h
    run_task-Quiet (leave_task message) s e q h = run_leave-Quiet message s (q refl) h
    run_task-Quiet (authenticate_task message) s e q h = run_authenticate-Quiet message s (q refl) h
    run_task-Quiet t s e q h = absurd cc
