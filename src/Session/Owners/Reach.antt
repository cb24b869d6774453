-- ===== src/Session/Owners/Reach.antt =====
-- The owners of promises in the sessions that a new one can become.
use autobahn_cpp_aw.Common.{
  ℕ, ◌+◌, false, List, ◌∷◌, ◌++◌, ◌≡◌, refl, arith, ◌∙◌, ap, contains, ◌⊎◌,
}
use autobahn_cpp_aw.Exception.{Result, ok, modify}
use autobahn_cpp_aw.Common.Table.{emplace}
use autobahn_cpp_aw.Msgpack.{Msgpack}
use autobahn_cpp_aw.Message.{Message}
use autobahn_cpp_aw.Promise.{pending}
use autobahn_cpp_aw.Client.{Client}
use autobahn_cpp_aw.Session.{
  Session, Task, subscribe_task, unsubscribe_task, call_task, provide_task, unprovide_task,
}
use autobahn_cpp_aw.Session.Tasks.{
  run_task, run_subscribe, run_unsubscribe, run_call, run_provide, run_unprovide, attempt,
}
use autobahn_cpp_aw.Session.Send.{
  subscribe_responses, unsubscribe_responses, register_responses, unregister_responses,
  call_results,
}
use autobahn_cpp_aw.Session.Disconnect.{waiting}
use autobahn_cpp_aw.Session.Attempts.{WasSent, HasFailed, attempt-outcome}
use autobahn_cpp_aw.Session.Steps.{Reachable, initial, next}
use autobahn_cpp_aw.Session.Owners.{queued-taken, queued, owns, waits-waiting}
use autobahn_cpp_aw.Session.Owners.Running.{owner}
use autobahn_cpp_aw.Session.Owners.Invariant.{
  misnumbered, IsOwned, new_session-IsOwned, Step-IsOwned,
}

module _ ⦃m : Msgpack⦄ ⦃c : Client⦄ (a : ℕ) where
  -- In every session that a new one can become, by calls of the user, handlers of the io service in
  -- any order, messages, lost connections and transports that come and go, each promise has at most
  -- one owner among the handlers in the queue and the requests in the tables, and is pending while
  -- its owner is in the queue; and no owner has a promise that is not made yet, or an id that is not
  -- one more than the address of its promise, modulo 2 ^ 64.
  pub Reachable-IsOwned : {s : Session} → Reachable s → IsOwned a s
  Reachable-IsOwned initial = new_session-IsOwned a
  Reachable-IsOwned (next {s} {t} r st) = Step-IsOwned a s t st (Reachable-IsOwned r)

module _ ⦃m : Msgpack⦄ ⦃c : Client⦄ where
  -- the promise of a queued handler is new: it is pending, and no request in a table waits for it
  queued-fresh :
      (before after : List Task) (t : Task) (a : ℕ) (s : Session)
      → IsOwned a s
      → s.tasks ≡ before ++ t ∷ after
      → owns a misnumbered t ≡ 1
      → (s.promises a ≡ pending) × (contains a (waiting s) ≡ false)
  unfolding IsOwned
  queued-fresh before after t a s (one, none_yet, waiting_ones, numbers) e o =
      let had : queued a misnumbered s.tasks
          ≡ owns a misnumbered t + queued a misnumbered (before ++ after) =
        ap (queued a misnumbered) e ∙ queued-taken a misnumbered before after t in
      (waiting_ones (omega arith), waits-waiting a misnumbered s (omega arith))

  waiting-dequeued :
      (s : Session) (tasks : List Task) → waiting (record s { tasks = tasks }) ≡ waiting s
  unfolding subscribe_responses unsubscribe_responses register_responses unregister_responses
      call_results
  waiting-dequeued s tasks = refl

  -- a queued attempt of a reachable session, with what it notes
  queued-attempt :
      (f : Session → Session) (message : Message) (a : ℕ) (before after : List Task) (t : Task)
      (s : Session)
      → Reachable s
      → s.tasks ≡ before ++ t ∷ after
      → owns a misnumbered t ≡ 1
      → let s' = record s { tasks = before ++ after } in
        let (r, u) = attempt message a (modify f) s' in
        (r ≡ ok tt) × (WasSent message f s' u ⊎ HasFailed a s' u)
  queued-attempt f message a before after t s reach e o =
      let s' = record s { tasks = before ++ after } in
      let (new, idle) = queued-fresh before after t a s (Reachable-IsOwned a reach) e o in
      attempt-outcome message a f s' new
        (ap (contains a) (waiting-dequeued s (before ++ after)) ∙ idle)

  one_owner : (id a : ℕ) → owner a misnumbered id a ≡ 1
  one_owner id a = ground arith

  -- What becomes of a queued request: the handler does not raise, and either the transport took the
  -- message and the request went through `emplace`, or its promise holds an exception and no table
  -- has changed.
  abbrev pub IsAnswered : Task → Session → Result (Unit {0}) × Session → Type 0
  IsAnswered (subscribe_task message id r) s (o, t) =
      (o ≡ ok tt)
      × (WasSent message (λ u. record u { subscribe_requests = emplace id r u.subscribe_requests })
            s t
          ⊎ HasFailed r.response s t)
  IsAnswered (unsubscribe_task message id r) s (o, t) =
      (o ≡ ok tt)
      × (WasSent message
            (λ u. record u { unsubscribe_requests = emplace id r u.unsubscribe_requests }) s t
          ⊎ HasFailed r.response s t)
  IsAnswered (call_task message id r) s (o, t) =
      (o ≡ ok tt)
      × (WasSent message (λ u. record u { calls = emplace id r u.calls }) s t
          ⊎ HasFailed r.result s t)
  IsAnswered (provide_task message id r) s (o, t) =
      (o ≡ ok tt)
      × (WasSent message (λ u. record u { register_requests = emplace id r u.register_requests }) s
            t
          ⊎ HasFailed r.response s t)
  IsAnswered (unprovide_task message id r) s (o, t) =
      (o ≡ ok tt)
      × (WasSent message
            (λ u. record u { unregister_requests = emplace id r u.unregister_requests }) s t
          ⊎ HasFailed r.response s t)
  IsAnswered t s o = Unit {0}

  -- Whichever subscribe, unsubscribe, call, provide or unprovide in the queue of a reachable session
  -- the io service runs, the handler does not raise, and either the transport took the message,
  -- reporting no failure, and the request went through `emplace`, or its future holds an exception
  -- and no table has changed.
  pub Reachable-run_task :
      {s : Session} (t : Task) (before after : List Task)
      → Reachable s
      → s.tasks ≡ before ++ t ∷ after
      → let s' = record s { tasks = before ++ after } in IsAnswered t s' (run_task t s')
  unfolding run_task run_subscribe run_unsubscribe run_call run_provide run_unprovide owns
  Reachable-run_task {s} (subscribe_task message id r) before after reach e =
      queued-attempt (λ u. record u { subscribe_requests = emplace id r u.subscribe_requests })
        message r.response before after (subscribe_task message id r) s reach e
        (one_owner id r.response)
  Reachable-run_task {s} (unsubscribe_task message id r) before after reach e =
      queued-attempt (λ u. record u { unsubscribe_requests = emplace id r u.unsubscribe_requests })
        message r.response before after (unsubscribe_task message id r) s reach e
        (one_owner id r.response)
  Reachable-run_task {s} (call_task message id r) before after reach e =
      queued-attempt (λ u. record u { calls = emplace id r u.calls }) message r.result before after
        (call_task message id r) s reach e (one_owner id r.result)
  Reachable-run_task {s} (provide_task message id r) before after reach e =
      queued-attempt (λ u. record u { register_requests = emplace id r u.register_requests })
        message r.response before after (provide_task message id r) s reach e
        (one_owner id r.response)
  Reachable-run_task {s} (unprovide_task message id r) before after reach e =
      queued-attempt (λ u. record u { unregister_requests = emplace id r u.unregister_requests })
        message r.response before after (unprovide_task message id r) s reach e
        (one_owner id r.response)
  Reachable-run_task t before after reach e = tt
