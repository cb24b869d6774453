-- ===== src/Session/Owners/Noted.antt =====
-- Where a request of a reachable session is after its handler has run.
use autobahn_cpp_aw.Common.{
  ℕ, ◌≤◌, ◌^◌, none, some, List, ◌∷◌, ◌++◌, ◌≡◌, refl, ◌∙◌, ap, ◌⊎◌, inl, inr,
}
use autobahn_cpp_aw.Common.Table.{Table, find, emplace, find-emplace_self}
use autobahn_cpp_aw.Exception.{Result, ok}
use autobahn_cpp_aw.Msgpack.{Msgpack}
use autobahn_cpp_aw.Message.{Message}
use autobahn_cpp_aw.Client.{Client}
use autobahn_cpp_aw.Session.{
  Session, Task, subscribe_task, unsubscribe_task, call_task, provide_task, unprovide_task,
}
use autobahn_cpp_aw.Session.Tasks.{run_task}
use autobahn_cpp_aw.Session.Attempts.{WasSent, HasFailed}
use autobahn_cpp_aw.Session.Steps.{Reachable}
use autobahn_cpp_aw.Session.Owners.Reach.{Reachable-run_task}
use autobahn_cpp_aw.Session.Owners.Numbers.{Reachable-HasFreeId}

module _ ⦃m : Msgpack⦄ ⦃c : Client⦄ where
  -- The transport has taken the message, reporting no failure, and beside this only `f` has changed
  -- the session, whose table has the request under its id; or the future holds an exception and
  -- no table has changed.
  abbrev pub Lands :
      {V : Type 0}
      → (Session → Table V)
      → ℕ
      → V
      → ℕ
      → Message
      → (Session → Session)
      → Session
      → Result (Unit {0}) × Session
      → Type 0
  Lands table id r a message f s (o, t) =
      (o ≡ ok tt) × ((WasSent message f s t × (find id (table t) ≡ some r)) ⊎ HasFailed a s t)

  -- the same for each kind of request
  abbrev pub IsNoted : Task → Session → Result (Unit {0}) × Session → Type 0
  IsNoted (subscribe_task message id r) =
      Lands (λ u. u.subscribe_requests) id r r.response message
        (λ u. record u { subscribe_requests = emplace id r u.subscribe_requests })
  IsNoted (unsubscribe_task message id r) =
      Lands (λ u. u.unsubscribe_requests) id r r.response message
        (λ u. record u { unsubscribe_requests = emplace id r u.unsubscribe_requests })
  IsNoted (call_task message id r) =
      Lands (λ u. u.calls) id r r.result message (λ u. record u { calls = emplace id r u.calls })
  IsNoted (provide_task message id r) =
      Lands (λ u. u.register_requests) id r r.response message
        (λ u. record u { register_requests = emplace id r u.register_requests })
  IsNoted (unprovide_task message id r) =
      Lands (λ u. u.unregister_requests) id r r.response message
        (λ u. record u { unregister_requests = emplace id r u.unregister_requests })
  IsNoted t = λ s o. Unit {0}

  -- an id that is free is the request's after its `emplace`
  lands :
      {V : Type 0} (table : Session → Table V) (id : ℕ) (r : V) (a : ℕ) (message : Message)
      (f : Session → Session) (s : Session) (o : Result (Unit {0}) × Session)
      → ((link : c.Link) → table (f (record s { transport = some link })) ≡ emplace id r (table s))
      → find id (table s) ≡ none
      → (o.0 ≡ ok tt) × (WasSent message f s o.1 ⊎ HasFailed a s o.1)
      → Lands table id r a message f s o
  lands table id r a message f s o grows free (fine, how) = (
    fine,
    elim how [
      | inl (link, run, at, taken, eq) ↦ inl (
        (link, run, at, taken, eq),
        ap (λ t. find id (table t)) eq
            ∙ ap (find id) (grows (c.transmit link message).0)
            ∙ find-emplace_self id r (table s) free,
      )
      | inr failed ↦ inr failed
    ],
  )

  -- A reachable session loses no subscribe, unsubscribe, call, provide or unprovide, while its
  -- user makes at most 2 ^ 64 requests: whichever of them in the queue the io service runs, at
  -- whatever time, the handler does not raise, and either the transport has taken the message
  -- without reporting a failure and the session's table has this very request under its id, or the
  -- request's future holds an exception and no table has changed.
  pub Reachable-IsNoted :
      {s : Session} (t : Task) (before after : List Task)
      → Reachable s
      → s.tasks ≡ before ++ t ∷ after
      → s.next_promise ≤ 2 ^ 64
      → let s' = record s { tasks = before ++ after } in IsNoted t s' (run_task t s')
  Reachable-IsNoted {s} (subscribe_task message id r) before after reach e few =
      let t = subscribe_task message id r in
      let s' = record s { tasks = before ++ after } in
      lands (λ u. u.subscribe_requests) id r r.response message
        (λ u. record u { subscribe_requests = emplace id r u.subscribe_requests }) s'
        (run_task t s') (λ link. refl) (Reachable-HasFreeId t before after reach e few)
        (Reachable-run_task t before after reach e)
  Reachable-IsNoted {s} (unsubscribe_task message id r) before after reach e few =
      let t = unsubscribe_task message id r in
      let s' = record s { tasks = before ++ after } in
      lands (λ u. u.unsubscribe_requests) id r r.response message
        (λ u. record u { unsubscribe_requests = emplace id r u.unsubscribe_requests }) s'
        (run_task t s') (λ link. refl) (Reachable-HasFreeId t before after reach e few)
        (Reachable-run_task t before after reach e)
  Reachable-IsNoted {s} (call_task message id r) before after reach e few =
      let t = call_task message id r in
      let s' = record s { tasks = before ++ after } in
      lands (λ u. u.calls) id r r.result message (λ u. record u { calls = emplace id r u.calls }) s'
        (run_task t s') (λ link. refl) (Reachable-HasFreeId t before after reach e few)
        (Reachable-run_task t before after reach e)
  Reachable-IsNoted {s} (provide_task message id r) before after reach e few =
      let t = provide_task message id r in
      let s' = record s { tasks = before ++ after } in
      lands (λ u. u.register_requests) id r r.response message
        (λ u. record u { register_requests = emplace id r u.register_requests }) s' (run_task t s')
        (λ link. refl) (Reachable-HasFreeId t before after reach e few)
        (Reachable-run_task t before after reach e)
  Reachable-IsNoted {s} (unprovide_task message id r) before after reach e few =
      let t = unprovide_task message id r in
      let s' = record s { tasks = before ++ after } in
      lands (λ u. u.unregister_requests) id r r.response message
        (λ u. record u { unregister_requests = emplace id r u.unregister_requests }) s'
        (run_task t s') (λ link. refl) (Reachable-HasFreeId t before after reach e few)
        (Reachable-run_task t before after reach e)
  Reachable-IsNoted t before after reach e few = tt
