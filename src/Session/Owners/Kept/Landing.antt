-- ===== src/Session/Owners/Kept/Landing.antt =====
-- The handlers that the io service runs in a reachable session, and the requests that a pending
-- promise still has.
use autobahn_cpp_aw.Common.{
  ℕ, ◌+◌, ◌≤◌, true, false, none, some, List, ◌∷◌, ◌++◌, ◌≡◌, refl, arith, ◌==◌, ◌||◌, ◌^◌,
  if◌then◌else◌, ◌⊎◌, inl, inr,
}
use autobahn_cpp_aw.Common.Table.{find, emplace}
use autobahn_cpp_aw.Exception.{ok, modify}
use autobahn_cpp_aw.Msgpack.{Msgpack}
use autobahn_cpp_aw.Message.{Message}
use autobahn_cpp_aw.Promise.{pending}
use autobahn_cpp_aw.Client.{Client}
use autobahn_cpp_aw.Session.{
  Session, Task, Call, SubscribeRequest, UnsubscribeRequest, RegisterRequest, UnregisterRequest,
  start_task, stop_task, join_task, leave_task, publish_task, subscribe_task, unsubscribe_task,
  call_task, provide_task, unprovide_task, authenticate_task,
}
use autobahn_cpp_aw.Session.Tasks.{
  run_task, run_publish, run_subscribe, run_unsubscribe, run_call, run_provide, run_unprovide,
  attempt,
}
use autobahn_cpp_aw.Session.Attempts.{WasSent, HasFailed}
use autobahn_cpp_aw.Session.Steps.{Reachable}
use autobahn_cpp_aw.Session.Owners.{waits, owns}
use autobahn_cpp_aw.Session.Owners.Controls.{is_control}
use autobahn_cpp_aw.Session.Owners.Reach.{Reachable-run_task}
use autobahn_cpp_aw.Session.Owners.Numbers.{Reachable-HasFreeId}
use autobahn_cpp_aw.Session.Owners.Kept.{
  Unique-emplace, UniqueKeys, none_bad, subscribers-Holds, unsubscribers-Holds, registrars-Holds,
  unregistrars-Holds, callers-Holds,
}
use autobahn_cpp_aw.Session.Owners.Kept.Incoming.{control-Leaves}
use autobahn_cpp_aw.Session.Owners.Kept.Running.{
  WasPending, attempt-WasPending, run_publish-Settles,
}

module _ ⦃m : Msgpack⦄ ⦃c : Client⦄ (a : ℕ) where
  -- as `Leaves`, for a step that has `k` owners of `a` in hand and hands them on to the tables
  abbrev pub Lands : ℕ → Session → Session → Type 0
  Lands k s t =
      UniqueKeys t
      × (t.promises a ≡ pending
          → (s.promises a ≡ pending) × (waits a none_bad s + k ≤ waits a none_bad t))

  -- a request that failed was not this promise's
  failed-Lands :
      (b : ℕ) (s t : Session)
      → UniqueKeys s
      → WasPending a s t
      → HasFailed b s t
      → Lands (if a == b || false then 1 else 0) s t
  failed-Lands b s t u was (e, failure, same) =
      let (calls, subs, unsubs, regs, unregs, handlers, procedures) = same in
      (ground arith, λ h. (was h, ground arith))

  publish-Lands :
      (message : Message) (b : ℕ) (s : Session)
      → UniqueKeys s
      → Lands (if a == b then 1 else 0) s (run_publish message b s).1
  publish-Lands message b s u =
      let (l, settled) = run_publish-Settles a message b s in
      ((l u).0, λ h. (let k = (l u).1 h in ground arith))

  -- what a noted request makes of the tables
  abbrev Notes : ℕ → (Session → Session) → Session → Type 0
  Notes b f s =
      (link : c.Link)
      → Lands (if a == b || false then 1 else 0) s (f (record s { transport = some link }))

  attempt-Lands :
      (message : Message) (b : ℕ) (f : Session → Session) (s : Session)
      → UniqueKeys s
      → ((t : Session) → (f t).promises ≡ t.promises)
      → Notes b f s
      → let (r, t) = attempt message b (modify f) s in
        (r ≡ ok tt) × (WasSent message f s t ⊎ HasFailed b s t)
        → Lands (if a == b || false then 1 else 0) s t
  attempt-Lands message b f s u same notes (_, inl (link, _, _, _, e)) =
      rw e (notes (c.transmit link message).0)
  attempt-Lands message b f s u same notes (_, inr failure) =
      failed-Lands b s (attempt message b (modify f) s).1 u
        (attempt-WasPending a message b f s u same) failure

  subscribe-Notes :
      (id : ℕ) (r : SubscribeRequest) (s : Session)
      → UniqueKeys s
      → find id s.subscribe_requests ≡ none
      → Notes r.response
          (λ u. record u { subscribe_requests = emplace id r u.subscribe_requests })
          s
  subscribe-Notes id r s u free link = ground (
    arith,
    Unique-emplace id r s.subscribe_requests,
    (subscribers-Holds a).1 id r s.subscribe_requests free,
  )

  unsubscribe-Notes :
      (id : ℕ) (r : UnsubscribeRequest) (s : Session)
      → UniqueKeys s
      → find id s.unsubscribe_requests ≡ none
      → Notes r.response
          (λ u. record u { unsubscribe_requests = emplace id r u.unsubscribe_requests })
          s
  unsubscribe-Notes id r s u free link = ground (
    arith,
    Unique-emplace id r s.unsubscribe_requests,
    (unsubscribers-Holds a).1 id r s.unsubscribe_requests free,
  )

  call-Notes :
      (id : ℕ) (r : Call) (s : Session)
      → UniqueKeys s
      → find id s.calls ≡ none
      → Notes r.result (λ u. record u { calls = emplace id r u.calls }) s
  call-Notes id r s u free link =
      ground (arith, Unique-emplace id r s.calls, (callers-Holds a).1 id r s.calls free)

  provide-Notes :
      (id : ℕ) (r : RegisterRequest) (s : Session)
      → UniqueKeys s
      → find id s.register_requests ≡ none
      → Notes r.response (λ u. record u { register_requests = emplace id r u.register_requests }) s
  provide-Notes id r s u free link = ground (
    arith,
    Unique-emplace id r s.register_requests,
    (registrars-Holds a).1 id r s.register_requests free,
  )

  unprovide-Notes :
      (id : ℕ) (r : UnregisterRequest) (s : Session)
      → UniqueKeys s
      → find id s.unregister_requests ≡ none
      → Notes r.response
          (λ u. record u { unregister_requests = emplace id r u.unregister_requests })
          s
  unprovide-Notes id r s u free link = ground (
    arith,
    Unique-emplace id r s.unregister_requests,
    (unregistrars-Holds a).1 id r s.unregister_requests free,
  )

  control-Lands :
      (t : Task) (s : Session) → is_control t ≡ true → UniqueKeys s → Lands 0 s (run_task t s).1
  control-Lands t s e u =
      let (u', l) = control-Leaves a t s e u in (u', λ h. ((l h).0, omega (arith, (l h).1)))

  pub task-Lands :
      {s : Session} (t : Task) (before after : List Task)
      → Reachable s
      → s.tasks ≡ before ++ t ∷ after
      → s.next_promise ≤ 2 ^ 64
      → UniqueKeys s
      → let s' = record s { tasks = before ++ after } in
        Lands (owns a none_bad t) s' (run_task t s').1
  unfolding owns run_task run_subscribe run_unsubscribe run_call run_provide run_unprovide
  task-Lands {s} (subscribe_task message id r) before after reach e few u =
      let s' = record s { tasks = before ++ after } in
      let t : Task = subscribe_task message id r in
      attempt-Lands message r.response
        (λ u. record u { subscribe_requests = emplace id r u.subscribe_requests }) s' u (λ t. refl)
        (subscribe-Notes id r s' u (Reachable-HasFreeId t before after reach e few))
        (Reachable-run_task t before after reach e)
  task-Lands {s} (unsubscribe_task message id r) before after reach e few u =
      let s' = record s { tasks = before ++ after } in
      let t : Task = unsubscribe_task message id r in
      attempt-Lands message r.response
        (λ u. record u { unsubscribe_requests = emplace id r u.unsubscribe_requests }) s' u
        (λ t. refl) (unsubscribe-Notes id r s' u (Reachable-HasFreeId t before after reach e few))
        (Reachable-run_task t before after reach e)
  task-Lands {s} (call_task message id r) before after reach e few u =
      let s' = record s { tasks = before ++ after } in
      let t : Task = call_task message id r in
      attempt-Lands message r.result (λ u. record u { calls = emplace id r u.calls }) s' u
        (λ t. refl) (call-Notes id r s' u (Reachable-HasFreeId t before after reach e few))
        (Reachable-run_task t before after reach e)
  task-Lands {s} (provide_task message id r) before after reach e few u =
      let s' = record s { tasks = before ++ after } in
      let t : Task = provide_task message id r in
      attempt-Lands message r.response
        (λ u. record u { register_requests = emplace id r u.register_requests }) s' u (λ t. refl)
        (provide-Notes id r s' u (Reachable-HasFreeId t before after reach e few))
        (Reachable-run_task t before after reach e)
  task-Lands {s} (unprovide_task message id r) before after reach e few u =
      let s' = record s { tasks = before ++ after } in
      let t : Task = unprovide_task message id r in
      attempt-Lands message r.response
        (λ u. record u { unregister_requests = emplace id r u.unregister_requests }) s' u
        (λ t. refl) (unprovide-Notes id r s' u (Reachable-HasFreeId t before after reach e few))
        (Reachable-run_task t before after reach e)
  task-Lands {s} (publish_task message b) before after reach e few u =
      publish-Lands message b (record s { tasks = before ++ after }) u
  task-Lands {s} start_task before after reach e few u =
      control-Lands start_task (record s { tasks = before ++ after }) refl u
  task-Lands {s} stop_task before after reach e few u =
      control-Lands stop_task (record s { tasks = before ++ after }) refl u
  task-Lands {s} (join_task message) before after reach e few u =
      control-Lands (join_task message) (record s { tasks = before ++ after }) refl u
  task-Lands {s} (leave_task message) before after reach e few u =
      control-Lands (leave_task message) (record s { tasks = before ++ after }) refl u
  task-Lands {s} (authenticate_task message) before after reach e few u =
      control-Lands (authenticate_task message) (record s { tasks = before ++ after }) refl u
