-- ===== src/Session/Owners/Running.antt =====
-- The handlers of the io service and the owners of promises.
use autobahn_cpp_aw.Common.{
  Bool, ◌||◌, zero, suc, ◌⊎◌, inl, inr, ◌<◌, ℕ, ◌+◌, ◌≤◌, true, false, ◌≡◌, refl, arith, ◌==◌,
  if◌then◌else◌, ◌∙◌,
}
use autobahn_cpp_aw.Msgpack.{Msgpack}
use autobahn_cpp_aw.Message.{Message}
use autobahn_cpp_aw.Promise.{Promise}
use autobahn_cpp_aw.Client.{Client}
use autobahn_cpp_aw.Session.{
  Session, Method, Task, start_task, stop_task, join_task, leave_task, publish_task, subscribe_task,
  unsubscribe_task, call_task, provide_task, unprovide_task, authenticate_task, Call,
  SubscribeRequest, UnsubscribeRequest, RegisterRequest, UnregisterRequest,
}
use autobahn_cpp_aw.Session.Send.{set_promise, send_message, on_disconnect}
use autobahn_cpp_aw.Session.Tasks.{
  attempt, run_publish, run_subscribe, run_unsubscribe, run_call, run_provide, run_unprovide,
  run_task,
}
use autobahn_cpp_aw.Session.Owners.Controls.{Quiet, is_control, run_task-Quiet}
use autobahn_cpp_aw.Session.Owners.{
  Keeps-refl, Keeps-trans, waits, queued, owns, Keeps, send_message-Keeps, on_disconnect-Keeps,
  subscribers-Counts, unsubscribers-Counts, registrars-Counts, unregistrars-Counts, callers-Counts,
}

Zero-cases : (k : ℕ) → (k ≡ 0) ⊎ (0 < k)
Zero-cases zero = inl refl
Zero-cases (suc k) = inr (omega arith)

module _ ⦃m : Msgpack⦄ ⦃c : Client⦄ where
  -- what holds once the message is sent, whatever comes after, holds after the attempt
  pub attempt-ends :
      (P : Session → Type 0) (message : Message) (b : ℕ) (rest : Method (Unit {0})) (s : Session)
      → P (send_message message true s).1
      → P (rest (send_message message true s).1).1
      → ((v : Promise) (t : Session) → P t → P (set_promise b v t).1)
      → P (attempt message b rest s).1
  unfolding attempt
  attempt-ends P message b rest s sent done settles = grind arith

module _ ⦃m : Msgpack⦄ ⦃c : Client⦄ (a : ℕ) (bad : ℕ → ℕ → Bool) where
  -- as `Keeps`, for a step that has `k` owners of `a` in hand
  abbrev pub Moves : ℕ → Session → Session → Type 0
  Moves k s t =
      (waits a bad t ≤ waits a bad s + k)
      × (queued a bad t.tasks ≡ queued a bad s.tasks)
      × (t.next_promise ≡ s.next_promise)
      × (t.request_id ≡ s.request_id)
      × (waits a bad s + k ≡ 0 → t.promises a ≡ s.promises a)

  kept : (k : ℕ) (s t : Session) → Keeps a bad s t → Moves k s t
  kept k s t (w, q, n, i, p) = (omega arith, q, n, i, λ h. p (omega arith))

  after : (k : ℕ) (s t u : Session) → Keeps a bad s t → Moves k t u → Moves k s u
  after k s t u (w, q, n, i, p) (w', q', n', i', p') =
      (omega arith, q' ∙ q, n' ∙ n, i' ∙ i, λ h. p' (omega arith) ∙ p (omega arith))

  -- one request where the promise is at `a`, or the id and the promise are bad
  abbrev pub owner : ℕ → ℕ → ℕ
  owner id b = if a == b || bad id b then 1 else 0

  set_promise-Moves :
      (k b : ℕ) (v : Promise) (s t : Session)
      → (k ≡ 0 → (a == b) ≡ false)
      → Moves k s t
      → Moves k s (set_promise b v t).1
  unfolding set_promise
  set_promise-Moves k b v s t other h = elim (Zero-cases k) [
    | inl z ↦ let apart = other z in ground arith
    | inr p ↦ ground arith
  ]

  attempt-Moves :
      (k : ℕ) (message : Message) (b : ℕ) (rest : Method (Unit {0})) (s : Session)
      → (k ≡ 0 → (a == b) ≡ false)
      → ((u : Session) → Moves k u (rest u).1)
      → Moves k s (attempt message b rest s).1
  attempt-Moves k message b rest s other h =
      let u = (send_message message true s).1 in
      let sent = send_message-Keeps a bad message true s in
      attempt-ends (λ t. Moves k s t) message b rest s (kept k s u sent)
        (after k s u (rest u).1 sent (h u)) (λ v t. set_promise-Moves k b v s t other)

  owner-other : (id b : ℕ) → owner id b ≡ 0 → (a == b) ≡ false
  owner-other id b h = ground arith

  run_publish-Moves :
      (message : Message) (b : ℕ) (s : Session)
      → Moves (if a == b then 1 else 0) s (run_publish message b s).1
  unfolding run_publish
  run_publish-Moves message b s =
      let k : ℕ = if a == b then 1 else 0 in
      let other : k ≡ 0 → (a == b) ≡ false = λ h. ground arith in
      attempt-Moves k message b _ s other
        (λ u. set_promise-Moves k b _ u u other (omega arith, refl, refl, refl, λ h. refl))

  run_subscribe-Moves :
      (message : Message) (id : ℕ) (r : SubscribeRequest) (s : Session)
      → Moves (owner id r.response) s (run_subscribe message id r s).1
  unfolding run_subscribe
  run_subscribe-Moves message id r s =
      attempt-Moves (owner id r.response) message r.response _ s (owner-other id r.response)
        (λ u. let more = (subscribers-Counts a bad).2 id r u.subscribe_requests in ground arith)

  run_unsubscribe-Moves :
      (message : Message) (id : ℕ) (r : UnsubscribeRequest) (s : Session)
      → Moves (owner id r.response) s (run_unsubscribe message id r s).1
  unfolding run_unsubscribe
  run_unsubscribe-Moves message id r s =
      attempt-Moves (owner id r.response) message r.response _ s (owner-other id r.response)
        (λ u. let more = (unsubscribers-Counts a bad).2 id r u.unsubscribe_requests in ground arith)

  run_call-Moves :
      (message : Message) (id : ℕ) (r : Call) (s : Session)
      → Moves (owner id r.result) s (run_call message id r s).1
  unfolding run_call
  run_call-Moves message id r s =
      attempt-Moves (owner id r.result) message r.result _ s (owner-other id r.result)
        (λ u. let more = (callers-Counts a bad).2 id r u.calls in ground arith)

  run_provide-Moves :
      (message : Message) (id : ℕ) (r : RegisterRequest) (s : Session)
      → Moves (owner id r.response) s (run_provide message id r s).1
  unfolding run_provide
  run_provide-Moves message id r s =
      attempt-Moves (owner id r.response) message r.response _ s (owner-other id r.response)
        (λ u. let more = (registrars-Counts a bad).2 id r u.register_requests in ground arith)

  run_unprovide-Moves :
      (message : Message) (id : ℕ) (r : UnregisterRequest) (s : Session)
      → Moves (owner id r.response) s (run_unprovide message id r s).1
  unfolding run_unprovide
  run_unprovide-Moves message id r s =
      attempt-Moves (owner id r.response) message r.response _ s (owner-other id r.response)
        (λ u. let more = (unregistrars-Counts a bad).2 id r u.unregister_requests in ground arith)

  Keeps-Quiet : (s : Session) → Quiet (λ _. Unit {0}) (Keeps a bad s)
  Keeps-Quiet s = record {
    sends = λ message b t q h.
        Keeps-trans a bad s t (send_message message b t).1 h (send_message-Keeps a bad message b t);
    drops = λ b reason t h.
        Keeps-trans a bad s t (on_disconnect b reason t).1 h (on_disconnect-Keeps a bad b reason t);
    starts = λ v t h. h;
    stops = λ v t h. h;
    joins = λ v t h. h;
    leaves = λ v t h. h;
    turns = λ b t h. h;
    says_goodbye = λ t h. h;
    identifies = λ id t h. h;
  }

  control-Moves : (t : Task) (s : Session) → is_control t ≡ true → Moves 0 s (run_task t s).1
  control-Moves t s e = kept 0 s (run_task t s).1 (
      run_task-Quiet (λ _. Unit {0}) (Keeps a bad s) (Keeps-Quiet s) t s e (λ _. tt)
        (Keeps-refl a bad s))

  pub run_task-Moves : (t : Task) (s : Session) → Moves (owns a bad t) s (run_task t s).1
  unfolding run_task owns
  run_task-Moves (publish_task message b) s = run_publish-Moves message b s
  run_task-Moves (subscribe_task message id r) s = run_subscribe-Moves message id r s
  run_task-Moves (unsubscribe_task message id r) s = run_unsubscribe-Moves message id r s
  run_task-Moves (call_task message id r) s = run_call-Moves message id r s
  run_task-Moves (provide_task message id r) s = run_provide-Moves message id r s
  run_task-Moves (unprovide_task message id r) s = run_unprovide-Moves message id r s
  run_task-Moves start_task s = control-Moves start_task s refl
  run_task-Moves stop_task s = control-Moves stop_task s refl
  run_task-Moves (join_task message) s = control-Moves (join_task message) s refl
  run_task-Moves (leave_task message) s = control-Moves (leave_task message) s refl
  run_task-Moves (authenticate_task message) s = control-Moves (authenticate_task message) s refl
