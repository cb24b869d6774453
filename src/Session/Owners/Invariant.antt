-- ===== src/Session/Owners/Invariant.antt =====
-- The invariant of the promises' owners, and what each step of a session makes of it.
use autobahn_cpp_aw.Common.{
  not, Bool, sym, ℕ, ◌+◌, ◌≤◌, false, List, [], ◌∷◌, ◌++◌, ◌≡◌, refl, arith, ◌==◌, ◌%◌, ◌^◌,
  if◌then◌else◌, ◌∙◌, ap,
}
use autobahn_cpp_aw.Msgpack.{Msgpack}
use autobahn_cpp_aw.Promise.{pending}
use autobahn_cpp_aw.Client.{Client}
use autobahn_cpp_aw.Session.{Session, Task, new_session}
use autobahn_cpp_aw.Session.Tasks.{run_task, on_attach, on_detach}
use autobahn_cpp_aw.Session.Incoming.{on_message}
use autobahn_cpp_aw.Session.Send.{on_disconnect}
use autobahn_cpp_aw.Session.Layouts.{numbered, task_of, request_lem}
use autobahn_cpp_aw.Session.Steps.{
  UserCall, request, Step, requests, runs, receives, disconnects, attaches, detaches,
}
use autobahn_cpp_aw.Session.Owners.{
  queued-taken, waits, queued, owns, queued-append, Keeps, on_disconnect-Keeps, subscribers,
  unsubscribers, registrars, unregistrars, callers,
}
use autobahn_cpp_aw.Session.Owners.Incoming.{on_message-Keeps}
use autobahn_cpp_aw.Session.Owners.Running.{run_task-Moves}

-- An id that is not the number of its promise: promises are made one after the other, and the id of
-- each request is one more than the promise's address, modulo 2 ^ 64.
unfoldable pub misnumbered : ℕ → ℕ → Bool
misnumbered id b = not (id == (b + 1) % 2 ^ 64)

numbered_id : (id b : ℕ) → id ≡ b % 2 ^ 64 → (id + 1) % 2 ^ 64 ≡ (b + 1) % 2 ^ 64
numbered_id id b h = omega arith

next_number : (id b : ℕ) → id ≡ b % 2 ^ 64 → misnumbered ((id + 1) % 2 ^ 64) b ≡ false
unfolding misnumbered
next_number id b h = let e = numbered_id id b h in ground arith

module _ ⦃m : Msgpack⦄ ⦃c : Client⦄ (a : ℕ) where
  -- The promise at `a` has at most one owner, none before it is made, and is pending while a handler
  -- in the queue owns it.
  unfoldable pub IsOwned : Session → Type 0
  IsOwned s =
      (waits a misnumbered s + queued a misnumbered s.tasks ≤ 1)
      × (s.next_promise ≤ a → waits a misnumbered s + queued a misnumbered s.tasks ≡ 0)
      × (1 ≤ queued a misnumbered s.tasks → s.promises a ≡ pending)
      × (s.request_id ≡ s.next_promise % 2 ^ 64)

  pub new_session-IsOwned : IsOwned new_session
  unfolding IsOwned subscribers unsubscribers registrars unregistrars callers queued
  new_session-IsOwned = (omega arith, λ h. refl, λ h. refl, refl)

  Keeps-IsOwned : (s t : Session) → Keeps a misnumbered s t → IsOwned s → IsOwned t
  unfolding IsOwned
  Keeps-IsOwned s t (w, q, n, i, p) (one, none_yet, waiting_ones, numbers) = (
    omega arith,
    λ h. (let h' = none_yet (omega arith) in omega arith),
    λ h. p (omega arith) ∙ waiting_ones (omega arith),
    i ∙ numbers ∙ ap (λ x. x % 2 ^ 64) (sym n),
  )

  owns-task_of :
      (u : UserCall) (id b : ℕ)
      → misnumbered id b ≡ false
      → owns a misnumbered (task_of u id b) ≡ (if numbered u then (if a == b then 1 else 0) else 0)
  unfolding owns
  owns-task_of UserCall.start id b h = refl
  owns-task_of UserCall.stop id b h = refl
  owns-task_of (UserCall.join realm methods name) id b h = refl
  owns-task_of (UserCall.leave reason) id b h = refl
  owns-task_of (UserCall.publish topic) id b h = refl
  owns-task_of (UserCall.publish_arguments topic x) id b h = refl
  owns-task_of (UserCall.publish_kw_arguments topic x k) id b h = refl
  owns-task_of u id b h = ground arith

  queued-snoc :
      (ts : List Task) (t : Task)
      → queued a misnumbered (ts ++ t ∷ []) ≡ queued a misnumbered ts + owns a misnumbered t
  unfolding queued
  queued-snoc ts t = queued-append a misnumbered ts (t ∷ []) ∙ omega arith

  request-IsOwned : (u : UserCall) (s : Session) → IsOwned s → IsOwned (request u s)
  unfolding IsOwned
  request-IsOwned u s (one, none_yet, waiting_ones, numbers) =
      let id = (s.request_id + 1) % 2 ^ 64 in
      let right = next_number s.request_id s.next_promise numbers in
      rw (request_lem u s) (
        ground (
          arith,
          queued-snoc s.tasks (task_of u id s.next_promise),
          owns-task_of u id s.next_promise right,
          numbered_id s.request_id s.next_promise numbers,
        ))

  runs-IsOwned :
      (before after : List Task) (t : Task) (s : Session)
      → s.tasks ≡ before ++ t ∷ after
      → IsOwned s
      → IsOwned (run_task t (record s { tasks = before ++ after })).1
  unfolding IsOwned
  runs-IsOwned before after t s e (one, none_yet, waiting_ones, numbers) =
      let s' = record s { tasks = before ++ after } in
      let (w, q, n, i, p) = run_task-Moves a misnumbered t s' in
      let had : queued a misnumbered s.tasks
          ≡ owns a misnumbered t + queued a misnumbered (before ++ after) =
        ap (queued a misnumbered) e ∙ queued-taken a misnumbered before after t in
      (
        omega arith,
        λ h. (let h' = none_yet (omega arith) in omega arith),
        λ h. p (omega arith) ∙ waiting_ones (omega arith),
        i ∙ numbers ∙ ap (λ x. x % 2 ^ 64) (sym n),
      )

  attaches-IsOwned : (link : c.Link) (s : Session) → IsOwned s → IsOwned (on_attach link s).1
  unfolding on_attach IsOwned
  attaches-IsOwned link s owned = ground arith

  detaches-IsOwned : (s : Session) → IsOwned s → IsOwned (on_detach s).1
  unfolding on_detach IsOwned
  detaches-IsOwned s owned = ground arith

  pub Step-IsOwned : (s t : Session) → Step s t → IsOwned s → IsOwned t
  Step-IsOwned s t (requests u) = request-IsOwned u s
  Step-IsOwned s t (runs before after task e) = runs-IsOwned before after task s e
  Step-IsOwned s t (receives message) =
      Keeps-IsOwned s (on_message message s).1 (on_message-Keeps a misnumbered message s)
  Step-IsOwned s t (disconnects was_clean reason) =
      Keeps-IsOwned s (on_disconnect was_clean reason s).1
        (on_disconnect-Keeps a misnumbered was_clean reason s)
  Step-IsOwned s t (attaches link) = attaches-IsOwned link s
  Step-IsOwned s t detaches = detaches-IsOwned s
