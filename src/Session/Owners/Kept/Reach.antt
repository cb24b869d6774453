-- ===== src/Session/Owners/Kept/Reach.antt =====
-- The requests that the pending promises have in the sessions that a new one can become.
use autobahn_cpp_aw.Common.{
  ℕ, ◌+◌, ◌≤◌, ◌<◌, true, List, [], ◌∷◌, ◌++◌, ◌≡◌, arith, ◌%◌, ◌^◌, ap, ◌∙◌,
}
use autobahn_cpp_aw.Msgpack.{Msgpack}
use autobahn_cpp_aw.Promise.{pending}
use autobahn_cpp_aw.Client.{Client}
use autobahn_cpp_aw.Session.{Session, Task, new_session}
use autobahn_cpp_aw.Session.Tasks.{run_task, on_attach, on_detach}
use autobahn_cpp_aw.Session.Incoming.{on_message}
use autobahn_cpp_aw.Session.Send.{on_disconnect}
use autobahn_cpp_aw.Session.Layouts.{numbered, task_of, request_lem}
use autobahn_cpp_aw.Session.Steps.{
  UserCall, request, Step, requests, runs, receives, disconnects, attaches, detaches, Reachable,
  initial, next,
}
use autobahn_cpp_aw.Session.Owners.{
  waits, queued, owns, queued-append, queued-taken, Keeps, on_disconnect-Keeps,
}
use autobahn_cpp_aw.Session.Owners.Incoming.{on_message-Keeps}
use autobahn_cpp_aw.Session.Owners.Running.{run_task-Moves}
use autobahn_cpp_aw.Session.Owners.Kept.{Unique, UniqueKeys, none_bad, Leaves, on_disconnect-Leaves}
use autobahn_cpp_aw.Session.Owners.Kept.Incoming.{on_message-Leaves}
use autobahn_cpp_aw.Session.Owners.Kept.Landing.{task-Lands}

module _ ⦃m : Msgpack⦄ ⦃c : Client⦄ (a : ℕ) where
  -- ids are not shared, and a promise that has been made and is pending has an owner
  abbrev pub IsHeld : Session → Type 0
  IsHeld s =
      UniqueKeys s
      × (a < s.next_promise
          → s.promises a ≡ pending
          → 1 ≤ waits a none_bad s + queued a none_bad s.tasks)

  new_session-IsHeld : IsHeld new_session
  unfolding Unique
  new_session-IsHeld = ((tt, tt, tt, tt, tt), λ h. absurd (omega arith))

  Leaves-IsHeld : (s t : Session) → Leaves a s t → Keeps a none_bad s t → IsHeld s → IsHeld t
  Leaves-IsHeld s t l (w, q, n, i, p) (u, held) =
      let (u', k) = l u in
      (u', λ made h. (let (h', more) = k h in let one = held (omega arith) h' in omega arith))

  pub queued-made :
      (ts : List Task) (u : UserCall) (id : ℕ)
      → numbered u ≡ true
      → queued a none_bad (ts ++ task_of u id a ∷ []) ≡ queued a none_bad ts + 1
  unfolding queued owns
  queued-made ts u id h = ground (arith, queued-append a none_bad ts (task_of u id a ∷ []))

  request-IsHeld : (u : UserCall) (s : Session) → IsHeld s → IsHeld (request u s)
  request-IsHeld u s (k, held) =
      let id = (s.request_id + 1) % 2 ^ 64 in
      let t = task_of u id s.next_promise in
      rw (request_lem u s)
        (ground (arith, queued-append a none_bad s.tasks (t ∷ []), queued-made s.tasks u id))

  runs-IsHeld :
      {s : Session} (before after : List Task) (t : Task)
      → Reachable s
      → s.tasks ≡ before ++ t ∷ after
      → s.next_promise ≤ 2 ^ 64
      → IsHeld s
      → IsHeld (run_task t (record s { tasks = before ++ after })).1
  runs-IsHeld {s} before after t reach e few (u, held) =
      let s' = record s { tasks = before ++ after } in
      let (w, q, n, i, p) = run_task-Moves a none_bad t s' in
      let (u', lands) = task-Lands a t before after reach e few u in
      let had : queued a none_bad s.tasks
          ≡ owns a none_bad t + queued a none_bad (before ++ after) =
        ap (queued a none_bad) e ∙ queued-taken a none_bad before after t in
      (u', λ made h. let (h', more) = lands h in let one = held (omega arith) h' in omega arith)

  attaches-IsHeld : (link : c.Link) (s : Session) → IsHeld s → IsHeld (on_attach link s).1
  unfolding on_attach
  attaches-IsHeld link s h = ground arith

  detaches-IsHeld : (s : Session) → IsHeld s → IsHeld (on_detach s).1
  unfolding on_detach
  detaches-IsHeld s h = ground arith

  pub attached-made :
      (link : c.Link) (s : Session) → (on_attach link s).1.next_promise ≡ s.next_promise
  unfolding on_attach
  attached-made link s = ground arith

  pub detached-made : (s : Session) → (on_detach s).1.next_promise ≡ s.next_promise
  unfolding on_detach
  detached-made s = ground arith

  -- promises are made, never unmade
  pub Step-made : (s t : Session) → Step s t → s.next_promise ≤ t.next_promise
  Step-made s t (requests u) = rw (request_lem u s) (ground arith)
  Step-made s t (runs before after task e) =
      let moved = run_task-Moves a none_bad task (record s { tasks = before ++ after }) in
      omega (arith, moved.2)
  Step-made s t (receives message) =
      let kept = on_message-Keeps a none_bad message s in omega (arith, kept.2)
  Step-made s t (disconnects was_clean reason) =
      let kept = on_disconnect-Keeps a none_bad was_clean reason s in omega (arith, kept.2)
  Step-made s t (attaches link) = omega (arith, attached-made link s)
  Step-made s t detaches = omega (arith, detached-made s)

  Step-IsHeld :
      (s t : Session) → Reachable s → s.next_promise ≤ 2 ^ 64 → Step s t → IsHeld s → IsHeld t
  Step-IsHeld s t reach few (requests u) h = request-IsHeld u s h
  Step-IsHeld s t reach few (runs before after task e) h =
      runs-IsHeld before after task reach e few h
  Step-IsHeld s t reach few (receives message) h =
      Leaves-IsHeld s (on_message message s).1 (on_message-Leaves a message s)
        (on_message-Keeps a none_bad message s) h
  Step-IsHeld s t reach few (disconnects was_clean reason) h =
      Leaves-IsHeld s (on_disconnect was_clean reason s).1
        (on_disconnect-Leaves a was_clean reason s)
        (on_disconnect-Keeps a none_bad was_clean reason s) h
  Step-IsHeld s t reach few (attaches link) h = attaches-IsHeld link s h
  Step-IsHeld s t reach few detaches h = detaches-IsHeld s h

  pub Reachable-IsHeld : {s : Session} → Reachable s → s.next_promise ≤ 2 ^ 64 → IsHeld s
  Reachable-IsHeld initial few = new_session-IsHeld
  Reachable-IsHeld (next {s} {t} r st) few =
      let made = Step-made s t st in
      Step-IsHeld s t r (omega arith) st (Reachable-IsHeld r (omega arith))
