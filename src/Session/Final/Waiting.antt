-- ===== src/Session/Final/Waiting.antt =====
-- What a session may become, and the requests that still wait in it.
use autobahn_cpp_aw.Common.{ℕ, ◌≤◌, ◌<◌, ◌^◌, ◌≡◌, arith}
use autobahn_cpp_aw.Msgpack.{Msgpack}
use autobahn_cpp_aw.Promise.{pending}
use autobahn_cpp_aw.Client.{Client}
use autobahn_cpp_aw.Session.{Session}
use autobahn_cpp_aw.Session.Tasks.{on_attach, on_detach}
use autobahn_cpp_aw.Session.Layouts.{request_lem}
use autobahn_cpp_aw.Session.Steps.{
  UserCall, request, Step, requests, runs, receives, disconnects, attaches, detaches, Reachable,
  next,
}
use autobahn_cpp_aw.Session.Owners.{waits}
use autobahn_cpp_aw.Session.Owners.Kept.{none_bad, on_disconnect-Leaves, UniqueKeys}
use autobahn_cpp_aw.Session.Owners.Kept.Incoming.{on_message-Leaves}
use autobahn_cpp_aw.Session.Owners.Kept.Landing.{task-Lands}
use autobahn_cpp_aw.Session.Owners.Kept.Reach.{Reachable-IsHeld, Step-made}
use autobahn_cpp_aw.Session.Final.Later.{Later, here, further, Later-made}

module _ ⦃m : Msgpack⦄ ⦃c : Client⦄ where
  pub Later-Reachable : {s t : Session} → Reachable s → Later s t → Reachable t
  Later-Reachable r here = r
  Later-Reachable r (further l st) = next (Later-Reachable r l) st

module _ ⦃m : Msgpack⦄ ⦃c : Client⦄ (a : ℕ) where
  -- if the promise at `a` is pending in the end, it was before, and what waited for it still does
  abbrev pub Waits : Session → Session → Type 0
  Waits s t =
      t.promises a ≡ pending → (s.promises a ≡ pending) × (waits a none_bad s ≤ waits a none_bad t)

  request-Waits : (u : UserCall) (s : Session) → a < s.next_promise → Waits s (request u s)
  request-Waits u s made = rw (request_lem u s) (λ h. ground arith)

  attaches-Waits : (link : c.Link) (s : Session) → Waits s (on_attach link s).1
  unfolding on_attach
  attaches-Waits link s h = ground arith

  detaches-Waits : (s : Session) → Waits s (on_detach s).1
  unfolding on_detach
  detaches-Waits s h = ground arith

  pub Step-Waits :
      (s t : Session)
      → Reachable s
      → s.next_promise ≤ 2 ^ 64
      → a < s.next_promise
      → UniqueKeys s
      → Step s t
      → Waits s t
  Step-Waits s t reach few made u (requests called) = request-Waits called s made
  Step-Waits s t reach few made u (runs before rest task e) =
      λ h. let (h', more) = (task-Lands a task before rest reach e few u).1 h in (h', omega arith)
  Step-Waits s t reach few made u (receives message) = (on_message-Leaves a message s u).1
  Step-Waits s t reach few made u (disconnects was_clean reason) =
      (on_disconnect-Leaves a was_clean reason s u).1
  Step-Waits s t reach few made u (attaches link) = attaches-Waits link s
  Step-Waits s t reach few made u detaches = detaches-Waits s

  -- A request waits until its future is settled: if, in a session that a new one can become, requests
  -- in the tables have a promise, then after any further calls of the user, handlers, messages, lost
  -- connections and changes of the transport, in any order, at least as many are in the tables still,
  -- as long as the promise is pending; other requests and answers, also those that are refused, do not
  -- take it away. The user makes at most 2 ^ 64 requests, the promise among them.
  pub Later-waits :
      {s t : Session}
      → Reachable s
      → Later s t
      → t.next_promise ≤ 2 ^ 64
      → a < s.next_promise
      → t.promises a ≡ pending
      → waits a none_bad s ≤ waits a none_bad t
  Later-waits reach here few made h = omega arith
  Later-waits {s} {t} reach (further {v} l st) few made h =
      let middle = Later-Reachable reach l in
      let grown = Step-made a v t st in
      let more = Later-made a s v l in
      let (keys, held) = Reachable-IsHeld a middle (omega arith) in
      let (h', w) = Step-Waits v t middle (omega arith) (omega arith) keys st h in
      let before = Later-waits reach l (omega arith) made h' in omega arith
