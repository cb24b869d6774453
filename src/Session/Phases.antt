-- ===== src/Session/Phases.antt =====
-- The phases of a future, as a diagram, and the steps of a session beside it.
use autobahn_cpp_aw.Common.{
  ℕ, ◌+◌, ◌≤◌, ◌<◌, ◌%◌, ◌^◌, Bool, true, false, ◌++◌, ◌≡◌, refl, arith, ap, ◌∙◌, ltb, Bool-cases,
  ◌⊎◌, inl, inr,
}
use autobahn_cpp_aw.Msgpack.{Msgpack}
use autobahn_cpp_aw.Promise.{Promise, pending, is_pending}
use autobahn_cpp_aw.Client.{Client}
use autobahn_cpp_aw.Session.{Session}
use autobahn_cpp_aw.Session.Layouts.{request_lem}
use autobahn_cpp_aw.Session.Steps.{
  UserCall, request, Step, requests, runs, receives, disconnects, attaches, detaches, Reachable,
  next,
}
use autobahn_cpp_aw.Session.Owners.{waits, queued, on_disconnect-Keeps}
use autobahn_cpp_aw.Session.Owners.Incoming.{on_message-Keeps}
use autobahn_cpp_aw.Session.Owners.Running.{run_task-Moves}
use autobahn_cpp_aw.Session.Owners.Kept.{none_bad}
use autobahn_cpp_aw.Session.Owners.Kept.Reach.{Step-made, queued-made, attached-made, detached-made}
use autobahn_cpp_aw.Session.Owners.Kept.Single.{Reachable-pending}
use autobahn_cpp_aw.Session.Final.Later.{Later, here, further, Step-Stays}
use autobahn_cpp_aw.Session.Final.Waiting.{Step-Waits, Later-Reachable}

-- not made yet, with a handler in the queue, with a request in a table, with a value or an exception,
-- or pending with nothing left that could settle it
pub data Phase : Type 0 where
  unmade queueing waiting settled lost : Phase

infix 40 ◌⟶◌ ◌⟶*◌
-- the diagram: a request is made, sent and answered, or it ends without an answer; it is never lost
pub data ◌⟶◌ : Phase → Phase → Type 0 where
  idle : unmade ⟶ unmade
  queues : queueing ⟶ queueing
  waits_on : waiting ⟶ waiting
  keeps : settled ⟶ settled
  make : unmade ⟶ queueing
  send : queueing ⟶ waiting
  finish : queueing ⟶ settled
  answer : waiting ⟶ settled

pub data ◌⟶*◌ (p : Phase) : Phase → Type 0 where
  none_yet : p ⟶* p
  more : {q r : Phase} → p ⟶* q → q ⟶ r → p ⟶* r

-- from whether the promise is made, is pending, has a handler in the queue, and a request in a table
abbrev pub phase_of : Bool → Bool → Bool → Bool → Phase
phase_of false unset handler request = unmade
phase_of true false handler request = settled
phase_of true true true request = queueing
phase_of true true false true = waiting
phase_of true true false false = lost

ruleset edges = (idle, queues, waits_on, keeps, make, send, finish, answer)

module _ ⦃m : Msgpack⦄ ⦃c : Client⦄ (a : ℕ) where
  unfoldable pub phase : Session → Phase
  phase s =
      phase_of (ltb a s.next_promise) (is_pending (s.promises a))
        (ltb 0 (queued a none_bad s.tasks)) (ltb 0 (waits a none_bad s))

  -- what is not a call of the user makes no promise
  Step-unmade :
      (s t : Session)
      → Step s t
      → (t.next_promise ≡ s.next_promise) ⊎ ((u : UserCall) × (t ≡ request u s))
  Step-unmade s t (requests u) = inr (u, refl)
  Step-unmade s t (runs before after task e) =
      inl (run_task-Moves a none_bad task (record s { tasks = before ++ after })).2
  Step-unmade s t (receives message) = inl (on_message-Keeps a none_bad message s).2
  Step-unmade s t (disconnects was_clean reason) =
      inl (on_disconnect-Keeps a none_bad was_clean reason s).2
  Step-unmade s t (attaches link) = inl (attached-made a link s)
  Step-unmade s t detaches = inl (detached-made a s)

  -- where one owner is left, the edges of a promise that stays pending, and of one that is settled
  moves :
      (q q' w w' : ℕ)
      → w ≤ w'
      → w' + q' ≡ 1
      → w + q ≡ 1
      → phase_of true true (ltb 0 q) (ltb 0 w) ⟶ phase_of true true (ltb 0 q') (ltb 0 w')
  moves q q' w w' still one' one = grind (arith, edges)

  ends :
      (q q' w w' : ℕ)
      → w + q ≡ 1
      → phase_of true true (ltb 0 q) (ltb 0 w) ⟶ phase_of true false (ltb 0 q') (ltb 0 w')
  ends q q' w w' one = grind (arith, edges)

  -- what a step has to keep, for the phase to follow the diagram
  follows :
      (n n' q q' w w' : ℕ) (p p' : Promise)
      → n ≤ n'
      → (a < n → is_pending p ≡ false → is_pending p' ≡ false)
      → (a < n → is_pending p ≡ true → is_pending p' ≡ true → (w ≤ w') × (w' + q' ≡ 1))
      → (a < n → is_pending p ≡ true → w + q ≡ 1)
      → (n ≤ a → a < n' → (is_pending p' ≡ true) × (0 < q'))
      → phase_of (ltb a n) (is_pending p) (ltb 0 q) (ltb 0 w)
        ⟶ phase_of (ltb a n') (is_pending p') (ltb 0 q') (ltb 0 w')
  follows n n' q q' w w' p p' grown final still owned new = elim (Bool-cases (ltb a n)) [
    | inr unused ↦ grind (arith, make, idle)
    | inl made ↦
        let made' : ltb a n' ≡ true = ground arith in
        let below : a < n = ground arith in
        elim (Bool-cases (is_pending p)) [
          | inr done ↦ rw (made, made', done, final below done) keeps
          | inl open_one ↦ elim (Bool-cases (is_pending p')) [
            | inr done' ↦ rw (made, made', open_one, done') (ends q q' w w' (owned below open_one))
            | inl open' ↦
                let (more_waiting, one') = still below open_one open' in
                rw (made, made', open_one, open')
                  (moves q q' w w' more_waiting one' (owned below open_one))
          ]
        ]
  ]

  pending_of : (p : Promise) → is_pending p ≡ true → p ≡ pending
  pending_of p h = ground arith

  -- a request makes the next promise, pending and with a handler in the queue
  request-makes :
      (u : UserCall) (s : Session)
      → s.next_promise ≤ a
      → a < (request u s).next_promise
      → (is_pending ((request u s).promises a) ≡ true) × (0 < queued a none_bad (request u s).tasks)
  request-makes u s unused =
      let id = (s.request_id + 1) % 2 ^ 64 in
      rw (request_lem u s) (λ made. ground (arith, queued-made a s.tasks u id))

  -- The future of a request is a machine, and a session runs it: each step of a session that a new one
  -- can become, whatever the step, leaves its phase as it is or takes it along one edge of the
  -- diagram, while the user makes at most 2 ^ 64 requests. It is made with a handler in the queue;
  -- from there it goes to wait with a request in a table, or is settled at once; where it waits it
  -- may be settled; it never goes back; and it is never pending without a handler in the queue and
  -- without a request in a table.
  pub Step-phase :
      {s t : Session} → Reachable s → Step s t → t.next_promise ≤ 2 ^ 64 → phase s ⟶ phase t
  unfolding phase
  Step-phase {s} {t} reach st few =
      let grown = Step-made a s t st in
      follows s.next_promise t.next_promise (queued a none_bad s.tasks) (queued a none_bad t.tasks)
        (waits a none_bad s) (waits a none_bad t) (s.promises a) (t.promises a) grown
        (λ made h. ap is_pending (Step-Stays a s t st made h) ∙ h)
        (λ made h h'.
          let p = pending_of (s.promises a) h in
          let p' = pending_of (t.promises a) h' in
          let (keys, one) = Reachable-pending a reach (omega arith) made p in
          let (keys', one') = Reachable-pending a (next reach st) few (omega arith) p' in
          ((Step-Waits a s t reach (omega arith) made keys st p').1, one'))
        (λ made h. (Reachable-pending a reach (omega arith) made (pending_of (s.promises a) h)).1)
        (λ unused made. elim (Step-unmade s t st) [
          | inl e ↦ absurd (omega arith)
          | inr (u, e) ↦
              rw e
                (request-makes u s unused (omega (arith, ap (λ (v : Session). v.next_promise) e)))
        ])

  -- a run follows a path of the diagram
  Later-phase :
      {s t : Session} → Reachable s → Later s t → t.next_promise ≤ 2 ^ 64 → phase s ⟶* phase t
  Later-phase reach here few = none_yet
  Later-phase {s} {t} reach (further {v} l st) few =
      let grown = Step-made a v t st in
      more (Later-phase reach l (omega arith)) (Step-phase (Later-Reachable reach l) st few)
