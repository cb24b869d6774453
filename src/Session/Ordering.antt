-- ===== src/Session/Ordering.antt =====
-- The order in which the requests of a user reach the transport.
use mathlib.Core.List.{append_assoc, append-nil}
use autobahn_cpp_aw.Common.{
  map, ℕ, zero, suc, ◌+◌, ◌%◌, ◌^◌, Bool, true, false, none, some, List, [], ◌∷◌, ◌++◌, ◌≡◌, ◌≢◌,
  refl, sym, ap, ◌∙◌, arith, length,
}
use autobahn_cpp_aw.Msgpack.{Msgpack}
use autobahn_cpp_aw.Message.{Message}
use autobahn_cpp_aw.Client.{Client}
use autobahn_cpp_aw.Session.{
  Session, Task, publish_task, subscribe_task, unsubscribe_task, call_task, provide_task,
  unprovide_task,
}
use autobahn_cpp_aw.Session.Send.{set_promise, send_message, transmit}
use autobahn_cpp_aw.Session.Tasks.{
  run_task, run_publish, run_subscribe, run_unsubscribe, run_call, run_provide, run_unprovide,
  attempt,
}
use autobahn_cpp_aw.Session.Layouts.{task_of, numbered, taken, request_lem}
use autobahn_cpp_aw.Session.Owners.Controls.{message_of}
use autobahn_cpp_aw.Session.Steps.{UserCall, request}

-- of every element
abbrev pub All : {A : Type 0} → (A → Type 0) → List A → Type 0
All P [] = Unit {0}
All P (x ∷ rest) = P x × All P rest

module _ ⦃m : Msgpack⦄ ⦃c : Client⦄ where
  -- the handlers that send a request
  abbrev pub sends_request : Task → Bool
  sends_request (publish_task message a) = true
  sends_request (subscribe_task message id r) = true
  sends_request (unsubscribe_task message id r) = true
  sends_request (call_task message id r) = true
  sends_request (provide_task message id r) = true
  sends_request (unprovide_task message id r) = true
  sends_request t = false

  -- the io service runs the handler that has waited longest, if any
  unfoldable pub run_next : Session → Session
  run_next s = elim s.tasks [ [] ↦ s | t ∷ rest ↦ (run_task t (record s { tasks = rest })).1 ]

  unfoldable pub run_all : ℕ → Session → Session
  run_all zero s = s
  run_all (suc n) s = run_all n (run_next s)

  -- the calls of a user, one after another
  unfoldable pub request_all : List UserCall → Session → Session
  request_all [] s = s
  request_all (u ∷ rest) s = request_all rest (request u s)

  -- the messages of these calls, with the ids that follow `id`
  abbrev pub messages_from : ℕ → List UserCall → List Message
  messages_from id [] = []
  messages_from id (u ∷ rest) =
      let next = (id + 1) % 2 ^ 64 in message_of (task_of u next 0) ∷ messages_from next rest

  -- the link after it has taken these messages in their order
  abbrev pub transmit_all : List Message → c.Link → c.Link
  transmit_all [] link = link
  transmit_all (message ∷ rest) link = transmit_all rest (c.transmit link message).0

  -- joined, over this link
  abbrev pub IsJoined : c.Link → Session → Type 0
  IsJoined link s = (s.running ≡ true) × (s.transport ≡ some link) × (s.session_id ≢ 0)

  module _ (takes : (link : c.Link) (message : Message) → (c.transmit link message).1 ≡ none) where
    run_task-sends :
        (t : Task) (s : Session) (link : c.Link)
        → sends_request t ≡ true
        → IsJoined link s
        → let s' = (run_task t s).1 in
          (s'.transport ≡ some (c.transmit link (message_of t)).0)
          × (s'.running ≡ s.running)
          × (s'.session_id ≡ s.session_id)
          × (s'.tasks ≡ s.tasks)
    unfolding run_task run_publish run_subscribe run_unsubscribe run_call run_provide run_unprovide
        attempt send_message transmit set_promise
    run_task-sends (publish_task message a) s link h joined = ground (arith, takes link message)
    run_task-sends (subscribe_task message id r) s link h joined =
        ground (arith, takes link message)
    run_task-sends (unsubscribe_task message id r) s link h joined =
        ground (arith, takes link message)
    run_task-sends (call_task message id r) s link h joined = ground (arith, takes link message)
    run_task-sends (provide_task message id r) s link h joined = ground (arith, takes link message)
    run_task-sends (unprovide_task message id r) s link h joined =
        ground (arith, takes link message)
    run_task-sends t s link h joined = absurd cc

    -- the queue runs dry, and its messages have gone out in its order
    run_all-sends :
        (ts : List Task) (s : Session) (link : c.Link)
        → All (λ t. sends_request t ≡ true) ts
        → s.tasks ≡ ts
        → IsJoined link s
        → let s' = run_all (length ts) s in
          (s'.transport ≡ some (transmit_all (map message_of ts) link)) × (s'.tasks ≡ [])
    unfolding run_all run_next
    run_all-sends [] s link requests queue (run, at, joined) = (at, queue)
    run_all-sends (t ∷ rest) s link (first, requests) queue (run, at, joined) =
        let s0 = record s { tasks = rest } in
        let (at', run', id', queue') = run_task-sends t s0 link first (run, at, joined) in
        let (done, dry) =
          run_all-sends rest (run_task t s0).1 (c.transmit link (message_of t)).0 requests queue'
            (run' ∙ run, at', λ e. joined (sym id' ∙ e)) in
        rw queue (done, dry)

  -- the handlers that calls of a user leave
  abbrev tasks_from : ℕ → ℕ → List UserCall → List Task
  tasks_from id a [] = []
  tasks_from id a (u ∷ rest) =
      let next = (id + 1) % 2 ^ 64 in task_of u next a ∷ tasks_from next (a + 1) rest

  request-queues :
      (u : UserCall) (s : Session)
      → numbered u ≡ true
      → let id = (s.request_id + 1) % 2 ^ 64 in
        request u s ≡ record (taken s) { tasks = s.tasks ++ task_of u id s.next_promise ∷ [] }
  request-queues u s h = request_lem u s ∙ rw h refl

  request_all-queues :
      (us : List UserCall) (s : Session) (link : c.Link)
      → All (λ u. numbered u ≡ true) us
      → IsJoined link s
      → let s' = request_all us s in
        IsJoined link s' × (s'.tasks ≡ s.tasks ++ tasks_from s.request_id s.next_promise us)
  unfolding request_all
  request_all-queues [] s link requests joined = (joined, sym (append-nil s.tasks))
  request_all-queues (u ∷ rest) s link (first, requests) joined =
      let id = (s.request_id + 1) % 2 ^ 64 in
      let t = task_of u id s.next_promise in
      let s1 = record (taken s) { tasks = s.tasks ++ t ∷ [] } in
      let (joined', queue) = request_all-queues rest s1 link requests joined in
      let eq : request_all (u ∷ rest) s ≡ request_all rest s1 =
        ap (request_all rest) (request-queues u s first) in
      rw eq
        (joined', queue ∙ append_assoc s.tasks (t ∷ []) (tasks_from id (s.next_promise + 1) rest))

  task_of-sends :
      (u : UserCall) (id a : ℕ) → numbered u ≡ true → sends_request (task_of u id a) ≡ true
  task_of-sends u id a h = ground arith

  -- the message of a call does not depend on its promise
  task_of-message :
      (u : UserCall) (id a : ℕ) → message_of (task_of u id a) ≡ message_of (task_of u id 0)
  task_of-message u id a = ground arith

  tasks_from-sends :
      (us : List UserCall) (id a : ℕ)
      → All (λ u. numbered u ≡ true) us
      → All (λ t. sends_request t ≡ true) (tasks_from id a us)
        × (map message_of (tasks_from id a us) ≡ messages_from id us)
        × (length (tasks_from id a us) ≡ length us)
  tasks_from-sends [] id a requests = (tt, refl, refl)
  tasks_from-sends (u ∷ rest) id a (first, requests) =
      let next = (id + 1) % 2 ^ 64 in
      let (all, messages, count) = tasks_from-sends rest next (a + 1) requests in
      (
        (task_of-sends u next a first, all),
        (λ i. task_of-message u next a i ∷ messages i),
        ap suc count,
      )

  -- Requests go out in the order of the calls: if a joined session whose transport takes every message
  -- has nothing in its queue, and a user publishes, subscribes, unsubscribes, calls, provides and
  -- unprovides, in any order and number, then the io service that runs the handlers in their order
  -- gives the transport exactly the messages of these calls, in the order of the calls, under
  -- consecutive request ids modulo 2 ^ 64, and the queue is empty again.
  pub run_all-request_all :
      (us : List UserCall) (s : Session) (link : c.Link)
      → ((l : c.Link) (message : Message) → (c.transmit l message).1 ≡ none)
      → All (λ u. numbered u ≡ true) us
      → IsJoined link s
      → s.tasks ≡ []
      → let s' = run_all (length us) (request_all us s) in
        (s'.transport ≡ some (transmit_all (messages_from s.request_id us) link)) × (s'.tasks ≡ [])
  run_all-request_all us s link takes requests joined idle =
      let (joined', queue) = request_all-queues us s link requests joined in
      let (all, messages, count) = tasks_from-sends us s.request_id s.next_promise requests in
      let (sent, dry) =
        run_all-sends takes (tasks_from s.request_id s.next_promise us) (request_all us s) link all
          (queue ∙ ap (λ ts. ts ++ tasks_from s.request_id s.next_promise us) idle) joined' in
      rw (← count) (sent ∙ ap (λ ms. some (transmit_all ms link)) messages, dry)
