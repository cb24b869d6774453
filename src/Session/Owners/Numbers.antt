-- ===== src/Session/Owners/Numbers.antt =====
-- The ids of requests in the sessions that a new one can become.
use autobahn_cpp_aw.Common.{
  false, ℕ, ◌+◌, ◌≤◌, ◌<◌, List, ◌∷◌, ◌++◌, ◌≡◌, arith, ◌%◌, ◌^◌, ap, none, inl, inr, Option-cases,
}
use autobahn_cpp_aw.Common.Table.{Table, find}
use autobahn_cpp_aw.Msgpack.{Msgpack}
use autobahn_cpp_aw.Client.{Client}
use autobahn_cpp_aw.Session.{
  Session, Task, Call, SubscribeRequest, UnsubscribeRequest, RegisterRequest, UnregisterRequest,
  subscribe_task, unsubscribe_task, call_task, provide_task, unprovide_task,
}
use autobahn_cpp_aw.Session.Steps.{Reachable}
use autobahn_cpp_aw.Session.Owners.{
  queued-taken, waits, queued, owns, Counts, subscribers, unsubscribers, registrars, unregistrars,
  callers, subscribers-Counts, unsubscribers-Counts, registrars-Counts, unregistrars-Counts,
  callers-Counts,
}
use autobahn_cpp_aw.Session.Owners.Running.{owner}
use autobahn_cpp_aw.Session.Owners.Invariant.{misnumbered, IsOwned}
use autobahn_cpp_aw.Session.Owners.Reach.{Reachable-IsOwned}

-- addresses below 2 ^ 64 with the same number are the same
same_number :
    (id a b : ℕ)
    → a < 2 ^ 64
    → b < 2 ^ 64
    → misnumbered id a ≡ false
    → misnumbered id b ≡ false
    → a ≡ b
unfolding misnumbered
same_number id a b p q g h =
    let e : id ≡ (a + 1) % 2 ^ 64 = ground arith in
    let e' : id ≡ (b + 1) % 2 ^ 64 = ground arith in omega arith

module _ ⦃m : Msgpack⦄ ⦃c : Client⦄ where
  -- A request has a promise that has been made, and its number.
  numbered_owner :
      (id a : ℕ) (s : Session)
      → ((x : ℕ) → IsOwned x s)
      → ((x : ℕ) → owner x misnumbered id a ≤ waits x misnumbered s + queued x misnumbered s.tasks)
      → (a < s.next_promise) × (misnumbered id a ≡ false)
  unfolding IsOwned
  numbered_owner id a s owned counted =
      let (one, none_yet, ready, ids) = owned a in
      let (one', none_yet', ready', ids') = owned s.next_promise in
      let h = counted a in
      let h' = counted s.next_promise in
      let nothing = none_yet' (omega arith) in (ground arith, ground arith)

  free_id :
      {V : Type 0} (f : V → ℕ) (count : ℕ → Table V → ℕ) (id a : ℕ) (t : Table V) (s : Session)
      → ((x : ℕ) → Counts f x misnumbered (count x))
      → ((x : ℕ) → IsOwned x s)
      → s.next_promise ≤ 2 ^ 64
      → ((x : ℕ) → owner x misnumbered id a ≤ queued x misnumbered s.tasks)
      → ((x : ℕ) → count x t ≤ waits x misnumbered s)
      → find id t ≡ none
  unfolding IsOwned
  free_id f count id a t s laws owned few here there = elim (Option-cases (find id t)) [
    | inl e ↦ e
    | inr (v, e) ↦
        let b = f v in
        let found = λ (x : ℕ). (laws x).3 id v t e in
        let (made, right) = numbered_owner id a s owned (λ x. omega (arith, here x)) in
        let (made', right') = numbered_owner id b s owned (λ x. omega (arith, found x, there x)) in
        let same = same_number id a b (omega arith) (omega arith) right right' in
        let (one, none_yet, ready, ids) = owned a in
        let h = here a in let h' = there a in let h'' = found a in absurd (ground arith)
  ]

  -- no request in the table of its kind waits under the id of a queued request
  abbrev pub HasFreeId : Task → Session → Type 0
  HasFreeId (subscribe_task message id r) s = find id s.subscribe_requests ≡ none
  HasFreeId (unsubscribe_task message id r) s = find id s.unsubscribe_requests ≡ none
  HasFreeId (call_task message id r) s = find id s.calls ≡ none
  HasFreeId (provide_task message id r) s = find id s.register_requests ≡ none
  HasFreeId (unprovide_task message id r) s = find id s.unregister_requests ≡ none
  HasFreeId t s = Unit {0}

  taken_from :
      (before after : List Task) (t : Task) (s : Session)
      → s.tasks ≡ before ++ t ∷ after
      → (x : ℕ) → owns x misnumbered t ≤ queued x misnumbered s.tasks
  taken_from before after t s e x =
      omega (arith, ap (queued x misnumbered) e, queued-taken x misnumbered before after t)

  -- Request ids do not collide: in a reachable session whose user has made at most 2 ^ 64 requests, no
  -- request in a table has the id of a request of the same kind that is still in the queue.
  pub Reachable-HasFreeId :
      {s : Session} (t : Task) (before after : List Task)
      → Reachable s
      → s.tasks ≡ before ++ t ∷ after
      → s.next_promise ≤ 2 ^ 64
      → HasFreeId t s
  unfolding owns
  Reachable-HasFreeId {s} (subscribe_task message id r) before after reach e few =
      free_id (λ (v : SubscribeRequest). v.response) (λ x. subscribers x misnumbered) id r.response
        s.subscribe_requests s (λ x. subscribers-Counts x misnumbered)
        (λ x. Reachable-IsOwned x reach) few
        (taken_from before after (subscribe_task message id r) s e) (λ x. omega arith)
  Reachable-HasFreeId {s} (unsubscribe_task message id r) before after reach e few =
      free_id (λ (v : UnsubscribeRequest). v.response) (λ x. unsubscribers x misnumbered) id
        r.response s.unsubscribe_requests s (λ x. unsubscribers-Counts x misnumbered)
        (λ x. Reachable-IsOwned x reach) few
        (taken_from before after (unsubscribe_task message id r) s e) (λ x. omega arith)
  Reachable-HasFreeId {s} (call_task message id r) before after reach e few =
      free_id (λ (v : Call). v.result) (λ x. callers x misnumbered) id r.result s.calls s
        (λ x. callers-Counts x misnumbered) (λ x. Reachable-IsOwned x reach) few
        (taken_from before after (call_task message id r) s e) (λ x. omega arith)
  Reachable-HasFreeId {s} (provide_task message id r) before after reach e few =
      free_id (λ (v : RegisterRequest). v.response) (λ x. registrars x misnumbered) id r.response
        s.register_requests s (λ x. registrars-Counts x misnumbered)
        (λ x. Reachable-IsOwned x reach) few
        (taken_from before after (provide_task message id r) s e) (λ x. omega arith)
  Reachable-HasFreeId {s} (unprovide_task message id r) before after reach e few =
      free_id (λ (v : UnregisterRequest). v.response) (λ x. unregistrars x misnumbered) id
        r.response s.unregister_requests s (λ x. unregistrars-Counts x misnumbered)
        (λ x. Reachable-IsOwned x reach) few
        (taken_from before after (unprovide_task message id r) s e) (λ x. omega arith)
  Reachable-HasFreeId t before after reach e few = tt
