-- ===== src/Session/Owners.antt =====
-- Who owns the promise at an address: the requests that wait in the tables, and the handlers in the
-- io service's queue.
pub mod Replies
pub mod Incoming
pub mod Controls
pub mod Running
pub mod Invariant
pub mod Reach
pub mod Numbers
pub mod Noted
pub mod Kept
use autobahn_cpp_aw.Common.{
  ℕ, zero, suc, ◌+◌, ◌≤◌, String, Bool, true, false, not, ◌&&◌, ◌||◌, Option, none, some, List, [],
  ◌∷◌, ◌++◌, map, ◌≡◌, refl, sym, arith, ◌==◌, if◌then◌else◌, contains, ap, ◌∙◌,
}
use autobahn_cpp_aw.Common.Table.{Table, find, erase, emplace}
use autobahn_cpp_aw.Exception.{Result, ok, err, network_error}
use autobahn_cpp_aw.Msgpack.{Msgpack}
use autobahn_cpp_aw.Message.{Message}
use autobahn_cpp_aw.Promise.{failed}
use autobahn_cpp_aw.Client.{Client}
use autobahn_cpp_aw.Session.{
  Session, Task, SubscribeRequest, UnsubscribeRequest, RegisterRequest, UnregisterRequest, Call,
  start_task, stop_task, join_task, leave_task, publish_task, subscribe_task, unsubscribe_task,
  call_task, provide_task, unprovide_task, authenticate_task,
}
use autobahn_cpp_aw.Session.Send.{
  on_disconnect, send_message, subscribe_responses, unsubscribe_responses, register_responses,
  unregister_responses, call_results,
}
use autobahn_cpp_aw.Session.Disconnect.{waiting, settled, on_disconnect_lem, on_disconnect-at}
use autobahn_cpp_aw.Session.Sending.{
  SendOutcome, not_running, not_attached, not_joined, written, lost, broken, send_message-outcome,
}

module _ {V : Type 0} (f : V → ℕ) (a : ℕ) (bad : ℕ → ℕ → Bool) where
  -- how many entries of a table have the promise at `a`, or a key and a promise that are `bad`
  unfoldable pub tally : Table V → ℕ
  tally [] = 0
  tally ((k, v) ∷ t) = let rest = tally t in if a == f v || bad k (f v) then suc rest else rest

  tally-erase : (k : ℕ) (t : Table V) → tally (erase k t) ≤ tally t
  unfolding tally
  tally-erase k [] = omega arith
  tally-erase k ((j, v) ∷ t) = ground (arith, tally-erase k t)

  tally-snoc :
      (k : ℕ) (v : V) (t : Table V)
      → tally (t ++ (k, v) ∷ []) ≡ (if a == f v || bad k (f v) then suc (tally t) else tally t)
  unfolding tally
  tally-snoc k v [] = refl
  tally-snoc k v ((j, w) ∷ t) = ground (arith, tally-snoc k v t)

  tally-emplace :
      (k : ℕ) (v : V) (t : Table V)
      → tally (emplace k v t) ≤ (if a == f v || bad k (f v) then suc (tally t) else tally t)
  tally-emplace k v t = ground (arith, tally-snoc k v t)

  abbrev pub found_at : Option V → Bool
  found_at none = false
  found_at (some v) = f v == a

  find-tally : (k : ℕ) (t : Table V) → tally t ≡ 0 → found_at (find k t) ≡ false
  unfolding tally
  find-tally k [] h = refl
  find-tally k ((j, v) ∷ t) h = ground (arith, find-tally k t)

  tally-found :
      (k : ℕ) (v : V) (t : Table V)
      → find k t ≡ some v
      → (if a == f v || bad k (f v) then 1 else 0) ≤ tally t
  unfolding tally
  tally-found k v [] h = cc
  tally-found k v ((j, w) ∷ t) h = ground (arith, tally-found k v t)

  -- how `count` changes as entries go, and that it is 0 only where none is found
  abbrev pub Counts : (Table V → ℕ) → Type 0
  Counts count =
      ((k : ℕ) (t : Table V) → count (erase k t) ≤ count t)
      × ((k : ℕ) (t : Table V) → count t ≡ 0 → found_at (find k t) ≡ false)
      × ((k : ℕ) (v : V) (t : Table V)
          → count (emplace k v t) ≤ (if a == f v || bad k (f v) then suc (count t) else count t))
      × ((k : ℕ) (v : V) (t : Table V)
          → find k t ≡ some v
          → (if a == f v || bad k (f v) then 1 else 0) ≤ count t)

  pub tally-Counts : Counts tally
  tally-Counts = (tally-erase, find-tally, tally-emplace, tally-found)

  contains-tally : (t : Table V) → tally t ≡ 0 → contains a (map (λ e. f e.1) t) ≡ false
  unfolding tally
  contains-tally [] h = refl
  contains-tally ((j, v) ∷ t) h = ground (arith, contains-tally t)

contains-append :
    (a : ℕ) (xs ys : List ℕ) → contains a (xs ++ ys) ≡ (contains a xs || contains a ys)
contains-append a [] ys = refl
contains-append a (x ∷ xs) ys = ground (arith, contains-append a xs ys)

module _ ⦃m : Msgpack⦄ ⦃c : Client⦄ (a : ℕ) (bad : ℕ → ℕ → Bool) where
  -- the entries of each table that wait for the promise at `a`, and those that are bad
  unfoldable pub subscribers : Table SubscribeRequest → ℕ
  unfolding tally
  subscribers = tally (λ r. r.response) a bad

  unfoldable pub unsubscribers : Table UnsubscribeRequest → ℕ
  unfolding tally
  unsubscribers = tally (λ r. r.response) a bad

  unfoldable pub registrars : Table RegisterRequest → ℕ
  unfolding tally
  registrars = tally (λ r. r.response) a bad

  unfoldable pub unregistrars : Table UnregisterRequest → ℕ
  unfolding tally
  unregistrars = tally (λ r. r.response) a bad

  unfoldable pub callers : Table Call → ℕ
  unfolding tally
  callers = tally (λ r. r.result) a bad

  pub subscribers-Counts : Counts (λ (r : SubscribeRequest). r.response) a bad subscribers
  unfolding subscribers
  subscribers-Counts = tally-Counts (λ (r : SubscribeRequest). r.response) a bad

  pub unsubscribers-Counts : Counts (λ (r : UnsubscribeRequest). r.response) a bad unsubscribers
  unfolding unsubscribers
  unsubscribers-Counts = tally-Counts (λ (r : UnsubscribeRequest). r.response) a bad

  pub registrars-Counts : Counts (λ (r : RegisterRequest). r.response) a bad registrars
  unfolding registrars
  registrars-Counts = tally-Counts (λ (r : RegisterRequest). r.response) a bad

  pub unregistrars-Counts : Counts (λ (r : UnregisterRequest). r.response) a bad unregistrars
  unfolding unregistrars
  unregistrars-Counts = tally-Counts (λ (r : UnregisterRequest). r.response) a bad

  pub callers-Counts : Counts (λ (r : Call). r.result) a bad callers
  unfolding callers
  callers-Counts = tally-Counts (λ (r : Call). r.result) a bad

  -- how many requests in the tables there are of both kinds
  abbrev pub waits : Session → ℕ
  waits s =
      subscribers s.subscribe_requests
      + unsubscribers s.unsubscribe_requests
      + registrars s.register_requests
      + unregistrars s.unregister_requests
      + callers s.calls

  unfoldable pub owns : Task → ℕ
  owns (publish_task message b) = if a == b then 1 else 0
  owns (subscribe_task message id r) = if a == r.response || bad id r.response then 1 else 0
  owns (unsubscribe_task message id r) = if a == r.response || bad id r.response then 1 else 0
  owns (call_task message id r) = if a == r.result || bad id r.result then 1 else 0
  owns (provide_task message id r) = if a == r.response || bad id r.response then 1 else 0
  owns (unprovide_task message id r) = if a == r.response || bad id r.response then 1 else 0
  owns _ = 0

  -- how many handlers in the queue there are of both kinds
  unfoldable pub queued : List Task → ℕ
  queued [] = 0
  queued (t ∷ rest) = owns t + queued rest

  pub queued-append : (xs ys : List Task) → queued (xs ++ ys) ≡ queued xs + queued ys
  unfolding queued
  queued-append [] ys = omega arith
  queued-append (x ∷ xs) ys = omega (arith, queued-append xs ys)

  pub queued-taken :
      (before after : List Task) (t : Task)
      → queued (before ++ t ∷ after) ≡ owns t + queued (before ++ after)
  unfolding queued
  queued-taken before after t =
      omega (arith, queued-append before (t ∷ after), queued-append before after)

  -- No request of either kind has come, and without one among the requests the promise at `a` is as it was.
  abbrev pub Keeps : Session → Session → Type 0
  Keeps s t =
      (waits t ≤ waits s)
      × (queued t.tasks ≡ queued s.tasks)
      × (t.next_promise ≡ s.next_promise)
      × (t.request_id ≡ s.request_id)
      × (waits s ≡ 0 → t.promises a ≡ s.promises a)

  pub Keeps-refl : (s : Session) → Keeps s s
  Keeps-refl s = (omega arith, refl, refl, refl, λ h. refl)

  pub Keeps-trans : (s t u : Session) → Keeps s t → Keeps t u → Keeps s u
  Keeps-trans s t u k l = (
    omega (arith, k.0, l.0),
    l.1 ∙ k.1,
    l.2 ∙ k.2,
    l.3 ∙ k.3,
    λ h. l.4 (omega (arith, k.0)) ∙ k.4 h,
  )

  pub waits-waiting : (s : Session) → waits s ≡ 0 → contains a (waiting s) ≡ false
  unfolding subscribe_responses unsubscribe_responses register_responses unregister_responses
      call_results subscribers unsubscribers registrars unregistrars callers
  waits-waiting s h = simp contains-append (
      ground (
        arith,
        contains-tally (λ r. r.response) a bad s.subscribe_requests,
        contains-tally (λ r. r.response) a bad s.unsubscribe_requests,
        contains-tally (λ r. r.response) a bad s.register_requests,
        contains-tally (λ r. r.response) a bad s.unregister_requests,
        contains-tally (λ r. r.result) a bad s.calls,
      ))

  on_disconnect-kept :
      (was_clean : Bool) (reason : String) (s : Session)
      → waits s ≡ 0
      → (on_disconnect was_clean reason s).1.promises a ≡ s.promises a
  on_disconnect-kept was_clean reason s h =
      ground (arith, on_disconnect-at was_clean reason s a, waits-waiting s h)

  pub on_disconnect-Keeps :
      (was_clean : Bool) (reason : String) (s : Session)
      → Keeps s (on_disconnect was_clean reason s).1
  on_disconnect-Keeps was_clean reason s =
      let eq = on_disconnect_lem was_clean reason s in
      (rw eq (omega arith), rw eq, rw eq, rw eq, on_disconnect-kept was_clean reason s)

  outcome-Keeps :
      (message : Message) (b : Bool) (s t : Session) (r : Result (Unit {0}))
      → SendOutcome message b s r t
      → Keeps s t
  outcome-Keeps message b s t r (not_running _ _ e) = rw e (Keeps-refl s)
  outcome-Keeps message b s t r (not_attached _ _ _ e) = rw e (Keeps-refl s)
  outcome-Keeps message b s t r (not_joined _ _ _ _ _ e) = rw e (Keeps-refl s)
  outcome-Keeps message b s t r (written link _ att _ _ _ e) = rw e (Keeps-refl s)
  outcome-Keeps message b s t r (lost link reason _ att _ _ _ e) =
      let u = record s { transport = some (c.transmit link message).0 } in
      rw (e ∙ sym (ap (λ p. p.1) (on_disconnect_lem false reason u)))
        (on_disconnect-Keeps false reason u)

  pub send_message-Keeps :
      (message : Message) (b : Bool) (s : Session) → Keeps s (send_message message b s).1
  send_message-Keeps message b s = outcome-Keeps message b s _ _ (send_message-outcome message b s)
