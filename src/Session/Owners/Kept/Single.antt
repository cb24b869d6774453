-- ===== src/Session/Owners/Kept/Single.antt =====
-- The one owner that a pending promise has in the sessions that a new one can become.
use autobahn_cpp_aw.Common.{ℕ, ◌+◌, ◌≤◌, ◌<◌, ◌^◌, Bool, List, [], ◌∷◌, ◌≡◌, arith}
use autobahn_cpp_aw.Common.Table.{Table}
use autobahn_cpp_aw.Msgpack.{Msgpack}
use autobahn_cpp_aw.Promise.{pending}
use autobahn_cpp_aw.Client.{Client}
use autobahn_cpp_aw.Session.{Session, Task}
use autobahn_cpp_aw.Session.Steps.{Reachable}
use autobahn_cpp_aw.Session.Owners.{
  tally, waits, queued, owns, subscribers, unsubscribers, registrars, unregistrars, callers,
}
use autobahn_cpp_aw.Session.Owners.Invariant.{misnumbered, IsOwned}
use autobahn_cpp_aw.Session.Owners.Reach.{Reachable-IsOwned}
use autobahn_cpp_aw.Session.Owners.Kept.{none_bad, UniqueKeys}
use autobahn_cpp_aw.Session.Owners.Kept.Reach.{Reachable-IsHeld}

-- whatever is bad, those with the promise are among those that are counted
tally-fewer :
    {V : Type 0} (f : V → ℕ) (a : ℕ) (bad : ℕ → ℕ → Bool) (t : Table V)
    → tally f a none_bad t ≤ tally f a bad t
unfolding tally
tally-fewer f a bad [] = omega arith
tally-fewer f a bad ((k, v) ∷ t) = ground (arith, tally-fewer f a bad t)

module _ ⦃m : Msgpack⦄ ⦃c : Client⦄ (a : ℕ) where
  waits-fewer : (s : Session) → waits a none_bad s ≤ waits a misnumbered s
  unfolding subscribers unsubscribers registrars unregistrars callers
  waits-fewer s = omega (
    arith,
    tally-fewer (λ r. r.response) a misnumbered s.subscribe_requests,
    tally-fewer (λ r. r.response) a misnumbered s.unsubscribe_requests,
    tally-fewer (λ r. r.response) a misnumbered s.register_requests,
    tally-fewer (λ r. r.response) a misnumbered s.unregister_requests,
    tally-fewer (λ r. r.result) a misnumbered s.calls,
  )

  owns-fewer : (t : Task) → owns a none_bad t ≤ owns a misnumbered t
  unfolding owns
  owns-fewer t = ground arith

  queued-fewer : (ts : List Task) → queued a none_bad ts ≤ queued a misnumbered ts
  unfolding queued
  queued-fewer [] = omega arith
  queued-fewer (t ∷ ts) = omega (arith, owns-fewer t, queued-fewer ts)

  -- No future is forgotten: in every session that a new one can become, by calls of the user, handlers
  -- of the io service in any order, messages, lost connections and transports that come and go, while
  -- the user has made at most 2 ^ 64 requests, if a promise that has been made is still pending, then
  -- exactly one request in a table or handler in the queue has it, and no two requests in one table
  -- have the same id.
  pub Reachable-pending :
      {s : Session}
      → Reachable s
      → s.next_promise ≤ 2 ^ 64
      → a < s.next_promise
      → s.promises a ≡ pending
      → UniqueKeys s × (waits a none_bad s + queued a none_bad s.tasks ≡ 1)
  unfolding IsOwned
  Reachable-pending {s} reach few made waiting =
      let (u, held) = Reachable-IsHeld a reach few in
      let (one, none_yet, ready, ids) = Reachable-IsOwned a reach in
      let least = held made waiting in (u, omega (arith, waits-fewer s, queued-fewer s.tasks))
