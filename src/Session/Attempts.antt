-- ===== src/Session/Attempts.antt =====
-- What becomes of a request that the io service attempts.
use autobahn_cpp_aw.Common.{
  ℕ, true, false, none, some, ◌≡◌, refl, arith, ◌≢◌, ◌∙◌, ◌⊎◌, inl, inr, contains,
}
use autobahn_cpp_aw.Common.Table.{find, emplace, find-emplace_self}
use autobahn_cpp_aw.Exception.{Exception, Result, ok, err, network_error, modify, unknown_exception}
use autobahn_cpp_aw.Msgpack.{Msgpack}
use autobahn_cpp_aw.Message.{Message}
use autobahn_cpp_aw.Promise.{Promise, pending, failed, is_pending}
use autobahn_cpp_aw.Client.{Client}
use autobahn_cpp_aw.Session.{Session, Call, update}
use autobahn_cpp_aw.Session.Send.{
  set_promise, send_message, subscribe_responses, unsubscribe_responses, register_responses,
  unregister_responses, call_results,
}
use autobahn_cpp_aw.Session.Tasks.{attempt, run_call}
use autobahn_cpp_aw.Session.Disconnect.{waiting, settle_all, settle_all-at}
use autobahn_cpp_aw.Session.Sending.{
  SendOutcome, not_running, not_attached, not_joined, written, lost, send_message-outcome,
}

module _ ⦃m : Msgpack⦄ ⦃c : Client⦄ where
  -- the tables of requests and of what they have set up
  abbrev pub SameTables : Session → Session → Type 0
  SameTables s t =
      (t.calls ≡ s.calls)
      × (t.subscribe_requests ≡ s.subscribe_requests)
      × (t.unsubscribe_requests ≡ s.unsubscribe_requests)
      × (t.register_requests ≡ s.register_requests)
      × (t.unregister_requests ≡ s.unregister_requests)
      × (t.subscription_handlers ≡ s.subscription_handlers)
      × (t.procedures ≡ s.procedures)

  -- The transport of a running session took the message, reporting no failure, and `f` has noted the
  -- request.
  abbrev pub WasSent : Message → (Session → Session) → Session → Session → Type 0
  WasSent message f s s' =
      (link : c.Link) × (s.running ≡ true)
      × (s.transport ≡ some link)
      × ((c.transmit link message).1 ≡ none)
      × (s' ≡ f (record s { transport = some (c.transmit link message).0 }))

  -- The future holds what was thrown, and no table has changed.
  abbrev pub HasFailed : ℕ → Session → Session → Type 0
  HasFailed a s s' =
      (e : Exception) × (s'.promises a ≡ failed (c.copy_exception e)) × SameTables s s'

  attempt-ok :
      (message : Message) (a : ℕ) (f : Session → Session) (s t : Session)
      → send_message message true s ≡ (ok tt, t)
      → attempt message a (modify f) s ≡ (ok tt, f t)
  unfolding attempt
  attempt-ok message a f s t e = ground arith

  attempt-raised :
      (message : Message) (a : ℕ) (f : Session → Session) (s t : Session) (e : Exception)
      → e ≢ unknown_exception
      → send_message message true s ≡ (err e, t)
      → attempt message a (modify f) s ≡ set_promise a (failed (c.copy_exception e)) t
  unfolding attempt
  attempt-raised message a f s t e std h = ground arith

  set_promise-pending :
      (a : ℕ) (v : Promise) (s : Session)
      → s.promises a ≡ pending
      → set_promise a v s ≡ (ok tt, record s { promises = update s.promises a v })
  unfolding set_promise
  set_promise-pending a v s h = ground arith

  -- A send that raised has left the promise of a new request pending, and every table as it was.
  Untouched : ℕ → Session → Session → Type 0
  Untouched a s t = (t.promises a ≡ pending) × SameTables s t

  still_pending :
      (v : Promise) (a : ℕ) (s : Session)
      → is_pending v ≡ false
      → s.promises a ≡ pending
      → contains a (waiting s) ≡ false
      → settle_all v (waiting s) s.promises a ≡ pending
  still_pending v a s h fresh idle = ground (arith, settle_all-at v (waiting s) s.promises a h)

  pub waiting-sent :
      (s : Session) (link : c.Link) → waiting (record s { transport = some link }) ≡ waiting s
  unfolding subscribe_responses unsubscribe_responses register_responses unregister_responses
      call_results
  waiting-sent s link = refl

  -- A request that is attempted with a new promise is never lost: the handler does not raise, and
  -- either the transport took the message and the request was noted, or the promise holds an exception and no
  -- table has changed. This holds for every reason to fail, a connection that breaks included.
  pub attempt-outcome :
      (message : Message) (a : ℕ) (f : Session → Session) (s : Session)
      → s.promises a ≡ pending
      → contains a (waiting s) ≡ false
      → let (r, s') = attempt message a (modify f) s in
        (r ≡ ok tt) × (WasSent message f s s' ⊎ HasFailed a s s')
  attempt-outcome message a f s fresh idle = go (send_message-outcome message true s)
    where
      sent : Result (Unit {0}) × Session
      sent = send_message message true s

      done : Result (Unit {0}) × Session
      done = attempt message a (modify f) s

      failing :
          (e : Exception) (t : Session)
          → e ≢ unknown_exception
          → sent.0 ≡ err e
          → sent.1 ≡ t
          → t.promises a ≡ pending
          → SameTables s t
          → (done.0 ≡ ok tt) × (WasSent message f s done.1 ⊎ HasFailed a s done.1)
      failing e t std re te p same =
          let eq : sent ≡ (err e, t) = ground arith in
          let eq' : done
              ≡ (ok tt, record t { promises = update t.promises a (failed (c.copy_exception e)) }) =
            attempt-raised message a f s t e std eq
            ∙ set_promise-pending a (failed (c.copy_exception e)) t p in
          rw eq' (refl, inr (e, ground arith, same))

      go :
          SendOutcome message true s sent.0 sent.1
          → (done.0 ≡ ok tt) × (WasSent message f s done.1 ⊎ HasFailed a s done.1)
      go (not_running run re te) =
          failing _ s (λ q. cc) re te fresh (refl, refl, refl, refl, refl, refl, refl)
      go (not_attached run e re te) =
          failing _ s (λ q. cc) re te fresh (refl, refl, refl, refl, refl, refl, refl)
      go (not_joined run e est z re te) =
          failing _ s (λ q. cc) re te fresh (refl, refl, refl, refl, refl, refl, refl)
      go (written link run e allowed fine re te) =
          let t = record s { transport = some (c.transmit link message).0 } in
          let eq : sent ≡ (ok tt, t) = ground arith in
          rw (attempt-ok message a f s t eq) (refl, inl (link, run, e, fine, refl))
      go (lost link reason run e allowed bad re te) =
          failing (network_error reason) _ (λ q. cc) re te
            (rw (waiting-sent s (c.transmit link message).0)
              (still_pending (failed (network_error reason)) a s refl fresh idle))
            (refl, refl, refl, refl, refl, refl, refl)

  -- A call that the io service attempts, with an id that no call in flight has: it waits under its
  -- id with its future pending, or its future holds an exception and the id stays free.
  run_call-outcome :
      (message : Message) (id : ℕ) (call : Call) (s : Session)
      → s.promises call.result ≡ pending
      → contains call.result (waiting s) ≡ false
      → find id s.calls ≡ none
      → let (r, s') = run_call message id call s in
        (r ≡ ok tt)
        × (((find id s'.calls ≡ some call) × (s'.promises call.result ≡ pending))
            ⊎ ((find id s'.calls ≡ none)
                × (e : Exception) × (s'.promises call.result ≡ failed (c.copy_exception e))))
  unfolding run_call
  run_call-outcome message id call s fresh idle new =
      let noted = λ (t : Session). record t { calls = emplace id call t.calls } in
      let (fine, how) = attempt-outcome message call.result noted s fresh idle in
      (
        fine,
        elim how [
          | inl (link, _, _, _, eq) ↦ rw eq (inl (find-emplace_self id call s.calls new, fresh))
          | inr (e, eq, same) ↦ inr (rw (same.0) new, e, eq)
        ],
      )
