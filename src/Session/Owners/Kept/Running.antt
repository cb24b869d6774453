-- ===== src/Session/Owners/Kept/Running.antt =====
-- The attempts of requests, and the requests that a pending promise still has.
use autobahn_cpp_aw.Common.{ℕ, Bool, true, false, ◌≡◌, ◌≢◌, refl, sym, arith, ap, ◌∙◌}
use autobahn_cpp_aw.Exception.{
  Exception, Result, ok, err, unknown_exception, modify, catch_std, ◌>>◌,
}
use autobahn_cpp_aw.Msgpack.{Msgpack}
use autobahn_cpp_aw.Message.{Message}
use autobahn_cpp_aw.Promise.{Promise, pending, satisfied, failed, unit_value, is_pending}
use autobahn_cpp_aw.Client.{Client}
use autobahn_cpp_aw.Session.{Session}
use autobahn_cpp_aw.Session.Send.{set_promise, send_message}
use autobahn_cpp_aw.Session.Sending.{
  SendOutcome, not_running, not_attached, not_joined, written, lost, send_message-outcome,
}
use autobahn_cpp_aw.Session.Tasks.{attempt, run_publish}
use autobahn_cpp_aw.Session.Owners.Running.{attempt-ends}
use autobahn_cpp_aw.Session.Owners.Kept.{Leaves, UniqueKeys, send_message-Leaves}

module _ ⦃m : Msgpack⦄ ⦃c : Client⦄ (a : ℕ) where
  -- if the promise at `a` is pending in the end, it was all the time
  abbrev pub WasPending : Session → Session → Type 0
  WasPending s t = t.promises a ≡ pending → s.promises a ≡ pending

  set_promise-WasPending :
      (b : ℕ) (v : Promise) (s t : Session) → WasPending s t → WasPending s (set_promise b v t).1
  unfolding set_promise
  set_promise-WasPending b v s t h e = ground arith

  -- an attempt whose further steps leave promises as they are
  pub attempt-WasPending :
      (message : Message) (b : ℕ) (f : Session → Session) (s : Session)
      → UniqueKeys s
      → ((t : Session) → (f t).promises ≡ t.promises)
      → WasPending s (attempt message b (modify f) s).1
  attempt-WasPending message b f s u same =
      let t = (send_message message true s).1 in
      let sent : WasPending s t = λ h. ((send_message-Leaves a message true s u).1 h).0 in
      attempt-ends (λ t. WasPending s t) message b (modify f) s sent
        (λ h. sent (ap (λ p. p a) (sym (same t)) ∙ h)) (λ v t. set_promise-WasPending b v s t)

  -- as `Leaves`, where the promise at `b` is pending no more
  abbrev pub Settles : ℕ → Session → Session → Type 0
  Settles b s t = Leaves a s t × (t.promises b ≢ pending)

  set_promise-Settles :
      (b : ℕ) (v : Promise) (s t : Session)
      → is_pending v ≡ false
      → Leaves a s t
      → Settles b s (set_promise b v t).1
  unfolding set_promise
  set_promise-Settles b v s t e h = (λ u. (let k = h u in ground (arith)), λ g. ground arith)

  sent-standard :
      (message : Message) (b : Bool) (s t : Session) (r : Result (Unit {0}))
      → SendOutcome message b s r t
      → r ≢ err unknown_exception
  sent-standard message b s t r (not_running _ e _) h = cc
  sent-standard message b s t r (not_attached _ _ e _) h = cc
  sent-standard message b s t r (not_joined _ _ _ _ e _) h = cc
  sent-standard message b s t r (written _ _ _ _ _ e _) h = cc
  sent-standard message b s t r (lost _ _ _ _ _ _ e _) h = cc

  -- from what the send has left, and what was thrown or not
  after_send :
      (b : ℕ) (v : Promise) (s : Session) (o : Result (Unit {0}) × Session)
      → is_pending v ≡ false
      → o.0 ≢ err unknown_exception
      → Leaves a s o.1
      → Settles b s
          (catch_std
            (λ t. ((λ x. o) >> set_promise b v) t)
            (λ e. set_promise b (failed (c.copy_exception e)))
            s).1
  after_send b v s (ok x, t) e std h =
      let first = set_promise-Settles b v s t e h in
      let again = λ (y : Exception).
        set_promise-Settles b (failed (c.copy_exception y)) s (set_promise b v t).1 refl first.0 in
      grind arith
  after_send b v s (err unknown_exception, t) e std h = absurd (std refl)
  after_send b v s (err y, t) e std h =
      set_promise-Settles b (failed (c.copy_exception y)) s t refl h

  pub run_publish-Settles :
      (message : Message) (b : ℕ) (s : Session) → Settles b s (run_publish message b s).1
  unfolding run_publish attempt
  run_publish-Settles message b s =
      after_send b (satisfied unit_value) s (send_message message true s) refl
        (sent-standard message true s _ _ (send_message-outcome message true s))
        (send_message-Leaves a message true s)
