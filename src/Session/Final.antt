-- ===== src/Session/Final.antt =====
-- What a promise that has been settled holds afterwards.
pub mod Later
pub mod Waiting
use autobahn_cpp_aw.Common.{
  ℕ, ◌<◌, String, Bool, true, false, Option, none, some, List, ◌≡◌, refl, sym, arith, ap, ◌∙◌, inl,
  inr,
}
use autobahn_cpp_aw.Common.Table.{find, erase}
use autobahn_cpp_aw.Exception.{Result, ok, err, Result-cases, modify, ◌>>=◌, ◌>>◌}
use autobahn_cpp_aw.Msgpack.{Msgpack}
use autobahn_cpp_aw.Message.{Message}
use autobahn_cpp_aw.MessageType.{MessageType}
use autobahn_cpp_aw.Promise.{
  Promise, is_pending, WampError, CallResult, satisfied, call_result_value,
}
use autobahn_cpp_aw.Client.{Client}
use autobahn_cpp_aw.Session.{Session, Call}
use autobahn_cpp_aw.Session.Send.{set_promise, on_disconnect, send_message}
use autobahn_cpp_aw.Session.Disconnect.{on_disconnect_lem, on_disconnect-at}
use autobahn_cpp_aw.Session.Sending.{
  SendOutcome, not_running, not_attached, not_joined, written, lost, send_message-outcome,
}
use autobahn_cpp_aw.Session.Incoming.Replies.{
  request_field, reject, process_error, process_call_result, process_subscribed,
  process_unsubscribed, process_registered, process_unregistered,
}
use autobahn_cpp_aw.Session.Incoming.Fields.{request_field-state}
use autobahn_cpp_aw.Session.Owners.Replies.{process_error-ends}
use autobahn_cpp_aw.Session.Owners.Kept.Replies.{process_call_result-ends}

module _ ⦃m : Msgpack⦄ ⦃c : Client⦄ (a : ℕ) where
  -- a promise at `a` that is settled stays as it is
  abbrev pub Stays : Session → Session → Type 0
  Stays s t = is_pending (s.promises a) ≡ false → t.promises a ≡ s.promises a

  pub Stays-refl : (s : Session) → Stays s s
  Stays-refl s h = refl

  pub Stays-trans : (s t u : Session) → Stays s t → Stays t u → Stays s u
  Stays-trans s t u k l h = let e = k h in l (ap is_pending e ∙ h) ∙ e

  pub set_promise-Stays : (b : ℕ) (v : Promise) (s : Session) → Stays s (set_promise b v s).1
  unfolding set_promise
  set_promise-Stays b v s h = ground arith

  pub on_disconnect-Stays :
      (was_clean : Bool) (reason : String) (s : Session)
      → Stays s (on_disconnect was_clean reason s).1
  on_disconnect-Stays was_clean reason s h = ground (arith, on_disconnect-at was_clean reason s a)

  outcome-Stays :
      (message : Message) (b : Bool) (s t : Session) (r : Result (Unit {0}))
      → SendOutcome message b s r t
      → Stays s t
  outcome-Stays message b s t r (not_running _ _ e) = rw e (Stays-refl s)
  outcome-Stays message b s t r (not_attached _ _ _ e) = rw e (Stays-refl s)
  outcome-Stays message b s t r (not_joined _ _ _ _ _ e) = rw e (Stays-refl s)
  outcome-Stays message b s t r (written link _ att _ _ _ e) = rw e (Stays-refl s)
  outcome-Stays message b s t r (lost link reason _ att _ _ _ e) =
      let u = record s { transport = some (c.transmit link message).0 } in
      rw (e ∙ sym (ap (λ p. p.1) (on_disconnect_lem false reason u)))
        (on_disconnect-Stays false reason u)

  pub send_message-Stays :
      (message : Message) (b : Bool) (s : Session) → Stays s (send_message message b s).1
  send_message-Stays message b s = outcome-Stays message b s _ _ (send_message-outcome message b s)

  pub process_subscribed-Stays :
      (message : Message) (s : Session) → Stays s (process_subscribed message s).1
  unfolding process_subscribed set_promise
  process_subscribed-Stays message s h = ground (
    arith,
    request_field-state message 1 "SUBSCRIBED - SUBSCRIBED.Request must be an integer" s,
    request_field-state message 2 "SUBSCRIBED - SUBSCRIBED.Subscription must be an integer" s,
  )

  pub process_unsubscribed-Stays :
      (message : Message) (s : Session) → Stays s (process_unsubscribed message s).1
  unfolding process_unsubscribed set_promise
  process_unsubscribed-Stays message s h = ground (
    arith,
    request_field-state message 1 "UNSUBSCRIBED - UNSUBSCRIBED.Request must be an integer" s,
  )

  pub process_registered-Stays :
      (message : Message) (s : Session) → Stays s (process_registered message s).1
  unfolding process_registered set_promise
  process_registered-Stays message s h = ground (
    arith,
    request_field-state message 1 "REGISTERED - REGISTERED.Request must be an integer" s,
    request_field-state message 2 "REGISTERED - REGISTERED.Registration must be an integer" s,
  )

  pub process_unregistered-Stays :
      (message : Message) (s : Session) → Stays s (process_unregistered message s).1
  unfolding process_unregistered set_promise
  process_unregistered-Stays message s h = ground (
    arith,
    request_field-state message 1 "UNREGISTERED - UNREGISTERED.Request must be an integer" s,
  )

  finish-Stays :
      (id : ℕ) (call : Call) (v : CallResult) (s : Session)
      → Stays s
          ((do
            set_promise call.result (satisfied (call_result_value v))
            modify (λ t. record t { calls = erase id t.calls }))
            s).1
  unfolding set_promise
  finish-Stays id call v s h = ground arith

  pub process_call_result-Stays :
      (message : Message) (s : Session) → Stays s (process_call_result message s).1
  process_call_result-Stays message s =
      process_call_result-ends (λ t. Stays s t) message s (Stays-refl s)
        (λ id call v h. finish-Stays id call v s)

  reject-Stays :
      (type : Option MessageType) (make_error : MessageType → WampError) (s : Session)
      → Stays s (reject type make_error s).1
  unfolding reject set_promise
  reject-Stays none make_error s h = refl
  reject-Stays (some type) make_error s h = ground arith

  pub process_error-Stays : (message : Message) (s : Session) → Stays s (process_error message s).1
  process_error-Stays message s =
      process_error-ends (λ t. Stays s t) message s (Stays-refl s)
        (λ type make_error. reject-Stays type make_error s)
