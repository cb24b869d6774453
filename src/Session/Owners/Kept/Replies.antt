-- ===== src/Session/Owners/Kept/Replies.antt =====
-- The router's answers and the requests that a pending promise still has.
use autobahn_cpp_aw.Common.{ℕ, String, Option, none, some, arith, inl, inr, ◌≡◌}
use autobahn_cpp_aw.Common.Table.{find, erase}
use autobahn_cpp_aw.Exception.{Result-cases, ◌>>◌, modify}
use autobahn_cpp_aw.Msgpack.{Msgpack, map_type, array_type}
use autobahn_cpp_aw.Message.{Message}
use autobahn_cpp_aw.MessageType.{MessageType}
use autobahn_cpp_aw.Promise.{WampError, CallResult, satisfied, call_result_value}
use autobahn_cpp_aw.Arguments.{empty_arguments, empty_kw_arguments}
use autobahn_cpp_aw.Client.{Client}
use autobahn_cpp_aw.Session.{Session, Call}
use autobahn_cpp_aw.Session.Send.{set_promise}
use autobahn_cpp_aw.Session.Incoming.Replies.{
  request_field, reject, process_error, process_call_result, process_subscribed,
  process_unsubscribed, process_registered, process_unregistered,
}
use autobahn_cpp_aw.Session.Incoming.Fields.{
  expect_type-state, request_field-state, optional_field-state,
}
use autobahn_cpp_aw.Session.Owners.Replies.{process_error-ends}
use autobahn_cpp_aw.Session.Owners.Kept.{
  Unique-erase, Leaves, Leaves-refl, subscribers-Holds, unsubscribers-Holds, registrars-Holds,
  unregistrars-Holds, callers-Holds,
}

module _ ⦃m : Msgpack⦄ ⦃c : Client⦄ where
  -- what holds before a RESULT and after its call is finished holds after the RESULT
  pub process_call_result-ends :
      (P : Session → Type 0) (message : Message) (s : Session)
      → P s
      → ((id : ℕ) (call : Call) (v : CallResult)
          → find id s.calls ≡ some call
          → P
              ((do
                set_promise call.result (satisfied (call_result_value v))
                modify (λ t. record t { calls = erase id t.calls }))
                s).1)
      → P (process_call_result message s).1
  unfolding process_call_result
  process_call_result-ends P message s before after = grind (
    arith,
    request_field-state message 1 "RESULT - CALL.Request must be an id" s,
    expect_type-state message 2 "RESULT - Details must be a dictionary" s map_type,
    optional_field-state message 3 "RESULT - YIELD.Arguments must be a list" s array_type
        empty_arguments,
    optional_field-state message 4 "RESULT - YIELD.ArgumentsKw must be a dictionary" s map_type
        empty_kw_arguments,
  )

module _ ⦃m : Msgpack⦄ ⦃c : Client⦄ (a : ℕ) where
  pub process_subscribed-Leaves :
      (message : Message) (s : Session) → Leaves a s (process_subscribed message s).1
  unfolding process_subscribed set_promise
  process_subscribed-Leaves message s u =
      let complaint : String = "SUBSCRIBED - SUBSCRIBED.Request must be an integer" in
      let state = request_field-state message 1 complaint s in
      elim (Result-cases (request_field message 1 complaint s).0) [
        | inr (ex, e) ↦ ground arith
        | inl (id, e) ↦ ground (
          arith,
          request_field-state message 2 "SUBSCRIBED - SUBSCRIBED.Subscription must be an integer" s,
          (subscribers-Holds a).0 id s.subscribe_requests,
          Unique-erase id s.subscribe_requests,
        )
      ]

  pub process_unsubscribed-Leaves :
      (message : Message) (s : Session) → Leaves a s (process_unsubscribed message s).1
  unfolding process_unsubscribed set_promise
  process_unsubscribed-Leaves message s u =
      let complaint : String = "UNSUBSCRIBED - UNSUBSCRIBED.Request must be an integer" in
      let state = request_field-state message 1 complaint s in
      elim (Result-cases (request_field message 1 complaint s).0) [
        | inr (ex, e) ↦ ground arith
        | inl (id, e) ↦ ground (
          arith,
          (unsubscribers-Holds a).0 id s.unsubscribe_requests,
          Unique-erase id s.unsubscribe_requests,
        )
      ]

  pub process_registered-Leaves :
      (message : Message) (s : Session) → Leaves a s (process_registered message s).1
  unfolding process_registered set_promise
  process_registered-Leaves message s u =
      let complaint : String = "REGISTERED - REGISTERED.Request must be an integer" in
      let state = request_field-state message 1 complaint s in
      elim (Result-cases (request_field message 1 complaint s).0) [
        | inr (ex, e) ↦ ground arith
        | inl (id, e) ↦ ground (
          arith,
          (registrars-Holds a).0 id s.register_requests,
          Unique-erase id s.register_requests,
          request_field-state message 2 "REGISTERED - REGISTERED.Registration must be an integer" s,
        )
      ]

  pub process_unregistered-Leaves :
      (message : Message) (s : Session) → Leaves a s (process_unregistered message s).1
  unfolding process_unregistered set_promise
  process_unregistered-Leaves message s u =
      let complaint : String = "UNREGISTERED - UNREGISTERED.Request must be an integer" in
      let state = request_field-state message 1 complaint s in
      elim (Result-cases (request_field message 1 complaint s).0) [
        | inr (ex, e) ↦ ground arith
        | inl (id, e) ↦ ground (
          arith,
          (unregistrars-Holds a).0 id s.unregister_requests,
          Unique-erase id s.unregister_requests,
        )
      ]

  finish-Leaves :
      (id : ℕ) (call : Call) (v : CallResult) (s : Session)
      → find id s.calls ≡ some call
      → Leaves a s
          ((do
            set_promise call.result (satisfied (call_result_value v))
            modify (λ t. record t { calls = erase id t.calls }))
            s).1
  unfolding set_promise
  finish-Leaves id call v s h u =
      ground (arith, (callers-Holds a).0 id s.calls, Unique-erase id s.calls)

  pub process_call_result-Leaves :
      (message : Message) (s : Session) → Leaves a s (process_call_result message s).1
  process_call_result-Leaves message s =
      process_call_result-ends (λ t. Leaves a s t) message s (Leaves-refl a s)
        (λ id call v h. finish-Leaves id call v s h)

  reject-Leaves :
      (type : Option MessageType) (make_error : MessageType → WampError) (s : Session)
      → Leaves a s (reject type make_error s).1
  unfolding reject set_promise
  reject-Leaves none make_error s u = Leaves-refl a s u
  reject-Leaves (some type) make_error s u =
      let id = (make_error type).id in
      ground (arith, (callers-Holds a).0 id s.calls, Unique-erase id s.calls)

  pub process_error-Leaves :
      (message : Message) (s : Session) → Leaves a s (process_error message s).1
  process_error-Leaves message s =
      process_error-ends (λ t. Leaves a s t) message s (Leaves-refl a s)
        (λ type make_error. reject-Leaves type make_error s)
