-- ===== src/Session/Owners/Replies.antt =====
-- The router's answers and the owners of promises.
use autobahn_cpp_aw.Common.{Bool, ℕ, String, Option, none, some, arith, inl, inr}
use autobahn_cpp_aw.Exception.{Result-cases}
use autobahn_cpp_aw.Msgpack.{Msgpack, map_type, array_type, str_type, positive_integer_type}
use autobahn_cpp_aw.Message.{Message}
use autobahn_cpp_aw.MessageType.{MessageType}
use autobahn_cpp_aw.Promise.{WampError}
use autobahn_cpp_aw.Arguments.{empty_arguments, empty_kw_arguments}
use autobahn_cpp_aw.Client.{Client}
use autobahn_cpp_aw.Session.{Session}
use autobahn_cpp_aw.Session.Send.{set_promise}
use autobahn_cpp_aw.Session.Owners.{
  subscribers-Counts, unsubscribers-Counts, registrars-Counts, unregistrars-Counts, callers-Counts,
  Keeps, Keeps-refl,
}
use autobahn_cpp_aw.Session.Incoming.Replies.{
  request_field, reject, process_error, process_call_result, process_subscribed,
  process_unsubscribed, process_registered, process_unregistered,
}
use autobahn_cpp_aw.Session.Incoming.Fields.{
  expect_type-state, request_field-state, optional_field-state,
}

module _ ⦃m : Msgpack⦄ ⦃c : Client⦄ where
  -- what holds before an ERROR and after `reject` holds after the ERROR
  pub process_error-ends :
      (P : Session → Type 0) (message : Message) (s : Session)
      → P s
      → ((type : Option MessageType) (make_error : MessageType → WampError)
          → P (reject type make_error s).1)
      → P (process_error message s).1
  unfolding process_error
  process_error-ends P message s before after = grind (
    arith,
    expect_type-state message 1 "invalid ERROR message structure - REQUEST.Type must be an integer"
        s positive_integer_type,
    request_field-state message 2
        "invalid ERROR message structure - REQUEST.Request must be an integer" s,
    expect_type-state message 3 "invalid ERROR message structure - Details must be a dictionary" s
        map_type,
    expect_type-state message 4 "invalid ERROR message - Error must be a string (URI)" s str_type,
    optional_field-state message 5 "invalid ERROR message structure - Arguments must be a list" s
        array_type empty_arguments,
    optional_field-state message 6
        "invalid ERROR message structure - ArgumentsKw must be a dictionary" s map_type
        empty_kw_arguments,
  )

module _ ⦃m : Msgpack⦄ ⦃c : Client⦄ (a : ℕ) (bad : ℕ → ℕ → Bool) where
  pub process_subscribed-Keeps :
      (message : Message) (s : Session) → Keeps a bad s (process_subscribed message s).1
  unfolding process_subscribed set_promise
  process_subscribed-Keeps message s =
      let complaint : String = "SUBSCRIBED - SUBSCRIBED.Request must be an integer" in
      let state = request_field-state message 1 complaint s in
      elim (Result-cases (request_field message 1 complaint s).0) [
        | inr (ex, e) ↦ ground arith
        | inl (id, e) ↦ ground (
          arith,
          request_field-state message 2 "SUBSCRIBED - SUBSCRIBED.Subscription must be an integer" s,
          (subscribers-Counts a bad).0 id s.subscribe_requests,
          (subscribers-Counts a bad).1 id s.subscribe_requests,
        )
      ]

  pub process_unsubscribed-Keeps :
      (message : Message) (s : Session) → Keeps a bad s (process_unsubscribed message s).1
  unfolding process_unsubscribed set_promise
  process_unsubscribed-Keeps message s =
      let complaint : String = "UNSUBSCRIBED - UNSUBSCRIBED.Request must be an integer" in
      let state = request_field-state message 1 complaint s in
      elim (Result-cases (request_field message 1 complaint s).0) [
        | inr (ex, e) ↦ ground arith
        | inl (id, e) ↦ ground (
          arith,
          (unsubscribers-Counts a bad).0 id s.unsubscribe_requests,
          (unsubscribers-Counts a bad).1 id s.unsubscribe_requests,
        )
      ]

  pub process_registered-Keeps :
      (message : Message) (s : Session) → Keeps a bad s (process_registered message s).1
  unfolding process_registered set_promise
  process_registered-Keeps message s =
      let complaint : String = "REGISTERED - REGISTERED.Request must be an integer" in
      let state = request_field-state message 1 complaint s in
      elim (Result-cases (request_field message 1 complaint s).0) [
        | inr (ex, e) ↦ ground arith
        | inl (id, e) ↦ ground (
          arith,
          (registrars-Counts a bad).0 id s.register_requests,
          (registrars-Counts a bad).1 id s.register_requests,
          request_field-state message 2 "REGISTERED - REGISTERED.Registration must be an integer" s,
        )
      ]

  pub process_unregistered-Keeps :
      (message : Message) (s : Session) → Keeps a bad s (process_unregistered message s).1
  unfolding process_unregistered set_promise
  process_unregistered-Keeps message s =
      let complaint : String = "UNREGISTERED - UNREGISTERED.Request must be an integer" in
      let state = request_field-state message 1 complaint s in
      elim (Result-cases (request_field message 1 complaint s).0) [
        | inr (ex, e) ↦ ground arith
        | inl (id, e) ↦ ground (
          arith,
          (unregistrars-Counts a bad).0 id s.unregister_requests,
          (unregistrars-Counts a bad).1 id s.unregister_requests,
        )
      ]

  pub process_call_result-Keeps :
      (message : Message) (s : Session) → Keeps a bad s (process_call_result message s).1
  unfolding process_call_result set_promise
  process_call_result-Keeps message s =
      let complaint : String = "RESULT - CALL.Request must be an id" in
      let state = request_field-state message 1 complaint s in
      elim (Result-cases (request_field message 1 complaint s).0) [
        | inr (ex, e) ↦ ground arith
        | inl (id, e) ↦ ground (
          arith,
          (callers-Counts a bad).0 id s.calls,
          (callers-Counts a bad).1 id s.calls,
          expect_type-state message 2 "RESULT - Details must be a dictionary" s map_type,
          optional_field-state message 3 "RESULT - YIELD.Arguments must be a list" s array_type
              empty_arguments,
          optional_field-state message 4 "RESULT - YIELD.ArgumentsKw must be a dictionary" s
              map_type empty_kw_arguments,
        )
      ]

  reject-Keeps :
      (type : Option MessageType) (make_error : MessageType → WampError) (s : Session)
      → Keeps a bad s (reject type make_error s).1
  unfolding reject set_promise
  reject-Keeps none make_error s = Keeps-refl a bad s
  reject-Keeps (some type) make_error s =
      let id = (make_error type).id in
      ground (arith, (callers-Counts a bad).0 id s.calls, (callers-Counts a bad).1 id s.calls)

  pub process_error-Keeps :
      (message : Message) (s : Session) → Keeps a bad s (process_error message s).1
  process_error-Keeps message s =
      process_error-ends (λ t. Keeps a bad s t) message s (Keeps-refl a bad s)
        (λ type make_error. reject-Keeps type make_error s)
