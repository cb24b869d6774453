-- ===== src/Session/Incoming/Errors.antt =====
-- The router's refusals of requests: ERROR.
use autobahn_cpp_aw.Common.{
  ℕ, pos, String, Bool, true, false, some, List, [], ◌∷◌, ◌≡◌, ◌≢◌, refl, arith, length, leb,
}
use autobahn_cpp_aw.Common.Table.{find, erase}
use autobahn_cpp_aw.Exception.{ok, err, protocol_error}
use autobahn_cpp_aw.Msgpack.{
  Msgpack, Object, type_of, as_uint64, as_int, as_string, positive_integer_type, map_type,
  array_type, str_type,
}
use autobahn_cpp_aw.Message.{size}
use autobahn_cpp_aw.MessageType.{MessageType, code, of_code-code}
use autobahn_cpp_aw.Arguments.{empty_arguments, empty_kw_arguments}
use autobahn_cpp_aw.Promise.{pending, rejected, WampError}
use autobahn_cpp_aw.Client.{Client}
use autobahn_cpp_aw.Session.{Session, Call, update}
use autobahn_cpp_aw.Session.Send.{set_promise}
use autobahn_cpp_aw.Session.Incoming.Replies.{optional_field, reject, process_error}
use autobahn_cpp_aw.Session.Incoming.Fields.{
  FitArguments, field-eq, field_as-eq, expect_type-fits, request_field-reads, optional_field-absent,
  optional_field-present,
}

module _ ⦃m : Msgpack⦄ ⦃c : Client⦄ where
  abbrev pub error_of : MessageType → ℕ → String → Object → List Object → WampError
  error_of t id uri details [] = record {
    type = t;
    id = id;
    uri = uri;
    details = details;
    args = empty_arguments;
    kw_args = empty_kw_arguments;
  }
  error_of t id uri details (a ∷ []) = record {
    type = t;
    id = id;
    uri = uri;
    details = details;
    args = a;
    kw_args = empty_kw_arguments;
  }
  error_of t id uri details (a ∷ k ∷ rest) = record {
    type = t;
    id = id;
    uri = uri;
    details = details;
    args = a;
    kw_args = k;
  }

  -- the types of the requests that a client makes
  abbrev pub refusable : MessageType → Bool
  refusable MessageType.call = true
  refusable MessageType.register = true
  refusable MessageType.unregister = true
  refusable MessageType.publish = true
  refusable MessageType.subscribe = true
  refusable MessageType.unsubscribe = true
  refusable _ = false

  abbrev list_complaint : String
  list_complaint = "invalid ERROR message structure - Arguments must be a list"

  abbrev dictionary_complaint : String
  dictionary_complaint = "invalid ERROR message structure - ArgumentsKw must be a dictionary"

  read_arguments :
      (h o p d u : Object) (rest : List Object) (t : MessageType) (id : ℕ) (uri : String)
      (s : Session)
      → FitArguments rest
      → let message = h ∷ o ∷ p ∷ d ∷ u ∷ rest in
        let e = error_of t id uri d rest in
        (optional_field message 5 array_type list_complaint empty_arguments s ≡ (ok e.args, s))
        × (optional_field message 6 map_type dictionary_complaint empty_kw_arguments s
            ≡ (ok e.kw_args, s))
        × (leb (length message) 7 ≡ true)
        × (e ≡ record {
          type = t;
          id = id;
          uri = uri;
          details = d;
          args = e.args;
          kw_args = e.kw_args;
        })
  read_arguments h o p d u [] t id uri s fit = (
    optional_field-absent _ 5 list_complaint s array_type _ (omega arith),
    optional_field-absent _ 6 dictionary_complaint s map_type _ (omega arith),
    refl,
    refl,
  )
  read_arguments h o p d u (a ∷ []) t id uri s fit = (
    optional_field-present _ 5 list_complaint s array_type _ a refl fit,
    optional_field-absent _ 6 dictionary_complaint s map_type _ (omega arith),
    refl,
    refl,
  )
  read_arguments h o p d u (a ∷ k ∷ []) t id uri s fit = (
    optional_field-present _ 5 list_complaint s array_type _ a refl fit.0,
    optional_field-present _ 6 dictionary_complaint s map_type _ k refl fit.1,
    refl,
    refl,
  )
  read_arguments h o p d u (a ∷ k ∷ x ∷ rest) t id uri s fit = absurd fit

  module _ (h o p d u : Object) (rest : List Object) (t : MessageType) (id : ℕ) (uri : String)
      (s : Session) where
    -- a well-formed ERROR comes to the switch on the request's type
    process_error-reads :
        type_of o ≡ positive_integer_type
        → as_int o ≡ some (pos (code t))
        → refusable t ≡ true
        → type_of p ≡ positive_integer_type
        → as_uint64 p ≡ some id
        → type_of d ≡ map_type
        → type_of u ≡ str_type
        → as_string u ≡ some uri
        → FitArguments rest
        → process_error (h ∷ o ∷ p ∷ d ∷ u ∷ rest) s
          ≡ reject
              (some t)
              (λ t'. (record {
                type = t';
                id = id;
                uri = uri;
                details = d;
                args = (error_of t id uri d rest).args;
                kw_args = (error_of t id uri d rest).kw_args;
              }))
              s
    unfolding process_error size
    process_error-reads to vo rt tp vp td tu vu fit =
        let message = h ∷ o ∷ p ∷ d ∷ u ∷ rest in
        ground (
          arith,
          of_code-code t,
          expect_type-fits message 1
              "invalid ERROR message structure - REQUEST.Type must be an integer" s
              positive_integer_type o refl to,
          field_as-eq as_int message 1 o (pos (code t)) refl vo,
          request_field-reads message 2
              "invalid ERROR message structure - REQUEST.Request must be an integer" s p id refl tp
              vp,
          expect_type-fits message 3
              "invalid ERROR message structure - Details must be a dictionary" s map_type d refl td,
          field-eq message 3 d refl,
          expect_type-fits message 4 "invalid ERROR message - Error must be a string (URI)" s
              str_type u refl tu,
          field_as-eq as_string message 4 u uri refl vu,
          read_arguments h o p d u rest t id uri s fit,
        )

    -- A well-formed ERROR for any other request, of a type that a client makes, is refused and
    -- changes nothing: the future of the request keeps waiting.
    pub process_error-unhandled :
        type_of o ≡ positive_integer_type
        → as_int o ≡ some (pos (code t))
        → refusable t ≡ true
        → t ≢ MessageType.call
        → type_of p ≡ positive_integer_type
        → as_uint64 p ≡ some id
        → type_of d ≡ map_type
        → type_of u ≡ str_type
        → as_string u ≡ some uri
        → FitArguments rest
        → process_error (h ∷ o ∷ p ∷ d ∷ u ∷ rest) s
          ≡ (err (protocol_error "unhandled ERROR message"), s)
    unfolding reject
    process_error-unhandled to vo rt other tp vp td tu vu fit =
        ground (arith, process_error-reads to vo rt tp vp td tu vu fit)

  -- A well-formed ERROR for a call in flight gives that call's future the error of the message,
  -- with empty arguments where it has none, forgets the call, and changes nothing else.
  pub process_error-answers :
      (h o p d u : Object) (rest : List Object) (id : ℕ) (uri : String) (call : Call) (s : Session)
      → type_of o ≡ positive_integer_type
      → as_int o ≡ some (pos (code MessageType.call))
      → type_of p ≡ positive_integer_type
      → as_uint64 p ≡ some id
      → type_of d ≡ map_type
      → type_of u ≡ str_type
      → as_string u ≡ some uri
      → FitArguments rest
      → find id s.calls ≡ some call
      → s.promises call.result ≡ pending
      → process_error (h ∷ o ∷ p ∷ d ∷ u ∷ rest) s ≡ (
        ok tt,
        record s {
          promises =
              update s.promises call.result (rejected (error_of MessageType.call id uri d rest));
          calls = erase id s.calls;
        },
      )
  unfolding reject set_promise
  process_error-answers h o p d u rest id uri call s to vo tp vp td tu vu fit known fresh = ground (
    arith,
    process_error-reads h o p d u rest MessageType.call id uri s to vo refl tp vp td tu vu fit,
    read_arguments h o p d u rest MessageType.call id uri s fit,
  )
