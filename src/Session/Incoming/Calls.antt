-- ===== src/Session/Incoming/Calls.antt =====
-- Answers to calls: RESULT.
use autobahn_cpp_aw.Common.{ℕ, String, true, some, List, [], ◌∷◌, ◌≡◌, refl, arith, length, leb}
use autobahn_cpp_aw.Common.Table.{find, erase, find-erase}
use autobahn_cpp_aw.Exception.{Exception, ok, err, protocol_error}
use autobahn_cpp_aw.Msgpack.{
  Msgpack, Object, type_of, as_uint64, positive_integer_type, map_type, array_type,
}
use autobahn_cpp_aw.Message.{Message, size, field, field_as, is_field_type}
use autobahn_cpp_aw.Arguments.{empty_arguments, empty_kw_arguments}
use autobahn_cpp_aw.Promise.{pending, satisfied, CallResult, call_result_value}
use autobahn_cpp_aw.Client.{Client}
use autobahn_cpp_aw.Session.{Session, Call, update}
use autobahn_cpp_aw.Session.Send.{set_promise}
use autobahn_cpp_aw.Session.Incoming.Replies.{
  expect_type, optional_field, request_field, process_call_result,
}
use autobahn_cpp_aw.Session.Incoming.Fields.{
  FitArguments, expect_type-fits, request_field-reads, optional_field-absent,
  optional_field-present,
}

module _ ⦃m : Msgpack⦄ ⦃c : Client⦄ where
  abbrev pub result_of : List Object → CallResult
  result_of [] = record { arguments = empty_arguments; kw_arguments = empty_kw_arguments }
  result_of (a ∷ []) = record { arguments = a; kw_arguments = empty_kw_arguments }
  result_of (a ∷ k ∷ rest) = record { arguments = a; kw_arguments = k }

  -- the last two steps of `process_call_result`
  abbrev pub answered : ℕ → Call → CallResult → Session → Session
  answered id call result s = record s {
    promises = update s.promises call.result (satisfied (call_result_value result));
    calls = erase id s.calls;
  }

  abbrev arguments_complaint : String
  arguments_complaint = "RESULT - YIELD.Arguments must be a list"

  abbrev kw_complaint : String
  kw_complaint = "RESULT - YIELD.ArgumentsKw must be a dictionary"

  read_arguments :
      (code o details : Object) (rest : List Object) (s : Session)
      → FitArguments rest
      → let message = code ∷ o ∷ details ∷ rest in
        (optional_field message 3 array_type arguments_complaint empty_arguments s
          ≡ (ok (result_of rest).arguments, s))
        × (optional_field message 4 map_type kw_complaint empty_kw_arguments s
            ≡ (ok (result_of rest).kw_arguments, s))
        × (leb (length message) 5 ≡ true)
  read_arguments code o details [] s fit = (
    optional_field-absent _ 3 arguments_complaint s array_type _ (omega arith),
    optional_field-absent _ 4 kw_complaint s map_type _ (omega arith),
    refl,
  )
  read_arguments code o details (a ∷ []) s fit = (
    optional_field-present _ 3 arguments_complaint s array_type _ a refl fit,
    optional_field-absent _ 4 kw_complaint s map_type _ (omega arith),
    refl,
  )
  read_arguments code o details (a ∷ k ∷ []) s fit = (
    optional_field-present _ 3 arguments_complaint s array_type _ a refl fit.0,
    optional_field-present _ 4 kw_complaint s map_type _ k refl fit.1,
    refl,
  )
  read_arguments code o details (a ∷ k ∷ x ∷ r) s fit = absurd fit

  -- A well-formed RESULT for a call in flight gives that call's future the arguments of the message,
  -- empty ones where it has none, forgets the call, and changes nothing else.
  pub process_call_result-answers :
      (code o details : Object) (rest : List Object) (id : ℕ) (call : Call) (s : Session)
      → type_of o ≡ positive_integer_type
      → as_uint64 o ≡ some id
      → type_of details ≡ map_type
      → FitArguments rest
      → find id s.calls ≡ some call
      → s.promises call.result ≡ pending
      → process_call_result (code ∷ o ∷ details ∷ rest) s
        ≡ (ok tt, answered id call (result_of rest) s)
  unfolding process_call_result set_promise size
  process_call_result-answers code o details rest id call s ti vi td fit known fresh =
      let message = code ∷ o ∷ details ∷ rest in
      ground (
        arith,
        read_arguments code o details rest s fit,
        request_field-reads message 1 "RESULT - CALL.Request must be an id" s o id refl ti vi,
        expect_type-fits message 2 "RESULT - Details must be a dictionary" s map_type details refl
            td,
      )

  refused_again :
      (code o details : Object) (rest : List Object) (id : ℕ) (call : Call) (result : CallResult)
      (s : Session)
      → type_of o ≡ positive_integer_type
      → as_uint64 o ≡ some id
      → FitArguments rest
      → process_call_result (code ∷ o ∷ details ∷ rest) (answered id call result s) ≡ (
        err (protocol_error "bogus RESULT message for non-pending request ID"),
        answered id call result s,
      )
  unfolding process_call_result size
  refused_again code o details rest id call result s ti vi fit =
      let message = code ∷ o ∷ details ∷ rest in
      let t = answered id call result s in
      ground (
        arith,
        find-erase id id s.calls,
        read_arguments code o details rest t fit,
        request_field-reads message 1 "RESULT - CALL.Request must be an id" t o id refl ti vi,
      )

  -- After a well-formed RESULT for a call in flight, a second RESULT with the call's id and
  -- well-formed arguments is refused as bogus and changes nothing.
  process_call_result-twice :
      (code o details code2 o2 details2 : Object) (rest rest2 : List Object) (id : ℕ) (call : Call)
      (s : Session)
      → type_of o ≡ positive_integer_type
      → as_uint64 o ≡ some id
      → type_of details ≡ map_type
      → FitArguments rest
      → find id s.calls ≡ some call
      → s.promises call.result ≡ pending
      → type_of o2 ≡ positive_integer_type
      → as_uint64 o2 ≡ some id
      → FitArguments rest2
      → let after = (process_call_result (code ∷ o ∷ details ∷ rest) s).1 in
        process_call_result (code2 ∷ o2 ∷ details2 ∷ rest2) after
        ≡ (err (protocol_error "bogus RESULT message for non-pending request ID"), after)
  process_call_result-twice code o details code2 o2 details2 rest rest2 id call s ti vi td fit known
        fresh ti2 vi2 fit2 =
      rw (process_call_result-answers code o details rest id call s ti vi td fit known fresh)
        (refused_again code2 o2 details2 rest2 id call (result_of rest) s ti2 vi2 fit2)

  -- A RESULT that is refused, for any reason, changes nothing.
  process_call_result-atomic :
      (message : Message) (s : Session) (e : Exception)
      → (process_call_result message s).0 ≡ err e
      → (process_call_result message s).1 ≡ s
  unfolding process_call_result expect_type optional_field request_field set_promise size field
      field_as is_field_type
  process_call_result-atomic message s e h = ground arith
