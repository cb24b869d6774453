-- ===== src/Session/Incoming/Registrations.antt =====
-- The life of a registration: REGISTERED, INVOCATION and UNREGISTERED.
use autobahn_cpp_aw.Common.{
  ℕ, String, true, some, List, [], ◌∷◌, ◌≡◌, refl, arith, length, leb, ◌≤◌,
}
use autobahn_cpp_aw.Common.Table.{find, erase, assign, find-erase}
use autobahn_cpp_aw.Exception.{ok, err, protocol_error}
use autobahn_cpp_aw.Msgpack.{
  Msgpack, Object, type_of, as_uint64, positive_integer_type, map_type, array_type,
}
use autobahn_cpp_aw.Message.{size}
use autobahn_cpp_aw.Arguments.{empty_arguments, empty_kw_arguments}
use autobahn_cpp_aw.Invocation.{Invocation, new_invocation, set_details}
use autobahn_cpp_aw.Promise.{pending, satisfied, registration_value, unit_value}
use autobahn_cpp_aw.Client.{Client}
use autobahn_cpp_aw.Session.{Session, RegisterRequest, UnregisterRequest, update}
use autobahn_cpp_aw.Session.Send.{set_promise}
use autobahn_cpp_aw.Session.Incoming.Replies.{process_registered, process_unregistered}
use autobahn_cpp_aw.Session.Incoming.Invoke.{invoke, process_invocation, argument_fields}
use autobahn_cpp_aw.Session.Incoming.Fields.{
  FitArguments, field-eq, expect_type-fits, request_field-reads, optional_field-absent,
  optional_field-present,
}

module _ ⦃m : Msgpack⦄ ⦃c : Client⦄ where
  abbrev pub registered : ℕ → RegisterRequest → ℕ → Session → Session
  registered id request registration s = record s {
    procedures = assign registration request.procedure s.procedures;
    promises = update s.promises request.response (satisfied (registration_value registration));
    register_requests = erase id s.register_requests;
  }

  -- A well-formed REGISTERED for a request that waits makes its procedure the one of the
  -- registration, in place of any other, gives its future the registration, forgets the request,
  -- and changes nothing else.
  process_registered-answers :
      (code o p : Object) (id registration : ℕ) (request : RegisterRequest) (s : Session)
      → type_of o ≡ positive_integer_type
      → as_uint64 o ≡ some id
      → type_of p ≡ positive_integer_type
      → as_uint64 p ≡ some registration
      → find id s.register_requests ≡ some request
      → s.promises request.response ≡ pending
      → process_registered (code ∷ o ∷ p ∷ []) s ≡ (ok tt, registered id request registration s)
  unfolding process_registered set_promise size
  process_registered-answers code o p id registration request s to vo tp vp known fresh =
      let message = code ∷ o ∷ p ∷ [] in
      ground (
        arith,
        request_field-reads message 1 "REGISTERED - REGISTERED.Request must be an integer" s o id
            refl to vo,
        request_field-reads message 2 "REGISTERED - REGISTERED.Registration must be an integer" s p
            registration refl tp vp,
      )

  abbrev pub unregistered : ℕ → UnregisterRequest → Session → Session
  unregistered id request s = record s {
    procedures = erase request.registration s.procedures;
    promises = update s.promises request.response (satisfied unit_value);
    unregister_requests = erase id s.unregister_requests;
  }

  -- A well-formed UNREGISTERED for a request that waits forgets the procedure of its registration,
  -- settles its future, forgets the request, and changes nothing else.
  process_unregistered-answers :
      (code o : Object) (id : ℕ) (request : UnregisterRequest) (s : Session)
      → type_of o ≡ positive_integer_type
      → as_uint64 o ≡ some id
      → find id s.unregister_requests ≡ some request
      → s.promises request.response ≡ pending
      → process_unregistered (code ∷ o ∷ []) s ≡ (ok tt, unregistered id request s)
  unfolding process_unregistered set_promise size
  process_unregistered-answers code o id request s to vo known fresh =
      let message = code ∷ o ∷ [] in
      ground (
        arith,
        request_field-reads message 1 "UNREGISTERED - UNREGISTERED.Request must be an integer" s o
            id refl to vo,
      )

  -- the invocation that a procedure is called with
  abbrev pub invocation_of : Invocation → List Object → Invocation
  invocation_of i [] = record i {
    arguments = empty_arguments;
    kw_arguments = empty_kw_arguments;
    send_result_fn = true;
  }
  invocation_of i (a ∷ []) = record i {
    arguments = a;
    kw_arguments = empty_kw_arguments;
    send_result_fn = true;
  }
  invocation_of i (a ∷ k ∷ rest) = record i {
    arguments = a;
    kw_arguments = k;
    send_result_fn = true;
  }

  abbrev array_complaint : String
  array_complaint = "INVOCATION.Arguments must be an array/vector"

  abbrev map_complaint : String
  map_complaint = "INVOCATION.KwArguments must be a map"

  read_arguments :
      (code o p details : Object) (rest : List Object) (i : Invocation) (s : Session)
      → FitArguments rest
      → let message = code ∷ o ∷ p ∷ details ∷ rest in
        let called = invocation_of i rest in
        (argument_fields message array_complaint map_complaint s
          ≡ (ok (called.arguments, called.kw_arguments), s))
        × (leb (length message) 6 ≡ true)
        × (called ≡ record i {
          arguments = called.arguments;
          kw_arguments = called.kw_arguments;
          send_result_fn = true;
        })
  unfolding argument_fields
  read_arguments code o p details [] i s fit =
      let message = code ∷ o ∷ p ∷ details ∷ [] in
      (
        ground (
          arith,
          optional_field-absent message 4 array_complaint s array_type empty_arguments
              (omega arith),
          optional_field-absent message 5 map_complaint s map_type empty_kw_arguments (omega arith),
        ),
        refl,
        refl,
      )
  read_arguments code o p details (a ∷ []) i s fit =
      let message = code ∷ o ∷ p ∷ details ∷ a ∷ [] in
      (
        ground (
          arith,
          optional_field-present message 4 array_complaint s array_type empty_arguments a refl fit,
          optional_field-absent message 5 map_complaint s map_type empty_kw_arguments (omega arith),
        ),
        refl,
        refl,
      )
  read_arguments code o p details (a ∷ k ∷ []) i s fit =
      let message = code ∷ o ∷ p ∷ details ∷ a ∷ k ∷ [] in
      (
        ground (
          arith,
          optional_field-present message 4 array_complaint s array_type empty_arguments a refl
              fit.0,
          optional_field-present message 5 map_complaint s map_type empty_kw_arguments k refl fit.1,
        ),
        refl,
        refl,
      )
  read_arguments code o p details (a ∷ k ∷ x ∷ rest) i s fit = absurd fit

  -- a well-formed INVOCATION, up to the call of the procedure
  pub process_invocation-invokes :
      (code o p details : Object) (rest : List Object) (id registration : ℕ) (i : Invocation)
      (procedure : c.Procedure) (s : Session)
      → type_of o ≡ positive_integer_type
      → as_uint64 o ≡ some id
      → type_of p ≡ positive_integer_type
      → as_uint64 p ≡ some registration
      → type_of details ≡ map_type
      → set_details details (record new_invocation { request_id = id }) ≡ ok i
      → FitArguments rest
      → find registration s.procedures ≡ some procedure
      → process_invocation (code ∷ o ∷ p ∷ details ∷ rest) s
        ≡ invoke procedure (invocation_of i rest) s
  unfolding process_invocation size
  process_invocation-invokes code o p details rest id registration i procedure s to vo tp vp td ti
        fit known =
      let message = code ∷ o ∷ p ∷ details ∷ rest in
      ground (
        arith,
        request_field-reads message 1 "INVOCATION.Request must be an integer" s o id refl to vo,
        request_field-reads message 2 "INVOCATION.Registration must be an integer" s p registration
            refl tp vp,
        expect_type-fits message 3 "INVOCATION.Details must be a map" s map_type details refl td,
        field-eq message 3 details refl,
        read_arguments code o p details rest i s fit,
      )

  refused_invocation :
      (code o p details : Object) (rest : List Object) (id invoked : ℕ)
      (request : UnregisterRequest) (s : Session)
      → type_of o ≡ positive_integer_type
      → as_uint64 o ≡ some invoked
      → type_of p ≡ positive_integer_type
      → as_uint64 p ≡ some request.registration
      → length rest ≤ 2
      → process_invocation (code ∷ o ∷ p ∷ details ∷ rest) (unregistered id request s) ≡ (
        err (protocol_error "bogus INVOCATION message for non-registered registration ID"),
        unregistered id request s,
      )
  unfolding process_invocation size
  refused_invocation code o p details rest id invoked request s to vo tp vp short =
      let message = code ∷ o ∷ p ∷ details ∷ rest in
      let t = unregistered id request s in
      ground (
        arith,
        find-erase request.registration request.registration s.procedures,
        request_field-reads message 1 "INVOCATION.Request must be an integer" t o invoked refl to
            vo,
        request_field-reads message 2 "INVOCATION.Registration must be an integer" t p
            request.registration refl tp vp,
      )

  -- After a well-formed UNREGISTERED for a request that waits, an INVOCATION of its registration,
  -- with at most two fields of arguments, is refused as bogus and changes nothing.
  process_invocation-unregistered :
      (ucode u code o p details : Object) (rest : List Object) (id invoked : ℕ)
      (request : UnregisterRequest) (s : Session)
      → type_of u ≡ positive_integer_type
      → as_uint64 u ≡ some id
      → find id s.unregister_requests ≡ some request
      → s.promises request.response ≡ pending
      → type_of o ≡ positive_integer_type
      → as_uint64 o ≡ some invoked
      → type_of p ≡ positive_integer_type
      → as_uint64 p ≡ some request.registration
      → length rest ≤ 2
      → let after = (process_unregistered (ucode ∷ u ∷ []) s).1 in
        process_invocation (code ∷ o ∷ p ∷ details ∷ rest) after ≡ (
          err (protocol_error "bogus INVOCATION message for non-registered registration ID"),
          after,
        )
  process_invocation-unregistered ucode u code o p details rest id invoked request s tu vu known
        fresh to vo tp vp short =
      rw (process_unregistered-answers ucode u id request s tu vu known fresh)
        (refused_invocation code o p details rest id invoked request s to vo tp vp short)
