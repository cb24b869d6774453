-- ===== src/Programs/Serving.antt =====
-- The procedure `add2` of the example programs, behind a session.
use autobahn_cpp_aw.Common.{
  ℕ, ◌+◌, ◌%◌, ◌^◌, String, true, some, List, [], ◌∷◌, ◌≡◌, refl, ◌∙◌, arith,
}
use autobahn_cpp_aw.Exception.{ok}
use autobahn_cpp_aw.Msgpack.{
  Msgpack, Object, type_of, as_uint64, positive_integer_type, map_type, array_type,
}
use autobahn_cpp_aw.Arguments.Access.{element}
use autobahn_cpp_aw.Invocation.{Invocation, Reply, return, reply, new_invocation, set_details, run}
use autobahn_cpp_aw.Invocation.Replies.{perform_lem, reply_fields}
use autobahn_cpp_aw.Client.{Client}
use autobahn_cpp_aw.Common.Table.{find}
use autobahn_cpp_aw.Session.{Session}
use autobahn_cpp_aw.Session.Send.{send_message}
use autobahn_cpp_aw.Session.Incoming.Invoke.{process_invocation, invoke, send_reply}
use autobahn_cpp_aw.Session.Incoming.Registrations.{process_invocation-invokes, invocation_of}
use autobahn_cpp_aw.Accessors.Invocations
use autobahn_cpp_aw.Programs.{one_number, add2, and_then}

module _ ⦃m : Msgpack⦄ (lexical_cast : ℕ → String) where
  add2-adds :
      (i : Invocation) (x y : Object) (more : List Object) (a b : ℕ)
      → type_of i.arguments ≡ array_type
      → m.array_elements i.arguments ≡ x ∷ y ∷ more
      → as_uint64 x ≡ some a
      → as_uint64 y ≡ some b
      → add2 lexical_cast i ≡ reply (Reply.result (one_number ((a + b) % 2 ^ 64))) (and_then return)
  unfolding add2 Invocations.argument element
  add2-adds i x y more a b ta ea vx vy = ground arith

  kept_id :
      (details : Object) (j i : Invocation)
      → set_details details j ≡ ok i
      → i.request_id ≡ j.request_id
  unfolding set_details
  kept_id details j i h = ground arith

  module _ ⦃c : Client⦄ where
    invoke-add2 :
        (procedure : c.Procedure) (i : Invocation) (x y : Object) (more : List Object) (a b : ℕ)
        (s s' : Session)
        → c.script procedure i ≡ add2 lexical_cast i
        → i.send_result_fn ≡ true
        → type_of i.arguments ≡ array_type
        → m.array_elements i.arguments ≡ x ∷ y ∷ more
        → as_uint64 x ≡ some a
        → as_uint64 y ≡ some b
        → send_message
            (reply_fields (Reply.result (one_number ((a + b) % 2 ^ 64))) i.request_id)
            true
            s
          ≡ (ok tt, s')
        → invoke procedure i s ≡ (ok tt, s')
    unfolding invoke run send_reply
    invoke-add2 procedure i x y more a b s s' is_add2 opened ta ea vx vy sent =
        let adds = add2-adds i x y more a b ta ea vx vy in
        ground (arith, perform_lem send_reply (Reply.result (one_number ((a + b) % 2 ^ 64))) i s)

    -- A sum across the session: an INVOCATION of a registration whose procedure is `add2`, with a list
    -- that starts with two numbers, sends one YIELD, under the id of the INVOCATION, with their sum
    -- modulo 2 ^ 64, and the session is what sending it has left.
    pub process_invocation-add2 :
        (code o p details arguments x y : Object) (more : List Object) (id registration a b : ℕ)
        (i : Invocation) (procedure : c.Procedure) (s s' : Session)
        → type_of o ≡ positive_integer_type
        → as_uint64 o ≡ some id
        → type_of p ≡ positive_integer_type
        → as_uint64 p ≡ some registration
        → type_of details ≡ map_type
        → set_details details (record new_invocation { request_id = id }) ≡ ok i
        → find registration s.procedures ≡ some procedure
        → ((j : Invocation) → c.script procedure j ≡ add2 lexical_cast j)
        → type_of arguments ≡ array_type
        → m.array_elements arguments ≡ x ∷ y ∷ more
        → as_uint64 x ≡ some a
        → as_uint64 y ≡ some b
        → send_message (reply_fields (Reply.result (one_number ((a + b) % 2 ^ 64))) id) true s
          ≡ (ok tt, s')
        → process_invocation (code ∷ o ∷ p ∷ details ∷ arguments ∷ []) s ≡ (ok tt, s')
    process_invocation-add2 code o p details arguments x y more id registration a b i procedure s s'
          to vo tp vp td ti known is_add2 ta ea vx vy sent =
        let j = invocation_of i (arguments ∷ []) in
        let same = kept_id details (record new_invocation { request_id = id }) i ti in
        process_invocation-invokes code o p details (arguments ∷ []) id registration i procedure s
          to vo tp vp td ti ta known
        ∙ invoke-add2 procedure j x y more a b s s' (is_add2 j) refl ta ea vx vy (rw same sent)
