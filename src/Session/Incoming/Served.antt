-- ===== src/Session/Incoming/Served.antt =====
-- An INVOCATION, from the message of the router to the procedure's return and what its session then
-- sends.
use autobahn_cpp_aw.Common.{
  ℕ, String, Bool, true, false, some, List, [], ◌∷◌, ◌≡◌, refl, sym, ap, ◌∙◌, arith, inl, inr,
  if◌then◌else◌,
}
use autobahn_cpp_aw.Common.Table.{find}
use autobahn_cpp_aw.Exception.{Result, ok, err, raised, Result-cases}
use autobahn_cpp_aw.Msgpack.{
  Msgpack, Object, type_of, as_uint64, as_string, as_bool, positive_integer_type, map_type,
}
use autobahn_cpp_aw.Arguments.{value_for_key_or}
use autobahn_cpp_aw.Invocation.{
  Invocation, new_invocation, set_details, Reply, Script, return, throws, reply, perform, run,
}
use autobahn_cpp_aw.Invocation.Replies.{perform_lem}
use autobahn_cpp_aw.Client.{Client}
use autobahn_cpp_aw.Session.{Session}
use autobahn_cpp_aw.Session.Send.{send_message}
use autobahn_cpp_aw.Session.Incoming.Invoke.{invoke, process_invocation, send_reply}
use autobahn_cpp_aw.Session.Incoming.Fields.{FitArguments}
use autobahn_cpp_aw.Session.Incoming.Failures.{failure, invoke-failure}
use autobahn_cpp_aw.Session.Incoming.Registrations.{process_invocation-invokes, invocation_of}

module _ ⦃m : Msgpack⦄ ⦃c : Client⦄ where
  -- the invocation that the details and the id of the message make
  abbrev pub detailed : ℕ → String → Bool → Invocation
  detailed id uri progress = record new_invocation {
    request_id = id;
    uri = uri;
    progressive_results_expected = progress;
  }

  set_details-reads :
      (details : Object) (id : ℕ) (uri : String) (progress : Bool)
      → value_for_key_or as_string details "procedure" "" ≡ ok uri
      → value_for_key_or as_bool details "receive_progress" false ≡ ok progress
      → set_details details (record new_invocation { request_id = id })
        ≡ ok (detailed id uri progress)
  unfolding set_details
  set_details-reads details id uri progress named expected = ground arith

  -- what is left to do after the procedure: nothing where it returned or has replied, and an ERROR
  -- that describes its exception where it has thrown and can still reply
  abbrev pub concluded :
      ℕ → Result (Unit {0}) × (Invocation × Session) → Result (Unit {0}) × Session
  concluded id (ok _, (i, s)) = (ok tt, s)
  concluded id (err e, (i, s)) =
      if i.send_result_fn then send_message (failure e id) true s else (ok tt, s)

  invocation_of-request_id :
      (i : Invocation) (rest : List Object) → (invocation_of i rest).request_id ≡ i.request_id
  invocation_of-request_id i [] = refl
  invocation_of-request_id i (a ∷ []) = refl
  invocation_of-request_id i (a ∷ k ∷ rest) = refl

  perform-request_id :
      (r : Reply) (i : Invocation) (s : Session)
      → (perform send_reply r (i, s)).1.0.request_id ≡ i.request_id
  perform-request_id r i s = ground (arith, perform_lem send_reply r i s)

  -- a procedure cannot change the id that its replies have
  run-request_id :
      (p : Script) (i : Invocation) (s : Session)
      → (run send_reply p (i, s)).1.0.request_id ≡ i.request_id
  unfolding run
  run-request_id return i s = refl
  run-request_id (throws e) i s = refl
  run-request_id (reply r next) i s =
      let (o, (i', s')) = perform send_reply r (i, s) in
      run-request_id (next (raised o)) i' s' ∙ perform-request_id r i s

  invoke-returned :
      (procedure : c.Procedure) (i : Invocation) (s : Session) (x : Unit {0})
      → (run send_reply (c.script procedure i) (i, s)).0 ≡ ok x
      → invoke procedure i s ≡ (ok tt, (run send_reply (c.script procedure i) (i, s)).1.1)
  unfolding invoke
  invoke-returned procedure i s x e = ground arith

  invoke-concludes :
      (procedure : c.Procedure) (i : Invocation) (s : Session)
      → invoke procedure i s ≡ concluded i.request_id (run send_reply (c.script procedure i) (i, s))
  invoke-concludes procedure i s =
      let ran = run send_reply (c.script procedure i) (i, s) in
      elim (Result-cases ran.0) [
        | inl (x, e) ↦
            let whole : ran ≡ (ok x, (ran.1.0, ran.1.1)) = λ k. (e k, ran.1) in
            invoke-returned procedure i s x e ∙ ap (concluded i.request_id) (sym whole)
        | inr (ex, e) ↦
            let whole : ran ≡ (err ex, (ran.1.0, ran.1.1)) = λ k. (e k, ran.1) in
            let same = run-request_id (c.script procedure i) i s in
            invoke-failure procedure i ran.1.0 s ran.1.1 ex whole
            ∙ rw same refl
            ∙ ap (concluded i.request_id) (sym whole)
      ]

  -- A well-formed INVOCATION of a registration runs the procedure that is registered, once, with the
  -- request's id, the name of the procedure and whether progressive results are expected as the
  -- details say, and the arguments of the message, empty ones where it has none; the procedure can
  -- reply, by `send_message` in a joined session. What the procedure does is all that happens where
  -- it returns, and also where it throws after its final reply; where it throws and can still reply,
  -- one ERROR that describes the exception is sent after that, under the request's id.
  pub process_invocation-serves :
      (code o p details : Object) (rest : List Object) (id registration : ℕ) (uri : String)
      (progress : Bool) (procedure : c.Procedure) (s : Session)
      → type_of o ≡ positive_integer_type
      → as_uint64 o ≡ some id
      → type_of p ≡ positive_integer_type
      → as_uint64 p ≡ some registration
      → type_of details ≡ map_type
      → value_for_key_or as_string details "procedure" "" ≡ ok uri
      → value_for_key_or as_bool details "receive_progress" false ≡ ok progress
      → FitArguments rest
      → find registration s.procedures ≡ some procedure
      → let i = invocation_of (detailed id uri progress) rest in
        process_invocation (code ∷ o ∷ p ∷ details ∷ rest) s
        ≡ concluded id (run (λ message. send_message message true) (c.script procedure i) (i, s))
  unfolding send_reply
  process_invocation-serves code o p details rest id registration uri progress procedure s to vo tp
        vp td named expected fit known =
      let i = invocation_of (detailed id uri progress) rest in
      process_invocation-invokes code o p details rest id registration (detailed id uri progress)
        procedure s to vo tp vp td (set_details-reads details id uri progress named expected) fit
        known
      ∙ invoke-concludes procedure i s
      ∙ ap
          (λ k.
            concluded k (run (λ message. send_message message true) (c.script procedure i) (i, s)))
          (invocation_of-request_id (detailed id uri progress) rest)
