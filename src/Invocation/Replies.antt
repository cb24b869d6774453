-- ===== src/Invocation/Replies.antt =====
-- What an invocation sends, whatever its procedure does.
use autobahn_cpp_aw.Common.{
  ℕ, ◌+◌, ◌≤◌, Bool, true, false, not, List, [], ◌∷◌, ◌≡◌, refl, ap, ◌∙◌, ◌&&◌, arith, length,
  if◌then◌else◌,
}
use autobahn_cpp_aw.Exception.{Result, ok, err, runtime_error, Action, raised}
use autobahn_cpp_aw.Msgpack.{Msgpack, Object, number_object, text_object, bool_object, map_object}
use autobahn_cpp_aw.Message.{Message}
use autobahn_cpp_aw.Message.Build.{type_object}
use autobahn_cpp_aw.MessageType.{MessageType}
use autobahn_cpp_aw.Invocation.{Invocation, Reply, Script, return, throws, reply, perform, run}

module _ ⦃m : Msgpack⦄ {S : Type 0} (send : Message → Action S (Unit {0})) where
  -- a sender that notes the messages which it has sent, the last one first
  abbrev pub Sent : Type 0
  Sent = S × List Message

  abbrev pub note : Result (Unit {0}) → Message → List Message → List Message
  note (ok _) message log = message ∷ log
  note (err e) message log = log

  unfoldable pub noting : Message → Action Sent (Unit {0})
  noting message (s, log) = let (r, s') = send message s in (r, (s', note r message log))

  -- how many more messages may go out
  abbrev pub allowance : Invocation → ℕ
  allowance i = if i.send_result_fn then 1 else 0

  abbrev Spends : Invocation × Sent → Invocation × Sent → Type 0
  Spends (i, (_, log)) (i', (_, log')) =
      (length log' + allowance i' ≤ length log + allowance i)
      × (i'.progressive_results_expected ≡ i.progressive_results_expected)

  perform-Spends :
      (r : Reply) (s : Invocation × Sent)
      → s.0.progressive_results_expected ≡ false
      → Spends s (perform noting r s).1
  unfolding perform noting
  perform-Spends r (i, (s, log)) h = ground arith

  run-Spends :
      (p : Script) (s : Invocation × Sent)
      → s.0.progressive_results_expected ≡ false
      → Spends s (run noting p s).1
  unfolding run
  run-Spends return s h = (omega arith, refl)
  run-Spends (throws e) s h = (omega arith, refl)
  run-Spends (reply r next) s h =
      let first = perform-Spends r s h in
      let rest =
        run-Spends (next (raised (perform noting r s).0)) (perform noting r s).1 (first.1 ∙ h) in
      (omega (arith, first, rest), rest.1 ∙ first.1)

  -- Unless progressive results are expected, a procedure sends at most one message, whatever it
  -- does and however its sender fails, and none if its invocation cannot send any more.
  pub run_sends_once :
      (p : Script) (i : Invocation) (s : S)
      → i.progressive_results_expected ≡ false
      → length (run noting p (i, (s, []))).1.1.1 ≤ allowance i
  run_sends_once p i s h = omega (arith, run-Spends p (i, (s, [])) h)

  perform_closed :
      (r : Reply) (s : Invocation × S) → s.0.send_result_fn ≡ false → (perform send r s).1 ≡ s
  unfolding perform
  perform_closed r (i, s) h = ground arith

  -- After the final reply a procedure can change nothing and send nothing, with progressive results
  -- or without.
  run_closed : (p : Script) (s : Invocation × S) → s.0.send_result_fn ≡ false → (run send p s).1 ≡ s
  unfolding run
  run_closed return s h = refl
  run_closed (throws e) s h = refl
  run_closed (reply r next) s h =
      let same = perform_closed r s h in
      run_closed (next (raised (perform send r s).0)) (perform send r s).1
        (ap (λ (t : Invocation × S). t.0.send_result_fn) same ∙ h)
      ∙ same

module _ ⦃m : Msgpack⦄ where
  abbrev pub is_final : Reply → Bool
  is_final (Reply.progress a) = false
  is_final (Reply.kw_progress a k) = false
  is_final _ = true

  abbrev pub progress_details : Object
  progress_details = map_object (("progress", bool_object true) ∷ [])

  -- The fields of each reply, as the WAMP specification lays YIELD and ERROR out.
  abbrev pub reply_fields : Reply → ℕ → Message
  reply_fields Reply.empty_result id =
      type_object MessageType.yield ∷ number_object id ∷ map_object [] ∷ []
  reply_fields (Reply.progress a) id =
      type_object MessageType.yield ∷ number_object id ∷ progress_details ∷ a ∷ []
  reply_fields (Reply.result a) id =
      type_object MessageType.yield ∷ number_object id ∷ map_object [] ∷ a ∷ []
  reply_fields (Reply.kw_progress a k) id =
      type_object MessageType.yield ∷ number_object id ∷ progress_details ∷ a ∷ k ∷ []
  reply_fields (Reply.kw_result a k) id =
      type_object MessageType.yield ∷ number_object id ∷ map_object [] ∷ a ∷ k ∷ []
  reply_fields (Reply.error uri) id =
      type_object MessageType.error
      ∷ type_object MessageType.invocation
      ∷ number_object id
      ∷ map_object []
      ∷ text_object uri
      ∷ []
  reply_fields (Reply.arguments_error uri a) id =
      type_object MessageType.error
      ∷ type_object MessageType.invocation
      ∷ number_object id
      ∷ map_object []
      ∷ text_object uri
      ∷ a
      ∷ []
  reply_fields (Reply.kw_error uri a k) id =
      type_object MessageType.error
      ∷ type_object MessageType.invocation
      ∷ number_object id
      ∷ map_object []
      ∷ text_object uri
      ∷ a
      ∷ k
      ∷ []

  abbrev pub close_if : Bool → Invocation → Invocation
  close_if true i = record i { send_result_fn = false }
  close_if false i = i

  abbrev pub succeeded : Result (Unit {0}) → Bool
  succeeded (ok _) = true
  succeeded (err e) = false

  -- Every reply on every branch: on a closed invocation it raises `runtime_error` and changes
  -- nothing; an intermediary result that is not expected is dropped; else the reply's fields are
  -- sent once, under the invocation's request id, what the sender raises is raised, and a final
  -- reply that was sent closes the invocation.
  pub perform_lem :
      {S : Type 0} (send : Message → Action S (Unit {0})) (r : Reply) (i : Invocation) (s : S)
      → perform send r (i, s) ≡ (
          if not i.send_result_fn
          then (
            err (
                runtime_error
                  "tried to call result() or error() but wamp_invocation is not sendable (double call?)"),
            (i, s),
          )
          else if not (is_final r) && not i.progressive_results_expected
          then (ok tt, (i, s))
          else let (result, s') = send (reply_fields r i.request_id) s in
            (result, (close_if (succeeded result && is_final r) i, s')))
  unfolding perform
  perform_lem send Reply.empty_result i s = ground arith
  perform_lem send r i s = ground arith
