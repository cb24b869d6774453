-- ===== src/Session/Answered.antt =====
-- A call from the user's request to the router's answer.
use autobahn_cpp_aw.Common.{
  true, ℕ, ◌+◌, ◌<◌, ◌%◌, ◌^◌, List, [], ◌∷◌, ◌++◌, ◌≡◌, ◌≢◌, refl, sym, ap, ◌∙◌, arith, none, some,
}
use autobahn_cpp_aw.Common.Table.{find, emplace, find-erase, find-emplace_self}
use autobahn_cpp_aw.Exception.{ok}
use autobahn_cpp_aw.Msgpack.{Msgpack, Object, type_of, as_uint64, map_type, positive_integer_type}
use autobahn_cpp_aw.Message.{Message}
use autobahn_cpp_aw.Promise.{satisfied, call_result_value}
use autobahn_cpp_aw.Client.{Client}
use autobahn_cpp_aw.Session.{Session, Call, call_task}
use autobahn_cpp_aw.Session.Tasks.{run_task, run_call, attempt}
use autobahn_cpp_aw.Session.Send.{send_message, transmit}
use autobahn_cpp_aw.Session.Incoming.Replies.{process_call_result}
use autobahn_cpp_aw.Session.Incoming.Fields.{FitArguments}
use autobahn_cpp_aw.Session.Incoming.Calls.{result_of, process_call_result-answers}
use autobahn_cpp_aw.Session.Layouts.{task_of, numbered, taken, request_lem}
use autobahn_cpp_aw.Session.Steps.{UserCall, request, Reachable, requests, next}
use autobahn_cpp_aw.Session.Owners.Numbers.{Reachable-HasFreeId}

module _ ⦃m : Msgpack⦄ ⦃c : Client⦄ where
  -- the handler of a call in a joined session whose transport takes the message
  run_call-sent :
      (message : Message) (id : ℕ) (call : Call) (s : Session) (link : c.Link)
      → s.running ≡ true
      → s.transport ≡ some link
      → s.session_id ≢ 0
      → (c.transmit link message).1 ≡ none
      → run_call message id call s ≡ (
        ok tt,
        record s { transport = some (c.transmit link message).0; calls = emplace id call s.calls },
      )
  unfolding run_call attempt send_message transmit
  run_call-sent message id call s link run at joined fine = ground arith

  -- A call is answered: from any reachable session that is joined and whose transport takes the
  -- message, after at most 2 ^ 64 - 1 requests, the user's call leaves its handler in the queue; once
  -- this has run, a well-formed RESULT with the id of the call is accepted, gives the future of the
  -- call the arguments of the message, and frees the id.
  pub Reachable-process_call_result :
      {s : Session} (u : UserCall) (message : Message) (link : c.Link) (code o details : Object)
      (rest : List Object)
      → Reachable s
      → s.next_promise < 2 ^ 64
      → s.running ≡ true
      → s.transport ≡ some link
      → s.session_id ≢ 0
      → let id = (s.request_id + 1) % 2 ^ 64 in
        let call : Call = record { result = s.next_promise } in
        numbered u ≡ true
        → task_of u id s.next_promise ≡ call_task message id call
        → (c.transmit link message).1 ≡ none
        → type_of o ≡ positive_integer_type
        → as_uint64 o ≡ some id
        → type_of details ≡ map_type
        → FitArguments rest
        → let asked = request u s in
          let (sent, waiting) =
            run_task (call_task message id call) (record asked { tasks = s.tasks }) in
          let (r, after) = process_call_result (code ∷ o ∷ details ∷ rest) waiting in
          (asked.tasks ≡ s.tasks ++ call_task message id call ∷ [])
          × (sent ≡ ok tt)
          × (r ≡ ok tt)
          × (after.promises s.next_promise ≡ satisfied (call_result_value (result_of rest)))
          × (find id after.calls ≡ none)
  unfolding run_task
  Reachable-process_call_result {s} u message link code o details rest reach few run at joined num
        is_call fine to vo td fit =
      let id = (s.request_id + 1) % 2 ^ 64 in
      let call : Call = record { result = s.next_promise } in
      let eq : request u s
          ≡ record (taken s) { tasks = s.tasks ++ call_task message id call ∷ [] } =
        request_lem u s ∙ rw (num, is_call) refl in
      let free : find id (request u s).calls ≡ none =
        Reachable-HasFreeId (call_task message id call) s.tasks [] (next reach (requests u))
          (ap (λ (t : Session). t.tasks) eq) (rw eq (omega arith)) in
      let unused : find id s.calls ≡ none = ap (λ (t : Session). find id t.calls) (sym eq) ∙ free in
      let waiting : Session = record (taken s) {
        transport = some (c.transmit link message).0;
        calls = emplace id call s.calls;
      } in
      let ran : run_call message id call (taken s) ≡ (ok tt, waiting) =
        run_call-sent message id call (taken s) link run at joined fine in
      let done =
        process_call_result-answers code o details rest id call waiting to vo td fit
          (find-emplace_self id call s.calls unused) (ground arith) in
      rw (eq, ran, done)
        (refl, refl, refl, ground arith, ground (arith, find-erase id id (emplace id call s.calls)))
