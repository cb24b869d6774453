-- ===== src/Examples/Owners.antt =====
-- The theorems on the owners of promises at a session that has been started and joined, and whose
-- user has called a procedure.
use autobahn_cpp_aw.Common.{
  ◌≤◌, ◌<◌, ℕ, List, some, none, true, arith, pos, false, ◌∙◌, ap, ◌++◌, ◌+◌, ◌%◌, ◌^◌, [], ◌∷◌,
  ◌≡◌, refl,
}
use autobahn_cpp_aw.Message.{Message, size, field, field_as, is_field_type}
use autobahn_cpp_aw.Session.{Session, Task, new_session, start_task}
use autobahn_cpp_aw.Session.Requests
use autobahn_cpp_aw.Session.Requests.{dispatch}
use autobahn_cpp_aw.Session.Steps.{
  UserCall, request, requests, runs, receives, attaches, Reachable, initial, next,
}
use autobahn_cpp_aw.Session.Layouts.{task_of, request_lem}
use autobahn_cpp_aw.Session.Tasks.{run_task, run_start, on_attach}
use autobahn_cpp_aw.Session.Incoming.{on_message, dispatch_message}
use autobahn_cpp_aw.Session.Incoming.Control.{process_welcome}
use autobahn_cpp_aw.Session.Send.{set_start, set_join}
use autobahn_cpp_aw.MessageType.{MessageType, of_code}
use autobahn_cpp_aw.Common.Table.{find}
use autobahn_cpp_aw.Exception.{ok}
use autobahn_cpp_aw.Promise.{pending, satisfied, call_result_value}
use autobahn_cpp_aw.Msgpack.{text_object}
use autobahn_cpp_aw.Options.{call_options_object}
use autobahn_cpp_aw.Session.{Call, call_task}
use autobahn_cpp_aw.Session.Layouts.{layout}
use autobahn_cpp_aw.Session.Incoming.Replies.{process_call_result}
use autobahn_cpp_aw.Session.Incoming.Calls.{result_of}
use autobahn_cpp_aw.Session.Answered.{Reachable-process_call_result}
use autobahn_cpp_aw.Session.Owners.Numbers.{HasFreeId, Reachable-HasFreeId}
use autobahn_cpp_aw.Session.Owners.Invariant.{IsOwned}
use autobahn_cpp_aw.Session.Owners.{waits, queued}
use autobahn_cpp_aw.Session.Owners.Kept.{UniqueKeys, none_bad}
use autobahn_cpp_aw.Session.Owners.Kept.Single.{Reachable-pending}
use autobahn_cpp_aw.Session.Owners.Reach.{Reachable-IsOwned}
use autobahn_cpp_aw.Session.Owners.Noted.{IsNoted, Reachable-IsNoted}
use autobahn_cpp_aw.Sample.{
  Tree, items, item, end, Wire, number, dictionary, empty, sample_msgpack, sample_client,
}

abbrev pub wire : Wire
wire = record { sent = []; broken = false }

abbrev welcome : Message
welcome = number (pos 2) ∷ number (pos 77) ∷ dictionary empty ∷ []

abbrev starting : Session
starting = request UserCall.start (on_attach wire new_session).1

abbrev started : Session
started = (run_task start_task (record starting { tasks = [] })).1

abbrev pub joined : Session
joined = (on_message welcome started).1

abbrev pub plain_call : UserCall
plain_call = UserCall.call "com.example.add" (record { timeout = pos 1000 })

-- joined, with a call in the queue
abbrev pub calling : Session
calling = request plain_call joined

abbrev pub queued_call : Task
queued_call = task_of plain_call ((joined.request_id + 1) % 2 ^ 64) joined.next_promise

pub joined-Reachable : Reachable joined
unfolding request on_attach Requests.start dispatch
joined-Reachable =
    next
      (next (next (next initial (attaches wire)) (requests UserCall.start))
        (runs [] [] start_task refl))
      (receives welcome)

pub calling-Reachable : Reachable calling
calling-Reachable = next joined-Reachable (requests plain_call)

joined_lem :
    (joined.tasks ≡ [])
    × (joined.next_promise ≡ 0)
    × (joined.running ≡ true)
    × (joined.transport ≡ some wire)
    × (joined.session_id ≡ 77)
unfolding run_task run_start set_start set_join request on_attach Requests.start dispatch on_message
    dispatch_message of_code process_welcome size field field_as is_field_type
joined_lem = (refl, refl, refl, refl, refl)

pub calling-tasks : calling.tasks ≡ queued_call ∷ []
calling-tasks =
    ap (λ (s : Session). s.tasks) (request_lem plain_call joined)
    ∙ ap (λ ts. ts ++ queued_call ∷ []) joined_lem.0

pub joined-linked : joined.transport ≡ some wire
joined-linked = joined_lem.3

pub calling-linked : calling.transport ≡ some wire
calling-linked = ap (λ (s : Session). s.transport) (request_lem plain_call joined) ∙ joined_lem.3

Reachable-IsOwned_example : IsOwned 0 calling
Reachable-IsOwned_example = Reachable-IsOwned 0 calling-Reachable

Reachable-HasFreeId_example : HasFreeId queued_call calling
Reachable-HasFreeId_example =
    Reachable-HasFreeId queued_call [] [] calling-Reachable calling-tasks (
      rw (ap (λ (s : Session). s.next_promise) (request_lem plain_call joined), joined_lem.1)
        (omega arith))

calling-pending :
    (calling.next_promise ≤ 2 ^ 64)
    × (joined.next_promise < calling.next_promise)
    × (calling.promises joined.next_promise ≡ pending)
calling-pending =
    rw (request_lem plain_call joined) (omega (arith, joined_lem.1), omega arith, ground arith)

Reachable-IsNoted_example :
    IsNoted queued_call
      (record calling { tasks = [] })
      (run_task queued_call (record calling { tasks = [] }))
Reachable-IsNoted_example =
    Reachable-IsNoted queued_call [] [] calling-Reachable calling-tasks (calling-pending.0)

Reachable-pending_example :
    UniqueKeys calling
    × (waits joined.next_promise none_bad calling
          + queued joined.next_promise none_bad calling.tasks
        ≡ 1)
Reachable-pending_example =
    Reachable-pending joined.next_promise calling-Reachable (calling-pending.0) (calling-pending.1)
      (calling-pending.2)

-- the number of the call, and the RESULT that has it
abbrev number_of_call : ℕ
number_of_call = (joined.request_id + 1) % 2 ^ 64

abbrev sum : List Tree
sum = items (item (number (pos 23)) end) ∷ []

abbrev made_call : Call
made_call = record { result = joined.next_promise }

abbrev call_message : Message
call_message =
    layout MessageType.call number_of_call
      (call_options_object (record { timeout = pos 1000 }) ∷ text_object "com.example.add" ∷ [])

Reachable-process_call_result_example :
    let (sent, waiting) =
      run_task
        (call_task call_message number_of_call made_call)
        (record calling { tasks = joined.tasks }) in
    let (r, after) =
      process_call_result
        (number (pos 50) ∷ number (pos number_of_call) ∷ dictionary empty ∷ sum)
        waiting in
    (calling.tasks ≡ joined.tasks ++ call_task call_message number_of_call made_call ∷ [])
    × (sent ≡ ok tt)
    × (r ≡ ok tt)
    × (after.promises joined.next_promise ≡ satisfied (call_result_value (result_of sum)))
    × (find number_of_call after.calls ≡ none)
Reachable-process_call_result_example =
    let (_, made, run, attached, id) = joined_lem in
    Reachable-process_call_result plain_call call_message wire (number (pos 50))
      (number (pos number_of_call)) (dictionary empty) sum joined-Reachable (rw made (omega arith))
      run attached (rw id (λ e. cc e)) refl refl refl refl refl refl refl
