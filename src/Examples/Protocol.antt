-- ===== src/Examples/Protocol.antt =====
-- The theorem on what a session sends, at a session that has joined, with a call that its user makes
-- and the handler of that call.
use autobahn_cpp_aw.Common.{true, List, [], ◌≡◌, refl, some, is_some, ap, ◌∙◌}
use autobahn_cpp_aw.Message.{Message}
use autobahn_cpp_aw.Message.Outgoing.{IsOutgoing}
use autobahn_cpp_aw.Session.Tasks.{run_task, run_call}
use autobahn_cpp_aw.Session.Owners.Controls.{message_of}
use autobahn_cpp_aw.Session.Steps.{requests, runs}
use autobahn_cpp_aw.Session.{Session}
use autobahn_cpp_aw.Session.Lifecycle.{attempt-Frame}
use autobahn_cpp_aw.Session.Ordering.{All, transmit_all}
use autobahn_cpp_aw.Session.Protocol.Steps.{here, further, Reachable-sends}
use autobahn_cpp_aw.Sample.{sample_msgpack, sample_client}
use autobahn_cpp_aw.Examples.Owners.{
  wire, joined, calling, plain_call, queued_call, joined-Reachable, joined-linked, calling-tasks,
  calling-linked,
}

abbrev called : Session
called = (run_task queued_call (record calling { tasks = [] })).1

called-linked : is_some called.transport ≡ true
unfolding run_task run_call
called-linked =
    (attempt-Frame (message_of queued_call) joined.next_promise _ (record calling { tasks = [] })
      (λ t. (refl, refl, refl, refl))).1
    ∙ ap is_some calling-linked

Reachable-sends_example :
    (messages : List Message) × All IsOutgoing messages
    × (called.transport ≡ some (transmit_all messages wire))
Reachable-sends_example =
    Reachable-sends joined-Reachable
      (further (further here (requests plain_call) (ap is_some calling-linked))
        (runs [] [] queued_call calling-tasks) called-linked)
      wire joined-linked
