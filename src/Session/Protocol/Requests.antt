-- ===== src/Session/Protocol/Requests.antt =====
-- The messages of the requests of a user are messages that a client may send.
use autobahn_cpp_aw.Common.{
  ℕ, String, Option, none, some, List, [], ◌∷◌, ◌+◌, ◌%◌, ◌^◌, if◌then◌else◌, ◌++◌, ◌≡◌, ap, ◌∙◌,
  arith,
}
use autobahn_cpp_aw.Msgpack.{Msgpack, Object, text_object, map_object}
use autobahn_cpp_aw.Message.Outgoing.{IsOutgoing, no_arguments, arguments, kw_arguments}
use autobahn_cpp_aw.Options.{
  SubscribeOptions, timeout_entries, call_options_object, subscribe_options_object,
}
use autobahn_cpp_aw.Client.{Client}
use autobahn_cpp_aw.Session.{Session, Task}
use autobahn_cpp_aw.Session.Layouts.{task_of, numbered, taken, request_lem}
use autobahn_cpp_aw.Session.Protocol.{IsReady, Speaks, All-snoc}
use autobahn_cpp_aw.Session.Steps.{UserCall, request}

module _ ⦃m : Msgpack⦄ ⦃c : Client⦄ where
  abbrev match_entries : Option String → List (String × Object)
  match_entries none = []
  match_entries (some policy) = ("match", text_object policy) ∷ []

  subscribe_options_object-entries :
      (o : SubscribeOptions) → subscribe_options_object o ≡ map_object (match_entries o.matching)
  unfolding subscribe_options_object
  subscribe_options_object-entries o = ground arith

  task_of-IsReady : (u : UserCall) (id a : ℕ) → IsReady (task_of u id a)
  unfolding call_options_object
  task_of-IsReady UserCall.start id a e = absurd cc
  task_of-IsReady UserCall.stop id a e = absurd cc
  task_of-IsReady (UserCall.join realm methods name) id a e = IsOutgoing.hello realm _
  task_of-IsReady (UserCall.leave reason) id a e = IsOutgoing.goodbye [] reason
  task_of-IsReady (UserCall.publish topic) id a e = IsOutgoing.publish id [] topic [] no_arguments
  task_of-IsReady (UserCall.publish_arguments topic l) id a e =
      IsOutgoing.publish id [] topic (l ∷ []) (arguments l)
  task_of-IsReady (UserCall.publish_kw_arguments topic l k) id a e =
      IsOutgoing.publish id [] topic (l ∷ k ∷ []) (kw_arguments l k)
  task_of-IsReady (UserCall.subscribe topic handler options) id a e =
      rw (subscribe_options_object-entries options)
        (IsOutgoing.subscribe id (match_entries options.matching) topic)
  task_of-IsReady (UserCall.unsubscribe subscription) id a e =
      IsOutgoing.unsubscribe id subscription
  task_of-IsReady (UserCall.call procedure options) id a e =
      IsOutgoing.call id (timeout_entries options.timeout) procedure [] no_arguments
  task_of-IsReady (UserCall.call_arguments procedure l options) id a e =
      IsOutgoing.call id (timeout_entries options.timeout) procedure (l ∷ []) (arguments l)
  task_of-IsReady (UserCall.call_kw_arguments procedure l k options) id a e =
      IsOutgoing.call id (timeout_entries options.timeout) procedure (l ∷ k ∷ []) (kw_arguments l k)
  task_of-IsReady (UserCall.provide name procedure options) id a e =
      IsOutgoing.register id options name
  task_of-IsReady (UserCall.unprovide registration) id a e = IsOutgoing.unregister id registration

  pub queued-Speaks :
      (o : Option c.Link) (s t : Session) (task : Task)
      → t.tasks ≡ s.tasks ++ task ∷ []
      → t.transport ≡ s.transport
      → IsReady task
      → Speaks o s
      → Speaks o t
  queued-Speaks o s t task queue at fine h = record {
    ready = rw queue (All-snoc IsReady s.tasks task h.ready fine);
    sent = h.sent;
    outgoing = h.outgoing;
    fed = at ∙ h.fed;
  }

  pub request-Speaks :
      (o : Option c.Link) (u : UserCall) (s : Session) → Speaks o s → Speaks o (request u s)
  request-Speaks o u s h =
      let id = (s.request_id + 1) % 2 ^ 64 in
      let s' = if numbered u then taken s else s in
      let at : s'.transport ≡ s.transport = ground arith in
      queued-Speaks o s (request u s) (task_of u id s.next_promise)
        (ap (λ t. t.tasks) (request_lem u s) ∙ ground arith)
        (ap (λ t. t.transport) (request_lem u s) ∙ at) (task_of-IsReady u id s.next_promise) h
