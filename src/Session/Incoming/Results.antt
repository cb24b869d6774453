-- ===== src/Session/Incoming/Results.antt =====
-- Several RESULT messages, for calls in flight, in whatever order they come.
use autobahn_cpp_aw.Common.{ℕ, pos, false, none, some, List, [], ◌∷◌, ◌≡◌, arith, ◌==◌}
use autobahn_cpp_aw.Common.Table.{find, find-erase}
use autobahn_cpp_aw.Exception.{ok}
use autobahn_cpp_aw.Msgpack.{
  Msgpack, Object, type_of, as_uint64, as_int, positive_integer_type, map_type,
}
use autobahn_cpp_aw.Message.{Message, size, field, field_as, is_field_type}
use autobahn_cpp_aw.MessageType.{of_code}
use autobahn_cpp_aw.Promise.{pending, satisfied, call_result_value}
use autobahn_cpp_aw.Client.{Client}
use autobahn_cpp_aw.Session.{Session, Call}
use autobahn_cpp_aw.Session.Incoming.{on_message, dispatch_message}
use autobahn_cpp_aw.Session.Incoming.Fields.{FitArguments}
use autobahn_cpp_aw.Session.Incoming.Calls.{result_of, answered, process_call_result-answers}

module _ ⦃m : Msgpack⦄ ⦃c : Client⦄ where
  -- a RESULT, with the id that it has and the call in flight that it answers
  pub record Answer : Type 0 where
    pub code : Object
    pub request : Object
    pub details : Object
    pub rest : List Object
    pub id : ℕ
    pub call : Call

  abbrev pub result_message : Answer → Message
  result_message a = a.code ∷ a.request ∷ a.details ∷ a.rest

  -- [RESULT, CALL.Request|id, Details|dict, YIELD.Arguments|list, YIELD.ArgumentsKw|dict]
  abbrev pub IsResult : Answer → Type 0
  IsResult a =
      (type_of a.code ≡ positive_integer_type)
      × (as_int a.code ≡ some (pos 50))
      × (type_of a.request ≡ positive_integer_type)
      × (as_uint64 a.request ≡ some a.id)
      × (type_of a.details ≡ map_type)
      × FitArguments a.rest

  -- the call is in flight, with a future that is pending
  abbrev pub InFlight : Session → Answer → Type 0
  InFlight s a = (find a.id s.calls ≡ some a.call) × (s.promises a.call.result ≡ pending)

  -- the future has the arguments of the message, and the id is free
  abbrev pub HasResult : Session → Answer → Type 0
  HasResult s a =
      (s.promises a.call.result ≡ satisfied (call_result_value (result_of a.rest)))
      × (find a.id s.calls ≡ none)

  -- another call, with another future
  abbrev pub Apart : Answer → Answer → Type 0
  Apart a b = ((a.id == b.id) ≡ false) × ((a.call.result == b.call.result) ≡ false)

  module _ (P : Answer → Type 0) where
    abbrev pub Every : List Answer → Type 0
    Every [] = Unit {0}
    Every (a ∷ rest) = P a × Every rest

  abbrev pub AllApart : List Answer → Type 0
  AllApart [] = Unit {0}
  AllApart (a ∷ rest) = Every (Apart a) rest × AllApart rest

  -- the session after these answers
  abbrev pub after_results : List Answer → Session → Session
  after_results [] s = s
  after_results (a ∷ rest) s = after_results rest (answered a.id a.call (result_of a.rest) s)

  pub on_message-result :
      (a : Answer) (s : Session)
      → IsResult a
      → InFlight s a
      → on_message (result_message a) s ≡ (ok tt, answered a.id a.call (result_of a.rest) s)
  unfolding on_message dispatch_message of_code size field field_as is_field_type
  on_message-result a s (tc, vc, to, vo, td, fit) (known, fresh) = ground (
    arith,
    process_call_result-answers a.code a.request a.details a.rest a.id a.call s to vo td fit known
        fresh,
  )

  -- the other calls stay in flight
  pub still-InFlight :
      (a : Answer) (rest : List Answer) (s : Session)
      → Every (Apart a) rest
      → Every (InFlight s) rest
      → Every (InFlight (answered a.id a.call (result_of a.rest) s)) rest
  still-InFlight a [] s apart flying = tt
  still-InFlight a (b ∷ rest) s ((ids, futures), apart) ((known, fresh), flying) = (
    (ground (arith, find-erase b.id a.id s.calls), ground arith),
    still-InFlight a rest s apart flying,
  )

  -- what an answer has given stays
  stays-HasResult :
      (a : Answer) (rest : List Answer) (s : Session)
      → Every (Apart a) rest
      → HasResult s a
      → HasResult (after_results rest s) a
  stays-HasResult a [] s apart had = had
  stays-HasResult a (b ∷ rest) s ((ids, futures), apart) (given, free) =
      stays-HasResult a rest (answered b.id b.call (result_of b.rest) s) apart
        (ground arith, ground (arith, find-erase a.id b.id s.calls))

  pub after_results-HasResult :
      (answers : List Answer) (s : Session)
      → AllApart answers
      → Every (HasResult (after_results answers s)) answers
  after_results-HasResult [] s apart = tt
  after_results-HasResult (a ∷ rest) s (apart, others) =
      let t = answered a.id a.call (result_of a.rest) s in
      (
        stays-HasResult a rest t apart (ground arith, ground (arith, find-erase a.id a.id s.calls)),
        after_results-HasResult rest t others,
      )
