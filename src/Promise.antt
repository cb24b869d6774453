-- ===== src/Promise.antt =====
-- `boost::promise`, with the behaviour that it documents and shares with `std::promise`: the first
-- value or exception settles it, and any later one raises `promise_already_satisfied`. The futures
-- that users hold see nothing else of it.
use autobahn_cpp_aw.Common.{ℕ, String, Bool, true, false}
use autobahn_cpp_aw.Exception.{Exception, Result, ok, err, promise_already_satisfied}
use autobahn_cpp_aw.Msgpack.{Msgpack, Object}
use autobahn_cpp_aw.MessageType.{MessageType}

module _ ⦃m : Msgpack⦄ where
  -- `wamp_call_result`
  pub record CallResult : Type 0 where
    pub arguments : Object
    pub kw_arguments : Object

  -- `wamp_error`
  pub record WampError : Type 0 where
    pub type : MessageType
    pub id : ℕ
    pub uri : String
    pub details : Object
    pub args : Object
    pub kw_args : Object

  -- what a promise of the session is given
  pub data Value : Type 0 where
    unit_value : Value
    session_value : ℕ → Value
    reason_value : String → Value
    call_result_value : CallResult → Value
    subscription_value registration_value : ℕ → Value

  pub data Promise : Type 0 where
    pending : Promise
    satisfied : Value → Promise
    failed : Exception → Promise
    rejected : WampError → Promise

  abbrev pub is_pending : Promise → Bool
  is_pending pending = true
  is_pending _ = false

  -- `set_value` and `set_exception`: `settled` is the state to take
  unfoldable pub settle : Promise → Promise → Result Promise
  settle settled pending = ok settled
  settle settled _ = err promise_already_satisfied
