-- ===== src/Session.antt =====
-- autobahn/wamp_session.hpp: the state of a session.
pub mod Send
pub mod Requests
pub mod Tasks
pub mod Disconnect
pub mod Sending
pub mod Attempts
pub mod Frame
pub mod Steps
pub mod Layouts
pub mod Lifecycle
pub mod Connection
pub mod Owners
pub mod Final
pub mod Phases
pub mod Ordering
pub mod Protocol
pub mod Leaving
pub mod Wire
pub mod Joining
pub mod Answered
pub mod Incoming
use autobahn_cpp_aw.Common.{ℕ, Bool, false, Option, none, some, List, [], ◌==◌, if◌then◌else◌}
use autobahn_cpp_aw.Common.Table.{Table}
use autobahn_cpp_aw.Exception.{Action}
use autobahn_cpp_aw.Msgpack.{Msgpack}
use autobahn_cpp_aw.Message.{Message}
use autobahn_cpp_aw.Promise.{Promise, pending}
use autobahn_cpp_aw.Client.{Client, Event}

module _ ⦃m : Msgpack⦄ ⦃c : Client⦄ where
  -- autobahn/wamp_call.hpp: `result` and each `response` below is the address of a promise
  pub record Call : Type 0 where
    pub result : ℕ

  -- autobahn/wamp_subscribe_request.hpp
  pub record SubscribeRequest : Type 0 where
    pub handler : c.Handler
    pub response : ℕ

  -- autobahn/wamp_unsubscribe_request.hpp
  pub record UnsubscribeRequest : Type 0 where
    pub subscription : ℕ
    pub response : ℕ

  -- autobahn/wamp_register_request.hpp
  pub record RegisterRequest : Type 0 where
    pub procedure : c.Procedure
    pub response : ℕ

  -- autobahn/wamp_unregister_request.hpp
  pub record UnregisterRequest : Type 0 where
    pub registration : ℕ
    pub response : ℕ

  -- A handler that a member function leaves to the io service by `dispatch`.
  pub data Task : Type 0 where
    start_task stop_task : Task
    join_task leave_task : Message → Task
    publish_task : Message → ℕ → Task
    subscribe_task : Message → ℕ → SubscribeRequest → Task
    unsubscribe_task : Message → ℕ → UnsubscribeRequest → Task
    call_task : Message → ℕ → Call → Task
    provide_task : Message → ℕ → RegisterRequest → Task
    unprovide_task : Message → ℕ → UnregisterRequest → Task
    authenticate_task : Message → Task

  pub record Session : Type 0 where
    pub transport : Option c.Link
    pub request_id : ℕ
    pub session_id : ℕ
    pub session_start : Promise
    pub session_join : Promise
    pub goodbye_sent : Bool
    pub session_leave : Promise
    pub running : Bool
    pub session_stop : Promise
    pub calls : Table Call
    pub subscribe_requests : Table SubscribeRequest
    pub unsubscribe_requests : Table UnsubscribeRequest
    pub subscription_handlers : Table c.Handler
    pub register_requests : Table RegisterRequest
    pub unregister_requests : Table UnregisterRequest
    pub procedures : Table c.Procedure
    -- the heap of the promises that requests share with the users' futures
    pub promises : ℕ → Promise
    pub next_promise : ℕ
    -- the io service's queue, and the calls made to event handlers, the last one first
    pub tasks : List Task
    pub delivered : List (c.Handler × Event)

  abbrev pub Method : Type 0 → Type 0
  Method A = Action Session A

  abbrev pub update : (ℕ → Promise) → ℕ → Promise → ℕ → Promise
  update promises p v q = if p == q then v else promises q

  -- `wamp_session(io_service, debug_enabled)`
  abbrev pub new_session : Session
  new_session = record {
    transport = none;
    request_id = 0;
    session_id = 0;
    session_start = pending;
    session_join = pending;
    goodbye_sent = false;
    session_leave = pending;
    running = false;
    session_stop = pending;
    calls = [];
    subscribe_requests = [];
    unsubscribe_requests = [];
    subscription_handlers = [];
    register_requests = [];
    unregister_requests = [];
    procedures = [];
    promises = λ _. pending;
    next_promise = 0;
    tasks = [];
    delivered = [];
  }
