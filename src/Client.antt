-- ===== src/Client.antt =====
-- What surrounds a session and is not its own code: the transport below it, behind the interface
-- of autobahn/wamp_transport.hpp; the user's event handlers, procedures and `on_challenge`; and
-- what boost and msgpack say of exceptions.
use autobahn_cpp_aw.Common.{ℤ, String, Bool, Option}
use autobahn_cpp_aw.Exception.{Exception, Result}
use autobahn_cpp_aw.Msgpack.{Msgpack, Object}
use autobahn_cpp_aw.Message.{Message}
use autobahn_cpp_aw.Invocation.{Invocation, Script}

module _ ⦃m : Msgpack⦄ where
  -- autobahn/wamp_event.hpp: the parts of an event that `process_event` sets
  pub record Event : Type 0 where
    pub uri : String
    pub arguments : Object
    pub kw_arguments : Object

  -- autobahn/wamp_challenge.hpp
  pub record Challenge : Type 0 where
    pub authmethod : String
    pub challenge : String
    pub salt : String
    pub iterations : ℤ
    pub keylen : ℤ

  pub record Client : Type 1 where
    -- `wamp_transport::send_message`: `some reason` is a write that failed, upon which the
    -- transport calls `on_disconnect(false, reason)` of the session
    pub Link : Type 0
    pub transmit : Link → Message → Link × Option String
    -- `wamp_event_handler`: whether it throws
    pub Handler : Type 0
    pub handler_throws : Handler → Event → Bool
    -- `wamp_procedure`: what it does with an invocation
    pub Procedure : Type 0
    pub script : Procedure → Invocation → Script
    -- the virtual `on_challenge`: the signature that its future yields, or the exception
    pub on_challenge : Challenge → Result String
    -- `boost::copy_exception`, and `what()` of exceptions that the repository does not define
    pub copy_exception : Exception → Exception
    pub library_what : Exception → String
    -- whether `assert` is compiled in, that is, `NDEBUG` is not defined
    pub asserts : Bool
