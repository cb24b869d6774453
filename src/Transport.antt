-- ===== src/Transport.antt =====
-- Transports: autobahn/wamp_transport_handler.hpp, the side of a transport that a session fills,
-- and what the transports call and the repository does not define.
pub mod RawSocket
pub mod WebSocket
pub mod Tcp
use autobahn_cpp_aw.Common.{
  ℕ, Bool, false, String, Option, none, some, List, ◌∷◌, [], ◌++◌, ◌<◌, ◌≡◌,
}
use autobahn_cpp_aw.Exception.{Exception, Result, ok, Action}
use autobahn_cpp_aw.Msgpack.{Msgpack, Object}
use autobahn_cpp_aw.Message.{Message}

module _ ⦃m : Msgpack⦄ where
  -- `wamp_transport_handler`, whose state is `H`; a transport shows itself to it as an `L`
  pub record TransportHandler (L H : Type 0) : Type 0 where
    pub on_attach : L → Action H (Unit {0})
    pub on_detach : Bool → String → Action H (Unit {0})
    pub on_disconnect : Bool → String → Action H (Unit {0})
    pub on_message : Message → Action H (Unit {0})

  -- boost::asio and the stream side of msgpack.
  pub record Network : Type 1 where
    -- `boost::system::error_code`, its `message()`, the `std::system_error` of it with a text, and
    -- a text followed by the code, as a stream prints it
    pub ErrorCode : Type 0
    pub message : ErrorCode → String
    pub system_error : ErrorCode → String → Exception
    pub print_error : String → ErrorCode → String
    -- a number as a stream prints it
    pub print_number : ℕ → String
    -- a socket: `is_open()`, `boost::asio::write`, `close()`
    pub Socket : Type 0
    pub is_open : Socket → Bool
    pub write : Socket → List ℕ → Socket × Option ErrorCode
    pub close : Socket → Socket
    -- what `async_connect` does at once: it opens the socket
    pub opened : Socket → Socket
    -- `packer.pack(fields)`
    pub pack : Message → List ℕ
    -- `msgpack::unpacker`: `buffer_consumed` of bytes that were put into its buffer, and `next`, with
    -- the object that it finds, if any
    pub Unpacker : Type 0
    pub consume : Unpacker → List ℕ → Unpacker
    pub next : Unpacker → Result (Option (Object × Unpacker))
    -- the bytes that it holds: `next` removes those of the object that it finds
    pub held : Unpacker → ℕ
    pub next_shrinks :
        (u u' : Unpacker) (o : Object) → next u ≡ ok (some (o, u')) → held u' < held u
    -- the conversion to `std::vector<msgpack::object>`
    pub as_fields : Object → Option Message
    -- the callbacks of `set_pause_handler` and `set_resume_handler`
    pub Callback : Type 0
