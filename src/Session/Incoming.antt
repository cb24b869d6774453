-- ===== src/Session/Incoming.antt =====
-- autobahn/wamp_session.ipp: the messages that a router sends, one `process_…` for each kind, and
-- `on_message`, which tells the kinds apart.
pub mod Control
pub mod Replies
pub mod Invoke
pub mod Fields
pub mod Calls
pub mod Results
pub mod Closing
pub mod Errors
pub mod Closed
pub mod Challenges
pub mod Factory
pub mod Failures
pub mod Served
pub mod Subscriptions
pub mod Registrations
use autobahn_cpp_aw.Common.{ℕ, Bool, not, Option, none, some, length, if◌then◌else◌, ltb}
use autobahn_cpp_aw.Exception.{protocol_error, Action, ◌>>=◌, ◌>>◌, lift, skip, throw, throw_if}
use autobahn_cpp_aw.Msgpack.{Msgpack, as_int, positive_integer_type}
use autobahn_cpp_aw.Message.{Message, size, field_as, is_field_type}
use autobahn_cpp_aw.MessageType.{MessageType, of_int}
use autobahn_cpp_aw.Client.{Client}
use autobahn_cpp_aw.Session.{Session, Method}
use Control.{process_challenge, process_welcome, process_abort, process_goodbye}
use Replies.{
  process_error, process_call_result, process_subscribed, process_unsubscribed, process_registered,
  process_unregistered,
}
use Invoke.{process_invocation, process_event}

module _ ⦃m : Msgpack⦄ ⦃c : Client⦄ where
  -- the `switch`: a code that no enumerator has falls through it
  unfoldable pub dispatch_message : Option MessageType → Message → Method (Unit {0})
  dispatch_message none message = skip
  dispatch_message (some MessageType.hello) message =
      throw (protocol_error "received HELLO message unexpected for WAMP client roles")
  dispatch_message (some MessageType.welcome) message = process_welcome message
  dispatch_message (some MessageType.abort) message = process_abort message
  dispatch_message (some MessageType.challenge) message = process_challenge message
  dispatch_message (some MessageType.authenticate) message =
      throw (protocol_error "received AUTHENTICATE message unexpected for WAMP client roles")
  dispatch_message (some MessageType.goodbye) message = process_goodbye message
  dispatch_message (some MessageType.heartbeat) message = skip
  dispatch_message (some MessageType.error) message = process_error message
  dispatch_message (some MessageType.publish) message =
      throw (protocol_error "received PUBLISH message unexpected for WAMP client roles")
  dispatch_message (some MessageType.published) message = skip
  dispatch_message (some MessageType.subscribe) message =
      throw (protocol_error "received SUBSCRIBE message unexpected for WAMP client roles")
  dispatch_message (some MessageType.subscribed) message = process_subscribed message
  dispatch_message (some MessageType.unsubscribe) message =
      throw (protocol_error "received UNSUBSCRIBE message unexpected for WAMP client roles")
  dispatch_message (some MessageType.unsubscribed) message = process_unsubscribed message
  dispatch_message (some MessageType.event) message = process_event message
  dispatch_message (some MessageType.call) message =
      throw (protocol_error "received CALL message unexpected for WAMP client roles")
  dispatch_message (some MessageType.cancel) message =
      throw (protocol_error "received CANCEL message unexpected for WAMP client roles")
  dispatch_message (some MessageType.result) message = process_call_result message
  dispatch_message (some MessageType.register) message =
      throw (protocol_error "received REGISTER message unexpected for WAMP client roles")
  dispatch_message (some MessageType.registered) message = process_registered message
  dispatch_message (some MessageType.unregister) message =
      throw (protocol_error "received UNREGISTER message unexpected for WAMP client roles")
  dispatch_message (some MessageType.unregistered) message = process_unregistered message
  dispatch_message (some MessageType.invocation) message = process_invocation message
  dispatch_message (some MessageType.interrupt) message =
      throw (protocol_error "received INTERRUPT message - not implemented")
  dispatch_message (some MessageType.yield) message =
      throw (protocol_error "received YIELD message unexpected for WAMP client roles")

  unfoldable pub on_message : Message → Method (Unit {0})
  on_message message = do
    throw_if (ltb (size message) 1)
        (protocol_error "invalid message structure - missing message code")
    is_integer ← lift (is_field_type message 0 positive_integer_type)
    throw_if (not is_integer) (protocol_error "invalid message code type - not an integer")
    number ← lift (field_as as_int message 0)
    dispatch_message (of_int number) message
