-- ===== src/Lib.antt =====
-- A verification library of AutobahnC++, a client library of the Web Application Messaging
-- Protocol (WAMP).
--
-- The program. A `wamp_session` (autobahn/wamp_session.hpp and wamp_session.ipp) speaks WAMP over a
-- transport. Its user calls `join`, `publish`, `subscribe`, `call`, `provide` and so on; each builds
-- a `wamp_message`, takes the next request id, makes a promise and leaves a handler to the io
-- service. The handler sends the message through the transport and notes the request in a table
-- by its id. The transport gives what the router sends to `on_message`, which settles the promise
-- that the table holds, calls a procedure with a `wamp_invocation`, or calls event handlers. When
-- the connection breaks, `on_disconnect` fails whatever is still waiting. A transport frames the
-- messages over a socket (wamp_rawsocket_transport) or a websocket (wamp_websocket_transport) and
-- has a `wamp_transport_handler` that it tells of messages and of the end of the connection, which
-- is the session.
--
-- The files.
--   Common             names of the standard library, Boolean tests and list functions over the
--                      native natural numbers; Common/Table is std::map and std::multimap, as the
--                      list of the entries with the functions that the code calls (find, emplace,
--                      insert, erase, operator[], lower_bound and upper_bound)
--   Exception          what may be thrown (autobahn/exceptions.hpp and the libraries'), and the
--                      monad of member functions: what was written before a throw stays written
--   Msgpack            msgpack-c, which is not part of the repository: its objects, observations
--                      and conversions are the fields of a record that every module takes
--   Message            autobahn/wamp_message.ipp; Message/Build is `wamp_message(n)` with a
--                      `set_field` for each field, Message/Print moves and prints messages
--   MessageType        autobahn/wamp_message_type.hpp and wamp_message_type.ipp
--   Arguments          autobahn/wamp_arguments.hpp
--   Promise            boost::promise as the code uses it, and the values that promises are given:
--                      autobahn/wamp_call_result.hpp, wamp_error.hpp
--   Invocation         autobahn/wamp_invocation.ipp; Invocation/Replies is about the messages that
--                      an invocation sends
--   Options            autobahn/wamp_call_options.ipp, wamp_subscribe_options.ipp; Options/Exchange reads
--                      them back and packs them
--   Handles            autobahn/wamp_publication.ipp, wamp_subscription.ipp, wamp_registration.ipp
--   AuthUtils          autobahn/wamp_auth_utils.hpp, over OpenSSL and rand as parameters
--   Client             what a session meets and the repository does not fix: the transport behind
--                      its interface, the user's handlers and procedures, `on_challenge`
--   Session            the fields of `wamp_session`, and autobahn/wamp_call.ipp,
--                      wamp_subscribe_request.ipp and the other records of requests
--   Session/Send       promises, `on_disconnect`, `send_message`
--   Session/Requests   the member functions that users call; Session/Requests/Calls is `call`
--   Session/Tasks      the handlers that these leave to the io service; `on_attach`, `on_detach`
--   Session/Incoming   `on_message`; its child modules Control, Replies and Invoke have the
--                      `process_` functions; Fields, Calls, Errors, Failures, Served,
--                      Challenges, Closing, Results, Subscriptions and Registrations are about them, Closed
--                      about whatever all of them keep, and Factory is
--                      autobahn/wamp_message_factory.hpp beside `process_error`
--   Session/Disconnect, Session/Sending, Session/Attempts, Session/Layouts, Session/Frame
--                      about `on_disconnect`, `send_message`, what becomes of requests, the
--                      messages of requests, and what incoming messages leave alone
--   Session/Steps      everything that can happen to a session as a step relation, in any order;
--                      Session/Lifecycle, Session/Joining and Session/Answered are about
--                      the sessions that it reaches
--   Session/Connection a session over a raw socket, each as the other's interface
--   Transport          autobahn/wamp_transport_handler.hpp, and what transports take from asio and
--                      from the stream side of msgpack, as a record with one law
--   Transport/RawSocket  autobahn/wamp_rawsocket_transport.ipp; Receive has the handshake's reply and
--                      the receive loop, Handshake, Frames, Streams and Wire are about them
--   Transport/Tcp      autobahn/wamp_tcp_transport.ipp, over the raw socket transport
--   Transport/WebSocket  autobahn/wamp_websocket_transport.ipp with
--                      wamp_websocketpp_websocket_transport.ipp; Agreement compares it to the other
--   Arguments/Access, Accessors
--                      how users read arguments: autobahn/wamp_call_result.ipp, wamp_event.ipp and
--                      wamp_invocation.ipp, in Accessors/Results, Events and Invocations;
--                      Accessors/Reading is about all three
--   Session/Owners     who may settle a promise: the handlers in the queue and the requests in the
--                      tables; Replies and Incoming are about messages, Controls and Running about
--                      handlers, Invariant, Numbers, Reach and Noted about every session that a new one
--                      can become; Kept is about the requests that a pending promise has left,
--                      with the same parts
--   Session/Phases     the phases of a future as a diagram, beside the steps of a session
--   Session/Wire       RESULT messages as bytes on a raw socket, with the session behind it
--   Session/Ordering   requests of a user, their handlers in the queue, and the transport
--   Session/Protocol   the messages that reach the transport, beside Message/Outgoing, the messages
--                      that the WAMP specification lets a client send
--   Session/Leaving    `leave` and `stop`
--   Programs           the procedures, event handlers and the challenged session of the programs in
--                      examples/; Replying and Serving are about what the procedures send
--   Session/Final      what a settled promise holds afterwards; Later is the relation of a session to
--                      what it may become, Waiting is about the requests that still wait then
--   Sample, Examples   concrete objects, transports, handlers and sessions; Examples/Answers
--                      and Examples/Routing have those of requests, subscriptions and registrations,
--                      Examples/Transport, Websocket, Reading, Owners, Later, Results, Ordering,
--                      Protocol, Programs, Challenges and Secrets those of the parts so named, over
--                      the sockets and websockets of Sample/Network
--
-- The correspondence. A field m_x of the session is the field x of the record `Session`. Member
-- functions are functions on that state, with the same guards in the same order; a handler that
-- the code gives to `m_io_service.dispatch` is a `Task` in the session's queue, and `run_task`
-- runs it. The body that `start` dispatches is `run_start`, and so for the others. Boost runs a
-- handler at once when `dispatch` is called on the io service's own thread: that is the step which
-- runs the task directly after the call. Promises stand in a heap, and requests hold addresses, so
-- that two owners of one promise are visible. Request ids wrap at 2 ^ 64. A procedure is a script:
-- it makes a reply, sees what the reply raised, and goes on. The reply reaches `send_message` at
-- once, which is what happens on the io service's thread.
--
-- A transport's methods run on its state beside its handler's, so that what the handler raises and
-- changes is seen. Reading from the socket is a completion handler that waits in the transport
-- (`Waiting`); `completed` runs it, and `arrive` gives it the bytes that come in, as many as it asked
-- for.
--
-- Whether `assert` is compiled in is a parameter (`asserts` of `Client`). Where it is, a failed
-- assertion ends the process: `on_attach` and `on_detach` then give `assertion_failed` and the state
-- at that moment, and no code catches it; where it is not, they go on.
--
-- The bounds. Loops run over the entries of a table, over the fields of a message or over the script
-- of a procedure, which is finite. The loop over the unpacker's objects runs on fuel, one more than
-- the bytes that the unpacker holds, each of which is read once. `arrive` takes the number of
-- readings that are completed: each message is two. The length in a frame's header is taken
-- modulo 2 ^ 32.
--
-- What is not modelled. The memory zones of msgpack, which only keep storage alive; the weak
-- pointers, since a session that is gone has no behaviour; the debug output; that a transport is
-- shared between sessions; a handler that detaches its transport from inside `on_message`; the mutex
-- of the websocket, since its handlers run on one thread. autobahn/wamp_tcp_client.hpp
-- and `make_wamp_call_result`, which no longer compile, have no model, nor have the `main`
-- functions in examples/ and their command line. That boost refuses to give out a future a
-- second time, which `start`, `stop`, `join` and `leave` meet after they have queued their handler, is left out: the
-- session's state is the same. Of an
-- exception that `boost::copy_exception` copies, only that it is a function of the original is
-- assumed.
pub mod Common
pub mod Exception
pub mod Msgpack
pub mod Message
pub mod MessageType
pub mod Arguments
pub mod Promise
pub mod Invocation
pub mod Options
pub mod Client
pub mod AuthUtils
pub mod Handles
pub mod Transport
pub mod Session
pub mod Programs
pub mod Accessors
pub mod Sample
pub mod Examples
