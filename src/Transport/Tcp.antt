-- ===== src/Transport/Tcp.antt =====
-- autobahn/wamp_tcp_transport.ipp and wamp_uds_transport.hpp: the raw socket transport over TCP, which
-- switches Nagle's algorithm off once it has connected, and over Unix sockets, which adds nothing.
use autobahn_cpp_aw.Exception.{Result, ok, err}
use autobahn_cpp_aw.Msgpack.{Msgpack}
use autobahn_cpp_aw.Transport.{Network}
use autobahn_cpp_aw.Transport.RawSocket.{RawSocket, new_transport}

module _ ⦃m : Msgpack⦄ ⦃n : Network⦄ where
  abbrev new_tcp_transport : n.Socket → n.Unpacker → RawSocket
  unfolding new_transport
  new_tcp_transport = new_transport

  -- The continuation of `connect`, given what the raw socket's future holds and `set_option(no_delay)`;
  -- it yields what the future of the TCP transport holds.
  unfoldable connected :
      (n.Socket → Result n.Socket) → Result (Unit {0}) → RawSocket → Result (Unit {0}) × RawSocket
  connected set_no_delay (err e) t = (err e, t)
  connected set_no_delay (ok _) t = elim (set_no_delay t.socket) [
    | err e ↦ (err e, t)
    | ok socket ↦ (ok tt, record t { socket = socket })
  ]
