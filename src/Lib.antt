-- ===== src/Lib.antt =====
-- The relay of HarmonyOS reverse tethering (relay/src/relay, in Rust): packets of a device come over a
-- byte stream, are cut into IP packets, and go to connections that forward them over sockets of the
-- computer; what the sockets answer goes back as packets. This library models the path of a packet.
--
-- Parts, and the files that model them:
-- - `ByteBuffer`: byte_buffer.rs, bytes read from a source and consumed from the front.
-- - `StreamBuffer`: stream_buffer.rs, the circular buffer of a byte stream. `StreamBuffer/Inv` has its
--   bounds and `StreamBuffer/Refine` the list of bytes that it stands for.
-- - `DatagramBuffer`: datagram_buffer.rs, datagrams behind their lengths in a circular buffer.
--   `DatagramBuffer/Blocks` says which queue of datagrams a buffer holds, `Enqueue` and `Dequeue` what
--   `read_from` and `write_to` do to it.
-- - `Ipv4Header`, `UdpHeader`, `TcpHeader`, `TransportHeader`, `Ipv6Header`: the parsers of the files of
--   the same names, and their `Edit` modules the setters, which change the bytes too; their `Checksum`
--   modules are the `update_checksum` of the two headers that have one, and `Ipv4Header/RoundTrip` parses
--   what a setter wrote. `Ipv4Packet` and `Ipv6Packet`:
--   a packet with its headers read; `Ipv4Packet/Parts`: a packet made from its parts, cut back into them,
--   and its checksums; `ParseError`: the errors.
-- - `Checksum`: the sum of words and the folding of its carries, which the headers share;
--   `Checksum/Words` has the sums by index.
-- - `IpPacket`: ip_packet.rs, a packet of either version and the length of the packet in front of a
--   stream; `IpPacketBuffer`: ip_packet_buffer.rs, which puts the two together over a byte buffer.
-- - `Tcp`: tcp_connection.rs. `Tcp/State` has the control block, `Tcp/Flow` the connection with what it
--   reaches of its client, its selector and its router, `Tcp/Packet` the handlers of packets, and
--   `Tcp/Event` those of socket events, of expiry and of packets that wait for the client. The other
--   files below `Tcp` are proofs, named for what they are about: `Tcp/Run` has the runs of the handlers, over
--   `Tcp/Ready` (`on_ready`, whole), `Tcp/EventSteps` (its two halves), `Tcp/SocketSteps` and `Tcp/Moves`.
-- - `Connection`: connection.rs and net.rs, the id of a flow and its addresses, and the rewritten
--   destination; `Connection/Same` is the equality of ids. `HashMap`: the standard map, as the router uses it.
-- - `Router`: router.rs, the table of the connections of a client, over the operations of the trait
--   `Connection` (`Operations`) and the opening of sockets (`Creation`). `Router/Send`, `Router/Total`
--   and `Router/Clean` are proofs about `send_to_network` and `clean_expired_connections`.
-- - `Client`: client.rs, the tunnel of a device. `Client/Push` is the loop that pushes the packets that
--   arrived to the router, `Client/Event` has the handlers of the socket and the packets that wait for
--   room. `Client/Round` and `Client/Drain` are about its end, `Client/Frames` compares it with
--   the delivery of the packets one by one, `Client/Output` is about the bytes for the device and
--   `Client/Interests` about the id and what the tunnel waits for.
-- - `Selector`: selector.rs, the handlers of events by their tokens; `Selector/Tokens` is about the tokens that
--   wait to be removed.
-- - `Packetizer`: packetizer.rs, the buffer with the headers of a connection in front of a payload.
--   `Packetizer/Header` and `Transport` say that a header's bytes and its fields agree and that the
--   setters keep it so, `Ports` is about the exchanged ports, `Packet` about a packet that the parser
--   accepts, `Layout` about the parts of the buffer, `Build` about the steps of `build`; `Laws` and `New`
--   are about `packetize` and `new`.
-- - `Ipv6Packetizer`: ipv6_packetizer.rs, with the same kinds of files; `Checksum` is about the transport
--   checksum, `Parts` about the buffer as a list of parts.
-- - `TunnelServer`: tunnel_server.rs, the list of the tunnels; `Accept` and `Remove` are about the
--   listener's events and the removal of a closed client.
-- - `Relay`: the loop of relay.rs, its two deadlines and what a round does; `Relay/Deadlines` bounds them.
-- - `Udp`: udp_connection.rs, over the datagram buffer; `Udp/Queue` is about its queue.
-- - `Ipv6Connection`: ipv6_connection.rs; `Ipv6Connection/Leak` is about its registration.
-- - `ByteOrder`: the `byteorder` crate, as an interface; `Prelude`: shared names, lists and results;
--   `Prelude/Layout` has lists that are laid out in parts, `Prelude/Swap` exchanged ranges.
-- - `Tests`: the theorems at concrete inputs.
--
-- Conventions. Numbers are natural numbers. A `u32` that wraps is written with `% 2 ^ 32`, and masks and shifts
-- are written as division and remainder. Arithmetic that would overflow wraps, as it does in a release build.
-- `Outcome` is a result that is returned, an error that is returned, or a panic: an index out of range, a failed
-- assertion, an `expect` on nothing. A function that changes `self` returns the new value; where a Rust function
-- returns an error after it changed `self`, the model returns the value beside the error (`Handled`, and the
-- pair of `DatagramBuffer.write_to`). Sockets, the `byteorder` crate, the clock and the random number are
-- parameters. An instant is a number of nanoseconds or, for UDP and IPv6 flows, of seconds. The clock of the
-- relay's loop is `Local::now()`, the wall clock in seconds, read once for `poll` and once behind it; that it does
-- not go back is a hypothesis. An event of a TCP connection says that the socket can be read only where the
-- interests that were registered at the `poll` ask for it, as mio promises (`Asked`); handlers of other events of
-- the same `poll` may come before it (`Tcp/Quiet`). Two loops run on
-- fuel. `push_to_network` of the client has one more than the bytes that are held: each round takes a packet of
-- at least twenty bytes away. `fold` of the checksums has two rounds, which are enough for any `u32`. Every
-- other loop is a fold over its data or one call of a parameter. The table of the router holds its connections
-- by value, and the sources of packets that wait for the client, which share their objects with it, are seen
-- through an interface of their own; calls that change what mio watches are taken to succeed. A TCP or UDP
-- connection sees the packetizer through the header fields that it changes and the payload area (`Tcp/Flow`),
-- not through the bytes of `Packetizer`, and its client through the room in the client's buffer and the packets
-- put there; logging is left out.
--
-- Not modelled: the opening of sockets, the IPv4 packet buffer, which is compiled for tests only, the choice of
-- a resolver, logging, and everything outside relay/src. The IPv6 connection takes its packetizer as a
-- parameter.
pub mod Prelude
pub mod ByteOrder
pub mod StreamBuffer
pub mod ByteBuffer
pub mod DatagramBuffer
pub mod Ipv4Header
pub mod UdpHeader
pub mod TcpHeader
pub mod TransportHeader
pub mod Ipv4Packet
pub mod Ipv6Header
pub mod Packetizer
pub mod TunnelServer
pub mod Relay
pub mod Ipv6Packetizer
pub mod ParseError
pub mod Ipv6Packet
pub mod IpPacket
pub mod IpPacketBuffer
pub mod Tcp
pub mod Tests
pub mod HashMap
pub mod Connection
pub mod Router
pub mod Checksum
pub mod Client
pub mod Selector
pub mod Udp
pub mod Ipv6Connection
