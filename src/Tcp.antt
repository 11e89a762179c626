-- ===== src/Tcp.antt =====
-- relay/src/relay/tcp_connection.rs: a TCP flow of the device, ended at the relay.
-- `Tcp/State.antt` has the control block, `Tcp/Flow.antt` the connection and its helpers,
-- `Tcp/Packet.antt` the handlers of packets from the device, `Tcp/Event.antt` those of the socket.
pub mod State
pub mod Flow
pub mod Packet
pub mod Event
pub mod Sequence
pub mod Acknowledge
pub mod Window
pub mod Transitions
pub mod Lifecycle
pub mod SocketSteps
pub mod Quiet
pub mod Moves
pub mod EventSteps
pub mod Ready
pub mod Run
pub mod Handshake
pub mod Expiry
pub mod Waiting
pub mod Panic
