-- ===== src/Tests.antt =====
-- Runs of the theorems at concrete inputs.
mod Buffers
mod Packets
mod Connection
mod Tunnel
mod Flows
mod Selector
mod Packetizers
mod Panics
mod Runs
