-- ===== src/Examples.antt =====
-- Runs of the theorems at concrete values.
mod Rings
mod Packets
mod Reorders
mod Messages
mod Parity
mod Decoding
mod Channel
mod Fanout
mod Answers
mod Connections
mod Identities
