-- ===== src/Tests.antt =====
-- Sample states of the programs, and the theorems at these states.
mod Samples
mod Receiving
mod Sending
mod Streams
mod Uploads
mod Mishaps
mod Threads
mod Hosts
mod Pairs
