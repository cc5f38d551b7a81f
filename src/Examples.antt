-- ===== src/Examples.antt =====
-- The theorems of the library at concrete inputs.
mod Chunks
mod Fetchers
mod Wire
mod Packets
mod Connections
mod Topics
mod Clients
mod Queues
mod Sessions
mod Machines
mod Options
