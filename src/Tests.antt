-- ===== src/Tests.antt =====
-- Tests: the theorems applied to concrete inputs.
mod Sorting
mod Services
mod Texts
mod Paths
mod Queues
mod Watches
mod Servers
mod Base64
mod Json
mod Tasks
mod Clients
mod Programs
mod Files
mod Delivery
mod Listing
mod Systems
mod Interleavings
mod Printers
mod Wakings
mod Dumps
