-- ===== src/Tests.antt =====
-- Concrete inputs on which the theorems of the other modules are applied.
mod Disk
mod Files
mod Wiring
mod Sorting
mod Messages
mod Handlers
mod Rows
mod Pipeline
mod Helpers
mod Interleaving
mod Serving
mod Requests
mod Sockets
