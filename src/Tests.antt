-- ===== src/Tests.antt =====
-- Concrete inputs for the theorems, and runs of the code on them.
mod Stores
mod Lines
mod Runs
mod Conversations
mod Wires
mod Links
mod Mains
mod Routing
mod Events
mod Overlaps
mod Threads
mod Background
mod Startup
