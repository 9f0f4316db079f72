-- ===== src/Tests.antt =====
-- The theorems at concrete inputs, and small runs of the program.
mod Samples
mod Lifecycle
mod Sweep
mod Proof
mod Rules
mod World
mod History
mod Stored
mod Preflight
mod Orders
mod Api
