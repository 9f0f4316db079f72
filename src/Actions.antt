-- ===== src/Actions.antt =====
-- src/reality_layer/actions/: proposals, the policy that decides on them, and their lifecycle.
pub mod Models
pub mod Policy
pub mod Events
pub mod Service
pub mod Audit
pub mod Calls
pub mod Persistence
pub mod Proof
