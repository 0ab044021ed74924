-- ===== src/Planner.antt =====
-- The planner (internal/planner): every write to a ledger goes through it.
pub mod Inputs
pub mod Validation
pub mod Events
pub mod Post
pub mod Convert
pub mod Holds
pub mod Revert
pub mod Metadata
pub mod Hashing
pub mod Submit
pub mod Operations
pub mod Batch
pub mod Approval
pub mod Expire
pub mod Policies
