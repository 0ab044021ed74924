-- ===== src/Safety.antt =====
-- Rules for what actions keep of the tables, and the operations of the planner under them.
pub mod Rules
pub mod Hoare
pub mod Batching
pub mod Frame
pub mod Cores
pub mod Operations
pub mod Runs
pub mod Commands
pub mod Governed
pub mod Sequences
pub mod Balance
pub mod Gapless
pub mod Rpc
pub mod Handlers
pub mod Serving
pub mod Yields
pub mod Imports
pub mod Served
