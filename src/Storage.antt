-- ===== src/Storage.antt =====
-- The storage contract (internal/storage) and its PostgreSQL implementation
-- (internal/storage/postgres), as tables of records with the constraints of migrations/.
pub mod Records
pub mod EventType
pub mod World
pub mod Through
pub mod Metadata
pub mod Log
pub mod Volumes
pub mod Holds
pub mod Transactions
pub mod Governance
pub mod Pages
