-- ===== src/Paging.antt =====
-- A client that follows the page tokens of a list (internal/storage/postgres/store_log.go,
-- ListLogEvents), against the whole list in order.
pub mod Walk
pub mod Export
pub mod Replay
