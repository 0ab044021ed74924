-- ===== src/Storage/EventType.antt =====
-- The event types of internal/storage/events.go.
use fincore_ledger.Prelude.{ℕ, Bool, leb, ◌&&◌}

abbrev pub transaction_posted : ℕ
transaction_posted = 1

abbrev pub hold_created : ℕ
hold_created = 2

abbrev pub hold_confirmed : ℕ
hold_confirmed = 3

abbrev pub hold_voided : ℕ
hold_voided = 4

abbrev pub hold_expired : ℕ
hold_expired = 5

abbrev pub conversion_created : ℕ
conversion_created = 6

abbrev pub transaction_reverted : ℕ
transaction_reverted = 7

abbrev pub transaction_amended : ℕ
transaction_amended = 8

abbrev pub metadata_set : ℕ
metadata_set = 9

abbrev pub metadata_deleted : ℕ
metadata_deleted = 10

abbrev pub schema_inserted : ℕ
schema_inserted = 11

abbrev pub policy_denied : ℕ
policy_denied = 12

abbrev pub approval_recorded : ℕ
approval_recorded = 13

unfoldable pub is_valid_event_type : ℕ → Bool
is_valid_event_type t = leb transaction_posted t && leb t approval_recorded
