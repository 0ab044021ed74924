-- ===== src/Storage/Metadata.antt =====
-- JSON objects of metadata: the operators `||` and `-` of jsonb, and the table metadata_history
-- (internal/storage/postgres/store_metadata.go).
use fincore_ledger.Prelude.{ByteString, Bool, [], ◌∷◌, ◌&&◌, ◌==◌, str_eq, any, if◌then◌else◌}
use fincore_ledger.Storage.Records.{Metadata, MetadataHistoryRecord, violation}
use fincore_ledger.Storage.World.{Act, Tables, Result, ok, err, exec}

unfoldable pub set_key : ByteString → ByteString → Metadata → Metadata
set_key k v [] = (k, v) ∷ []
set_key k v ((j, x) ∷ m) = if str_eq j k then (k, v) ∷ m else (j, x) ∷ set_key k v m

-- `m || d`
unfoldable pub merge : Metadata → Metadata → Metadata
merge m [] = m
merge m ((k, v) ∷ d) = merge (set_key k v m) d

-- `m - k`
unfoldable pub delete_key : ByteString → Metadata → Metadata
delete_key k [] = []
delete_key k ((j, x) ∷ m) = if str_eq j k then delete_key k m else (j, x) ∷ delete_key k m

unfoldable pub same_revision : MetadataHistoryRecord → MetadataHistoryRecord → Bool
same_revision a b =
    str_eq a.ledger_id b.ledger_id
    && a.target_type == b.target_type
    && str_eq a.target_id b.target_id
    && a.revision == b.revision

unfoldable pub add_history : MetadataHistoryRecord → Tables → Result Tables
unfolding same_revision
add_history r t =
    if any (same_revision r) t.metadata_history
    then err violation
    else ok (record t { metadata_history = r ∷ t.metadata_history })

unfoldable pub insert_metadata_history : MetadataHistoryRecord → Act (Unit {0})
unfolding add_history
insert_metadata_history r = exec (add_history r)
