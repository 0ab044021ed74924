-- ===== src/Planner/Metadata.antt =====
-- Setting and deleting metadata, and inserting a schema (internal/planner/operations_shared.go
-- `doSetMetadataInTx`, `doDeleteMetadataInTx`; operations_schema.go).
use fincore_ledger.Prelude.{ℕ, zero, suc, ByteString, Option, none, some, []}
use fincore_ledger.Storage.Records.{
  AccountRecord, TransactionRecord, Payload, Metadata, Time, not_found, bytes,
}
use fincore_ledger.Storage.EventType
use fincore_ledger.Storage.World.{Act, Result, ok, err, done, fail, attempt, ◌>>=◌, ◌>>◌}
use fincore_ledger.Storage.Transactions.{
  upsert_account, find_account, get_transaction, update_transaction_metadata,
  delete_transaction_metadata_key, insert_schema,
}
use fincore_ledger.Storage.Metadata.{insert_metadata_history, delete_key}
use fincore_ledger.Planner.Inputs.{Host, SubmitResult}
use fincore_ledger.Planner.Events.{Key, append_event, used_account, record_key, plain_result}
use fincore_ledger.Planner.Holds.{at_once}

-- A history row of a metadata operation: its revision is the sequence of the event.
unfoldable pub write_history :
    ByteString → ℕ → ByteString → ℕ → Metadata → ByteString → Time → Act (Unit {0})
write_history ledger_id target_type target_id revision metadata event_id t =
    insert_metadata_history (record {
      ledger_id = ledger_id;
      target_type = target_type;
      target_id = target_id;
      revision = revision;
      metadata = metadata;
      event_id = event_id;
      system_time = t;
    })

-- The target 0 is an account, 1 a transaction; any other is only logged.
unfoldable pub apply_metadata : ByteString → ℕ → ByteString → Metadata → Time → Act (Unit {0})
apply_metadata ledger_id zero target_id metadata t =
    upsert_account (record (used_account ledger_id target_id t) { metadata = metadata })
apply_metadata ledger_id (suc zero) target_id metadata t =
    update_transaction_metadata ledger_id target_id metadata
apply_metadata ledger_id (suc (suc n)) target_id metadata t = done tt

-- `doSetMetadataInTx`
unfoldable pub do_set_metadata_in_tx :
    ByteString → ℕ → ByteString → Metadata → Key → Time → Act SubmitResult
do_set_metadata_in_tx ledger_id target_type target_id metadata k t = do
  (event_id, seq) ←
      append_event ledger_id EventType.metadata_set
        (Payload.metadata_set target_type target_id metadata) k (at_once t)
  apply_metadata ledger_id target_type target_id metadata t
  write_history ledger_id target_type target_id seq metadata event_id t
  record_key ledger_id event_id k
  done (plain_result event_id)

-- The upsert merges the metadata that is left into what is stored.
unfoldable pub delete_from_account : ByteString → Time → Option AccountRecord → Act (Unit {0})
delete_from_account key t none = done tt
delete_from_account key t (some a) =
    upsert_account (record a { metadata = delete_key key a.metadata; updated_at = t })

-- `err != nil && !errors.Is(err, ErrNotFound)`
unfoldable pub unless_missing : Result (Unit {0}) → Act (Unit {0})
unless_missing (ok _) = done tt
unless_missing (err not_found) = done tt
unless_missing (err e) = fail e

unfoldable pub remove_metadata : ByteString → ℕ → ByteString → ByteString → Time → Act (Unit {0})
unfolding delete_from_account unless_missing
remove_metadata ledger_id zero target_id key t = do
  acct ← find_account ledger_id target_id
  delete_from_account key t acct
remove_metadata ledger_id (suc zero) target_id key t = do
  r ← attempt (delete_transaction_metadata_key ledger_id target_id key)
  unless_missing r
remove_metadata ledger_id (suc (suc n)) target_id key t = done tt

unfoldable pub metadata_after : Result TransactionRecord → Act Metadata
metadata_after (ok r) = done r.metadata
metadata_after (err not_found) = done []
metadata_after (err e) = fail e

abbrev pub account_metadata : Option AccountRecord → Metadata
account_metadata none = []
account_metadata (some a) = a.metadata

-- The metadata of the target behind the deletion.
unfoldable pub snapshot : ByteString → ℕ → ByteString → Act Metadata
unfolding metadata_after
snapshot ledger_id zero target_id = do
  acct ← find_account ledger_id target_id
  done (account_metadata acct)
snapshot ledger_id (suc zero) target_id = do
  r ← attempt (get_transaction ledger_id target_id)
  metadata_after r
snapshot ledger_id (suc (suc n)) target_id = done []

-- `doDeleteMetadataInTx`
unfoldable pub do_delete_metadata_in_tx :
    ByteString → ℕ → ByteString → ByteString → Key → Time → Act SubmitResult
do_delete_metadata_in_tx ledger_id target_type target_id key k t = do
  (event_id, seq) ←
      append_event ledger_id EventType.metadata_deleted
        (Payload.metadata_deleted target_type target_id key) k (at_once t)
  remove_metadata ledger_id target_type target_id key t
  current ← snapshot ledger_id target_type target_id
  write_history ledger_id target_type target_id seq current event_id t
  record_key ledger_id event_id k
  done (plain_result event_id)

-- The work of `SubmitInsertSchema`.
unfoldable pub do_insert_schema_in_tx :
    Host → ByteString → ByteString → ByteString → Key → Time → Act SubmitResult
do_insert_schema_in_tx host ledger_id document version k t = do
  (event_id, seq) ←
      append_event ledger_id EventType.schema_inserted (Payload.raw document) k (at_once t)
  insert_schema host.base64 (record {
    ledger_id = ledger_id;
    version = version;
    document = bytes document;
    event_id = event_id;
  })
  record_key ledger_id event_id k
  done (plain_result event_id)
