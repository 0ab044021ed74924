-- ===== src/Planner/Revert.antt =====
-- The reversal and the amendment of a transaction (internal/planner/operations_shared.go
-- `doRevertInTx`, `doAmendInTx`).
use fincore_ledger.Prelude.{
  ByteString, codes, Bool, some, List, [], ◌∷◌, ◌&&◌, ◌==◌, str_eq, any, map, if◌then◌else◌,
}
use fincore_ledger.Prelude.Int.{ltb_ℤ}
use fincore_ledger.Accounts.{is_issuer}
use fincore_ledger.Storage.Records.{
  LedgerRecord, TransactionRecord, RelationshipRecord, Payload, Metadata, Time, invalid,
  already_reverted, insufficient_funds,
}
use fincore_ledger.Storage.EventType
use fincore_ledger.Storage.World.{Act, done, fail_if, some_or, mint, ◌>>=◌, ◌>>◌}
use fincore_ledger.Storage.Holds.{get_relationships, insert_relationship}
use fincore_ledger.Storage.Transactions.{
  get_transaction, insert_transaction, update_transaction_metadata,
}
use fincore_ledger.Storage.Metadata.{insert_metadata_history}
use fincore_ledger.Storage.Governance.{get_ledger_in_tx}
use fincore_ledger.Planner.Inputs.{PostingInput, SubmitResult}
use fincore_ledger.Planner.Validation.{deref, reverse_postings}
use fincore_ledger.Planner.Events.{
  Times, Key, available_balance, append_event, upsert_accounts, record_key, plain_result,
}
use fincore_ledger.Planner.Post.{posting_record, insert_deltas, touched}
use fincore_ledger.Planner.Holds.{at_once}

unfoldable pub is_reversal_of : ByteString → RelationshipRecord → Bool
is_reversal_of tx_id r = r.relationship_type == 0 && str_eq r.parent_tx_id tx_id

-- One round of the balance loop, for a source that is no issuer.
unfoldable pub check_reversed_posting : ByteString → PostingInput → Act (Unit {0})
check_reversed_posting ledger_id p = do
  available ← available_balance ledger_id p.source p.asset
  fail_if (ltb_ℤ available (deref p.amount)) insufficient_funds

unfoldable pub check_reversed : ByteString → LedgerRecord → List PostingInput → Act (Unit {0})
unfolding check_reversed_posting
check_reversed ledger_id ledger [] = done tt
check_reversed ledger_id ledger (p ∷ ps) =
    (if is_issuer p.source ledger.issuer_accounts
      then done tt
      else check_reversed_posting ledger_id p)
    >> check_reversed ledger_id ledger ps

abbrev pub revert_metadata : ByteString → ByteString → Metadata
revert_metadata tx_id reason = (codes "reverts", tx_id) ∷ (codes "revert_reason", reason) ∷ []

-- The writes of a reversal, behind the checks.
unfoldable pub write_reversal :
    ByteString
    → ByteString
    → ByteString
    → List PostingInput
    → ByteString
    → Key
    → Times
    → Act SubmitResult
write_reversal ledger_id tx_id original postings reason k times = do
  let records = map posting_record postings
  let metadata = revert_metadata original reason
  (event_id, seq) ←
      append_event ledger_id EventType.transaction_reverted
        (Payload.reverted tx_id records metadata) k times
  let tx : TransactionRecord = record {
    ledger_id = ledger_id;
    transaction_id = tx_id;
    event_id = event_id;
    valid_time = times.valid;
    system_time = times.now;
    reference = [];
    postings = records;
    metadata = metadata;
  }
  insert_transaction tx
  insert_deltas ledger_id event_id times postings
  upsert_accounts ledger_id times.now (touched postings [])
  insert_relationship (record {
    ledger_id = ledger_id;
    parent_tx_id = original;
    child_tx_id = tx_id;
    relationship_type = 0;
    event_id = event_id;
    system_time = times.now;
  })
  record_key ledger_id event_id k
  done (record (plain_result event_id) { transaction = some tx })

-- `doRevertInTx`
unfoldable pub do_revert_in_tx :
    ByteString → ByteString → Bool → Bool → ByteString → Key → Time → Act SubmitResult
do_revert_in_tx ledger_id original force at_effective_date reason k t = do
  tx_id ← mint
  orig ← get_transaction ledger_id original
  rels ← get_relationships ledger_id original
  fail_if (any (is_reversal_of original) rels) already_reverted
  reversed ← some_or invalid (reverse_postings orig.postings)
  ledger ← get_ledger_in_tx ledger_id
  if force then done tt else check_reversed ledger_id ledger reversed
  write_reversal ledger_id tx_id original reversed reason k
      (record { valid = if at_effective_date then orig.valid_time else t; now = t })

-- `doAmendInTx`
unfoldable pub do_amend_in_tx : ByteString → ByteString → Metadata → Key → Time → Act SubmitResult
do_amend_in_tx ledger_id original changes k t = do
  get_transaction ledger_id original
  (event_id, seq) ←
      append_event ledger_id EventType.transaction_amended (Payload.amended original changes) k
        (at_once t)
  update_transaction_metadata ledger_id original changes
  insert_metadata_history (record {
    ledger_id = ledger_id;
    target_type = 1;
    target_id = original;
    revision = seq;
    metadata = changes;
    event_id = event_id;
    system_time = t;
  })
  insert_relationship (record {
    ledger_id = ledger_id;
    parent_tx_id = original;
    child_tx_id = event_id;
    relationship_type = 1;
    event_id = event_id;
    system_time = t;
  })
  record_key ledger_id event_id k
  done (plain_result event_id)
