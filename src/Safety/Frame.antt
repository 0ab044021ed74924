-- ===== src/Safety/Frame.antt =====
-- An invariant that only the log and the volumes can break, and the writes that cannot break it.
use fincore_ledger.Prelude.{ℕ, ◌≡◌, ByteString, Bool, true, false, none, some, List, if◌then◌else◌}
use fincore_ledger.Storage.Records.{
  Error, Time, Metadata, Payload, LedgerRecord, LogEventRecord, IdempotencyKeyRecord, AccountRecord,
  TransactionRecord, SchemaRecord, MetadataHistoryRecord, HoldRecord, RelationshipRecord,
  PolicyRecord, PendingApprovalRecord, VolumeDeltaRecord,
}
use fincore_ledger.Storage.World.{Tables, ok, err, exec, affect, ◌>>◌}
use fincore_ledger.Storage.Log
use fincore_ledger.Storage.Volumes.{insert_volume_delta}
use fincore_ledger.Storage.Holds
use fincore_ledger.Storage.Transactions
use fincore_ledger.Storage.Governance
use fincore_ledger.Storage.Metadata
use fincore_ledger.Planner.Events.{Key, Times, append_event}
use fincore_ledger.Planner.Approval.{append_audit}
use fincore_ledger.Safety.Rules.{
  Preserves, Upholds, preserves_rules, Preserves-exec, Preserves-affect,
}

-- Two volume deltas of one movement: what the one takes out, the other puts in.
pub record Mirrors (d e : VolumeDeltaRecord) : Type 0 where
  pub ledgers : d.ledger_id ≡ e.ledger_id
  pub assets : d.asset ≡ e.asset
  pub out_in : d.output_delta ≡ e.input_delta
  pub in_out : d.input_delta ≡ e.output_delta

pub record IsInvariant (Good : Tables → Type 0) : Type 0 where
  pub ledgers : (t : Tables) (x : List LedgerRecord) → Good t → Good (record t { ledgers = x })
  pub keys :
      (t : Tables) (x : List IdempotencyKeyRecord)
      → Good t
      → Good (record t { idempotency_keys = x })
  pub accounts : (t : Tables) (x : List AccountRecord) → Good t → Good (record t { accounts = x })
  pub transactions :
      (t : Tables) (x : List TransactionRecord) → Good t → Good (record t { transactions = x })
  pub schemas : (t : Tables) (x : List SchemaRecord) → Good t → Good (record t { schemas = x })
  pub history :
      (t : Tables) (x : List MetadataHistoryRecord)
      → Good t
      → Good (record t { metadata_history = x })
  pub holds : (t : Tables) (x : List HoldRecord) → Good t → Good (record t { holds = x })
  pub relationships :
      (t : Tables) (x : List RelationshipRecord) → Good t → Good (record t { relationships = x })
  pub policies : (t : Tables) (x : List PolicyRecord) → Good t → Good (record t { policies = x })
  pub approvals :
      (t : Tables) (x : List PendingApprovalRecord) → Good t → Good (record t { approvals = x })
  pub append :
      (ledger_id : ByteString) (event_type : ℕ) (payload : Payload) (k : Key) (times : Times)
      → Upholds Good (append_event ledger_id event_type payload k times)
  pub audit :
      (ledger_id event_id batch_id payload : ByteString) (t : Time)
      → Upholds Good (append_audit ledger_id event_id batch_id payload t)
  pub move :
      (d e : VolumeDeltaRecord)
      → Mirrors d e
      → Upholds Good (insert_volume_delta d >> insert_volume_delta e)

guarded_ok :
    (Good : Tables → Type 0) (b : Bool) (e : Error) (u t : Tables)
    → Good u
    → (if b then err e else ok u) ≡ ok t
    → Good t
guarded_ok Good true e u t g h = cc
guarded_ok Good false e u t g h = let same : u ≡ t = cc in rw same at g

guarded_some :
    (Good : Tables → Type 0) (b : Bool) (u t : Tables)
    → Good u
    → (if b then some u else none) ≡ some t
    → Good t
guarded_some Good true u t g h = let same : u ≡ t = cc in rw same at g
guarded_some Good false u t g h = cc

module _ {Good : Tables → Type 0} where
  -- A write behind a test for a violated constraint.
  pub Preserves-guarded :
      (b : Tables → Bool) (e : Error) (u : Tables → Tables)
      → ((t : Tables) → Good t → Good (u t))
      → Preserves Good (exec (λ t. if b t then err e else ok (u t)))
  Preserves-guarded b e u k =
      Preserves-exec _ (λ t t' g h. guarded_ok Good (b t) e (u t) t' (k t g) h)

  pub Preserves-update :
      (b : Tables → Bool) (e : Error) (u : Tables → Tables)
      → ((t : Tables) → Good t → Good (u t))
      → Preserves Good (affect e (λ t. if b t then some (u t) else none))
  Preserves-update b e u k =
      Preserves-affect e _ (λ t t' g h. guarded_some Good (b t) (u t) t' (k t g) h)

module _ {Good : Tables → Type 0} (inv : IsInvariant Good) where
  pub Preserves-insert_key :
      (r : IdempotencyKeyRecord) → Preserves Good (Log.insert_idempotency_key r)
  unfolding Log.insert_idempotency_key Log.add_key
  Preserves-insert_key r = Preserves-guarded _ _ _ (λ t g. inv.keys t _ g)

  pub Preserves-insert_hold : (h : HoldRecord) → Preserves Good (Holds.insert_hold h)
  unfolding Holds.insert_hold Holds.add_hold
  Preserves-insert_hold h = Preserves-guarded _ _ _ (λ t g. inv.holds t _ g)

  Preserves-update_hold :
      (l i : ByteString) (f : HoldRecord → HoldRecord) (e : Error)
      → Preserves Good (affect e (Holds.update_hold l i f))
  unfolding Holds.update_hold
  Preserves-update_hold l i f e = Preserves-update _ _ _ (λ t g. inv.holds t _ g)

  pub Preserves-void_hold : (l i : ByteString) → Preserves Good (Holds.void_hold l i)
  unfolding Holds.void_hold
  Preserves-void_hold l i = Preserves-update_hold l i _ _

  pub Preserves-expire_hold : (l i : ByteString) → Preserves Good (Holds.expire_hold l i)
  unfolding Holds.expire_hold
  Preserves-expire_hold l i = Preserves-update_hold l i _ _

  pub Preserves-update_hold_captured :
      (l i : ByteString) (x : _) → Preserves Good (Holds.update_hold_captured l i x)
  unfolding Holds.update_hold_captured
  Preserves-update_hold_captured l i x = Preserves-update_hold l i _ _

  pub Preserves-insert_relationship :
      (r : RelationshipRecord) → Preserves Good (Holds.insert_relationship r)
  unfolding Holds.insert_relationship Holds.add_relationship
  Preserves-insert_relationship r = Preserves-guarded _ _ _ (λ t g. inv.relationships t _ g)

  pub Preserves-insert_transaction :
      (r : TransactionRecord) → Preserves Good (Transactions.insert_transaction r)
  unfolding Transactions.insert_transaction Transactions.add_transaction
  Preserves-insert_transaction r = Preserves-guarded _ _ _ (λ t g. inv.transactions t _ g)

  Preserves-edit_metadata :
      (l i : ByteString) (f : Metadata → Metadata) (e : Error)
      → Preserves Good (affect e (Transactions.edit_metadata l i f))
  unfolding Transactions.edit_metadata
  Preserves-edit_metadata l i f e = Preserves-update _ _ _ (λ t g. inv.transactions t _ g)

  pub Preserves-update_metadata :
      (l i : ByteString) (d : Metadata)
      → Preserves Good (Transactions.update_transaction_metadata l i d)
  unfolding Transactions.update_transaction_metadata
  Preserves-update_metadata l i d = Preserves-edit_metadata l i _ _

  pub Preserves-delete_metadata_key :
      (l i key : ByteString) → Preserves Good (Transactions.delete_transaction_metadata_key l i key)
  unfolding Transactions.delete_transaction_metadata_key
  Preserves-delete_metadata_key l i key = Preserves-edit_metadata l i _ _

  pub Preserves-upsert_account :
      (a : AccountRecord) → Preserves Good (Transactions.upsert_account a)
  unfolding Transactions.upsert_account
  Preserves-upsert_account a = Preserves-exec _ (λ t t' g e.
      guarded_ok Good false Error.invalid
        (record t { accounts = Transactions.put_account a t.accounts }) t' (inv.accounts t _ g) e)

  pub Preserves-insert_schema :
      (f : ByteString → ByteString) (r : SchemaRecord)
      → Preserves Good (Transactions.insert_schema f r)
  unfolding Transactions.insert_schema Transactions.add_schema
  Preserves-insert_schema f r = Preserves-guarded _ _ _ (λ t g. inv.schemas t _ g)

  pub Preserves-insert_history :
      (r : MetadataHistoryRecord) → Preserves Good (Metadata.insert_metadata_history r)
  unfolding Metadata.insert_metadata_history Metadata.add_history
  Preserves-insert_history r = Preserves-guarded _ _ _ (λ t g. inv.history t _ g)

module _ {Good : Tables → Type 0} where
  pub Preserves-get_hold : (l i : ByteString) → Preserves Good (Holds.get_hold l i)
  unfolding Holds.get_hold
  Preserves-get_hold l i = search preserves_rules

  pub Preserves-get_transaction :
      (l i : ByteString) → Preserves Good (Transactions.get_transaction l i)
  unfolding Transactions.get_transaction
  Preserves-get_transaction l i = search preserves_rules

  pub Preserves-find_account : (l i : ByteString) → Preserves Good (Transactions.find_account l i)
  unfolding Transactions.find_account
  Preserves-find_account l i = search preserves_rules

  pub Preserves-get_schema : (l i : ByteString) → Preserves Good (Transactions.get_schema l i)
  unfolding Transactions.get_schema
  Preserves-get_schema l i = search preserves_rules

  pub Preserves-get_ledger : (i : ByteString) → Preserves Good (Governance.get_ledger i)
  unfolding Governance.get_ledger
  Preserves-get_ledger i = search preserves_rules

  pub Preserves-get_ledger_in_tx : (i : ByteString) → Preserves Good (Governance.get_ledger_in_tx i)
  unfolding Governance.get_ledger_in_tx
  Preserves-get_ledger_in_tx i = search preserves_rules

  pub Preserves-get_relationships :
      (l i : ByteString) → Preserves Good (Holds.get_relationships l i)
  unfolding Holds.get_relationships
  Preserves-get_relationships l i = search preserves_rules

  pub Preserves-next_seq : (l : ByteString) → Preserves Good (Log.next_ledger_seq l)
  unfolding Log.next_ledger_seq
  Preserves-next_seq l = search preserves_rules

  -- The log may grow where the invariant does not read it.
  pub Preserves-log_event :
      ((t : Tables) (x : List LogEventRecord) → Good t → Good (record t { log_events = x }))
      → (e : LogEventRecord) → Preserves Good (Log.append_log_event e)
  unfolding Log.append_log_event Log.add_event
  Preserves-log_event k e = Preserves-guarded _ _ _ (λ t g. k t _ g)
