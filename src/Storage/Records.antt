-- ===== src/Storage/Records.antt =====
-- The records of internal/storage/store.go and the errors of internal/storage/errors.go. A time is a
-- number of nanoseconds, a `*big.Int` that is never nil is an integer, and a map is a list of its
-- entries.
use fincore_ledger.Prelude.{ℕ, ByteString, Bool, Option, List}
use fincore_ledger.Prelude.Int.{ℤ}

-- The sentinels of errors.go; `invalid` is an error made on the spot by `fmt.Errorf`, `violation` a
-- constraint of the database that the code gives no name, `driver` any other failure of a call to
-- the database, to Redis or of the context. `lost` is the failure of a call whose answer is lost; the
-- code does not tell it from `driver`.
pub data Error : Type 0 where
  not_found already_exists insufficient_funds invalid_idempotency_input : Error
  idempotency_key_conflict ledger_sealed transaction_reference_conflict already_reverted : Error
  deadlock policy_denied hold_expired hold_voided approval_expired : Error
  invalid violation driver lost : Error

abbrev pub Metadata : Type 0
Metadata = List (ByteString × ByteString)

abbrev pub Time : Type 0
Time = ℕ

pub record LedgerRecord : Type 0 where
  pub id : ByteString
  pub bucket_id : ByteString
  pub state : ByteString
  pub features : Metadata
  pub metadata : Metadata
  pub created_at : Time
  pub sealed_at : Option Time
  pub issuer_accounts : List ByteString

pub record PostingRecord : Type 0 where
  pub source : ByteString
  pub destination : ByteString
  pub amount : ByteString
  pub asset : ByteString

-- What the planner hands to `json.Marshal` for an event: the fields of each payload, as values.
pub data Payload : Type 0 where
  posted : ByteString → List PostingRecord → Metadata → ByteString → Payload
  converted : ByteString → Metadata → Payload
  hold_created : ByteString → Metadata → Time → Payload
  hold_confirmed : ByteString → ByteString → ByteString → Payload
  hold_voided : ByteString → Payload
  hold_expired : ByteString → ByteString → ByteString → Payload
  reverted : ByteString → List PostingRecord → Metadata → Payload
  amended : ByteString → Metadata → Payload
  metadata_set : ℕ → ByteString → Metadata → Payload
  metadata_deleted : ℕ → ByteString → ByteString → Payload
  policy_denied : ByteString → ByteString → Payload
  raw : ByteString → Payload

pub record LogEventRecord : Type 0 where
  pub event_id : ByteString
  pub ledger_id : ByteString
  pub ledger_seq : ℕ
  pub system_time : Time
  pub valid_time : Time
  pub event_type : ℕ
  pub payload : Payload
  pub idempotency_key : ByteString
  pub idempotency_hash : Option ByteString
  pub batch_id : ByteString
  pub schema_version : ℕ

pub record BatchRecord : Type 0 where
  pub batch_id : ByteString
  pub ledger_id : ByteString
  pub opened_at : Time
  pub closed_at : Option Time
  pub event_count : ℕ
  pub merkle_root : Option ByteString
  pub prev_batch_id : ByteString
  pub attestation_uri : ByteString

pub record IdempotencyKeyRecord : Type 0 where
  pub ledger_id : ByteString
  pub idempotency_key : ByteString
  pub idempotency_hash : ByteString
  pub event_id : ByteString

pub record AccountRecord : Type 0 where
  pub ledger_id : ByteString
  pub address : ByteString
  pub first_usage : Time
  pub updated_at : Time
  pub metadata : Metadata

pub record TransactionRecord : Type 0 where
  pub ledger_id : ByteString
  pub transaction_id : ByteString
  pub event_id : ByteString
  pub valid_time : Time
  pub system_time : Time
  pub reference : ByteString
  pub postings : List PostingRecord
  pub metadata : Metadata

pub record VolumeDeltaRecord : Type 0 where
  pub ledger_id : ByteString
  pub account : ByteString
  pub asset : ByteString
  pub shard : ℕ
  pub event_id : ByteString
  pub valid_time : Time
  pub system_time : Time
  pub input_delta : ℤ
  pub output_delta : ℤ

pub record BalanceResult : Type 0 where
  pub input : ℤ
  pub output : ℤ

-- The dynamic type of a Go value of type `any`, as far as the code tells it: a []byte, a string, or
-- anything else.
pub data Document : Type 0 where
  bytes : ByteString → Document
  text : ByteString → Document
  value : ByteString → Document

pub record SchemaRecord : Type 0 where
  pub ledger_id : ByteString
  pub version : ByteString
  pub document : Document
  pub event_id : ByteString

pub record MetadataHistoryRecord : Type 0 where
  pub ledger_id : ByteString
  pub target_type : ℕ
  pub target_id : ByteString
  pub revision : ℕ
  pub metadata : Metadata
  pub event_id : ByteString
  pub system_time : Time

pub record HoldRecord : Type 0 where
  pub ledger_id : ByteString
  pub hold_id : ByteString
  pub source : ByteString
  pub destination_hint : ByteString
  pub asset : ByteString
  pub authorized_amount : ℤ
  pub captured_amount : ℤ
  pub voided : Bool
  pub expired : Bool
  pub expires_at : Time
  pub authorized_event_id : ByteString
  pub valid_time : Time
  pub system_time : Time

pub record RelationshipRecord : Type 0 where
  pub ledger_id : ByteString
  pub parent_tx_id : ByteString
  pub child_tx_id : ByteString
  pub relationship_type : ℕ
  pub event_id : ByteString
  pub system_time : Time

pub record PolicyRecord : Type 0 where
  pub ledger_id : ByteString
  pub version : ByteString
  pub cedar_policy : ByteString
  pub event_id : ByteString
  pub active : Bool

pub record ApprovalEntry : Type 0 where
  pub principal : ByteString
  pub signature : ByteString
  pub signed_at : Time

pub record PendingApprovalRecord : Type 0 where
  pub ledger_id : ByteString
  pub intent_id : ByteString
  pub intent_payload : ByteString
  pub intent_hash : ByteString
  pub required_approvers : List ByteString
  pub received_approvals : List ApprovalEntry
  pub expires_at : Time
  pub state : ByteString
  pub submitted_at : Time
  pub submitted_by : ByteString
  pub executing_at : Option Time
