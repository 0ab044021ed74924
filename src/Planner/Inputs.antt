-- ===== src/Planner/Inputs.antt =====
-- What the planner is given (internal/planner/planner.go, operations_convert.go,
-- operations_batch.go), and the functions outside the repository that it calls.
use fincore_ledger.Prelude.{ℕ, ByteString, Bool, Option, List}
use fincore_ledger.Prelude.Int.{ℤ}
use fincore_ledger.Chart.{Json}
use fincore_ledger.Storage.Records.{Metadata, Time, TransactionRecord}

-- The Go standard library and encoders: SHA-256, `time.Format`, `big.ParseFloat` as a test,
-- `json.Marshal` of metadata, the base64 that JSON writes a []byte in, `regexp.Compile`, the reader of JSON texts; and whether
-- the planner has a subscription manager.
pub record Host : Type 0 where
  pub sha256 : ByteString → ByteString
  pub format_time : Time → ByteString
  pub is_float : ByteString → Bool
  pub marshal_metadata : Metadata → ByteString
  pub base64 : ByteString → ByteString
  pub compile : ByteString → Option (ByteString → Bool)
  pub parse_json : ByteString → Option Json
  pub has_subscribers : Bool

-- A `*big.Int` that may be nil.
pub record PostingInput : Type 0 where
  pub source : ByteString
  pub destination : ByteString
  pub amount : Option ℤ
  pub asset : ByteString

pub record SubmitResult : Type 0 where
  pub event_id : ByteString
  pub idempotent_hit : Bool
  pub transaction : Option TransactionRecord
  pub hold_id : ByteString
  pub conversion_id : ByteString

pub record ConvertParams : Type 0 where
  pub source : ByteString
  pub destination : ByteString
  pub source_amount : Option ℤ
  pub source_asset : ByteString
  pub dest_amount : Option ℤ
  pub dest_asset : ByteString
  pub rate : ByteString
  pub rate_source : ByteString
  pub slippage_account : ByteString
  pub slippage_amount : Option ℤ
  pub valid_time : Option Time

pub record BatchIntent : Type 0 where
  pub intent_type : ByteString
  pub postings : List PostingInput
  pub reference : ByteString
  pub metadata : Metadata
  pub idempotency_key : ByteString
  pub source : ByteString
  pub destination_hint : ByteString
  pub asset : ByteString
  pub amount : Option ℤ
  pub expires_at : Time
  pub hold_id : ByteString
  pub destination : ByteString
  pub original_tx_id : ByteString
  pub force : Bool
  pub at_effective_date : Bool
  pub reason : ByteString
  pub convert_params : Option ConvertParams
  pub target_type : ℕ
  pub target_id : ByteString
  pub metadata_key : ByteString

pub record BatchIntentResult : Type 0 where
  pub event_id : ByteString
  pub success : Bool

pub record BatchResult : Type 0 where
  pub results : List BatchIntentResult
  pub successes : ℕ
  pub failures : ℕ
  pub failed : Bool
  pub failed_at : ℕ
