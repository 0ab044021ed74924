-- ===== src/Api/Wire.antt =====
-- The messages of an intent (proto/ledger/v1/ir.proto and its generated Go types), the answer to
-- one, and the classification of an intent (internal/api/grpc/service.go, converters.go). A pointer
-- that may be nil is optional, a map is the list of its entries, an enum is its 32-bit pattern.
use fincore_ledger.Prelude.{
  ℕ, ByteString, codes, Bool, Option, none, some, List, [], ◌∷◌, ◌==◌, if◌then◌else◌,
}
use fincore_ledger.Prelude.Int.{ℤ}
use fincore_ledger.Storage.Records.{Time, TransactionRecord}

pub data MetadataValue : Type 0 where
  string_value : ByteString → MetadataValue
  int_value : ℤ → MetadataValue
  bool_value : Bool → MetadataValue
  decimal_value : ByteString → MetadataValue
  timestamp_value : Time → MetadataValue
  unset_value : MetadataValue

abbrev pub MetadataMap : Type 0
MetadataMap = List (ByteString × Option MetadataValue)

pub record Posting : Type 0 where
  pub source : ByteString
  pub destination : ByteString
  pub amount : ByteString
  pub asset : ByteString

pub record AuthorizeOperation : Type 0 where
  pub source : ByteString
  pub destination_hint : ByteString
  pub amount : ByteString
  pub asset : ByteString
  pub expires_at : Option Time

pub record CaptureOperation : Type 0 where
  pub hold_id : ByteString
  pub amount : ByteString
  pub destination : ByteString

pub record ConvertOperation : Type 0 where
  pub source : ByteString
  pub destination : ByteString
  pub source_amount : ByteString
  pub source_asset : ByteString
  pub destination_amount : ByteString
  pub destination_asset : ByteString
  pub rate : ByteString
  pub rate_source : ByteString
  pub slippage_account : ByteString
  pub slippage_amount : ByteString

pub record RevertOperation : Type 0 where
  pub original_transaction_id : ByteString
  pub force : Bool
  pub at_effective_date : Bool
  pub reason : ByteString

pub record AmendOperation : Type 0 where
  pub original_transaction_id : ByteString
  pub metadata_changes : MetadataMap

pub record SetMetadataOperation : Type 0 where
  pub target_type : ℕ
  pub target_id : ByteString
  pub metadata : MetadataMap

pub record DeleteMetadataOperation : Type 0 where
  pub target_type : ℕ
  pub target_id : ByteString
  pub key : ByteString

pub record InsertSchemaOperation : Type 0 where
  pub schema_bytes : ByteString
  pub version : ByteString

-- The fields of an intent beside its operation.
pub record Header : Type 0 where
  pub ledger_id : ByteString
  pub valid_time : Option Time
  pub idempotency_key : ByteString
  pub reference : ByteString
  pub metadata : MetadataMap
  pub dry_run : Bool

mutual
  pub data Operation : Type 0 where
    post : List Posting → Operation
    authorize : AuthorizeOperation → Operation
    capture : CaptureOperation → Operation
    void : ByteString → Operation
    convert : ConvertOperation → Operation
    batch : ℕ → Intents → Operation
    revert : RevertOperation → Operation
    amend : AmendOperation → Operation
    set_metadata : SetMetadataOperation → Operation
    delete_metadata : DeleteMetadataOperation → Operation
    insert_schema : InsertSchemaOperation → Operation
    unset : Operation

  pub data Intents : Type 0 where
    no_intents : Intents
    nested : Header → Operation → Intents → Intents

pub record Intent : Type 0 where
  pub header : Header
  pub operation : Operation

-- A Go value of type `any` in the metadata that a message carries.
pub data Any : Type 0 where
  nil : Any
  string : ByteString → Any
  int : ℤ → Any
  bool : Bool → Any
  time : Time → Any

-- `metadataValueToAny`
unfoldable pub metadata_value_to_any : Option MetadataValue → Any
metadata_value_to_any none = nil
metadata_value_to_any (some (string_value s)) = string s
metadata_value_to_any (some (int_value n)) = int n
metadata_value_to_any (some (bool_value b)) = bool b
metadata_value_to_any (some (decimal_value s)) = string s
metadata_value_to_any (some (timestamp_value t)) = time t
metadata_value_to_any (some unset_value) = nil

unfoldable pub accounts_of_postings : List Posting → List ByteString
accounts_of_postings [] = []
accounts_of_postings (p ∷ ps) = p.source ∷ p.destination ∷ accounts_of_postings ps

-- The target type ACCOUNT is 0.
unfoldable pub account_target : ℕ → ByteString → List ByteString
account_target kind target = if kind == 0 then target ∷ [] else []

-- `classifyIntent`: the name of the operation and the accounts that a policy is asked about.
unfoldable pub classify_intent : Operation → ByteString × List ByteString
classify_intent (post ps) = (codes "post", accounts_of_postings ps)
classify_intent (authorize o) = (codes "authorize", o.source ∷ [])
classify_intent (capture o) = (codes "capture", [])
classify_intent (void h) = (codes "void", [])
classify_intent (convert o) = (codes "convert", o.source ∷ o.destination ∷ [])
classify_intent (batch m is) = (codes "batch", [])
classify_intent (revert o) = (codes "revert", [])
classify_intent (amend o) = (codes "amend", [])
classify_intent (set_metadata o) = (codes "set_metadata", account_target o.target_type o.target_id)
classify_intent (delete_metadata o) =
    (codes "delete_metadata", account_target o.target_type o.target_id)
classify_intent (insert_schema o) = (codes "insert_schema", [])
classify_intent unset = (codes "unknown", [])

pub record Hold : Type 0 where
  pub hold_id : ByteString
  pub source : ByteString
  pub destination_hint : ByteString
  pub asset : ByteString
  pub authorized_amount : ByteString
  pub captured_amount : ByteString
  pub expires_at : Time

pub record BatchItem : Type 0 where
  pub event_id : ByteString
  pub failed : Bool

pub data Output : Type 0 where
  nothing : Output
  transaction : TransactionRecord → Output
  hold : Hold → Output
  capture : CaptureOperation → Output
  revert : ByteString → ByteString → Output
  amend : ByteString → Output
  conversion : ByteString → ConvertOperation → Output
  batch_result : List BatchItem → ℕ → ℕ → Output

pub record SubmitResponse : Type 0 where
  pub event_id : ByteString
  pub idempotent_hit : Bool
  pub output : Output
