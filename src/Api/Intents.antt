-- ===== src/Api/Intents.antt =====
-- The handlers of the operations of an intent (internal/api/grpc/service.go).
use fincore_ledger.Prelude.{
  ℕ, ◌%◌, ◌^◌, ByteString, codes, false, Option, none, some, List, [], ◌∷◌, is_empty, if◌then◌else◌,
}
use fincore_ledger.Prelude.Int.{ℤ}
use fincore_ledger.Bigamount.{from_string}
use fincore_ledger.Storage.Records.{Metadata, TransactionRecord}
use fincore_ledger.Planner.Inputs.{Host, PostingInput, ConvertParams, SubmitResult}
use fincore_ledger.Planner.Operations
use fincore_ledger.Api.Status.{Rpc, Code, respond, present, lift, map_planner_error, ◌>>=◌}
use fincore_ledger.Api.Wire.{
  Any, metadata_value_to_any, MetadataMap, Posting, AuthorizeOperation, CaptureOperation,
  ConvertOperation, RevertOperation, AmendOperation, SetMetadataOperation, DeleteMetadataOperation,
  InsertSchemaOperation, Header, Output, SubmitResponse,
}

-- `new(big.Int).SetString(s, 10)`
unfoldable pub set_string : ByteString → Rpc ℤ
set_string s = present Code.invalid_argument (from_string s)

unfoldable pub posting_inputs : List Posting → Rpc (List PostingInput)
posting_inputs [] = respond []
posting_inputs (p ∷ ps) = do
  amount ← set_string p.amount
  rest ← posting_inputs ps
  respond (
      record {
        source = p.source;
        destination = p.destination;
        amount = some amount;
        asset = p.asset;
      }
      ∷ rest)

-- An enum as an int16.
abbrev pub int16 : ℕ → ℕ
int16 n = n % 2 ^ 16

abbrev pub response : SubmitResult → Output → SubmitResponse
response r o = record { event_id = r.event_id; idempotent_hit = r.idempotent_hit; output = o }

unfoldable pub transaction_output : Option TransactionRecord → Output
transaction_output none = Output.nothing
transaction_output (some t) = Output.transaction t

unfoldable pub reverting_id : Option TransactionRecord → ByteString
reverting_id none = []
reverting_id (some t) = t.transaction_id

-- An empty slippage amount stays nil.
unfoldable pub slippage : ByteString → Rpc (Option ℤ)
slippage s =
    let given = set_string s >>= λ x. respond (some x) in if is_empty s then respond none else given

unfoldable pub convert_params : ConvertOperation → Rpc ConvertParams
convert_params o = do
  source_amount ← set_string o.source_amount
  destination_amount ← set_string o.destination_amount
  slippage_amount ← slippage o.slippage_amount
  respond (record {
    source = o.source;
    destination = o.destination;
    source_amount = some source_amount;
    source_asset = o.source_asset;
    dest_amount = some destination_amount;
    dest_asset = o.destination_asset;
    rate = o.rate;
    rate_source = o.rate_source;
    slippage_account = o.slippage_account;
    slippage_amount = slippage_amount;
    valid_time = none;
  })

-- `represent` is the text that stands for a value of type `any` in the planner's metadata.
module _ (host : Host) (represent : Any → ByteString) where
  unfoldable pub metadata_of : MetadataMap → Metadata
  metadata_of [] = []
  metadata_of ((k, v) ∷ rest) = (k, represent (metadata_value_to_any v)) ∷ metadata_of rest

  unfoldable pub handle_post : Header → List Posting → Rpc SubmitResponse
  handle_post h ps = do
    postings ← posting_inputs ps
    r ← lift map_planner_error (
        Operations.submit_post host h.ledger_id postings h.reference (metadata_of h.metadata)
          h.idempotency_key h.valid_time h.dry_run)
    respond (response r (transaction_output r.transaction))

  unfoldable pub handle_set_metadata : Header → SetMetadataOperation → Rpc SubmitResponse
  handle_set_metadata h o = do
    r ← lift map_planner_error (
        Operations.submit_set_metadata host h.ledger_id (int16 o.target_type) o.target_id
          (metadata_of o.metadata) h.idempotency_key)
    respond (response r Output.nothing)

  unfoldable pub handle_delete_metadata : Header → DeleteMetadataOperation → Rpc SubmitResponse
  handle_delete_metadata h o = do
    r ← lift map_planner_error (
        Operations.submit_delete_metadata host h.ledger_id (int16 o.target_type) o.target_id o.key
          h.idempotency_key)
    respond (response r Output.nothing)

  unfoldable pub handle_insert_schema : Header → InsertSchemaOperation → Rpc SubmitResponse
  handle_insert_schema h o = do
    r ← lift map_planner_error (
        Operations.submit_insert_schema host h.ledger_id o.schema_bytes o.version h.idempotency_key)
    respond (response r Output.nothing)

  unfoldable pub handle_authorize : Header → AuthorizeOperation → Rpc SubmitResponse
  handle_authorize h o = do
    amount ← set_string o.amount
    expires_at ← present Code.invalid_argument o.expires_at
    r ← lift map_planner_error (
        Operations.submit_authorize host h.ledger_id o.source o.destination_hint o.asset
          (some amount) expires_at h.idempotency_key)
    respond (
        response r (
          Output.hold (record {
            hold_id = r.hold_id;
            source = o.source;
            destination_hint = o.destination_hint;
            asset = o.asset;
            authorized_amount = o.amount;
            captured_amount = codes "0";
            expires_at = expires_at;
          })))

  unfoldable pub handle_capture : Header → CaptureOperation → Rpc SubmitResponse
  handle_capture h o = do
    amount ← set_string o.amount
    r ← lift map_planner_error (
        Operations.submit_capture host h.ledger_id o.hold_id (some amount) o.destination
          h.idempotency_key)
    respond (response r (Output.capture o))

  unfoldable pub handle_void : Header → ByteString → Rpc SubmitResponse
  handle_void h hold_id = do
    r ← lift map_planner_error (Operations.submit_void host h.ledger_id hold_id h.idempotency_key)
    respond (response r Output.nothing)

  unfoldable pub handle_revert : Header → RevertOperation → Rpc SubmitResponse
  handle_revert h o = do
    r ← lift map_planner_error (
        Operations.submit_revert host h.ledger_id o.original_transaction_id o.force
          o.at_effective_date o.reason h.idempotency_key)
    respond (response r (Output.revert o.original_transaction_id (reverting_id r.transaction)))

  unfoldable pub handle_amend : Header → AmendOperation → Rpc SubmitResponse
  handle_amend h o = do
    r ← lift map_planner_error (
        Operations.submit_amend host h.ledger_id o.original_transaction_id
          (metadata_of o.metadata_changes) h.idempotency_key)
    respond (response r (Output.amend o.original_transaction_id))

  -- The answer to a conversion leaves out whether it was a replay.
  unfoldable pub handle_convert : Header → ConvertOperation → Rpc SubmitResponse
  handle_convert h o = do
    c ← convert_params o
    r ← lift map_planner_error (Operations.submit_convert host h.ledger_id c h.idempotency_key)
    respond (record {
      event_id = r.event_id;
      idempotent_hit = false;
      output = Output.conversion r.conversion_id o;
    })
