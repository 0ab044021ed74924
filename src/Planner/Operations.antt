-- ===== src/Planner/Operations.antt =====
-- The standalone operations: the checks in front, the hash of the input, and the core in a
-- transaction (internal/planner/operations_post.go, operations_convert.go, operations_holds.go,
-- operations_revert.go, operations_metadata.go, operations_schema.go).
use fincore_ledger.Prelude.{
  ℕ, ByteString, codes, Bool, true, false, Option, none, some, List, [], ◌∷◌, not, is_empty,
  if◌then◌else◌,
}
use fincore_ledger.Prelude.Int.{ℤ, pos}
use fincore_ledger.Bigamount.{to_string}
use fincore_ledger.Storage.Records.{Metadata, Time, invalid}
use fincore_ledger.Storage.EventType
use fincore_ledger.Storage.World.{Act, now, fail_if, ◌>>=◌, ◌>>◌}
use fincore_ledger.Planner.Inputs.{Host, PostingInput, ConvertParams, SubmitResult}
use fincore_ledger.Planner.Validation.{
  validate_postings, validate_convert_params, is_positive_amount, deref,
}
use fincore_ledger.Planner.Events.{Key, check_ledger_not_sealed}
use fincore_ledger.Planner.Post.{do_post_in_tx}
use fincore_ledger.Planner.Convert.{do_convert_in_tx}
use fincore_ledger.Planner.Holds.{do_authorize_in_tx, do_capture_in_tx, do_void_in_tx}
use fincore_ledger.Planner.Revert.{do_revert_in_tx, do_amend_in_tx}
use fincore_ledger.Planner.Metadata.{
  do_set_metadata_in_tx, do_delete_metadata_in_tx, do_insert_schema_in_tx,
}
use fincore_ledger.Planner.Hashing.{generic_hash, post_hash}
use fincore_ledger.Planner.Submit.{submit_with_idempotency}

abbrev pub or_now : Option Time → Time → Time
or_now none t = t
or_now (some v) t = v

-- The key of a call: `ikHash` stays nil where the key is empty.
abbrev pub keyed : ByteString → ByteString → Key
keyed key hash = record { key = key; hash = if is_empty key then none else some hash }

-- `fmt.Sprintf("%t", b)`
abbrev pub show_bool : Bool → ByteString
show_bool true = codes "true"
show_bool false = codes "false"

-- `fmt.Sprint` of an int16
abbrev pub show_nat : ℕ → ByteString
show_nat n = to_string (pos n)

module _ (host : Host) (ledger_id : ByteString) where
  unfoldable pub submit_post :
      List PostingInput → ByteString → Metadata → ByteString → Option Time → Bool → Act SubmitResult
  submit_post postings reference metadata key valid_time dry_run = do
    fail_if (not (validate_postings postings)) invalid
    ledger ← check_ledger_not_sealed ledger_id
    t ← now
    let k = keyed key (post_hash host ledger_id postings reference metadata valid_time)
    submit_with_idempotency host ledger_id k EventType.transaction_posted dry_run (
        do_post_in_tx host ledger postings reference metadata k
          (record { valid = or_now valid_time t; now = t }) dry_run)

  unfoldable pub submit_convert : ConvertParams → ByteString → Act SubmitResult
  submit_convert c key = do
    fail_if (not (validate_convert_params host c)) invalid
    ledger ← check_ledger_not_sealed ledger_id
    let k = keyed key (
        generic_hash host (
          ledger_id
          ∷ codes "convert"
          ∷ c.source
          ∷ c.destination
          ∷ to_string (deref c.source_amount)
          ∷ c.source_asset
          ∷ to_string (deref c.dest_amount)
          ∷ c.dest_asset
          ∷ c.rate
          ∷ c.rate_source
          ∷ []))
    t ← now
    submit_with_idempotency host ledger_id k EventType.conversion_created false
        (do_convert_in_tx host ledger c k (record { valid = or_now c.valid_time t; now = t }))

  unfoldable pub submit_authorize :
      ByteString → ByteString → ByteString → Option ℤ → Time → ByteString → Act SubmitResult
  submit_authorize source dest_hint asset amount expires_at key = do
    fail_if (not (is_positive_amount amount)) invalid
    ledger ← check_ledger_not_sealed ledger_id
    let k = keyed key (
        generic_hash host (
          ledger_id
          ∷ codes "authorize"
          ∷ source
          ∷ dest_hint
          ∷ asset
          ∷ to_string (deref amount)
          ∷ host.format_time expires_at
          ∷ []))
    t ← now
    submit_with_idempotency host ledger_id k EventType.hold_created false
        (do_authorize_in_tx ledger source dest_hint asset amount expires_at k t)

  unfoldable pub submit_capture : ByteString → Option ℤ → ByteString → ByteString → Act SubmitResult
  submit_capture hold_id amount destination key = do
    fail_if (not (is_positive_amount amount)) invalid
    ledger ← check_ledger_not_sealed ledger_id
    let k = keyed key (
        generic_hash host
          (ledger_id ∷ codes "capture" ∷ hold_id ∷ to_string (deref amount) ∷ destination ∷ []))
    t ← now
    submit_with_idempotency host ledger_id k EventType.hold_confirmed false
        (do_capture_in_tx ledger_id hold_id amount destination k t)

  unfoldable pub submit_void : ByteString → ByteString → Act SubmitResult
  submit_void hold_id key = do
    ledger ← check_ledger_not_sealed ledger_id
    let k = keyed key (generic_hash host (ledger_id ∷ codes "void" ∷ hold_id ∷ []))
    t ← now
    submit_with_idempotency host ledger_id k EventType.hold_voided false
        (do_void_in_tx ledger_id hold_id k t)

  unfoldable pub submit_revert :
      ByteString → Bool → Bool → ByteString → ByteString → Act SubmitResult
  submit_revert original force at_effective_date reason key = do
    ledger ← check_ledger_not_sealed ledger_id
    let k = keyed key (
        generic_hash host (
          ledger_id
          ∷ codes "revert"
          ∷ original
          ∷ show_bool force
          ∷ show_bool at_effective_date
          ∷ reason
          ∷ []))
    t ← now
    submit_with_idempotency host ledger_id k EventType.transaction_reverted false
        (do_revert_in_tx ledger_id original force at_effective_date reason k t)

  unfoldable pub submit_amend : ByteString → Metadata → ByteString → Act SubmitResult
  submit_amend original changes key = do
    ledger ← check_ledger_not_sealed ledger_id
    let k = keyed key (
        generic_hash host
          (ledger_id ∷ codes "amend" ∷ original ∷ host.marshal_metadata changes ∷ []))
    t ← now
    submit_with_idempotency host ledger_id k EventType.transaction_amended false
        (do_amend_in_tx ledger_id original changes k t)

  unfoldable pub submit_set_metadata : ℕ → ByteString → Metadata → ByteString → Act SubmitResult
  submit_set_metadata target_type target_id metadata key = do
    ledger ← check_ledger_not_sealed ledger_id
    let k = keyed key (
        generic_hash host (
          ledger_id
          ∷ codes "set_metadata"
          ∷ show_nat target_type
          ∷ target_id
          ∷ host.marshal_metadata metadata
          ∷ []))
    t ← now
    submit_with_idempotency host ledger_id k EventType.metadata_set false
        (do_set_metadata_in_tx ledger_id target_type target_id metadata k t)

  unfoldable pub submit_delete_metadata :
      ℕ → ByteString → ByteString → ByteString → Act SubmitResult
  submit_delete_metadata target_type target_id name key = do
    ledger ← check_ledger_not_sealed ledger_id
    let k = keyed key (
        generic_hash host
          (ledger_id ∷ codes "delete_metadata" ∷ show_nat target_type ∷ target_id ∷ name ∷ []))
    t ← now
    submit_with_idempotency host ledger_id k EventType.metadata_deleted false
        (do_delete_metadata_in_tx ledger_id target_type target_id name k t)

  unfoldable pub submit_insert_schema : ByteString → ByteString → ByteString → Act SubmitResult
  submit_insert_schema document version key = do
    ledger ← check_ledger_not_sealed ledger_id
    let k = keyed key (generic_hash host (ledger_id ∷ codes "insert_schema" ∷ version ∷ []))
    t ← now
    submit_with_idempotency host ledger_id k EventType.schema_inserted false
        (do_insert_schema_in_tx host ledger_id document version k t)
