-- ===== src/Planner/Post.antt =====
-- The post operation (internal/planner/operations_shared.go `doPostInTx`, operations_post.go
-- `validatePostingsAgainstSchema`).
use fincore_ledger.Prelude.{
  ByteString, codes, Bool, true, Option, none, some, List, [], ◌∷◌, ◌&&◌, ◌||◌, not, str_eq,
  is_empty, map, if◌then◌else◌,
}
use fincore_ledger.Bigamount.{to_string, is_zero}
use fincore_ledger.Chart.{Children, parse_chart, validate_posting}
use fincore_ledger.Storage.Records.{
  invalid, LedgerRecord, Metadata, PostingRecord, TransactionRecord, Payload, Document, bytes, text,
  value,
}
use fincore_ledger.Storage.EventType
use fincore_ledger.Storage.World.{Act, ok, err, done, fail_if, mint, attempt, ◌>>=◌, ◌>>◌}
use fincore_ledger.Storage.Transactions.{get_schema, insert_transaction}
use fincore_ledger.Storage.Metadata.{insert_metadata_history}
use fincore_ledger.Planner.Inputs.{Host, PostingInput, SubmitResult}
use fincore_ledger.Planner.Validation.{validate_postings, deref}
use fincore_ledger.Planner.Events.{
  Times, Key, Amounts, add_amount, check_source_balances, append_event, move_funds, add_touched,
  upsert_accounts, record_key, plain_result,
}

-- `ledger.Features[key]`, which is the empty string where the key is missing.
unfoldable pub feature : ByteString → Metadata → ByteString
feature k [] = []
feature k ((j, v) ∷ m) = if str_eq j k then v else feature k m

abbrev pub strict : ByteString
strict = codes "strict"

abbrev pub best_effort : ByteString
best_effort = codes "best_effort"

-- An error in strict mode, a log line in best-effort mode.
unfoldable pub complain : Bool → Act (Unit {0})
complain is_strict = fail_if is_strict invalid

unfoldable pub all_allowed : Children → List PostingInput → Bool
all_allowed chart [] = true
all_allowed chart (p ∷ ps) = validate_posting chart p.source p.destination && all_allowed chart ps

unfoldable pub check_chart : Bool → Option Children → List PostingInput → Act (Unit {0})
unfolding complain all_allowed
check_chart is_strict none postings = complain is_strict
check_chart is_strict (some chart) postings =
    if all_allowed chart postings then done tt else complain is_strict

abbrev pub read_chart : Host → ByteString → Option Children
read_chart host doc = elim (host.parse_json doc) [
  | none ↦ none
  | some j ↦ parse_chart host.compile j
]

-- The assertion `schema.Document.([]byte)` and what follows it.
unfoldable pub check_document : Host → Bool → Document → List PostingInput → Act (Unit {0})
unfolding check_chart complain
check_document host is_strict (bytes doc) postings =
    check_chart is_strict (read_chart host doc) postings
check_document host is_strict (text s) postings = complain is_strict
check_document host is_strict (value v) postings = complain is_strict

-- `validatePostingsAgainstSchema`: without an active version or a stored schema all is allowed.
unfoldable pub validate_postings_against_schema :
    Host → ByteString → ByteString → List PostingInput → Bool → Act (Unit {0})
unfolding check_document
validate_postings_against_schema host ledger_id version postings is_strict =
    let look_up = do
      found ← attempt (get_schema ledger_id version)
      elim found [
        | err _ ↦ done tt
        | ok schema ↦ check_document host is_strict schema.document postings
      ]
    in if is_empty version then done tt else look_up

-- Schema enforcement, in the modes strict and best_effort.
unfoldable pub enforce_schema : Host → LedgerRecord → List PostingInput → Act (Unit {0})
unfolding feature validate_postings_against_schema
enforce_schema host ledger postings =
    let mode = feature (codes "schema_enforcement") ledger.features in
    if str_eq mode strict || str_eq mode best_effort
    then validate_postings_against_schema host ledger.id
        (feature (codes "active_schema_version") ledger.features) postings (str_eq mode strict)
    else done tt

-- The net outputs, and the net inputs, per (account, asset).
unfoldable pub net_outputs : List PostingInput → Amounts → Amounts
net_outputs [] m = m
net_outputs (p ∷ ps) m =
    net_outputs ps
      (if is_zero (deref p.amount) then m else add_amount p.source p.asset (deref p.amount) m)

unfoldable pub net_inputs : List PostingInput → Amounts → Amounts
net_inputs [] m = m
net_inputs (p ∷ ps) m =
    net_inputs ps
      (if is_zero (deref p.amount) then m else add_amount p.destination p.asset (deref p.amount) m)

abbrev pub posting_record : PostingInput → PostingRecord
posting_record p = record {
  source = p.source;
  destination = p.destination;
  amount = to_string (deref p.amount);
  asset = p.asset;
}

-- The loop over the postings that writes the volume deltas.
unfoldable pub insert_deltas : ByteString → ByteString → Times → List PostingInput → Act (Unit {0})
insert_deltas ledger_id event_id times [] = done tt
insert_deltas ledger_id event_id times (p ∷ ps) =
    (if is_zero (deref p.amount)
      then done tt
      else move_funds ledger_id p.source p.destination p.asset event_id times (deref p.amount))
    >> insert_deltas ledger_id event_id times ps

-- `touchedAccounts`, which the same loop gathers.
unfoldable pub touched : List PostingInput → List ByteString → List ByteString
touched [] acc = acc
touched (p ∷ ps) acc =
    touched ps (
      if is_zero (deref p.amount)
      then acc
      else add_touched p.destination (add_touched p.source acc))

unfoldable pub initial_history :
    ByteString → ByteString → ByteString → Times → Metadata → Act (Unit {0})
initial_history ledger_id tx_id event_id times metadata =
    if is_empty metadata
    then done tt
    else insert_metadata_history (record {
      ledger_id = ledger_id;
      target_type = 1;
      target_id = tx_id;
      revision = 0;
      metadata = metadata;
      event_id = event_id;
      system_time = times.now;
    })

-- The writes of a post, behind the checks.
unfoldable pub write_post :
    ByteString → List PostingInput → ByteString → Metadata → Key → Times → Act SubmitResult
write_post ledger_id postings reference metadata k times = do
  tx_id ← mint
  let records = map posting_record postings
  (event_id, seq) ←
      append_event ledger_id EventType.transaction_posted
        (Payload.posted tx_id records metadata reference) k times
  let tx : TransactionRecord = record {
    ledger_id = ledger_id;
    transaction_id = tx_id;
    event_id = event_id;
    valid_time = times.valid;
    system_time = times.now;
    reference = reference;
    postings = records;
    metadata = metadata;
  }
  insert_transaction tx
  initial_history ledger_id tx_id event_id times metadata
  insert_deltas ledger_id event_id times postings
  upsert_accounts ledger_id times.now (touched postings [])
  record_key ledger_id event_id k
  done (record (plain_result event_id) { transaction = some tx })

-- `doPostInTx`
unfoldable pub do_post_in_tx :
    Host
    → LedgerRecord
    → List PostingInput
    → ByteString
    → Metadata
    → Key
    → Times
    → Bool
    → Act SubmitResult
do_post_in_tx host ledger postings reference metadata k times dry_run = do
  fail_if (not (validate_postings postings)) invalid
  enforce_schema host ledger postings
  check_source_balances ledger (net_outputs postings []) (net_inputs postings [])
  if dry_run
      then done (plain_result (codes "dry-run"))
      else write_post ledger.id postings reference metadata k times
