-- ===== src/Planner/Batch.antt =====
-- Batches of intents (internal/planner/operations_batch.go).
use fincore_ledger.Prelude.{
  ◌+◌, ByteString, codes, true, false, Option, none, some, List, [], ◌∷◌, ◌++◌, str_eq, length,
  if◌then◌else◌,
}
use fincore_ledger.Storage.Records.{invalid}
use fincore_ledger.Storage.World.{
  Act, Result, ok, err, done, fail, attempt, now, begin_tx, commit, with_rollback, ◌>>=◌, ◌>>◌,
}
use fincore_ledger.Storage.Governance.{get_ledger_in_tx}
use fincore_ledger.Planner.Inputs.{
  Host, BatchIntent, BatchIntentResult, BatchResult, ConvertParams, SubmitResult,
}
use fincore_ledger.Planner.Events.{no_key, check_ledger_not_sealed}
use fincore_ledger.Planner.Post.{do_post_in_tx}
use fincore_ledger.Planner.Convert.{do_convert_in_tx}
use fincore_ledger.Planner.Holds.{do_authorize_in_tx, do_capture_in_tx, do_void_in_tx, at_once}
use fincore_ledger.Planner.Revert.{do_revert_in_tx, do_amend_in_tx}
use fincore_ledger.Planner.Metadata.{do_set_metadata_in_tx, do_delete_metadata_in_tx}
use fincore_ledger.Planner.Operations.{
  or_now, submit_post, submit_convert, submit_authorize, submit_capture, submit_void, submit_revert,
  submit_amend, submit_set_metadata, submit_delete_metadata,
}

-- The names of the operations, as the switches test them.
pub data Kind : Type 0 where
  post authorize capture void revert amend convert set_metadata delete_metadata unknown : Kind

unfoldable pub kind_of : ByteString → Kind
kind_of s =
    if str_eq s (codes "post")
    then post
    else if str_eq s (codes "authorize")
    then authorize
    else if str_eq s (codes "capture")
    then capture
    else if str_eq s (codes "void")
    then void
    else if str_eq s (codes "revert")
    then revert
    else if str_eq s (codes "amend")
    then amend
    else if str_eq s (codes "convert")
    then convert
    else if str_eq s (codes "set_metadata")
    then set_metadata
    else if str_eq s (codes "delete_metadata")
    then delete_metadata
    else unknown

module _ (host : Host) (ledger_id : ByteString) where
  unfoldable pub convert_intent : BatchIntent → Option ConvertParams → Act SubmitResult
  convert_intent i none = fail invalid
  convert_intent i (some c) = submit_convert host ledger_id c i.idempotency_key

  unfoldable pub execute_kind : Kind → BatchIntent → Act SubmitResult
  execute_kind post i =
      submit_post host ledger_id i.postings i.reference i.metadata i.idempotency_key none false
  execute_kind authorize i =
      submit_authorize host ledger_id i.source i.destination_hint i.asset i.amount i.expires_at
        i.idempotency_key
  execute_kind capture i =
      submit_capture host ledger_id i.hold_id i.amount i.destination i.idempotency_key
  execute_kind void i = submit_void host ledger_id i.hold_id i.idempotency_key
  execute_kind revert i =
      submit_revert host ledger_id i.original_tx_id i.force i.at_effective_date i.reason
        i.idempotency_key
  execute_kind amend i = submit_amend host ledger_id i.original_tx_id i.metadata i.idempotency_key
  execute_kind convert i = convert_intent i i.convert_params
  execute_kind set_metadata i =
      submit_set_metadata host ledger_id i.target_type i.target_id i.metadata i.idempotency_key
  execute_kind delete_metadata i =
      submit_delete_metadata host ledger_id i.target_type i.target_id i.metadata_key
        i.idempotency_key
  execute_kind unknown i = fail invalid

  -- `executeIntent`: the standalone operation.
  unfoldable pub execute_intent : BatchIntent → Act SubmitResult
  execute_intent i = execute_kind (kind_of i.intent_type) i

  unfoldable pub execute_post_in_tx : BatchIntent → Act SubmitResult
  execute_post_in_tx i = do
    ledger ← get_ledger_in_tx ledger_id
    t ← now
    do_post_in_tx host ledger i.postings i.reference i.metadata
        (record { key = i.idempotency_key; hash = none }) (at_once t) false

  unfoldable pub execute_authorize_in_tx : BatchIntent → Act SubmitResult
  execute_authorize_in_tx i = do
    ledger ← get_ledger_in_tx ledger_id
    t ← now
    do_authorize_in_tx ledger i.source i.destination_hint i.asset i.amount i.expires_at no_key t

  unfoldable pub execute_convert_in_tx : Option ConvertParams → Act SubmitResult
  execute_convert_in_tx none = fail invalid
  execute_convert_in_tx (some c) = do
    ledger ← get_ledger_in_tx ledger_id
    t ← now
    do_convert_in_tx host ledger c no_key (record { valid = or_now c.valid_time t; now = t })

  unfoldable pub execute_kind_in_tx : Kind → BatchIntent → Act SubmitResult
  execute_kind_in_tx post i = execute_post_in_tx i
  execute_kind_in_tx authorize i = execute_authorize_in_tx i
  execute_kind_in_tx capture i =
      now >>= λ t. do_capture_in_tx ledger_id i.hold_id i.amount i.destination no_key t
  execute_kind_in_tx void i = now >>= λ t. do_void_in_tx ledger_id i.hold_id no_key t
  execute_kind_in_tx revert i = now >>= λ t.
      do_revert_in_tx ledger_id i.original_tx_id i.force i.at_effective_date i.reason no_key t
  execute_kind_in_tx amend i =
      now >>= λ t. do_amend_in_tx ledger_id i.original_tx_id i.metadata no_key t
  execute_kind_in_tx convert i = execute_convert_in_tx i.convert_params
  execute_kind_in_tx set_metadata i =
      now >>= λ t. do_set_metadata_in_tx ledger_id i.target_type i.target_id i.metadata no_key t
  execute_kind_in_tx delete_metadata i = now >>= λ t.
      do_delete_metadata_in_tx ledger_id i.target_type i.target_id i.metadata_key no_key t
  execute_kind_in_tx unknown i = fail invalid

  -- `executeIntentInTx`: the core, in the transaction of the batch.
  unfoldable pub execute_intent_in_tx : BatchIntent → Act SubmitResult
  execute_intent_in_tx i = execute_kind_in_tx (kind_of i.intent_type) i

  abbrev pub succeeded : SubmitResult → BatchIntentResult
  succeeded r = record { event_id = r.event_id; success = true }

  -- The loop of ALL_OR_NOTHING, up to the first failure; the results so far come last first.
  unfoldable pub run_all : List BatchIntent → List BatchIntentResult → Act (List BatchIntentResult)
  run_all [] results = done results
  run_all (i ∷ is) results =
      execute_intent_in_tx i >>= λ r. run_all is (results ++ (succeeded r ∷ []))

  -- `ALL_OR_NOTHING`. On a failure the error is what the caller gets; the batch result that Go
  -- returns beside it names the place of the failure.
  unfoldable pub submit_all : List BatchIntent → Act BatchResult
  submit_all intents = do
    before ← begin_tx
    results ← with_rollback before (run_all intents [])
    commit before
    done (record {
      results = results;
      successes = length intents;
      failures = 0;
      failed = false;
      failed_at = 0;
    })

  abbrev pub tally : Result SubmitResult → BatchResult → BatchResult
  tally (ok r) b = record b {
    results = b.results ++ (succeeded r ∷ []);
    successes = b.successes + 1;
  }
  tally (err e) b = record b {
    results = b.results ++ (record { event_id = []; success = false } ∷ []);
    failures = b.failures + 1;
  }

  -- The loop of BEST_EFFORT.
  unfoldable pub run_each : List BatchIntent → BatchResult → Act BatchResult
  run_each [] b = done b
  run_each (i ∷ is) b = attempt (execute_intent i) >>= λ r. run_each is (tally r b)

  abbrev pub empty_batch_result : BatchResult
  empty_batch_result = record {
    results = [];
    successes = 0;
    failures = 0;
    failed = false;
    failed_at = 0;
  }

  -- `SubmitBatch`
  unfoldable pub submit_batch : List BatchIntent → ByteString → Act BatchResult
  submit_batch intents mode =
      let chosen =
        if str_eq mode (codes "ALL_OR_NOTHING")
        then submit_all intents
        else if str_eq mode (codes "BEST_EFFORT")
        then run_each intents empty_batch_result
        else fail invalid in
      check_ledger_not_sealed ledger_id >> chosen
