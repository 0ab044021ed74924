-- ===== src/Api/Nested.antt =====
-- The handler of a batch: its nested intents, translated one by one (internal/api/grpc/service.go,
-- handleBatch).
use fincore_ledger.Prelude.{
  ℕ, ByteString, codes, false, Option, none, some, List, [], ◌∷◌, not, map, ◌==◌, if◌then◌else◌,
}
use fincore_ledger.Storage.Records.{Time}
use fincore_ledger.Planner.Inputs.{Host, BatchIntent, BatchIntentResult}
use fincore_ledger.Planner.Batch
use fincore_ledger.Api.Status.{Rpc, Code, respond, refuse, lift, map_planner_error, ◌>>=◌}
use fincore_ledger.Api.Wire.{
  Any, Header, Operation, post, authorize, capture, void, convert, batch, revert, amend,
  set_metadata, delete_metadata, insert_schema, unset, Intents, no_intents, nested, BatchItem,
  Output, SubmitResponse,
}
use fincore_ledger.Api.Intents.{set_string, posting_inputs, convert_params, int16, metadata_of}

-- A nil `ExpiresAt` leaves the zero time.
unfoldable pub or_zero_time : Option Time → Time
or_zero_time none = 0
or_zero_time (some t) = t

-- A nested intent before its operation is read: only its key and its reference are kept.
unfoldable pub bare_intent : Header → ByteString → BatchIntent
bare_intent h kind = record {
  intent_type = kind;
  postings = [];
  reference = h.reference;
  metadata = [];
  idempotency_key = h.idempotency_key;
  source = [];
  destination_hint = [];
  asset = [];
  amount = none;
  expires_at = 0;
  hold_id = [];
  destination = [];
  original_tx_id = [];
  force = false;
  at_effective_date = false;
  reason = [];
  convert_params = none;
  target_type = 0;
  target_id = [];
  metadata_key = [];
}

abbrev pub batch_item : BatchIntentResult → BatchItem
batch_item r = record { event_id = r.event_id; failed = not r.success }

-- The modes are ALL_OR_NOTHING 0, BEST_EFFORT 1 and CHECKPOINTED 2.
unfoldable pub mode_name : ℕ → ByteString
mode_name m =
    if m == 1
    then codes "BEST_EFFORT"
    else if m == 2
    then codes "CHECKPOINTED"
    else codes "ALL_OR_NOTHING"

module _ (host : Host) (represent : Any → ByteString) where
  unfoldable pub batch_intent : Header → Operation → Rpc BatchIntent
  batch_intent h (post ps) = do
    postings ← posting_inputs ps
    respond (record (bare_intent h (codes "post")) { postings = postings })
  batch_intent h (authorize o) = do
    amount ← set_string o.amount
    respond (record (bare_intent h (codes "authorize")) {
      source = o.source;
      destination_hint = o.destination_hint;
      asset = o.asset;
      amount = some amount;
      expires_at = or_zero_time o.expires_at;
    })
  batch_intent h (capture o) = do
    amount ← set_string o.amount
    respond (record (bare_intent h (codes "capture")) {
      hold_id = o.hold_id;
      amount = some amount;
      destination = o.destination;
    })
  batch_intent h (void hold_id) =
      respond (record (bare_intent h (codes "void")) { hold_id = hold_id })
  batch_intent h (revert o) = respond (record (bare_intent h (codes "revert")) {
    original_tx_id = o.original_transaction_id;
    force = o.force;
    at_effective_date = o.at_effective_date;
    reason = o.reason;
  })
  batch_intent h (amend o) = respond (record (bare_intent h (codes "amend")) {
    original_tx_id = o.original_transaction_id;
    metadata = metadata_of host represent o.metadata_changes;
  })
  batch_intent h (convert o) = do
    c ← convert_params o
    respond (record (bare_intent h (codes "convert")) { convert_params = some c })
  batch_intent h (set_metadata o) = respond (record (bare_intent h (codes "set_metadata")) {
    target_type = int16 o.target_type;
    target_id = o.target_id;
    metadata = metadata_of host represent o.metadata;
  })
  batch_intent h (delete_metadata o) = respond (record (bare_intent h (codes "delete_metadata")) {
    target_type = int16 o.target_type;
    target_id = o.target_id;
    metadata_key = o.key;
  })
  batch_intent h (batch m is) = refuse Code.invalid_argument
  batch_intent h (insert_schema o) = refuse Code.invalid_argument
  batch_intent h unset = refuse Code.invalid_argument

  unfoldable pub batch_intents : Intents → Rpc (List BatchIntent)
  batch_intents no_intents = respond []
  batch_intents (nested h o is) = do
    i ← batch_intent h o
    rest ← batch_intents is
    respond (i ∷ rest)

  unfoldable pub handle_batch : Header → ℕ → Intents → Rpc SubmitResponse
  handle_batch h mode is = do
    intents ← batch_intents is
    r ← lift map_planner_error (Batch.submit_batch host h.ledger_id intents (mode_name mode))
    respond (record {
      event_id = [];
      idempotent_hit = false;
      output = Output.batch_result (map batch_item r.results) r.successes r.failures;
    })
