-- ===== src/Api/Transfer.antt =====
-- Export and import of the event log (internal/api/grpc/service.go). A stream is a list; its end is
-- the end of the list, and a stream that breaks off is not modelled.
use fincore_ledger.Prelude.{
  ℕ, zero, suc, ◌+◌, ByteString, codes, Bool, true, false, Option, none, some, List, [], ◌∷◌, ◌++◌,
  ◌&&◌, not, ◌==◌, ltb, leb, str_eq, is_empty, if◌then◌else◌,
}
use fincore_ledger.Policy.{Request}
use fincore_ledger.Storage.Records.{Error, Time, LogEventRecord, Payload, idempotency_key_conflict}
use fincore_ledger.Storage.World.{now}
use fincore_ledger.Storage.Governance.{get_ledger, exec_alone, sealed}
use fincore_ledger.Storage.Log.{add_event}
use fincore_ledger.Storage.Pages.{list_log_events}
use fincore_ledger.Storage.EventType
use fincore_ledger.Batches.{current_batch_id}
use fincore_ledger.Planner.Policies
use fincore_ledger.Api.Status.{
  Rpc, Code, respond, refuse_if, present, lift, map_planner_error, missing_or_internal,
  always_internal, ◌>>=◌, ◌>>◌,
}
use fincore_ledger.Api.Auth.{Context}
use fincore_ledger.Api.Service.{Server, extract_principal, require_import_export_authz}

-- An event on the wire. Its type is taken not to be negative.
pub record LogEvent : Type 0 where
  pub event_id : ByteString
  pub ledger_id : ByteString
  pub ledger_seq : ℕ
  pub system_time : Option Time
  pub valid_time : Option Time
  pub event_type : ℕ
  pub payload : ByteString
  pub idempotency_key : ByteString
  pub batch_id : ByteString
  pub schema_version : ℕ

abbrev pub max_import_events_per_call : ℕ
max_import_events_per_call = 100000

-- Five minutes, in nanoseconds.
abbrev pub max_import_clock_skew : ℕ
max_import_clock_skew = 300000000000

abbrev pub request : ByteString → ByteString → Request
request principal operation = record { principal = principal; operation = operation; accounts = [] }

abbrev pub is_absent : Option Time → Bool
is_absent none = true
is_absent (some t) = false

-- What an import keeps for a ledger: the sequence number expected next, and its batch.
pub record Expected : Type 0 where
  pub ledger_id : ByteString
  pub next_seq : ℕ
  pub batch_id : ByteString

unfoldable pub lookup_expected : ByteString → List Expected → Option Expected
lookup_expected ledger_id [] = none
lookup_expected ledger_id (x ∷ xs) =
    let rest = lookup_expected ledger_id xs in if str_eq x.ledger_id ledger_id then some x else rest

-- The row of an imported event: no hash, and the batch that the server chose.
unfoldable pub imported_row : LogEvent → Time → Time → ByteString → LogEventRecord
imported_row e system valid batch_id = record {
  event_id = e.event_id;
  ledger_id = e.ledger_id;
  ledger_seq = e.ledger_seq;
  system_time = system;
  valid_time = valid;
  event_type = e.event_type;
  payload = Payload.raw e.payload;
  idempotency_key = e.idempotency_key;
  idempotency_hash = none;
  batch_id = batch_id;
  schema_version = e.schema_version;
}

unfoldable pub import_error : Error → Code
import_error idempotency_key_conflict = Code.exists
import_error e = Code.internal

-- The checks on one event against what is expected, and its insertion.
unfoldable pub import_event : LogEvent → Expected → Rpc Expected
import_event e x = do
  system ← present Code.invalid_argument e.system_time
  valid ← present Code.invalid_argument e.valid_time
  t ← lift always_internal now
  refuse_if (ltb (t + max_import_clock_skew) system) Code.invalid_argument
  refuse_if (not (x.next_seq == e.ledger_seq)) Code.invalid_argument
  lift import_error (exec_alone (add_event (imported_row e system valid x.batch_id)))
  respond (record x { next_seq = x.next_seq + 1 })

module _ (s : Server) where
  -- The loop of `Export` over the pages, on fuel; the events already sent come first.
  unfoldable pub export_pages :
      ℕ → ByteString → ByteString → List LogEventRecord → Rpc (List LogEventRecord)
  export_pages zero ledger_id token sent = respond sent
  export_pages (suc fuel) ledger_id token sent = do
    page ← lift always_internal (list_log_events ledger_id 1000 token)
    let all = sent ++ page.items
    let rest = export_pages fuel ledger_id page.next_token all
    if is_empty page.next_token then respond all else rest

  -- `Export`: the events that are sent, where the stream takes them all.
  unfoldable pub export_log : ℕ → Context → ByteString → Rpc (List LogEventRecord)
  export_log fuel ctx ledger_id = do
    principal ← extract_principal ctx
    require_import_export_authz s principal
    lift map_planner_error (Policies.evaluate_policy ledger_id (request principal (codes "export")))
    export_pages fuel ledger_id [] []

  -- `validateImportEvent`, as whether there is no error.
  unfoldable pub is_valid_import : LogEvent → Bool
  is_valid_import e =
      not (is_empty e.ledger_id)
      && not (is_empty e.event_id)
      && not (is_empty e.payload)
      && s.json_valid e.payload
      && leb 1 e.event_type
      && leb e.event_type EventType.approval_recorded
      && not (is_absent e.system_time)
      && not (is_absent e.valid_time)

  -- The checks on the first event of a ledger.
  unfoldable pub start_ledger : ByteString → ByteString → Rpc Expected
  start_ledger principal ledger_id = do
    lift map_planner_error (Policies.evaluate_policy ledger_id (request principal (codes "import")))
    ledger ← lift missing_or_internal (get_ledger ledger_id)
    refuse_if (str_eq ledger.state sealed) Code.failed_precondition
    existing ← lift always_internal (list_log_events ledger_id 1 [])
    refuse_if (not (is_empty existing.items)) Code.failed_precondition
    batch_id ← lift always_internal (current_batch_id ledger_id)
    respond (record { ledger_id = ledger_id; next_seq = 1; batch_id = batch_id })

  unfoldable pub expected_or_start : ByteString → ByteString → Option Expected → Rpc Expected
  expected_or_start principal ledger_id none = start_ledger principal ledger_id
  expected_or_start principal ledger_id (some x) = respond x

  -- The loop over the stream; the newest state of a ledger stands first.
  unfoldable pub import_all : ByteString → List Expected → ℕ → List LogEvent → Rpc ℕ
  import_all principal xs count [] = respond count
  import_all principal xs count (e ∷ es) = do
    refuse_if (leb max_import_events_per_call count) Code.resource_exhausted
    refuse_if (not (is_valid_import e)) Code.invalid_argument
    x ← expected_or_start principal e.ledger_id (lookup_expected e.ledger_id xs)
    y ← import_event e x
    import_all principal (y ∷ xs) (count + 1) es

  -- `Import`: the number of imported events.
  unfoldable pub import_log : Context → List LogEvent → Rpc ℕ
  import_log ctx events = do
    principal ← extract_principal ctx
    require_import_export_authz s principal
    import_all principal [] 0 events
