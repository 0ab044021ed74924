-- ===== src/Planner/Approval.antt =====
-- Approvals of intents (internal/planner/operations_approval.go).
use fincore_ledger.Prelude.{
  ℕ, zero, suc, ◌+◌, ◌*◌, ByteString, codes, Bool, true, false, Option, none, some, List, [], ◌∷◌,
  ◌++◌, ◌==◌, ◌&&◌, ◌||◌, not, str_eq, is_empty, ltb, if◌then◌else◌,
}
use fincore_ledger.Storage.Records.{
  Error, Time, PendingApprovalRecord, ApprovalEntry, Payload, invalid,
}
use fincore_ledger.Storage.EventType
use fincore_ledger.Storage.World.{
  Act, ok, err, done, fail, fail_if, attempt, mint, now, begin_tx, commit, with_rollback, ◌>>=◌,
  ◌>>◌,
}
use fincore_ledger.Storage.Log.{
  next_ledger_seq, append_log_event, list_log_events_by_idempotency_key,
}
use fincore_ledger.Storage.Governance.{
  insert_pending_approval, get_pending_approval, add_approval, update_approval_state,
  update_approval_state_in_tx, mark_approval_executing, update_approval_state_if,
  list_expired_approvals, list_stuck_approvals, pending, executing, executed, rejected, expired,
}
use fincore_ledger.Batches.{current_batch_id}
use fincore_ledger.Planner.Inputs.{Host, BatchIntent, SubmitResult}
use fincore_ledger.Planner.Events.{check_ledger_not_sealed, publish_event, plain_result}
use fincore_ledger.Planner.Submit.{wait}
use fincore_ledger.Planner.Batch.{execute_intent}

-- A day.
abbrev pub default_expiry : Time
default_expiry = 86400000000000

-- `SubmitForApproval`
unfoldable pub submit_for_approval :
    Host → ByteString → ByteString → List ByteString → ByteString → Time → Act ByteString
submit_for_approval host ledger_id payload required submitted_by expires_in = do
  ledger ← check_ledger_not_sealed ledger_id
  intent_id ← mint
  t ← now
  insert_pending_approval (record {
    ledger_id = ledger_id;
    intent_id = intent_id;
    intent_payload = payload;
    intent_hash = host.sha256 payload;
    required_approvers = required;
    received_approvals = [];
    expires_at = if expires_in == 0 then t + default_expiry else t + expires_in;
    state = pending;
    submitted_at = t;
    submitted_by = submitted_by;
    executing_at = none;
  })
  done intent_id

unfoldable pub is_member : ByteString → List ByteString → Bool
is_member p [] = false
is_member p (q ∷ qs) = str_eq q p || is_member p qs

unfoldable pub has_approved : ByteString → List ApprovalEntry → Bool
has_approved p [] = false
has_approved p (a ∷ as') = str_eq a.principal p || has_approved p as'

unfoldable pub all_approved : List ByteString → List ApprovalEntry → Bool
unfolding has_approved
all_approved [] received = true
all_approved (r ∷ rs) received = has_approved r received && all_approved rs received

-- The guards on the principal, in the order of the code.
unfoldable pub may_approve : ByteString → PendingApprovalRecord → Bool
unfolding is_member has_approved
may_approve principal a =
    not (str_eq principal a.submitted_by)
    && (is_member principal a.required_approvers
        && not (has_approved principal a.received_approvals))

-- How the transaction of an approval ends.
pub data Outcome : Type 0 where
  too_late partly : Outcome
  complete : PendingApprovalRecord → Outcome

unfoldable pub record_approval : ByteString → ByteString → ByteString → ByteString → Act Outcome
record_approval ledger_id intent_id principal signature = do
  add_approval ledger_id intent_id principal signature
  a ← get_pending_approval ledger_id intent_id
  if all_approved a.required_approvers a.received_approvals
      then mark_approval_executing ledger_id intent_id >> done (complete a)
      else done partly

-- The transaction, up to its commit.
unfoldable pub approve_in_tx : ByteString → ByteString → ByteString → ByteString → Act Outcome
unfolding may_approve record_approval
approve_in_tx ledger_id intent_id principal signature = do
  a ← get_pending_approval ledger_id intent_id
  fail_if (not (str_eq a.state pending)) invalid
  t ← now
  let late = update_approval_state_in_tx ledger_id intent_id expired >> done too_late
  let go = do
    fail_if (not (may_approve principal a)) invalid
    record_approval ledger_id intent_id principal signature
  if ltb a.expires_at t then late else go

-- `approvalExecutionKey`
unfoldable pub approval_execution_key : ByteString → ByteString
approval_execution_key intent_id = codes "approval:" ++ intent_id

abbrev pub max_audit_retries : ℕ
max_audit_retries = 3

-- Twenty milliseconds, and two seconds.
abbrev pub audit_backoff : Time
audit_backoff = 20000000

abbrev pub max_audit_backoff : Time
max_audit_backoff = 2000000000

abbrev pub next_audit_backoff : Time → Time
next_audit_backoff b = if ltb max_audit_backoff (b * 2) then max_audit_backoff else b * 2

-- The loop of `withBackoffRetry`, with the retries that are left: any error is tried again.
unfoldable pub with_backoff_retry {ℓ} : {A : Type ℓ} → ℕ → Time → Act A → Act A
with_backoff_retry zero backoff f = f
with_backoff_retry (suc retries) backoff f = do
  r ← attempt f
  elim r [
    | ok a ↦ done a
    | err e ↦ wait backoff >> with_backoff_retry retries (next_audit_backoff backoff) f
  ]

unfoldable pub append_audit :
    ByteString → ByteString → ByteString → ByteString → Time → Act (Unit {0})
append_audit ledger_id event_id batch_id payload t = do
  seq ← next_ledger_seq ledger_id
  append_log_event (record {
    event_id = event_id;
    ledger_id = ledger_id;
    ledger_seq = seq;
    system_time = t;
    valid_time = t;
    event_type = EventType.approval_recorded;
    payload = Payload.raw payload;
    idempotency_key = [];
    idempotency_hash = none;
    batch_id = batch_id;
    schema_version = 1;
  })

-- `writeOnce`
unfoldable pub write_audit : ByteString → ByteString → ByteString → Time → Act (Unit {0})
unfolding append_audit
write_audit ledger_id event_id payload t = do
  batch_id ← current_batch_id ledger_id
  before ← begin_tx
  with_rollback before (append_audit ledger_id event_id batch_id payload t)
  commit before

-- `recordApprovalAuditEvent`: the event keeps its ID over the attempts, and a failure is logged.
unfoldable pub record_approval_audit_event : Host → ByteString → ByteString → Act (Unit {0})
unfolding write_audit
record_approval_audit_event host ledger_id payload = do
  t ← now
  event_id ← mint
  r ← attempt (
      with_backoff_retry max_audit_retries audit_backoff (write_audit ledger_id event_id payload t))
  elim r [
    | ok _ ↦ publish_event host ledger_id event_id EventType.approval_recorded
    | err _ ↦ done tt
  ]

unfoldable pub reject : ByteString → ByteString → Error → Act SubmitResult
reject ledger_id intent_id e =
    attempt (update_approval_state ledger_id intent_id rejected) >> fail e

-- What follows the commit of a complete approval.
unfoldable pub execute_approved :
    Host
    → (ByteString → Option BatchIntent)
    → ByteString
    → ByteString
    → PendingApprovalRecord
    → Act SubmitResult
unfolding reject
execute_approved host decode ledger_id intent_id a = elim (decode a.intent_payload) [
  | none ↦ reject ledger_id intent_id invalid
  | some intent ↦
      attempt (
        execute_intent host ledger_id
          (record intent { idempotency_key = approval_execution_key intent_id }))
      >>= λ r. elim r [
        | err e ↦ reject ledger_id intent_id e
        | ok result ↦
            record_approval_audit_event host ledger_id a.intent_payload
            >> (attempt (update_approval_state_if ledger_id intent_id executing executed)
                >> done result)
      ]
]

unfoldable pub after_approval :
    Host → (ByteString → Option BatchIntent) → ByteString → ByteString → Outcome → Act SubmitResult
unfolding execute_approved
after_approval host decode ledger_id intent_id too_late = fail invalid
after_approval host decode ledger_id intent_id partly = done (plain_result intent_id)
after_approval host decode ledger_id intent_id (complete a) =
    execute_approved host decode ledger_id intent_id a

-- `Approve`; `decode` is `json.Unmarshal` into a BatchIntent.
unfoldable pub approve :
    Host
    → (ByteString → Option BatchIntent)
    → ByteString
    → ByteString
    → ByteString
    → ByteString
    → Act SubmitResult
approve host decode ledger_id intent_id principal signature = do
  before ← begin_tx
  outcome ← with_rollback before (approve_in_tx ledger_id intent_id principal signature)
  commit before
  after_approval host decode ledger_id intent_id outcome

unfoldable pub expire_all : List PendingApprovalRecord → Act (Unit {0})
expire_all [] = done tt
expire_all (a ∷ rest) =
    attempt (update_approval_state a.ledger_id a.intent_id expired) >> expire_all rest

-- One round of the recovery loop: an approval whose events exist was executed.
unfoldable pub recover_one : PendingApprovalRecord → Act (Unit {0})
recover_one a = do
  found ←
      attempt (list_log_events_by_idempotency_key a.ledger_id (approval_execution_key a.intent_id))
  elim found [
    | err _ ↦ done tt
    | ok events ↦
        attempt (
          update_approval_state_if a.ledger_id a.intent_id executing
            (if is_empty events then expired else executed))
        >> done tt
  ]

unfoldable pub recover_all : List PendingApprovalRecord → Act (Unit {0})
unfolding recover_one
recover_all [] = done tt
recover_all (a ∷ rest) = recover_one a >> recover_all rest

-- `ExpireStaleApprovals`
unfoldable pub expire_stale_approvals : Time → Act (Unit {0})
unfolding expire_all recover_all
expire_stale_approvals threshold = do
  late ← list_expired_approvals
  expire_all late
  stuck ← list_stuck_approvals threshold
  recover_all stuck
