-- ===== src/Storage/Governance.antt =====
-- Policies and pending approvals (internal/storage/postgres/store_governance.go), and the ledger
-- catalog (store_ledgers.go).
use fincore_ledger.Prelude.{
  ◌+◌, ByteString, codes, Bool, true, false, Option, none, some, List, [], ◌∷◌, ◌++◌, ◌&&◌, str_eq,
  any, find?, filter, update_where, take, ltb, if◌then◌else◌,
}
use fincore_ledger.Storage.Records.{
  PolicyRecord, PendingApprovalRecord, ApprovalEntry, LedgerRecord, Metadata, Time, not_found,
  violation, already_exists,
}
use fincore_ledger.Storage.World.{
  World, Act, Tables, Result, ok, err, exec, select, affect, call, gets, modify, some_or, done,
  ◌>>=◌, ◌>>◌,
}

unfoldable pub is_ledger : ByteString → LedgerRecord → Bool
is_ledger id r = str_eq r.id id

-- `Store.GetLedger`, outside a transaction.
unfoldable pub get_ledger : ByteString → Act LedgerRecord
unfolding is_ledger
get_ledger id = do call; some_or not_found (← gets (λ w. find? (is_ledger id) w.tables.ledgers))

-- `TxStore.GetLedger`.
unfoldable pub get_ledger_in_tx : ByteString → Act LedgerRecord
unfolding is_ledger
get_ledger_in_tx id = do
  found ← select (λ t. find? (is_ledger id) t.ledgers)
  some_or not_found found

-- A write of its own, outside any other transaction: what fails leaves the tables alone.
unfoldable pub store_tables : Result Tables → World → Result (Unit {0}) × World
store_tables (ok t) w = (ok tt, record w { tables = t })
store_tables (err e) w = (err e, w)

unfoldable pub exec_alone : (Tables → Result Tables) → Act (Unit {0})
unfolding store_tables
exec_alone f = call >> (λ w. store_tables (f w.tables) w)

abbrev pub in_use : ByteString
in_use = codes "in-use"

abbrev pub sealed : ByteString
sealed = codes "sealed"

unfoldable pub create_ledger : ByteString → ByteString → Metadata → Act LedgerRecord
unfolding is_ledger exec_alone
create_ledger id bucket_id metadata = do
  call
  t ← gets (λ w. w.clock)
  let rec : LedgerRecord = record {
    id = id;
    bucket_id = if str_eq bucket_id [] then codes "_default" else bucket_id;
    state = in_use;
    features = [];
    metadata = metadata;
    created_at = t;
    sealed_at = none;
    issuer_accounts = codes "_world" ∷ [];
  }
  exec_alone (λ s.
      if any (is_ledger id) s.ledgers
      then err already_exists
      else ok (record s { ledgers = rec ∷ s.ledgers }))
  done rec

unfoldable pub is_unsealed : ByteString → LedgerRecord → Bool
is_unsealed id r = str_eq r.id id && str_eq r.state in_use

unfoldable pub seal_ledger : ByteString → Act LedgerRecord
unfolding is_unsealed is_ledger exec_alone
seal_ledger id = do
  t ← gets (λ w. w.clock)
  exec_alone (λ s.
      if any (is_unsealed id) s.ledgers
      then ok (record s {
        ledgers =
            update_where (is_unsealed id) (λ r. record r { state = sealed; sealed_at = some t })
              s.ledgers;
      })
      else err not_found)
  some_or not_found (← gets (λ w. find? (is_ledger id) w.tables.ledgers))

unfoldable pub is_policy_of : ByteString → PolicyRecord → Bool
is_policy_of ledger_id p = str_eq p.ledger_id ledger_id

-- Deactivate every policy of the ledger, then insert the new one, in a transaction of its own.
unfoldable pub insert_policy : PolicyRecord → Act (Unit {0})
unfolding is_policy_of exec_alone
insert_policy p = exec_alone (λ t.
    if any (λ q. is_policy_of p.ledger_id q && str_eq q.version p.version) t.policies
    then err violation
    else ok (record t {
      policies =
          record p { active = true }
          ∷ update_where (is_policy_of p.ledger_id) (λ q. record q { active = false }) t.policies;
    }))

-- At most one policy is active, and the newest stands first; no policy is no error.
unfoldable pub get_active_policy : ByteString → Act (Option PolicyRecord)
unfolding is_policy_of
get_active_policy ledger_id = do
  call
  gets (λ w. find? (λ p. is_policy_of ledger_id p && p.active) w.tables.policies)

unfoldable pub is_intent : ByteString → ByteString → PendingApprovalRecord → Bool
is_intent ledger_id intent_id a = str_eq a.ledger_id ledger_id && str_eq a.intent_id intent_id

unfoldable pub insert_pending_approval : PendingApprovalRecord → Act (Unit {0})
unfolding is_intent exec_alone
insert_pending_approval a = exec_alone (λ t.
    if any (is_intent a.ledger_id a.intent_id) t.approvals
    then err violation
    else ok (record t { approvals = a ∷ t.approvals }))

-- `TxStore.GetPendingApproval`, which also locks the row.
unfoldable pub get_pending_approval : ByteString → ByteString → Act PendingApprovalRecord
unfolding is_intent
get_pending_approval ledger_id intent_id = do
  found ← select (λ t. find? (is_intent ledger_id intent_id) t.approvals)
  some_or not_found found

abbrev pub pending : ByteString
pending = codes "pending"

abbrev pub executing : ByteString
executing = codes "executing"

abbrev pub executed : ByteString
executed = codes "executed"

abbrev pub rejected : ByteString
rejected = codes "rejected"

abbrev pub expired : ByteString
expired = codes "expired"

unfoldable pub edit_approvals :
    (PendingApprovalRecord → Bool)
    → (PendingApprovalRecord → PendingApprovalRecord)
    → Tables
    → Tables
edit_approvals p f t = record t { approvals = update_where p f t.approvals }

unfoldable pub in_state : ByteString → ByteString → ByteString → PendingApprovalRecord → Bool
unfolding is_intent
in_state ledger_id intent_id state a = is_intent ledger_id intent_id a && str_eq a.state state

unfoldable pub add_approval : ByteString → ByteString → ByteString → ByteString → Act (Unit {0})
unfolding in_state edit_approvals
add_approval ledger_id intent_id principal signature = do
  at ← gets (λ w. w.clock)
  let entry : ApprovalEntry = record {
    principal = principal;
    signature = signature;
    signed_at = at;
  }
  affect not_found (λ t.
      if any (in_state ledger_id intent_id pending) t.approvals
      then some (
          edit_approvals (in_state ledger_id intent_id pending)
            (λ a. record a { received_approvals = a.received_approvals ++ (entry ∷ []) }) t)
      else none)

-- In the open transaction, whatever the state was.
unfoldable pub update_approval_state_in_tx : ByteString → ByteString → ByteString → Act (Unit {0})
unfolding is_intent edit_approvals
update_approval_state_in_tx ledger_id intent_id state =
    exec
      (λ t. ok (edit_approvals (is_intent ledger_id intent_id) (λ a. record a { state = state }) t))

unfoldable pub update_approval_state : ByteString → ByteString → ByteString → Act (Unit {0})
unfolding is_intent edit_approvals exec_alone
update_approval_state ledger_id intent_id state =
    exec_alone
      (λ t. ok (edit_approvals (is_intent ledger_id intent_id) (λ a. record a { state = state }) t))

unfoldable pub mark_approval_executing : ByteString → ByteString → Act (Unit {0})
unfolding is_intent edit_approvals
mark_approval_executing ledger_id intent_id = do
  at ← gets (λ w. w.clock)
  exec (λ t. ok (
      edit_approvals (is_intent ledger_id intent_id)
        (λ a. record a { state = executing; executing_at = some at }) t))

-- Whether a row was in `from_state` and has been moved.
unfoldable pub update_approval_state_if :
    ByteString → ByteString → ByteString → ByteString → Act Bool
unfolding in_state edit_approvals
update_approval_state_if ledger_id intent_id from_state to_state = do
  call
  found ← gets (λ w. any (in_state ledger_id intent_id from_state) w.tables.approvals)
  modify (λ w. record w {
    tables =
        edit_approvals (in_state ledger_id intent_id from_state)
          (λ a. record a { state = to_state }) w.tables;
  })
  done found

unfoldable pub is_stale : Time → PendingApprovalRecord → Bool
is_stale t a = str_eq a.state pending && ltb a.expires_at t

unfoldable pub list_expired_approvals : Act (List PendingApprovalRecord)
unfolding is_stale
list_expired_approvals = do
  call
  gets (λ w. take 1000 (filter (is_stale w.clock) w.tables.approvals))

unfoldable pub since : PendingApprovalRecord → Time
since a = elim (a.executing_at) [ none ↦ a.submitted_at | some t ↦ t ]

unfoldable pub is_stuck : Time → Time → PendingApprovalRecord → Bool
unfolding since
is_stuck t threshold a = str_eq a.state executing && ltb (since a + threshold) t

unfoldable pub list_stuck_approvals : Time → Act (List PendingApprovalRecord)
unfolding is_stuck
list_stuck_approvals threshold = do
  call
  gets (λ w. take 1000 (filter (is_stuck w.clock threshold) w.tables.approvals))
