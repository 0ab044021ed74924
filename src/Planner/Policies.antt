-- ===== src/Planner/Policies.antt =====
-- The policy check in front of an operation (internal/planner/operations_policy.go).
use fincore_ledger.Prelude.{ByteString, Bool, false, Option, none, some, not}
use fincore_ledger.Policy.{Request, evaluate, validate_policy}
use fincore_ledger.Storage.Records.{PolicyRecord, Payload, invalid, policy_denied}
use fincore_ledger.Storage.EventType
use fincore_ledger.Storage.World.{
  Act, done, fail_if, now, begin_tx, commit, with_rollback, ◌>>=◌, ◌>>◌,
}
use fincore_ledger.Storage.Governance.{get_active_policy}
use fincore_ledger.Planner.Events.{no_key, append_event}
use fincore_ledger.Planner.Holds.{at_once}

-- `checkPolicy`, as whether the request is denied; a policy that does not parse is an error.
unfoldable pub check_stored : Option PolicyRecord → Request → Act Bool
check_stored none q = done false
check_stored (some p) q = do
  fail_if (not (validate_policy p.cedar_policy)) invalid
  done (evaluate p.cedar_policy q)

unfoldable pub check_policy : ByteString → Request → Act Bool
unfolding check_stored
check_policy ledger_id q = do p ← get_active_policy ledger_id; check_stored p q

-- `EvaluatePolicy`
unfoldable pub evaluate_policy : ByteString → Request → Act (Unit {0})
evaluate_policy ledger_id q = do denied ← check_policy ledger_id q; fail_if denied policy_denied

-- `writePolicyDenialEvent`
unfoldable pub write_policy_denial_event : ByteString → ByteString → ByteString → Act (Unit {0})
write_policy_denial_event ledger_id principal reason = do
  t ← now
  before ← begin_tx
  with_rollback before (
      append_event ledger_id EventType.policy_denied (Payload.policy_denied principal reason) no_key
        (at_once t))
  commit before
