-- ===== src/Planner/Holds.antt =====
-- Holds: authorize, capture and void (internal/planner/operations_shared.go `doAuthorizeInTx`,
-- `doCaptureInTx`, `doVoidInTx`).
use fincore_ledger.Prelude.{ByteString, codes, false, Option, [], ◌∷◌, not, is_empty, if◌then◌else◌}
use fincore_ledger.Prelude.Int.{ℤ, pos, ◌-ℤ◌, ltb_ℤ}
use fincore_ledger.Accounts.{is_issuer}
use fincore_ledger.Bigamount.{to_string}
use fincore_ledger.Storage.Records.{
  LedgerRecord, HoldRecord, Payload, Time, Metadata, invalid, insufficient_funds, hold_voided,
  hold_expired,
}
use fincore_ledger.Storage.EventType
use fincore_ledger.Storage.World.{Act, done, fail_if, mint, ◌>>=◌, ◌>>◌}
use fincore_ledger.Storage.Holds.{insert_hold, get_hold, update_hold_captured, void_hold}
use fincore_ledger.Storage.Transactions.{upsert_account}
use fincore_ledger.Planner.Inputs.{SubmitResult}
use fincore_ledger.Planner.Validation.{deref, is_positive_amount}
use fincore_ledger.Planner.Events.{
  Times, Key, available_balance, append_event, move_funds, used_account, record_key, plain_result,
}

-- A source that is no issuer must have the amount available.
unfoldable pub check_available : LedgerRecord → ByteString → ByteString → ℤ → Act (Unit {0})
check_available ledger source asset amount =
    let covered = do
      available ← available_balance ledger.id source asset
      fail_if (ltb_ℤ available amount) insufficient_funds
    in if is_issuer source ledger.issuer_accounts then done tt else covered

abbrev pub at_once : Time → Times
at_once t = record { valid = t; now = t }

unfoldable pub authorize_fields : ByteString → ByteString → ByteString → ℤ → Metadata
authorize_fields source dest_hint asset amount =
    (codes "source", source)
    ∷ (codes "destination_hint", dest_hint)
    ∷ (codes "amount", to_string amount)
    ∷ (codes "asset", asset)
    ∷ []

-- The writes of an authorization, behind the checks.
unfoldable pub write_hold :
    ByteString
    → ByteString
    → ByteString
    → ByteString
    → ByteString
    → ℤ
    → Time
    → Key
    → Time
    → Act SubmitResult
write_hold ledger_id hold_id source dest_hint asset amount expires_at k t = do
  (event_id, seq) ←
      append_event ledger_id EventType.hold_created
        (Payload.hold_created hold_id (authorize_fields source dest_hint asset amount) expires_at) k
        (at_once t)
  insert_hold (record {
    ledger_id = ledger_id;
    hold_id = hold_id;
    source = source;
    destination_hint = dest_hint;
    asset = asset;
    authorized_amount = amount;
    captured_amount = pos 0;
    voided = false;
    expired = false;
    expires_at = expires_at;
    authorized_event_id = event_id;
    valid_time = t;
    system_time = t;
  })
  upsert_account (used_account ledger_id source t)
  record_key ledger_id event_id k
  done (record (plain_result event_id) { hold_id = hold_id })

-- `doAuthorizeInTx`
unfoldable pub do_authorize_in_tx :
    LedgerRecord
    → ByteString
    → ByteString
    → ByteString
    → Option ℤ
    → Time
    → Key
    → Time
    → Act SubmitResult
do_authorize_in_tx ledger source dest_hint asset amount expires_at k t = do
  fail_if (not (is_positive_amount amount)) invalid
  hold_id ← mint
  check_available ledger source asset (deref amount)
  write_hold ledger.id hold_id source dest_hint asset (deref amount) expires_at k t

-- The checks on the hold that a capture and a void read inside the transaction.
unfoldable pub check_open : HoldRecord → Act (Unit {0})
check_open h = do fail_if h.voided hold_voided; fail_if h.expired hold_expired

abbrev pub destination_of : ByteString → HoldRecord → ByteString
destination_of destination h = if is_empty destination then h.destination_hint else destination

-- The writes of a capture, behind the checks.
unfoldable pub write_capture :
    ByteString → HoldRecord → ByteString → ℤ → ByteString → Key → Time → Act SubmitResult
write_capture ledger_id h hold_id amount dest k t = do
  (event_id, seq) ←
      append_event ledger_id EventType.hold_confirmed
        (Payload.hold_confirmed hold_id (to_string amount) dest) k (at_once t)
  update_hold_captured ledger_id hold_id amount
  move_funds ledger_id h.source dest h.asset event_id (at_once t) amount
  upsert_account (used_account ledger_id dest t)
  record_key ledger_id event_id k
  done (plain_result event_id)

-- `doCaptureInTx`
unfoldable pub do_capture_in_tx :
    ByteString → ByteString → Option ℤ → ByteString → Key → Time → Act SubmitResult
do_capture_in_tx ledger_id hold_id amount destination k t = do
  fail_if (not (is_positive_amount amount)) invalid
  h ← get_hold ledger_id hold_id
  check_open h
  fail_if (ltb_ℤ (h.authorized_amount -ℤ h.captured_amount) (deref amount)) insufficient_funds
  let dest = destination_of destination h
  fail_if (is_empty dest) invalid
  write_capture ledger_id h hold_id (deref amount) dest k t

-- `doVoidInTx`
unfoldable pub do_void_in_tx : ByteString → ByteString → Key → Time → Act SubmitResult
do_void_in_tx ledger_id hold_id k t = do
  h ← get_hold ledger_id hold_id
  check_open h
  (event_id, seq) ←
      append_event ledger_id EventType.hold_voided (Payload.hold_voided hold_id) k (at_once t)
  void_hold ledger_id hold_id
  record_key ledger_id event_id k
  done (plain_result event_id)
