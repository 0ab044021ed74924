-- ===== src/Planner/Expire.antt =====
-- The sweep that expires holds (internal/planner/expire.go).
use fincore_ledger.Prelude.{
  ℕ, zero, suc, ◌+◌, ◌==◌, ByteString, Bool, true, false, Option, none, some, List, [], ◌∷◌, ◌||◌,
  length, is_empty, ltb, if◌then◌else◌,
}
use fincore_ledger.Storage.Records.{HoldRecord, Payload}
use fincore_ledger.Storage.EventType
use fincore_ledger.Storage.World.{
  Act, Result, ok, err, done, attempt, now, begin_tx, commit, with_rollback, ◌>>=◌, ◌>>◌,
}
use fincore_ledger.Storage.Holds.{get_hold, expire_hold, list_expired_holds}
use fincore_ledger.Planner.Inputs.{Host}
use fincore_ledger.Planner.Events.{no_key, append_event, publish_event}
use fincore_ledger.Planner.Holds.{at_once}

-- The writes for a hold that is still open; the new event's ID.
unfoldable pub write_expiry : HoldRecord → ℕ → Act (Option ByteString)
write_expiry h t = do
  (event_id, seq) ←
      append_event h.ledger_id EventType.hold_expired
        (Payload.hold_expired h.hold_id h.source h.asset) no_key (at_once t)
  expire_hold h.ledger_id h.hold_id
  done (some event_id)

-- The transaction of `expireSingleHold`: `none` where the hold was handled before.
unfoldable pub expire_in_tx : HoldRecord → ℕ → Act (Option ByteString)
unfolding write_expiry
expire_in_tx h t = do
  current ← get_hold h.ledger_id h.hold_id
  if current.expired || current.voided then done none else write_expiry h t

-- A hold that was handled before ends in the deferred rollback, which has nothing to undo.
unfoldable pub expire_single_hold : Host → HoldRecord → Act (Unit {0})
unfolding expire_in_tx
expire_single_hold host h = do
  t ← now
  before ← begin_tx
  outcome ← with_rollback before (expire_in_tx h t)
  elim outcome [
    | none ↦ done tt
    | some event_id ↦
        commit before >> publish_event host h.ledger_id event_id EventType.hold_expired
  ]

abbrev pub count_ok : Result (Unit {0}) → ℕ → ℕ
count_ok (ok _) n = n + 1
count_ok (err e) n = n

-- One page: how many of its holds could be expired.
unfoldable pub expire_page : Host → List HoldRecord → ℕ → Act ℕ
unfolding expire_single_hold
expire_page host [] progressed = done progressed
expire_page host (h ∷ hs) progressed =
    attempt (expire_single_hold host h) >>= λ r. expire_page host hs (count_ok r progressed)

abbrev pub expired_holds_batch_size : ℕ
expired_holds_batch_size = 1000

-- The loop of `ExpireHolds`, on fuel: the total, and whether the fuel was enough.
unfoldable pub expire_pages : Host → ℕ → ℕ → Act (ℕ × Bool)
unfolding expire_page
expire_pages host zero total = done (total, false)
expire_pages host (suc fuel) total = do
  page ← list_expired_holds
  progressed ← expire_page host page 0
  let more = expire_pages host fuel (total + progressed)
  if is_empty page || (progressed == 0 || ltb (length page) expired_holds_batch_size)
      then done (total + progressed, true)
      else more
