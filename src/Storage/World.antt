-- ===== src/Storage/World.antt =====
-- The state that the planner works on, and actions on it. `Tables` is what a database transaction
-- covers; the batch rows, the in-memory state of the batch manager, the Redis cache and the
-- published notifications are not undone by a rollback. The batch rows, of log_batches, are therefore
-- not among the `Tables`. Every call to the database or to Redis
-- takes the head of `faults`: `some e` there is a call that fails with `e`, anything else a call that
-- goes through. A call that fails has no effect, but for a commit whose answer is lost.
use fincore_ledger.Prelude.{
  ℕ, ◌+◌, ByteString, Bool, true, false, Option, none, some, List, [], ◌∷◌, if◌then◌else◌,
}
use fincore_ledger.Storage.Records.{
  Error, driver, lost, Time, LedgerRecord, LogEventRecord, BatchRecord, IdempotencyKeyRecord,
  AccountRecord, TransactionRecord, VolumeDeltaRecord, SchemaRecord, MetadataHistoryRecord,
  HoldRecord, RelationshipRecord, PolicyRecord, PendingApprovalRecord,
}

pub data Result {ℓ} (A : Type ℓ) : Type ℓ where
  ok : A → Result A
  err : Error → Result A

pub record Tables : Type 0 where
  pub ledgers : List LedgerRecord
  pub log_events : List LogEventRecord
  pub idempotency_keys : List IdempotencyKeyRecord
  pub accounts : List AccountRecord
  pub transactions : List TransactionRecord
  pub volumes : List VolumeDeltaRecord
  pub schemas : List SchemaRecord
  pub metadata_history : List MetadataHistoryRecord
  pub holds : List HoldRecord
  pub relationships : List RelationshipRecord
  pub policies : List PolicyRecord
  pub approvals : List PendingApprovalRecord

-- `openBatchState` of internal/log/batch/manager.go.
pub record OpenBatchState : Type 0 where
  pub batch_id : ByteString
  pub opened_at : Time
  pub event_count : ℕ

-- A key of the Redis idempotency cache with its two fields.
pub record CachedKey : Type 0 where
  pub redis_key : ByteString
  pub event_id : ByteString
  pub hash : ByteString

pub record EventNotification : Type 0 where
  pub ledger_id : ByteString
  pub event_id : ByteString
  pub event_type : ℕ

pub record World : Type 0 where
  pub tables : Tables
  pub aborted : Bool
  pub batches : List BatchRecord
  pub open_batch : List (ByteString × OpenBatchState)
  pub closing : List (ByteString × ByteString)
  pub cache : List CachedKey
  pub published : List EventNotification
  pub clock : Time
  pub ulid : ℕ → ByteString
  pub minted : ℕ
  pub faults : List (Option Error)

abbrev pub Act {ℓ} : Type ℓ → Type ℓ
Act A = World → Result A × World

module _ {ℓ} {A : Type ℓ} where
  unfoldable pub done : A → Act A
  done a w = (ok a, w)

  unfoldable pub fail : Error → Act A
  fail e w = (err e, w)

  unfoldable pub gets : (World → A) → Act A
  gets f w = (ok (f w), w)

  -- The value of an optional result, or the error.
  unfoldable pub some_or : Error → Option A → Act A
  some_or e none w = (err e, w)
  some_or e (some a) w = (ok a, w)

  -- The outcome of an action as a value: `err := …; if err != nil`.
  unfoldable pub attempt : Act A → Act (Result A)
  attempt m w = let (r, w') = m w in (ok r, w')

module _ {ℓ κ} {A : Type ℓ} {B : Type κ} where
  abbrev pub continue : Result A → (A → Act B) → Act B
  continue (ok a) f w = f a w
  continue (err e) f w = (err e, w)

  infixl 5 ◌>>=◌
  unfoldable pub ◌>>=◌ : Act A → (A → Act B) → Act B
  ◌>>=◌ m f w = let (r, w') = m w in continue r f w'

infixl 5 ◌>>◌
abbrev pub ◌>>◌ {ℓ κ} : {A : Type ℓ} {B : Type κ} → Act A → Act B → Act B
m >> k = m >>= λ _. k

unfoldable pub modify : (World → World) → Act (Unit {0})
modify f w = (ok tt, f w)

unfoldable pub fail_if : Bool → Error → Act (Unit {0})
fail_if true e w = (err e, w)
fail_if false e w = (ok tt, w)

unfoldable pub take_fault : List (Option Error) → World → Result (Unit {0}) × World
take_fault [] w = (ok tt, w)
take_fault (none ∷ fs) w = (ok tt, record w { faults = fs })
take_fault (some e ∷ fs) w = (err e, record w { faults = fs })

-- A call outside any transaction: the connection pool, Redis, a wait on the context.
unfoldable pub call : Act (Unit {0})
unfolding take_fault
call w = take_fault w.faults w

unfoldable pub mark_aborted : Result (Unit {0}) → World → Result (Unit {0}) × World
mark_aborted (ok _) w = (ok tt, w)
mark_aborted (err e) w = (err e, record w { aborted = true })

-- The wait between two attempts, at its least; the context can end it.
unfoldable pub wait : Time → Act (Unit {0})
unfolding call
wait backoff = call >> modify (λ w. record w { clock = w.clock + backoff })

-- A statement of the open transaction. After a failure PostgreSQL refuses every further statement
-- until the transaction ends.
unfoldable pub statement : Act (Unit {0})
unfolding call mark_aborted
statement w = let (r, w') = call w in if w.aborted then (err driver, w) else mark_aborted r w'

-- A read in the open transaction.
unfoldable pub select {ℓ} : {A : Type ℓ} → (Tables → A) → Act A
select f = statement >> gets (λ w. f w.tables)

unfoldable pub write : Result Tables → World → Result (Unit {0}) × World
write (ok t) w = (ok tt, record w { tables = t })
write (err e) w = (err e, record w { aborted = true })

-- A write in the open transaction; a violated constraint aborts it.
unfoldable pub exec : (Tables → Result Tables) → Act (Unit {0})
unfolding write
exec f = statement >> (λ w. write (f w.tables) w)

-- `ulid.Make().String()`
unfoldable pub mint : Act ByteString
mint w = (ok (w.ulid w.minted), record w { minted = w.minted + 1 })

-- `time.Now().UTC()`
unfoldable pub now : Act Time
now w = (ok w.clock, w)

-- `Store.BeginTx`; the tables before the transaction are what a rollback restores.
unfoldable pub begin_tx : Act Tables
begin_tx = call >> (λ w. (ok w.tables, record w { aborted = false }))

unfoldable pub rollback : Tables → Act (Unit {0})
rollback before w = (ok tt, record w { tables = before })

-- Whether the server may have done what it was asked for.
abbrev pub is_lost : Error → Bool
is_lost lost = true
is_lost e = false

unfoldable pub settle : Tables → Result (Unit {0}) → World → Result (Unit {0}) × World
settle before (err e) w = (err e, if is_lost e then w else record w { tables = before })
settle before (ok _) w = (ok tt, w)

-- `TxStore.Commit`: the commit of an aborted transaction is a rollback, and so is one that fails, but
-- for one whose answer is lost. That the server is lost before the commit is a failure with `driver`.
unfoldable pub commit : Tables → Act (Unit {0})
unfolding call settle
commit before w =
    let (r, w') = call w in
    if w.aborted then (err driver, record w { tables = before }) else settle before r w'

unfoldable pub undo_on_error {ℓ} : {A : Type ℓ} → Tables → Result A × World → Result A × World
undo_on_error before (ok a, w) = (ok a, w)
undo_on_error before (err e, w) = (err e, record w { tables = before })

-- `defer txStore.Rollback()` round what follows up to the commit.
unfoldable pub with_rollback {ℓ} : {A : Type ℓ} → Tables → Act A → Act A
unfolding undo_on_error
with_rollback before m w = undo_on_error before (m w)

unfoldable pub affected : Error → Option Tables → World → Result (Unit {0}) × World
affected e none w = (err e, w)
affected e (some t) w = (ok tt, record w { tables = t })

-- An UPDATE that must reach a row: no row is an error of the code, and aborts nothing.
unfoldable pub affect : Error → (Tables → Option Tables) → Act (Unit {0})
unfolding affected
affect e f = statement >> (λ w. affected e (f w.tables) w)
