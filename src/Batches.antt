-- ===== src/Batches.antt =====
-- The Merkle batches of a ledger's log (internal/log/batch/manager.go,
-- internal/storage/postgres/store_batches.go). The asynchronous close of an old batch is queued in
-- `closing`, and runs when the scheduler gets to it.
pub mod Merkle
pub mod Roots
pub mod Sweep
pub mod Overdue
pub mod Closing
pub mod Verified
use fincore_ledger.Prelude.{
  ℕ, zero, suc, ◌+◌, ◌-◌, ◌*◌, ◌%◌, ◌/◌, ByteString, Bool, true, false, Option, none, some, List,
  [], ◌∷◌, ◌++◌, ◌&&◌, not, ◌==◌, str_eq, any, find?, filter, update_where, take, length, map, leb,
  ltb, is_empty, if◌then◌else◌,
}
use fincore_ledger.Storage.Records.{
  BatchRecord, LogEventRecord, Payload, Time, not_found, violation, invalid,
}
use fincore_ledger.Storage.World.{
  World, OpenBatchState, Act, Result, ok, err, call, gets, modify, mint, now, done, fail, fail_if,
  some_or, attempt, wait, ◌>>=◌, ◌>>◌,
}
use fincore_ledger.Batches.Merkle.{leaf_hash, compute_root, verify}

abbrev pub default_max_events : ℕ
default_max_events = 1000

-- Five seconds.
abbrev pub default_max_age : Time
default_max_age = 5000000000

abbrev pub max_close_retries : ℕ
max_close_retries = 3

-- Fifty milliseconds, and five seconds.
abbrev pub initial_close_backoff : Time
initial_close_backoff = 50000000

abbrev pub max_close_backoff : Time
max_close_backoff = 5000000000

abbrev pub next_close_backoff : Time → Time
next_close_backoff b = if ltb max_close_backoff (b * 2) then max_close_backoff else b * 2

unfoldable pub is_batch : ByteString → BatchRecord → Bool
is_batch batch_id b = str_eq b.batch_id batch_id

unfoldable pub put_batch : BatchRecord → World → Result (Unit {0}) × World
unfolding is_batch
put_batch b w =
    if any (is_batch b.batch_id) w.batches
    then (err violation, w)
    else (ok tt, record w { batches = b ∷ w.batches })

unfoldable pub create_batch : BatchRecord → Act (Unit {0})
unfolding put_batch
create_batch b = call >> put_batch b

unfoldable pub lookup_open : ByteString → List (ByteString × OpenBatchState) → Option OpenBatchState
lookup_open ledger_id [] = none
lookup_open ledger_id ((l, s) ∷ m) = if str_eq l ledger_id then some s else lookup_open ledger_id m

unfoldable pub set_open :
    ByteString
    → OpenBatchState
    → List (ByteString × OpenBatchState)
    → List (ByteString × OpenBatchState)
set_open ledger_id s [] = (ledger_id, s) ∷ []
set_open ledger_id s ((l, x) ∷ m) =
    if str_eq l ledger_id then (ledger_id, s) ∷ m else (l, x) ∷ set_open ledger_id s m

unfoldable pub is_fresh : Time → OpenBatchState → Bool
is_fresh t s = ltb s.event_count default_max_events && ltb (t - s.opened_at) default_max_age

unfoldable pub queue_close : ByteString → ByteString → Act (Unit {0})
queue_close ledger_id old =
    modify
      (λ w. if is_empty old then w else record w { closing = w.closing ++ ((ledger_id, old) ∷ []) })

unfoldable pub old_batch_id : Option OpenBatchState → ByteString
old_batch_id none = []
old_batch_id (some s) = s.batch_id

-- A new batch behind the old one.
unfoldable pub open_new_batch : ByteString → ByteString → Act ByteString
unfolding create_batch set_open queue_close
open_new_batch ledger_id old = do
  batch_id ← mint
  t ← now
  create_batch (record {
    batch_id = batch_id;
    ledger_id = ledger_id;
    opened_at = t;
    closed_at = none;
    event_count = 0;
    merkle_root = none;
    prev_batch_id = old;
    attestation_uri = [];
  })
  modify (λ w. record w {
    open_batch =
        set_open ledger_id (record { batch_id = batch_id; opened_at = t; event_count = 1 })
          w.open_batch;
  })
  queue_close ledger_id old
  done batch_id

-- The open batch counts one event more.
unfoldable pub reuse_batch : ByteString → OpenBatchState → Act ByteString
unfolding set_open
reuse_batch ledger_id s = do
  modify (λ w. record w {
    open_batch = set_open ledger_id (record s { event_count = s.event_count + 1 }) w.open_batch;
  })
  done s.batch_id

unfoldable pub choose_batch : ByteString → Time → Option OpenBatchState → Act ByteString
unfolding is_fresh open_new_batch reuse_batch old_batch_id
choose_batch ledger_id t none = open_new_batch ledger_id []
choose_batch ledger_id t (some s) =
    if is_fresh t s then reuse_batch ledger_id s else open_new_batch ledger_id s.batch_id

-- `CurrentBatchID`
unfoldable pub current_batch_id : ByteString → Act ByteString
unfolding lookup_open choose_batch
current_batch_id ledger_id = do
  t ← now
  state ← gets (λ w. lookup_open ledger_id w.open_batch)
  choose_batch ledger_id t state

-- `ListBatchEvents`: `ORDER BY ledger_seq`.
unfoldable pub insert_by_seq : LogEventRecord → List LogEventRecord → List LogEventRecord
insert_by_seq e [] = e ∷ []
insert_by_seq e (x ∷ xs) =
    if leb e.ledger_seq x.ledger_seq then e ∷ x ∷ xs else x ∷ insert_by_seq e xs

unfoldable pub sort_by_seq : List LogEventRecord → List LogEventRecord
unfolding insert_by_seq
sort_by_seq [] = []
sort_by_seq (e ∷ es) = insert_by_seq e (sort_by_seq es)

unfoldable pub list_batch_events : ByteString → Act (List LogEventRecord)
unfolding sort_by_seq
list_batch_events batch_id = do
  call
  gets (λ w. sort_by_seq (filter (λ e. str_eq e.batch_id batch_id) w.tables.log_events))

-- The text of a time and the bytes of a payload come from the Go library.
module _ (sha256 : ByteString → ByteString) (format_time : Time → ByteString)
    (marshal : Payload → ByteString) where
  -- `binary.BigEndian.PutUint16`
  unfoldable pub type_bytes : ℕ → ByteString
  type_bytes n = n / 256 % 256 ∷ n % 256 ∷ []

  unfoldable pub leaves_of : List LogEventRecord → List ByteString
  leaves_of = map λ e.
      leaf_hash sha256 e.event_id (format_time e.system_time) (type_bytes e.event_type)
        (marshal e.payload)

  unfoldable pub close_with : ByteString → ByteString → ℕ → Act (Unit {0})
  close_with batch_id root count = do
    call
    modify (λ w. record w {
      batches =
          update_where (is_batch batch_id)
            (λ b. record b {
              closed_at = some w.clock;
              merkle_root = some root;
              event_count = count;
            })
            w.batches;
    })

  unfoldable pub close_events : ByteString → List LogEventRecord → Act (Unit {0})
  close_events batch_id events = elim (compute_root sha256 (leaves_of events)) [
    | none ↦ done tt
    | some root ↦ close_with batch_id root (length events)
  ]

  -- `closeBatch`: a batch without events is left as it is.
  unfoldable pub close_batch : ByteString → Act (Unit {0})
  close_batch batch_id = do events ← list_batch_events batch_id; close_events batch_id events

  -- The loop of `closeBatchWithRetry`, which gives up after `retries` more attempts; the wait between
  -- two attempts can be cut short by the context.
  unfoldable pub close_retrying : ℕ → Time → ByteString → Act (Unit {0})
  close_retrying zero backoff batch_id = attempt (close_batch batch_id) >> done tt
  close_retrying (suc retries) backoff batch_id = do
    r ← attempt (close_batch batch_id)
    elim r [
      | ok _ ↦ done tt
      | err e ↦ attempt (wait backoff) >>= λ waited. elim waited [
        | ok _ ↦ close_retrying retries (next_close_backoff backoff) batch_id
        | err _ ↦ done tt
      ]
    ]

  unfoldable pub close_batch_with_retry : ByteString → Act (Unit {0})
  close_batch_with_retry = close_retrying max_close_retries initial_close_backoff

  -- `VerifyBatch`
  unfoldable pub verify_batch : ByteString → Act (Bool × ByteString × ℕ)
  verify_batch batch_id = do
    call
    b ← some_or not_found (← gets (λ w. find? (is_batch batch_id) w.batches))
    root ← some_or invalid b.merkle_root
    events ← list_batch_events batch_id
    done (verify sha256 (leaves_of events) (some root), root, length events)
