-- ===== src/Storage/Log.antt =====
-- The event log, the sequence of a ledger and the idempotency keys
-- (internal/storage/postgres/store_log.go, store_idempotency.go, store.go).
use fincore_ledger.Prelude.{
  ℕ, ◌+◌, ByteString, Bool, Option, List, [], ◌∷◌, ◌&&◌, ◌||◌, not, ◌==◌, str_eq, any, filter,
  find?, is_empty, leb, if◌then◌else◌,
}
use fincore_ledger.Storage.Records.{LogEventRecord, IdempotencyKeyRecord, idempotency_key_conflict}
use fincore_ledger.Storage.World.{
  Act, Tables, Result, ok, err, exec, select, statement, call, gets, done, ◌>>◌,
}

-- The three unique constraints of log_events; an event without a key stores NULL, which is unequal
-- to every other.
unfoldable pub clashes : LogEventRecord → LogEventRecord → Bool
clashes a b =
    str_eq a.event_id b.event_id
    || (str_eq a.ledger_id b.ledger_id
        && (a.ledger_seq == b.ledger_seq
            || (not (is_empty a.idempotency_key) && str_eq a.idempotency_key b.idempotency_key)))

unfoldable pub add_event : LogEventRecord → Tables → Result Tables
unfolding clashes
add_event e t =
    if any (clashes e) t.log_events
    then err idempotency_key_conflict
    else ok (record t { log_events = e ∷ t.log_events })

unfoldable pub append_log_event : LogEventRecord → Act (Unit {0})
append_log_event e = exec (add_event e)

-- `COALESCE(MAX(ledger_seq), 0)`
unfoldable pub max_seq : ByteString → List LogEventRecord → ℕ
max_seq ledger_id [] = 0
max_seq ledger_id (e ∷ es) =
    let rest = max_seq ledger_id es in
    if str_eq e.ledger_id ledger_id && leb rest e.ledger_seq then e.ledger_seq else rest

-- The row lock on the ledger is a statement of its own.
unfoldable pub next_ledger_seq : ByteString → Act ℕ
next_ledger_seq ledger_id = statement >> select (λ t. max_seq ledger_id t.log_events + 1)

unfoldable pub has_key : ByteString → ByteString → LogEventRecord → Bool
has_key ledger_id key e = str_eq e.ledger_id ledger_id && str_eq e.idempotency_key key

-- Outside a transaction. An empty key matches nothing, and costs no call.
unfoldable pub list_log_events_by_idempotency_key :
    ByteString → ByteString → Act (List LogEventRecord)
unfolding has_key
list_log_events_by_idempotency_key ledger_id key =
    let found = call >> gets (λ w. filter (has_key ledger_id key) w.tables.log_events) in
    if is_empty key then done [] else found

unfoldable pub is_key : ByteString → ByteString → IdempotencyKeyRecord → Bool
is_key ledger_id key r = str_eq r.ledger_id ledger_id && str_eq r.idempotency_key key

-- Outside a transaction; a missing key is no error.
unfoldable pub get_idempotency_key : ByteString → ByteString → Act (Option IdempotencyKeyRecord)
unfolding is_key
get_idempotency_key ledger_id key = do
  call
  gets (λ w. find? (is_key ledger_id key) w.tables.idempotency_keys)

unfoldable pub add_key : IdempotencyKeyRecord → Tables → Result Tables
unfolding is_key
add_key r t =
    if any (is_key r.ledger_id r.idempotency_key) t.idempotency_keys
    then err idempotency_key_conflict
    else ok (record t { idempotency_keys = r ∷ t.idempotency_keys })

unfoldable pub insert_idempotency_key : IdempotencyKeyRecord → Act (Unit {0})
insert_idempotency_key r = exec (add_key r)
