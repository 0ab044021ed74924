-- ===== src/Planner/Submit.antt =====
-- The standalone write path (internal/planner/operations_post.go `submitWithIdempotency` and what it
-- calls), and the Redis side of the idempotency lookup (internal/storage/redis/redis.go).
use fincore_ledger.Prelude.{
  ℕ, zero, suc, ◌*◌, ByteString, codes, ◌++◌, Bool, true, false, Option, none, some, [], ◌∷◌, ◌&&◌,
  not, str_eq, is_empty, find?, ltb, if◌then◌else◌,
}
use fincore_ledger.Storage.Records.{
  Error, Time, invalid_idempotency_input, idempotency_key_conflict, deadlock,
}
use fincore_ledger.Storage.World.{
  CachedKey, Act, Result, ok, err, call, done, fail, fail_if, gets, modify, attempt, begin_tx,
  rollback, commit, with_rollback, ◌>>=◌, ◌>>◌,
}
unfoldable pub use fincore_ledger.Storage.World.{wait}
use fincore_ledger.Storage.Log.{get_idempotency_key}
use fincore_ledger.Planner.Inputs.{Host, SubmitResult}
use fincore_ledger.Planner.Events.{publish_event, plain_result, Key}

-- `idempotencyKey`, the key of the cache: the ledger and the key with a colon between them.
abbrev pub idempotency_key : ByteString → ByteString → ByteString
idempotency_key ledger_id key = codes "ik:" ++ (ledger_id ++ (codes ":" ++ key))

unfoldable pub is_cached : ByteString → ByteString → CachedKey → Bool
is_cached ledger_id key c = str_eq c.redis_key (idempotency_key ledger_id key)

-- `Client.GetIdempotencyKey`; an entry may have left the cache before.
unfoldable pub cached_key : ByteString → ByteString → Act (Option CachedKey)
unfolding is_cached
cached_key ledger_id key = do call; gets (λ w. find? (is_cached ledger_id key) w.cache)

-- `Client.SetIdempotencyKey`: the newest entry stands first, and hides any other.
unfoldable pub cache_key : ByteString → ByteString → ByteString → ByteString → Act (Unit {0})
cache_key ledger_id key event_id hash = do
  call
  modify (λ w. record w {
    cache =
        record { redis_key = idempotency_key ledger_id key; event_id = event_id; hash = hash }
        ∷ w.cache;
  })

abbrev pub hit : ByteString → SubmitResult
hit event_id = record (plain_result event_id) { idempotent_hit = true }

-- A cache that cannot be read counts as a miss.
abbrev pub or_miss : Result (Option CachedKey) → Option CachedKey
or_miss (ok c) = c
or_miss (err e) = none

unfoldable pub hit_if : ByteString → ByteString → ByteString → Act (Option SubmitResult)
hit_if stored hash event_id = do
  fail_if (not (str_eq stored hash)) invalid_idempotency_input
  done (some (hit event_id))

unfoldable pub check_database : ByteString → ByteString → ByteString → Act (Option SubmitResult)
unfolding hit_if
check_database ledger_id key hash = do
  found ← get_idempotency_key ledger_id key
  elim found [
    | none ↦ done none
    | some r ↦ hit_if r.idempotency_hash hash r.event_id >>= λ result.
        attempt (cache_key ledger_id key r.event_id r.idempotency_hash) >> done result
  ]

-- `checkIdempotency`: `none` is a miss.
unfoldable pub check_idempotency : ByteString → ByteString → ByteString → Act (Option SubmitResult)
unfolding check_database
check_idempotency ledger_id key hash = do
  looked ← attempt (cached_key ledger_id key)
  elim (or_miss looked) [
    | some c ↦ hit_if c.hash hash c.event_id
    | none ↦ check_database ledger_id key hash
  ]

-- `postCommitIdempotency`
unfoldable pub post_commit_idempotency :
    ByteString → ByteString → ByteString → ByteString → Act (Unit {0})
post_commit_idempotency ledger_id key event_id hash =
    attempt (cache_key ledger_id key event_id hash) >> done tt

abbrev pub bytes_of : Option ByteString → ByteString
bytes_of none = []
bytes_of (some b) = b

unfoldable pub after_commit : Host → ByteString → Key → ℕ → SubmitResult → Act SubmitResult
after_commit host ledger_id k event_type r = do
  if is_empty k.key
      then done tt
      else post_commit_idempotency ledger_id k.key r.event_id (bytes_of k.hash)
  publish_event host ledger_id r.event_id event_type
  done r

-- One transaction: begin, the work, and the commit; a dry run is rolled back.
unfoldable pub run_once : Host → ByteString → Key → ℕ → Bool → Act SubmitResult → Act SubmitResult
run_once host ledger_id k event_type dry_run work = do
  before ← begin_tx
  r ← with_rollback before work
  let undo = rollback before >> done r
  let keep = commit before >> after_commit host ledger_id k event_type r
  if dry_run then undo else keep

abbrev pub is_deadlock : Error → Bool
is_deadlock deadlock = true
is_deadlock e = false

abbrev pub is_conflict : Error → Bool
is_conflict idempotency_key_conflict = true
is_conflict e = false

abbrev pub max_deadlock_retries : ℕ
max_deadlock_retries = 5

-- Five seconds.
abbrev pub max_backoff : Time
max_backoff = 5000000000

abbrev pub next_backoff : Time → Time
next_backoff backoff = if ltb max_backoff (backoff * 2) then max_backoff else backoff * 2

-- The loop of `withDeadlockRetry`, with the retries that are left.
unfoldable pub with_deadlock_retry {ℓ} : {A : Type ℓ} → ℕ → Time → Act A → Act A
with_deadlock_retry zero backoff f = f
with_deadlock_retry (suc retries) backoff f = do
  r ← attempt f
  elim r [
    | ok a ↦ done a
    | err e ↦
        let again = wait backoff >> with_deadlock_retry retries (next_backoff backoff) f in
        if is_deadlock e then again else fail e
  ]

-- `resolveIdempotencyConflict`
unfoldable pub resolve_idempotency_conflict : ByteString → ByteString → Act SubmitResult
resolve_idempotency_conflict ledger_id key = do
  found ← attempt (get_idempotency_key ledger_id key)
  elim found [
    | err e ↦ fail idempotency_key_conflict
    | ok none ↦ fail idempotency_key_conflict
    | ok (some r) ↦ done (hit r.event_id)
  ]

-- Ten milliseconds.
abbrev pub initial_backoff : Time
initial_backoff = 10000000

unfoldable pub submit_new : Host → ByteString → Key → ℕ → Bool → Act SubmitResult → Act SubmitResult
submit_new host ledger_id k event_type dry_run work = do
  r ← attempt (
      with_deadlock_retry max_deadlock_retries initial_backoff
        (run_once host ledger_id k event_type dry_run work))
  elim r [
    | ok result ↦ done result
    | err e ↦
        if not (is_empty k.key) && is_conflict e
        then resolve_idempotency_conflict ledger_id k.key
        else fail e
  ]

-- `submitWithIdempotency`
unfoldable pub submit_with_idempotency :
    Host → ByteString → Key → ℕ → Bool → Act SubmitResult → Act SubmitResult
submit_with_idempotency host ledger_id k event_type dry_run work =
    let fresh = submit_new host ledger_id k event_type dry_run work in
    let looked = do
      found ← check_idempotency ledger_id k.key (bytes_of k.hash)
      elim found [ some r ↦ done r | none ↦ fresh ]
    in if is_empty k.key then fresh else looked
