-- ===== src/Planner/Events.antt =====
-- The steps that the in-transaction cores share (internal/planner/operations_shared.go,
-- operations_post.go, planner.go). Go's maps of amounts are association lists; the order in which Go
-- runs through one decides only which of several failing accounts an error names.
use fincore_ledger.Prelude.{
  ℕ, ByteString, false, Option, none, some, List, [], ◌∷◌, ◌&&◌, str_eq, is_empty, if◌then◌else◌,
}
use fincore_ledger.Prelude.Int.{ℤ, pos, ◌+ℤ◌, ◌-ℤ◌, ltb_ℤ}
use fincore_ledger.Accounts.{is_issuer}
use fincore_ledger.Batches.{current_batch_id}
use fincore_ledger.Storage.Records.{
  LedgerRecord, AccountRecord, VolumeDeltaRecord, Payload, Time, ledger_sealed, insufficient_funds,
  idempotency_key_conflict,
}
use fincore_ledger.Storage.World.{
  Act, Result, ok, err, call, done, fail, fail_if, modify, mint, attempt, ◌>>=◌, ◌>>◌,
}
use fincore_ledger.Storage.Log.{next_ledger_seq, append_log_event, insert_idempotency_key}
use fincore_ledger.Storage.Volumes.{get_balance, insert_volume_delta}
use fincore_ledger.Storage.Holds.{get_active_holds_total}
use fincore_ledger.Storage.Transactions.{upsert_account}
use fincore_ledger.Storage.Governance.{get_ledger, sealed}
use fincore_ledger.Planner.Inputs.{Host, SubmitResult}

-- `checkLedgerNotSealed`
unfoldable pub check_ledger_not_sealed : ByteString → Act LedgerRecord
check_ledger_not_sealed ledger_id = do
  ledger ← get_ledger ledger_id
  fail_if (str_eq ledger.state sealed) ledger_sealed
  done ledger

-- `publishEvent`: a notification that Redis does not take is lost, and that is all.
unfoldable pub publish_event : Host → ByteString → ByteString → ℕ → Act (Unit {0})
publish_event host ledger_id event_id event_type =
    let send = do
      sent ← attempt call
      elim sent [
        | ok _ ↦ modify (λ w. record w {
          published =
              record { ledger_id = ledger_id; event_id = event_id; event_type = event_type }
              ∷ w.published;
        })
        | err _ ↦ done tt
      ]
    in if host.has_subscribers then send else done tt

-- The two times of an operation.
pub record Times : Type 0 where
  pub valid : Time
  pub now : Time

-- An idempotency key, and its hash; the batch path has no hash.
pub record Key : Type 0 where
  pub key : ByteString
  pub hash : Option ByteString

abbrev pub no_key : Key
no_key = record { key = []; hash = none }

-- `if idempotencyKey != "" && ikHash != nil`
abbrev pub hash_of : Key → Option ByteString
hash_of k = if is_empty k.key then none else k.hash

-- `appendEvent`: the ID and the sequence of the new event.
unfoldable pub append_event : ByteString → ℕ → Payload → Key → Times → Act (ByteString × ℕ)
append_event ledger_id event_type payload k times = do
  event_id ← mint
  batch_id ← current_batch_id ledger_id
  seq ← next_ledger_seq ledger_id
  append_log_event (record {
    event_id = event_id;
    ledger_id = ledger_id;
    ledger_seq = seq;
    system_time = times.now;
    valid_time = times.valid;
    event_type = event_type;
    payload = payload;
    idempotency_key = k.key;
    idempotency_hash = hash_of k;
    batch_id = batch_id;
    schema_version = 1;
  })
  done (event_id, seq)

-- `err != nil && !errors.Is(err, ErrIdempotencyKeyConflict)`
unfoldable pub pass_over : Result (Unit {0}) → Act (Unit {0})
pass_over (ok _) = done tt
pass_over (err idempotency_key_conflict) = done tt
pass_over (err e) = fail e

-- `recordIdempotency`, where a conflict is passed over.
unfoldable pub record_idempotency :
    ByteString → ByteString → ByteString → ByteString → Act (Unit {0})
unfolding pass_over
record_idempotency ledger_id key event_id hash = do
  r ← attempt (
      insert_idempotency_key (record {
        ledger_id = ledger_id;
        idempotency_key = key;
        idempotency_hash = hash;
        event_id = event_id;
      }))
  pass_over r

-- The end of every core: the key is recorded where there is a hash.
unfoldable pub record_key : ByteString → ByteString → Key → Act (Unit {0})
unfolding record_idempotency
record_key ledger_id event_id k = elim (hash_of k) [
  | none ↦ done tt
  | some hash ↦ record_idempotency ledger_id k.key event_id hash
]

-- `availableBalance`: posted input − posted output − active holds.
unfoldable pub available_balance : ByteString → ByteString → ByteString → Act ℤ
available_balance ledger_id account asset = do
  bal ← get_balance ledger_id account asset none none
  holds ← get_active_holds_total ledger_id account asset
  done (bal.input -ℤ bal.output -ℤ holds)

-- A map from (account, asset) to an amount.
abbrev pub Amounts : Type 0
Amounts = List ((ByteString × ByteString) × ℤ)

unfoldable pub amount_at : ByteString → ByteString → Amounts → Option ℤ
amount_at account asset [] = none
amount_at account asset (((a, b), x) ∷ m) =
    if str_eq a account && str_eq b asset then some x else amount_at account asset m

-- `m[key].Add(m[key], x)`, where a missing entry counts as zero.
unfoldable pub add_amount : ByteString → ByteString → ℤ → Amounts → Amounts
add_amount account asset x [] = ((account, asset), pos 0 +ℤ x) ∷ []
add_amount account asset x (((a, b), y) ∷ m) =
    if str_eq a account && str_eq b asset
    then ((a, b), y +ℤ x) ∷ m
    else ((a, b), y) ∷ add_amount account asset x m

abbrev pub plus_input : ℤ → Option ℤ → ℤ
plus_input available none = available
plus_input available (some x) = available +ℤ x

-- One round of the loop in `checkSourceBalances`, for a source that is no issuer.
unfoldable pub check_bucket : LedgerRecord → ByteString → ByteString → ℤ → Amounts → Act (Unit {0})
unfolding amount_at
check_bucket ledger account asset output inputs = do
  available ← available_balance ledger.id account asset
  fail_if (ltb_ℤ (plus_input available (amount_at account asset inputs)) output) insufficient_funds

-- `checkSourceBalances`
unfoldable pub check_source_balances : LedgerRecord → Amounts → Amounts → Act (Unit {0})
unfolding check_bucket
check_source_balances ledger [] inputs = done tt
check_source_balances ledger (((account, asset), output) ∷ outputs) inputs =
    (if is_issuer account ledger.issuer_accounts
      then done tt
      else check_bucket ledger account asset output inputs)
    >> check_source_balances ledger outputs inputs

-- A volume delta that adds to an account's input, and one that adds to its output.
abbrev pub input_leg :
    ByteString → ByteString → ByteString → ByteString → Times → ℤ → VolumeDeltaRecord
input_leg ledger_id account asset event_id times x = record {
  ledger_id = ledger_id;
  account = account;
  asset = asset;
  shard = 0;
  event_id = event_id;
  valid_time = times.valid;
  system_time = times.now;
  input_delta = x;
  output_delta = pos 0;
}

abbrev pub output_leg :
    ByteString → ByteString → ByteString → ByteString → Times → ℤ → VolumeDeltaRecord
output_leg ledger_id account asset event_id times x = record {
  ledger_id = ledger_id;
  account = account;
  asset = asset;
  shard = 0;
  event_id = event_id;
  valid_time = times.valid;
  system_time = times.now;
  input_delta = pos 0;
  output_delta = x;
}

-- A movement of funds: the source pays, then the destination receives.
unfoldable pub move_funds :
    ByteString → ByteString → ByteString → ByteString → ByteString → Times → ℤ → Act (Unit {0})
move_funds ledger_id source destination asset event_id times x = do
  insert_volume_delta (output_leg ledger_id source asset event_id times x)
  insert_volume_delta (input_leg ledger_id destination asset event_id times x)

-- The account row of a first or a later use, without metadata.
abbrev pub used_account : ByteString → ByteString → Time → AccountRecord
used_account ledger_id address t = record {
  ledger_id = ledger_id;
  address = address;
  first_usage = t;
  updated_at = t;
  metadata = [];
}

unfoldable pub upsert_accounts : ByteString → Time → List ByteString → Act (Unit {0})
upsert_accounts ledger_id t [] = done tt
upsert_accounts ledger_id t (a ∷ addresses) =
    upsert_account (used_account ledger_id a t) >> upsert_accounts ledger_id t addresses

-- A key of the set `touchedAccounts`.
unfoldable pub add_touched : ByteString → List ByteString → List ByteString
add_touched a [] = a ∷ []
add_touched a (b ∷ bs) = if str_eq a b then b ∷ bs else b ∷ add_touched a bs

abbrev pub plain_result : ByteString → SubmitResult
plain_result event_id = record {
  event_id = event_id;
  idempotent_hit = false;
  transaction = none;
  hold_id = [];
  conversion_id = [];
}
