-- ===== src/Storage/Volumes.antt =====
-- The volume deltas and the balances (internal/storage/postgres/store_volumes.go).
use fincore_ledger.Prelude.{
  ByteString, Bool, true, Option, none, some, List, [], ◌∷◌, ◌&&◌, ◌==◌, str_eq, any, leb,
  if◌then◌else◌,
}
use fincore_ledger.Prelude.Int.{ℤ, pos, ◌+ℤ◌, ◌-ℤ◌}
use fincore_ledger.Storage.Records.{VolumeDeltaRecord, BalanceResult, Time, violation}
use fincore_ledger.Storage.World.{Act, Tables, Result, ok, err, exec, select}

-- The primary key (ledger_id, account, asset, shard, event_id).
unfoldable pub same_row : VolumeDeltaRecord → VolumeDeltaRecord → Bool
same_row a b =
    str_eq a.ledger_id b.ledger_id
    && str_eq a.account b.account
    && str_eq a.asset b.asset
    && a.shard == b.shard
    && str_eq a.event_id b.event_id

unfoldable pub add_delta : VolumeDeltaRecord → Tables → Result Tables
unfolding same_row
add_delta d t =
    if any (same_row d) t.volumes then err violation else ok (record t { volumes = d ∷ t.volumes })

unfoldable pub insert_volume_delta : VolumeDeltaRecord → Act (Unit {0})
insert_volume_delta d = exec (add_delta d)

unfoldable pub not_after : Time → Option Time → Bool
not_after t none = true
not_after t (some limit) = leb t limit

unfoldable pub is_bucket : ByteString → ByteString → ByteString → VolumeDeltaRecord → Bool
is_bucket ledger_id account asset d =
    str_eq d.ledger_id ledger_id && str_eq d.account account && str_eq d.asset asset

unfoldable pub as_of : Option Time → Option Time → VolumeDeltaRecord → Bool
unfolding not_after
as_of valid system d = not_after d.valid_time valid && not_after d.system_time system

-- `COALESCE(SUM(input_delta), 0)` and `COALESCE(SUM(output_delta), 0)` over the chosen rows.
unfoldable pub sum_input : (VolumeDeltaRecord → Bool) → List VolumeDeltaRecord → ℤ
sum_input p [] = pos 0
sum_input p (d ∷ ds) = if p d then d.input_delta +ℤ sum_input p ds else sum_input p ds

unfoldable pub sum_output : (VolumeDeltaRecord → Bool) → List VolumeDeltaRecord → ℤ
sum_output p [] = pos 0
sum_output p (d ∷ ds) = if p d then d.output_delta +ℤ sum_output p ds else sum_output p ds

unfoldable pub balance_of :
    ByteString
    → ByteString
    → ByteString
    → Option Time
    → Option Time
    → List VolumeDeltaRecord
    → BalanceResult
unfolding is_bucket as_of
balance_of ledger_id account asset valid system ds =
    let p =
      λ (d : VolumeDeltaRecord). is_bucket ledger_id account asset d && as_of valid system d in
    record { input = sum_input p ds; output = sum_output p ds }

unfoldable pub get_balance :
    ByteString → ByteString → ByteString → Option Time → Option Time → Act BalanceResult
get_balance ledger_id account asset valid system =
    select (λ t. balance_of ledger_id account asset valid system t.volumes)

-- The net balance of one asset over the accounts that a pattern matches, for `GetAggregatedBalances`.
unfoldable pub aggregated_balance :
    (ByteString → Bool)
    → ByteString
    → Option Time
    → Option Time
    → List VolumeDeltaRecord
    → ByteString
    → ℤ
unfolding as_of
aggregated_balance matches ledger_id valid system ds asset =
    let p = λ (d : VolumeDeltaRecord).
      str_eq d.ledger_id ledger_id
      && matches d.account
      && str_eq d.asset asset
      && as_of valid system d in
    sum_input p ds -ℤ sum_output p ds
