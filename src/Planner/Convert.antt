-- ===== src/Planner/Convert.antt =====
-- The conversion between two assets (internal/planner/operations_shared.go `doConvertInTx`).
use fincore_ledger.Prelude.{
  ByteString, codes, Bool, List, [], ◌∷◌, ◌++◌, ◌&&◌, not, is_empty, if◌then◌else◌,
}
use fincore_ledger.Prelude.Int.{ℤ, ◌+ℤ◌, ltb_ℤ}
use fincore_ledger.Accounts.{is_issuer}
use fincore_ledger.Bigamount.{to_string}
use fincore_ledger.Storage.Records.{
  LedgerRecord, PostingRecord, VolumeDeltaRecord, Payload, invalid, insufficient_funds,
}
use fincore_ledger.Storage.EventType
use fincore_ledger.Storage.World.{Act, done, fail_if, mint, ◌>>=◌, ◌>>◌}
use fincore_ledger.Storage.Volumes.{insert_volume_delta}
use fincore_ledger.Storage.Transactions.{insert_transaction}
use fincore_ledger.Planner.Inputs.{Host, ConvertParams, SubmitResult}
use fincore_ledger.Planner.Validation.{validate_convert_params, deref, is_positive_amount}
use fincore_ledger.Planner.Events.{
  Times, Key, available_balance, append_event, input_leg, output_leg, upsert_accounts, record_key,
  plain_result,
}

-- The source pays the slippage too, where one is named.
unfoldable pub total_source_output : ConvertParams → ℤ
total_source_output c =
    if is_positive_amount c.slippage_amount
    then deref c.source_amount +ℤ deref c.slippage_amount
    else deref c.source_amount

unfoldable pub has_slippage : ConvertParams → Bool
has_slippage c = is_positive_amount c.slippage_amount && not (is_empty c.slippage_account)

unfoldable pub check_source : LedgerRecord → ConvertParams → Act (Unit {0})
unfolding total_source_output
check_source ledger c =
    let covered = do
      available ← available_balance ledger.id c.source c.source_asset
      fail_if (ltb_ℤ available (total_source_output c)) insufficient_funds
    in if is_issuer c.source ledger.issuer_accounts then done tt else covered

-- The four legs, and the two of the slippage.
unfoldable pub conversion_legs :
    ByteString → ByteString → Times → ConvertParams → List VolumeDeltaRecord
conversion_legs ledger_id event_id times c =
    output_leg ledger_id c.source c.source_asset event_id times (deref c.source_amount)
    ∷ input_leg ledger_id c.destination c.source_asset event_id times (deref c.source_amount)
    ∷ output_leg ledger_id c.destination c.dest_asset event_id times (deref c.dest_amount)
    ∷ input_leg ledger_id c.source c.dest_asset event_id times (deref c.dest_amount)
    ∷ []

unfoldable pub slippage_legs :
    ByteString → ByteString → Times → ConvertParams → List VolumeDeltaRecord
slippage_legs ledger_id event_id times c =
    output_leg ledger_id c.source c.source_asset event_id times (deref c.slippage_amount)
    ∷ input_leg ledger_id c.slippage_account c.source_asset event_id times (deref c.slippage_amount)
    ∷ []

unfoldable pub legs_of : ByteString → ByteString → Times → ConvertParams → List VolumeDeltaRecord
unfolding conversion_legs slippage_legs has_slippage
legs_of ledger_id event_id times c =
    if has_slippage c
    then conversion_legs ledger_id event_id times c ++ slippage_legs ledger_id event_id times c
    else conversion_legs ledger_id event_id times c

unfoldable pub insert_legs : List VolumeDeltaRecord → Act (Unit {0})
insert_legs [] = done tt
insert_legs (d ∷ ds) = insert_volume_delta d >> insert_legs ds

unfoldable pub accounts_of : ConvertParams → List ByteString
unfolding has_slippage
accounts_of c =
    if has_slippage c
    then c.source ∷ c.destination ∷ c.slippage_account ∷ []
    else c.source ∷ c.destination ∷ []

unfoldable pub conversion_postings : ConvertParams → List PostingRecord
unfolding has_slippage
conversion_postings c =
    let paid : PostingRecord = record {
      source = c.source;
      destination = c.destination;
      amount = to_string (deref c.source_amount);
      asset = c.source_asset;
    } in
    let bought : PostingRecord = record {
      source = c.destination;
      destination = c.source;
      amount = to_string (deref c.dest_amount);
      asset = c.dest_asset;
    } in
    let slipped : PostingRecord = record {
      source = c.source;
      destination = c.slippage_account;
      amount = to_string (deref c.slippage_amount);
      asset = c.source_asset;
    } in
    if has_slippage c then paid ∷ bought ∷ slipped ∷ [] else paid ∷ bought ∷ []

unfoldable pub conversion_payload : ByteString → ConvertParams → Payload
conversion_payload conversion_id c = Payload.converted conversion_id (
    (codes "source", c.source)
    ∷ (codes "destination", c.destination)
    ∷ (codes "source_amount", to_string (deref c.source_amount))
    ∷ (codes "source_asset", c.source_asset)
    ∷ (codes "destination_amount", to_string (deref c.dest_amount))
    ∷ (codes "destination_asset", c.dest_asset)
    ∷ (codes "rate", c.rate)
    ∷ (codes "rate_source", c.rate_source)
    ∷ [])

-- `doConvertInTx`
unfoldable pub do_convert_in_tx :
    Host → LedgerRecord → ConvertParams → Key → Times → Act SubmitResult
do_convert_in_tx host ledger c k times = do
  fail_if (not (validate_convert_params host c)) invalid
  conversion_id ← mint
  tx_id ← mint
  check_source ledger c
  (event_id, seq) ←
      append_event ledger.id EventType.conversion_created (conversion_payload conversion_id c) k
        times
  insert_legs (legs_of ledger.id event_id times c)
  upsert_accounts ledger.id times.now (accounts_of c)
  insert_transaction (record {
    ledger_id = ledger.id;
    transaction_id = tx_id;
    event_id = event_id;
    valid_time = times.valid;
    system_time = times.now;
    reference = [];
    postings = conversion_postings c;
    metadata =
        (codes "type", codes "conversion")
        ∷ (codes "rate", c.rate)
        ∷ (codes "rate_source", c.rate_source)
        ∷ [];
  })
  record_key ledger.id event_id k
  done (record (plain_result event_id) { conversion_id = conversion_id })
