-- ===== src/Sdk/Client.antt =====
-- The checks of the client and the intents that it sends (pkg/sdk/validate.go, transaction.go,
-- operations.go).
use fincore_ledger.Prelude.{
  ByteString, Bool, true, false, Option, none, some, List, [], ◌∷◌, ◌++◌, ◌&&◌, ◌||◌, not, is_empty,
  filter, str_eq, if◌then◌else◌,
}
use fincore_ledger.Bigamount.{from_string, is_positive}
use fincore_ledger.Accounts.{is_valid_address}
use fincore_ledger.Assets.{is_valid_asset}
use fincore_ledger.Storage.Records.{Time}
use fincore_ledger.Prelude.Int.{ℤ}
use fincore_ledger.Api.Wire.{
  Posting, Operation, Intent, MetadataMap, AuthorizeOperation, CaptureOperation, ConvertOperation,
  string_value,
}

unfoldable pub positive_amount : Option ℤ → Bool
positive_amount none = false
positive_amount (some a) = is_positive a

-- `validateAmount`
unfoldable pub validate_amount : ByteString → Bool
validate_amount s = positive_amount (from_string s)

-- `validatePosting`
unfoldable pub validate_posting : Posting → Bool
validate_posting p =
    is_valid_address p.source
    && is_valid_address p.destination
    && is_valid_asset p.asset
    && validate_amount p.amount

unfoldable pub validate_each : List Posting → Bool
validate_each [] = true
validate_each (p ∷ ps) = validate_posting p && validate_each ps

pub record TransactionBuilder : Type 0 where
  pub ledger_id : ByteString
  pub postings : List Posting
  pub reference : ByteString
  pub metadata : MetadataMap
  pub ik : ByteString
  pub dry_run : Bool

-- `NewTransaction`
unfoldable pub new_transaction : ByteString → TransactionBuilder
new_transaction ledger_id = record {
  ledger_id = ledger_id;
  postings = [];
  reference = [];
  metadata = [];
  ik = [];
  dry_run = false;
}

unfoldable pub add_posting :
    ByteString → ByteString → ByteString → ByteString → TransactionBuilder → TransactionBuilder
add_posting source destination amount asset b = record b {
  postings =
      b.postings
      ++ (record { source = source; destination = destination; amount = amount; asset = asset }
          ∷ []);
}

unfoldable pub with_reference : ByteString → TransactionBuilder → TransactionBuilder
with_reference ref b = record b { reference = ref }

unfoldable pub with_idempotency_key : ByteString → TransactionBuilder → TransactionBuilder
with_idempotency_key key b = record b { ik = key }

-- The assignment to a key of the map.
unfoldable pub with_metadata : ByteString → ByteString → TransactionBuilder → TransactionBuilder
with_metadata key value b = record b {
  metadata = (key, some (string_value value)) ∷ filter (λ e. not (str_eq e.0 key)) b.metadata;
}

unfoldable pub as_dry_run : TransactionBuilder → TransactionBuilder
as_dry_run b = record b { dry_run = true }

-- The checks of `Submit`.
unfoldable pub validate_transaction : List Posting → Bool
validate_transaction ps = not (is_empty ps) && validate_each ps

-- The intent that `Submit` sends.
unfoldable pub build : TransactionBuilder → Option Intent
build b =
    let i : Intent = record {
      header = record {
        ledger_id = b.ledger_id;
        valid_time = none;
        idempotency_key = b.ik;
        reference = b.reference;
        metadata = b.metadata;
        dry_run = b.dry_run;
      };
      operation = Operation.post b.postings;
    } in
    if validate_transaction b.postings then some i else none

-- What the option `WithIK` sets on an intent that is otherwise bare.
unfoldable pub keyed_intent : ByteString → ByteString → Operation → Intent
keyed_intent ledger_id ik operation = record {
  header = record {
    ledger_id = ledger_id;
    valid_time = none;
    idempotency_key = ik;
    reference = [];
    metadata = [];
    dry_run = false;
  };
  operation = operation;
}

-- `Authorize`, with the options `WithIK` and `WithDestinationHint`.
unfoldable pub authorize :
    ByteString
    → ByteString
    → ByteString
    → ByteString
    → Time
    → ByteString
    → ByteString
    → Option Intent
authorize ledger_id source asset amount expires_at ik hint =
    let o : AuthorizeOperation = record {
      source = source;
      destination_hint = hint;
      amount = amount;
      asset = asset;
      expires_at = some expires_at;
    } in
    if is_valid_address source && is_valid_asset asset && validate_amount amount
    then some (keyed_intent ledger_id ik (Operation.authorize o))
    else none

-- `Capture`; an empty destination is left to the server.
unfoldable pub capture :
    ByteString → ByteString → ByteString → ByteString → ByteString → Option Intent
capture ledger_id hold_id amount destination ik =
    let o : CaptureOperation = record {
      hold_id = hold_id;
      amount = amount;
      destination = destination;
    } in
    if not (is_empty hold_id)
      && validate_amount amount
      && (is_empty destination || is_valid_address destination)
    then some (keyed_intent ledger_id ik (Operation.capture o))
    else none

-- `Void`
unfoldable pub void : ByteString → ByteString → ByteString → Option Intent
void ledger_id hold_id ik =
    if is_empty hold_id then none else some (keyed_intent ledger_id ik (Operation.void hold_id))

-- `Revert`
unfoldable pub revert : ByteString → ByteString → Bool → ByteString → Intent
revert ledger_id tx_id force ik = keyed_intent ledger_id ik (
    Operation.revert (record {
      original_transaction_id = tx_id;
      force = force;
      at_effective_date = false;
      reason = [];
    }))

-- `Amend`
unfoldable pub amend : ByteString → ByteString → MetadataMap → ByteString → Intent
amend ledger_id tx_id changes ik =
    keyed_intent ledger_id ik
      (Operation.amend (record { original_transaction_id = tx_id; metadata_changes = changes }))

-- `Convert`: slippage is checked where an amount is given.
unfoldable pub convert : ByteString → ConvertOperation → ByteString → Option Intent
convert ledger_id o ik =
    if is_valid_address o.source
      && is_valid_address o.destination
      && is_valid_asset o.source_asset
      && is_valid_asset o.destination_asset
      && validate_amount o.source_amount
      && validate_amount o.destination_amount
      && (is_empty o.slippage_amount
          || (is_valid_address o.slippage_account && validate_amount o.slippage_amount))
    then some (keyed_intent ledger_id ik (Operation.convert o))
    else none
