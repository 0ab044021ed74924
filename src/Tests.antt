-- ===== src/Tests.antt =====
-- Concrete runs: a ledger with one posting, and each property at it.
mod Fixtures
mod Serving
mod Clients
mod Sweeping
mod Replaying
use fincore_ledger.Tests.Fixtures.{host, decode, no_tables, fresh, main_ledger, funding, commands}
use fincore_ledger.Prelude.{
  ◌≡◌, refl, ByteString, codes, false, Option, none, some, List, [], ◌∷◌, arith, str_eq,
}
use fincore_ledger.Prelude.Int.{pos, negsuc}
use fincore_ledger.Bigamount.{to_string, digits, from_string, is_positive}
use fincore_ledger.Bigamount.RoundTrip.{from_string-to_string}
use fincore_ledger.Storage.Records.{LedgerRecord, AccountRecord, PendingApprovalRecord}
use fincore_ledger.Storage.World.{World, Tables, Act}
use fincore_ledger.Storage.Volumes.{sum_input, sum_output}
use fincore_ledger.Storage.EventType
use fincore_ledger.Planner.Validation.{is_positive_amount}
use fincore_ledger.Planner.Inputs.{Host, PostingInput, ConvertParams, BatchIntent, SubmitResult}
use fincore_ledger.Planner.Events.{Times, no_key}
use fincore_ledger.Planner.Post.{do_post_in_tx}
use fincore_ledger.Planner.Submit.{submit_with_idempotency}
use fincore_ledger.Planner.Batch.{submit_all, run_all, execute_intent, submit_batch}
use fincore_ledger.Planner.Convert.{has_slippage, do_convert_in_tx}
use fincore_ledger.Planner.Metadata.{remove_metadata}
use fincore_ledger.System.{Command, create_ledger, post, seal_ledger, run}
use fincore_ledger.Safety.Rules.{OnOk}
use fincore_ledger.Safety.Balance.{Balanced, total_input, total_output, run-Balanced}
use fincore_ledger.Safety.Gapless.{Gapless, is_numbered, run-Gapless}
use fincore_ledger.Atomicity.{
  OnErr, AllOrNothing, submit_with_idempotency-atomic, submit_all-atomic,
}
use fincore_ledger.Conversions.{do_convert_in_tx-refused}
use fincore_ledger.Sealing.{is_sealed, execute_intent-refused, submit_batch-refused}
use fincore_ledger.Batches.Merkle.{compute_root}
use fincore_ledger.Batches.Roots.{flatten, compute_root-total, compute_root-doubled}
use fincore_ledger.Approvals.{Justified, approve_in_tx-Justified}
use fincore_ledger.Planner.Approval.{approve_in_tx}
use fincore_ledger.Safety.Hoare.{Returns}
use fincore_ledger.Storage.Governance.{is_ledger}
use fincore_ledger.Planner.Hashing.{before, post_hash}
use fincore_ledger.Framing.{post_hash-collides, frame_fields-injective, leaf_preimage-injective}
use fincore_ledger.Erasure.{value_at, remove_metadata-kept}

run-Balanced_example : Balanced (run host decode commands fresh).tables
unfolding total_input total_output sum_input sum_output
run-Balanced_example = run-Balanced host decode commands fresh (λ l a. refl)

run-Gapless_example : Gapless (run host decode commands fresh).tables
unfolding is_numbered
run-Gapless_example = run-Gapless host decode commands fresh (λ l. refl)

abbrev times : Times
times = record { valid = 1000; now = 1000 }

abbrev first_post : Act SubmitResult
first_post = do_post_in_tx host main_ledger (funding ∷ []) [] [] no_key times false

submit_with_idempotency-atomic_example : OnErr (AllOrNothing first_post no_tables) (
    submit_with_idempotency host
      (codes "main")
      no_key
      EventType.transaction_posted
      false
      first_post
      fresh)
submit_with_idempotency-atomic_example =
    submit_with_idempotency-atomic host (codes "main") no_key EventType.transaction_posted false
      first_post fresh

abbrev deletion : BatchIntent
deletion = record {
  intent_type = codes "void";
  postings = [];
  reference = [];
  metadata = [];
  idempotency_key = [];
  source = [];
  destination_hint = [];
  asset = [];
  amount = none;
  expires_at = 0;
  hold_id = codes "missing";
  destination = [];
  original_tx_id = [];
  force = false;
  at_effective_date = false;
  reason = [];
  convert_params = none;
  target_type = 0;
  target_id = [];
  metadata_key = [];
}

submit_all-atomic_example :
    OnErr
      (AllOrNothing (run_all host (codes "main") (deletion ∷ []) []) no_tables)
      (submit_all host (codes "main") (deletion ∷ []) fresh)
submit_all-atomic_example = submit_all-atomic host (codes "main") (deletion ∷ []) fresh

from_string-to_string_example : from_string (to_string (negsuc 41)) ≡ some (negsuc 41)
from_string-to_string_example = from_string-to_string (negsuc 41)

abbrev opened : World
opened = record fresh { tables = record no_tables { ledgers = main_ledger ∷ [] } }

abbrev exchange : ConvertParams
exchange = record {
  source = codes "_world";
  destination = codes "fx";
  source_amount = some (pos 100);
  source_asset = codes "USD/2";
  dest_amount = some (pos 90);
  dest_asset = codes "EUR/2";
  rate = codes "0.9";
  rate_source = codes "desk";
  slippage_account = codes "slippage";
  slippage_amount = some (pos 1);
  valid_time = none;
}

do_convert_in_tx-refused_example :
    OnOk (λ _. ⊥) (do_convert_in_tx host main_ledger exchange no_key times opened)
unfolding has_slippage is_positive_amount is_positive
do_convert_in_tx-refused_example =
    do_convert_in_tx-refused host main_ledger exchange no_key times opened refl

abbrev owner : AccountRecord
owner = record {
  ledger_id = codes "main";
  address = codes "users:1";
  first_usage = 1;
  updated_at = 1;
  metadata = (codes "tier", codes "gold") ∷ [];
}

abbrev held : World
held = record fresh { tables = record no_tables { accounts = owner ∷ [] } }

remove_metadata-kept_example :
    value_at
      (codes "tier")
      (codes "main")
      (codes "users:1")
      (remove_metadata
        (codes "main")
        0
        (codes "users:1")
        (codes "tier")
        1000
        held).1.tables.accounts
    ≡ some (codes "gold")
unfolding value_at str_eq
remove_metadata-kept_example =
    remove_metadata-kept (codes "main") (codes "users:1") (codes "tier") 1000 held (codes "main")
      (codes "users:1")

abbrev shut : World
shut = record fresh {
  tables = record no_tables { ledgers = record main_ledger { state = codes "sealed" } ∷ [] };
}

execute_intent-refused_example : OnOk (λ _. ⊥) (execute_intent host (codes "main") deletion shut)
unfolding is_sealed is_ledger str_eq
execute_intent-refused_example = execute_intent-refused host (codes "main") deletion shut refl

submit_batch-refused_example :
    OnOk (λ _. ⊥) (submit_batch host (codes "main") (deletion ∷ []) (codes "BEST_EFFORT") shut)
unfolding is_sealed is_ledger str_eq
submit_batch-refused_example =
    submit_batch-refused host (codes "main") (deletion ∷ []) (codes "BEST_EFFORT") shut refl

compute_root-total_example :
    (root : ByteString) × (compute_root (λ x. x) ((1 ∷ []) ∷ (2 ∷ []) ∷ (3 ∷ []) ∷ []) ≡ some root)
compute_root-total_example = compute_root-total (λ x. x) (1 ∷ []) ((2 ∷ []) ∷ (3 ∷ []) ∷ [])

abbrev waiting : PendingApprovalRecord
waiting = record {
  ledger_id = codes "main";
  intent_id = codes "intent";
  intent_payload = [];
  intent_hash = [];
  required_approvers = codes "ann" ∷ codes "bob" ∷ [];
  received_approvals = [];
  expires_at = 5000;
  state = codes "pending";
  submitted_at = 1000;
  submitted_by = codes "eve";
  executing_at = none;
}

abbrev asked : World
asked = record fresh { tables = record no_tables { approvals = waiting ∷ [] } }

approve_in_tx-Justified_example :
    Returns
      (Justified (codes "main") (codes "intent") (codes "ann") asked.tables)
      (approve_in_tx (codes "main") (codes "intent") (codes "ann") (codes "sig") asked)
approve_in_tx-Justified_example =
    approve_in_tx-Justified (codes "main") (codes "intent") (codes "ann") (codes "sig") asked

frame_fields-injective_example : (codes "void" ∷ []) ≡ (codes "void" ∷ [])
frame_fields-injective_example =
    frame_fields-injective (codes "void" ∷ []) (codes "void" ∷ []) (omega arith, tt)
      (omega arith, tt) refl

leaf_preimage-injective_example :
    (codes "id" ≡ codes "id")
    × (codes "time" ≡ codes "time")
    × (codes "type" ≡ codes "type")
    × (codes "payload" ≡ codes "payload")
leaf_preimage-injective_example =
    leaf_preimage-injective (codes "id") (codes "time") (codes "type") (codes "payload")
      (codes "id") (codes "time") (codes "type") (codes "payload")
      (omega arith, (omega arith, (omega arith, (omega arith, tt))))
      (omega arith, (omega arith, (omega arith, (omega arith, tt)))) refl

abbrev transfer : PostingInput
transfer = record {
  source = codes "1";
  destination = codes "b";
  amount = some (pos 5);
  asset = codes "USD";
}

post_hash-collides_example :
    post_hash host (codes "main") (funding ∷ transfer ∷ []) [] [] none
    ≡ post_hash host
        (codes "main")
        (funding ∷ [])
        []
        ((codes "1", codes "b") ∷ (to_string (pos 5), codes "USD") ∷ [])
        none
unfolding before to_string digits str_eq
post_hash-collides_example =
    post_hash-collides host (codes "main") (funding ∷ []) transfer [] none refl refl

compute_root-doubled_example :
    compute_root (λ x. x) ((1 ∷ []) ∷ (2 ∷ []) ∷ (3 ∷ []) ∷ [])
    ≡ compute_root (λ x. x) ((1 ∷ []) ∷ (2 ∷ []) ∷ (3 ∷ []) ∷ (3 ∷ []) ∷ [])
unfolding flatten
compute_root-doubled_example = compute_root-doubled (λ x. x) (1 ∷ []) (2 ∷ []) [] (3 ∷ [])
