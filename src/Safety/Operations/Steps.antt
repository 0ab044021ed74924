-- ===== src/Safety/Operations/Steps.antt =====
-- The steps that the operations share keep an invariant of the tables
-- (internal/planner/operations_shared.go).
use fincore_ledger.Prelude.{ℕ, zero, suc, ByteString, List, [], ◌∷◌}
use fincore_ledger.Prelude.Int.{ℤ}
use fincore_ledger.Storage.Records.{LedgerRecord, HoldRecord, TransactionRecord, not_found}
use fincore_ledger.Storage.World.{Tables, Result, ok, err}
use fincore_ledger.Planner.Inputs.{PostingInput, ConvertParams}
use fincore_ledger.Planner.Holds
use fincore_ledger.Planner.Convert
use fincore_ledger.Planner.Revert
use fincore_ledger.Planner.Metadata
use fincore_ledger.Safety.Cores.{Preserves-available}
use fincore_ledger.Safety.Rules.{
  Preserves, preserves_rules, Preserves-bind, Preserves-if, Preserves-done, Preserves-fail,
  Preserves-attempt,
}
use fincore_ledger.Safety.Frame.{Preserves-get_transaction, Preserves-find_account}

module _ {Good : Tables → Type 0} where
  pub Preserves-check_available :
      (ledger : LedgerRecord) (s a : ByteString) (x : ℤ)
      → Preserves Good (Holds.check_available ledger s a x)
  unfolding Holds.check_available
  Preserves-check_available ledger s a x = search (preserves_rules, Preserves-available)

  pub Preserves-check_source :
      (ledger : LedgerRecord) (c : ConvertParams) → Preserves Good (Convert.check_source ledger c)
  unfolding Convert.check_source
  Preserves-check_source ledger c = search (preserves_rules, Preserves-available)

  pub Preserves-check_open : (h : HoldRecord) → Preserves Good (Holds.check_open h)
  unfolding Holds.check_open
  Preserves-check_open h = search preserves_rules

  Preserves-check_reversed_posting :
      (l : ByteString) (p : PostingInput) → Preserves Good (Revert.check_reversed_posting l p)
  unfolding Revert.check_reversed_posting
  Preserves-check_reversed_posting l p = search (preserves_rules, Preserves-available)

  pub Preserves-check_reversed :
      (l : ByteString) (ledger : LedgerRecord) (ps : List PostingInput)
      → Preserves Good (Revert.check_reversed l ledger ps)
  unfolding Revert.check_reversed
  Preserves-check_reversed l ledger [] = Preserves-done _
  Preserves-check_reversed l ledger (p ∷ ps) =
      Preserves-bind _ _
        (Preserves-if _ _ _ (Preserves-done _) (Preserves-check_reversed_posting l p))
        (λ _. Preserves-check_reversed l ledger ps)

  Preserves-metadata_after :
      (r : Result TransactionRecord) → Preserves Good (Metadata.metadata_after r)
  unfolding Metadata.metadata_after
  Preserves-metadata_after (ok r) = Preserves-done _
  Preserves-metadata_after (err e) =
      elim e as (λ e. Preserves Good (Metadata.metadata_after (err e))) [
        | not_found ↦ Preserves-done _
        | x ↦ Preserves-fail x
      ]

  pub Preserves-unless_missing :
      (r : Result (Unit {0})) → Preserves Good (Metadata.unless_missing r)
  unfolding Metadata.unless_missing
  Preserves-unless_missing (ok r) = Preserves-done _
  Preserves-unless_missing (err e) =
      elim e as (λ e. Preserves Good (Metadata.unless_missing (err e))) [
        | not_found ↦ Preserves-done _
        | x ↦ Preserves-fail x
      ]

  pub Preserves-snapshot :
      (l : ByteString) (n : ℕ) (i : ByteString) → Preserves Good (Metadata.snapshot l n i)
  unfolding Metadata.snapshot
  Preserves-snapshot l zero i =
      Preserves-bind _ _ (Preserves-find_account _ _) (λ _. Preserves-done _)
  Preserves-snapshot l (suc zero) i =
      Preserves-bind _ _ (Preserves-attempt _ (Preserves-get_transaction _ _))
        Preserves-metadata_after
  Preserves-snapshot l (suc (suc n)) i = Preserves-done _
