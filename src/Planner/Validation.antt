-- ===== src/Planner/Validation.antt =====
-- The checks on inputs (`validatePostings`, `validateConvertParams`, the positive amounts) and
-- `reversePostings` of internal/planner/operations_shared.go. A check that fails ends in an error
-- without a sentinel, so each check is a test.
use fincore_ledger.Prelude.{
  Bool, true, false, Option, none, some, List, [], ◌∷◌, ◌&&◌, ◌||◌, not, str_eq, is_empty,
}
use fincore_ledger.Prelude.Int.{ℤ, pos}
use fincore_ledger.Accounts.{is_valid_address}
use fincore_ledger.Assets.{is_valid_asset}
use fincore_ledger.Bigamount.{is_positive, from_string}
use fincore_ledger.Storage.Records.{PostingRecord}
use fincore_ledger.Planner.Inputs.{Host, PostingInput, ConvertParams}

-- `amount == nil || amount.Sign() <= 0` is the error.
unfoldable pub is_positive_amount : Option ℤ → Bool
unfolding is_positive
is_positive_amount none = false
is_positive_amount (some a) = is_positive a

-- The value behind a pointer that a check has found not nil; a nil one would be a panic.
abbrev pub deref : Option ℤ → ℤ
deref none = pos 0
deref (some a) = a

unfoldable pub is_valid_posting : PostingInput → Bool
unfolding is_positive_amount
is_valid_posting p =
    is_valid_address p.source
    && is_valid_address p.destination
    && is_valid_asset p.asset
    && is_positive_amount p.amount

unfoldable pub all_valid : List PostingInput → Bool
unfolding is_valid_posting
all_valid [] = true
all_valid (p ∷ ps) = is_valid_posting p && all_valid ps

unfoldable pub validate_postings : List PostingInput → Bool
unfolding all_valid
validate_postings [] = false
validate_postings (p ∷ ps) = all_valid (p ∷ ps)

unfoldable pub validate_convert_params : Host → ConvertParams → Bool
unfolding is_positive_amount
validate_convert_params host c =
    is_valid_address c.source
    && is_valid_address c.destination
    && is_valid_asset c.source_asset
    && is_valid_asset c.dest_asset
    && (is_empty c.slippage_account || is_valid_address c.slippage_account)
    && is_positive_amount c.source_amount
    && is_positive_amount c.dest_amount
    && not (str_eq c.source_asset c.dest_asset)
    && (is_empty c.rate || host.is_float c.rate)

abbrev pub prepend {ℓ} : {A : Type ℓ} → A → Option (List A) → Option (List A)
prepend a none = none
prepend a (some as') = some (a ∷ as')

unfoldable pub reverse_all : List PostingRecord → Option (List PostingInput)
reverse_all [] = some []
reverse_all (p ∷ ps) =
    let rest = reverse_all ps in
    elim (from_string p.amount) [
      | none ↦ none
      | some a ↦
          prepend
            (record {
              source = p.destination;
              destination = p.source;
              amount = some a;
              asset = p.asset;
            })
            rest
    ]

-- `reversePostings`: `none` is an error.
unfoldable pub reverse_postings : List PostingRecord → Option (List PostingInput)
unfolding reverse_all
reverse_postings [] = none
reverse_postings (p ∷ ps) = reverse_all (p ∷ ps)
