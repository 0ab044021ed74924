-- ===== src/Sdk/Agreement.antt =====
-- The checks of the client (pkg/sdk/validate.go, transaction.go) against those of the server
-- (internal/api/grpc/service.go, handlePost; internal/planner/operations_post.go).
use fincore_ledger.Prelude.{
  ◌≡◌, refl, sym, ap, ◌∙◌, ByteString, Bool, true, false, Option, none, some, List, [], ◌∷◌, ◌&&◌,
  not,
}
use fincore_ledger.Prelude.Int.{ℤ}
use fincore_ledger.Bigamount.{from_string}
use fincore_ledger.Accounts.{is_valid_address}
use fincore_ledger.Assets.{is_valid_asset}
use fincore_ledger.Storage.Records.{Error, invalid}
use fincore_ledger.Storage.World.{World, Act, Result, ok, err, done, fail_if, attempt, continue}
use fincore_ledger.Storage.World
use fincore_ledger.Planner.Inputs.{Host, PostingInput}
use fincore_ledger.Planner.Validation.{
  validate_postings, all_valid, is_valid_posting, is_positive_amount,
}
use fincore_ledger.Planner.Operations.{submit_post}
use fincore_ledger.Api.Status.{
  Reply, answer, status, Rpc, Code, lift, reply_of, present, respond, map_planner_error, proceed,
  ◌>>=◌,
}
use fincore_ledger.Api.Wire.{Any, Posting, Header}
use fincore_ledger.Api.Intents.{set_string, posting_inputs, handle_post}
use fincore_ledger.Sdk.Client.{
  positive_amount, validate_amount, validate_posting, validate_each, validate_transaction,
}
use fincore_ledger.Tenancy.{Refuses, Refuses-then, Refuses-given}

abbrev pub input_of : Posting → ℤ → PostingInput
input_of p a = record {
  source = p.source;
  destination = p.destination;
  amount = some a;
  asset = p.asset;
}

abbrev pub join_input : Posting → Option ℤ → Option (List PostingInput) → Option (List PostingInput)
join_input p none rest = none
join_input p (some a) none = none
join_input p (some a) (some qs) = some (input_of p a ∷ qs)

-- The postings with their amounts read, where every amount is a number.
unfoldable pub inputs_of : List Posting → Option (List PostingInput)
inputs_of [] = some []
inputs_of (p ∷ ps) = let rest = inputs_of ps in join_input p (from_string p.amount) rest

abbrev pub reply_to : Option (List PostingInput) → Reply (List PostingInput)
reply_to none = status Code.invalid_argument
reply_to (some qs) = answer qs

abbrev pub accepts : Option (List PostingInput) → Bool
accepts none = false
accepts (some qs) = validate_postings qs

abbrev pub accepts_each : Option (List PostingInput) → Bool
accepts_each none = false
accepts_each (some qs) = all_valid qs

never_read : (a v : Bool) → a && false && v ≡ false
never_read true v = refl
never_read false v = refl

none_behind : (a v : Bool) → v ≡ false → a && v ≡ false
none_behind true v h = h
none_behind false v h = refl

join_step :
    (p : Posting) (o : Option ℤ) (r : Option (List PostingInput)) (v : Bool)
    → v ≡ accepts_each r
    → (is_valid_address p.source
          && is_valid_address p.destination
          && is_valid_asset p.asset
          && positive_amount o)
        && v
      ≡ accepts_each (join_input p o r)
unfolding positive_amount all_valid is_valid_posting is_positive_amount
join_step p none r v k = never_read _ v
join_step p (some x) none v k = none_behind _ v k
join_step p (some x) (some qs) v k = ap (λ v. is_valid_posting (input_of p x) && v) k

validate_each-accepts : (ps : List Posting) → validate_each ps ≡ accepts_each (inputs_of ps)
unfolding validate_each validate_posting validate_amount inputs_of all_valid
validate_each-accepts [] = refl
validate_each-accepts (p ∷ ps) =
    join_step p (from_string p.amount) (inputs_of ps) _ (validate_each-accepts ps)

accepts_more :
    (p : Posting) (o : Option ℤ) (r : Option (List PostingInput))
    → accepts_each (join_input p o r) ≡ accepts (join_input p o r)
unfolding validate_postings
accepts_more p none r = refl
accepts_more p (some x) none = refl
accepts_more p (some x) (some qs) = refl

-- The client accepts the postings of a transaction exactly where their amounts are numbers and the
-- planner's validation accepts the postings with those numbers.
pub validate_transaction-accepts :
    (ps : List Posting) → validate_transaction ps ≡ accepts (inputs_of ps)
unfolding validate_transaction validate_each inputs_of validate_postings
validate_transaction-accepts [] = refl
validate_transaction-accepts (p ∷ ps) =
    validate_each-accepts (p ∷ ps) ∙ accepts_more p (from_string p.amount) (inputs_of ps)

read_step :
    (p : Posting) (o : Option ℤ) (r : Option (List PostingInput)) (m : Rpc (List PostingInput))
    (w : World)
    → m w ≡ (ok (reply_to r), w)
    → (present Code.invalid_argument o >>= λ a. m >>= λ rest. respond (input_of p a ∷ rest)) w
      ≡ (ok (reply_to (join_input p o r)), w)
unfolding ◌>>=◌ World.◌>>=◌ present proceed done
read_step p none r m w e = refl
read_step p (some x) none m w e =
    ap (λ o. continue o.0 (proceed (λ rest. respond (input_of p x ∷ rest))) o.1) e
read_step p (some x) (some qs) m w e =
    ap (λ o. continue o.0 (proceed (λ rest. respond (input_of p x ∷ rest))) o.1) e

-- The server reads the postings of a transaction, or refuses an amount that is no number.
pub posting_inputs-read :
    (ps : List Posting) (w : World) → posting_inputs ps w ≡ (ok (reply_to (inputs_of ps)), w)
unfolding posting_inputs set_string inputs_of done
posting_inputs-read [] w = refl
posting_inputs-read (p ∷ ps) w =
    read_step p (from_string p.amount) (inputs_of ps) (posting_inputs ps) w
      (posting_inputs-read ps w)

failing_guard :
    {A : Type 0} (b : Bool) (f : Unit {0} → Act A) (w : World)
    → b ≡ false
    → World.◌>>=◌ (fail_if (not b) invalid) f w ≡ (err invalid, w)
unfolding World.◌>>=◌ fail_if
failing_guard true f w e = cc
failing_guard false f w e = refl

lift_failed :
    {A : Type 0} (f : Error → Code) (m : Act A) (e : Error) (w : World)
    → m w ≡ (err e, w)
    → lift f m w ≡ (ok (status (f e)), w)
unfolding lift attempt reply_of World.◌>>=◌ done
lift_failed f m e w p = ap (λ o. let (r, w') = o in reply_of f r w') p

refused_post :
    (host : Host) (rep : Any → ByteString) (h : Header) (o : Option (List PostingInput))
    (ps : List Posting) (w : World)
    → posting_inputs ps w ≡ (ok (reply_to o), w)
    → accepts o ≡ false
    → Refuses (handle_post host rep h ps) w
unfolding handle_post submit_post
refused_post host rep h none ps w e b =
    Refuses-then (posting_inputs ps) _ w (Code.invalid_argument, e)
refused_post host rep h (some qs) ps w e b = Refuses-given (posting_inputs ps) _ w qs e (
    Refuses-then _ _ w (
      map_planner_error invalid,
      lift_failed map_planner_error _ invalid w (failing_guard (validate_postings qs) _ w b),
    ))

-- A transaction that the client refuses to send is one that the server's handler of posts, which runs
-- behind the checks on the caller and the policy, refuses, and leaves the state alone.
pub rejected-refused :
    (host : Host) (rep : Any → ByteString) (h : Header) (ps : List Posting) (w : World)
    → validate_transaction ps ≡ false
    → Refuses (handle_post host rep h ps) w
rejected-refused host rep h ps w e =
    refused_post host rep h (inputs_of ps) ps w (posting_inputs-read ps w)
      (sym (validate_transaction-accepts ps) ∙ e)
