-- ===== src/Api/Status.antt =====
-- The answers of a gRPC method and the translation of the planner's errors
-- (internal/api/grpc/converters.go). A handler is an action that never fails: its outcome is an
-- answer or a status, and a status ends the handler at once. The text of a status is left out.
use fincore_ledger.Prelude.{Bool, true, false, Option, none, some}
use fincore_ledger.Storage.Records.{
  Error, not_found, already_exists, insufficient_funds, invalid_idempotency_input,
  idempotency_key_conflict, ledger_sealed, transaction_reference_conflict, already_reverted,
  deadlock, policy_denied, hold_expired, hold_voided, approval_expired, invalid, violation, driver,
  lost,
}
use fincore_ledger.Storage.World.{Act, Result, ok, err, done, attempt}
use fincore_ledger.Storage.World

-- The codes of google.golang.org/grpc/codes that the services answer with.
pub data Code : Type 0 where
  ok_code invalid_argument missing exists permission_denied unauthenticated : Code
  failed_precondition aborted resource_exhausted unimplemented internal : Code

pub data Reply (A : Type 0) : Type 0 where
  answer : A → Reply A
  status : Code → Reply A

abbrev pub Rpc : Type 0 → Type 0
Rpc A = Act (Reply A)

module _ {A B : Type 0} where
  unfoldable pub proceed : (A → Rpc B) → Reply A → Rpc B
  proceed f (answer a) = f a
  proceed f (status c) = done (status c)

  infixl 5 ◌>>=◌
  unfoldable pub ◌>>=◌ : Rpc A → (A → Rpc B) → Rpc B
  unfolding proceed
  m >>= f = World.◌>>=◌ m (proceed f)

infixl 5 ◌>>◌
abbrev pub ◌>>◌ : {A B : Type 0} → Rpc A → Rpc B → Rpc B
m >> k = m >>= λ _. k

abbrev pub respond : {A : Type 0} → A → Rpc A
respond a = done (answer a)

abbrev pub refuse : {A : Type 0} → Code → Rpc A
refuse c = done (status c)

unfoldable pub refuse_if : Bool → Code → Rpc (Unit {0})
refuse_if true c = refuse c
refuse_if false c = respond tt

unfoldable pub present : {A : Type 0} → Code → Option A → Rpc A
present c none = refuse c
present c (some a) = respond a

unfoldable pub reply_of : {A : Type 0} → (Error → Code) → Result A → Rpc A
reply_of f (ok a) = respond a
reply_of f (err e) = refuse (f e)

-- A call below the service, its error translated.
unfoldable pub lift : {A : Type 0} → (Error → Code) → Act A → Rpc A
unfolding reply_of
lift f m = World.◌>>=◌ (attempt m) (reply_of f)

-- `mapPlannerError`
unfoldable pub map_planner_error : Error → Code
map_planner_error insufficient_funds = failed_precondition
map_planner_error invalid_idempotency_input = failed_precondition
map_planner_error idempotency_key_conflict = aborted
map_planner_error ledger_sealed = failed_precondition
map_planner_error transaction_reference_conflict = exists
map_planner_error already_reverted = failed_precondition
map_planner_error hold_expired = failed_precondition
map_planner_error hold_voided = failed_precondition
map_planner_error policy_denied = permission_denied
map_planner_error approval_expired = failed_precondition
map_planner_error not_found = missing
map_planner_error already_exists = internal
map_planner_error deadlock = internal
map_planner_error invalid = internal
map_planner_error violation = internal
map_planner_error driver = internal
map_planner_error lost = internal

-- `isNotFound`, and the internal error of what follows it.
unfoldable pub missing_or_internal : Error → Code
missing_or_internal not_found = missing
missing_or_internal e = internal

-- `isAlreadyExists`, and the internal error of what follows it.
unfoldable pub exists_or_internal : Error → Code
exists_or_internal already_exists = exists
exists_or_internal e = internal

unfoldable pub always_internal : Error → Code
always_internal e = internal
