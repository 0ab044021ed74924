-- ===== src/Api/Service.antt =====
-- The writing methods of the ledger service (internal/api/grpc/service.go).
use fincore_ledger.Prelude.{
  ℕ, ◌*◌, ByteString, codes, Bool, true, false, Option, none, some, List, [], ◌∷◌, ◌++◌, ◌&&◌, not,
  str_eq, any, find?, is_empty, if◌then◌else◌,
}
use fincore_ledger.Policy.{
  Request, Rule, deny, match_pattern, rule_denies, parse_line, lines_of, trim_space,
}
use fincore_ledger.Storage.Records.{
  Error, Metadata, Payload, LedgerRecord, TransactionRecord, PolicyRecord,
}
use fincore_ledger.Storage.World.{World, Act, Result, ok, err, done, gets, attempt}
use fincore_ledger.Storage.World
use fincore_ledger.Storage.Governance
use fincore_ledger.Planner.Inputs.{Host, BatchIntent, SubmitResult}
use fincore_ledger.Planner.Policies
use fincore_ledger.Planner.Approval
use fincore_ledger.Api.Status.{
  Rpc, Code, respond, refuse, refuse_if, present, lift, map_planner_error, missing_or_internal,
  exists_or_internal, ◌>>=◌, ◌>>◌,
}
use fincore_ledger.Api.Auth.{Context, Identity, can_access_ledger}
use fincore_ledger.Api.Wire.{
  Any, Intent, Header, Operation, post, authorize, capture, void, convert, batch, revert, amend,
  set_metadata, delete_metadata, insert_schema, unset, classify_intent, SubmitResponse,
}
use fincore_ledger.Api.Intents
use fincore_ledger.Api.Nested.{handle_batch}

-- What the services are started with, and the library functions that they call: the texts of
-- metadata values, `json.Unmarshal` of a stored intent, `json.Valid`, and `json.Marshal` of payloads.
pub record Server : Type 0 where
  pub host : Host
  pub decode : ByteString → Option BatchIntent
  pub represent : Any → ByteString
  pub json_valid : ByteString → Bool
  pub payload_text : Payload → ByteString
  pub admin_principals : List ByteString

unfoldable pub authorize_identity : Option Identity → ByteString → Rpc (Unit {0})
authorize_identity none ledger_id = refuse Code.unauthenticated
authorize_identity (some i) ledger_id =
    refuse_if (not (can_access_ledger i ledger_id)) Code.permission_denied

-- `authorizeLedger`
unfoldable pub authorize_ledger : Context → ByteString → Rpc (Unit {0})
authorize_ledger ctx ledger_id = authorize_identity ctx.identity ledger_id

-- `requireImportExportAuthz`
unfoldable pub require_import_export_authz : Server → ByteString → Rpc (Unit {0})
require_import_export_authz s principal =
    refuse_if (not (any (str_eq principal) s.admin_principals)) Code.permission_denied

unfoldable pub named_principal : ByteString → Rpc ByteString
named_principal p = if is_empty p then refuse Code.unauthenticated else respond p

unfoldable pub principal_of : Option ByteString → Rpc ByteString
unfolding named_principal
principal_of none = refuse Code.unauthenticated
principal_of (some p) = named_principal p

-- `extractPrincipal`
unfoldable pub extract_principal : Context → Rpc ByteString
extract_principal ctx = principal_of ctx.principal

unfoldable pub create_ledger : Context → ByteString → ByteString → Metadata → Rpc LedgerRecord
create_ledger ctx id bucket_id metadata = do
  authorize_ledger ctx id
  lift exists_or_internal (Governance.create_ledger id bucket_id metadata)

unfoldable pub seal_ledger : Context → ByteString → Rpc LedgerRecord
seal_ledger ctx id = do
  authorize_ledger ctx id
  lift missing_or_internal (Governance.seal_ledger id)

unfoldable pub touched_account : ByteString → List ByteString → ByteString
touched_account pattern [] = []
touched_account pattern (a ∷ rest) =
    let later = touched_account pattern rest in if match_pattern pattern a then a else later

unfoldable pub rule_reason : ByteString → Request → Rule → ByteString
rule_reason line q (deny p o a rest) =
    if str_eq a (codes "*")
    then codes "denied by rule: " ++ line
    else codes "denied by rule: "
      ++ line
      ++ codes " (account "
      ++ touched_account a q.accounts
      ++ codes ")"
rule_reason line q r = codes "blanket deny policy"

-- The reason that `Evaluate` gives: that of the first rule that denies.
unfoldable pub reason_of : Request → List ByteString → ByteString
reason_of q [] = []
reason_of q (l ∷ ls) =
    let later = reason_of q ls in
    if rule_denies q (parse_line l) then rule_reason (trim_space l) q (parse_line l) else later

unfoldable pub stored_reason : Request → Option PolicyRecord → ByteString
stored_reason q none = []
stored_reason q (some p) = reason_of q (lines_of p.cedar_policy)

-- The text of the error that wraps a denial.
unfoldable pub denial_text : ByteString → Request → World → ByteString
denial_text ledger_id q w =
    codes "policy denied: "
    ++ stored_reason q
        (find? (λ p. Governance.is_policy_of ledger_id p && p.active) w.tables.policies)

-- A denial writes its event, whose own failure is only logged; another error writes nothing.
unfoldable pub audit_denial : ByteString → ByteString → ByteString → Error → Act (Unit {0})
audit_denial ledger_id principal reason Error.policy_denied =
    World.◌>>◌ (attempt (Policies.write_policy_denial_event ledger_id principal reason)) (done tt)
audit_denial ledger_id principal reason e = done tt

unfoldable pub allow_or_deny :
    ByteString → ByteString → ByteString → Result (Unit {0}) → Rpc (Unit {0})
unfolding audit_denial
allow_or_deny ledger_id principal reason (ok u) = respond tt
allow_or_deny ledger_id principal reason (err e) =
    World.◌>>◌ (audit_denial ledger_id principal reason e) (refuse (map_planner_error e))

-- The policy check of `Submit`. The text of the error is that of the policy it was made from.
unfoldable pub enforce_policy : ByteString → Request → Rpc (Unit {0})
unfolding allow_or_deny
enforce_policy ledger_id q = World.◌>>=◌ (gets (denial_text ledger_id q)) λ reason.
    World.◌>>=◌ (attempt (Policies.evaluate_policy ledger_id q))
      (allow_or_deny ledger_id q.principal reason)

module _ (s : Server) where
  -- The switch over the operation.
  unfoldable pub dispatch : Header → Operation → Rpc SubmitResponse
  dispatch h (post ps) = Intents.handle_post s.host s.represent h ps
  dispatch h (set_metadata o) = Intents.handle_set_metadata s.host s.represent h o
  dispatch h (delete_metadata o) = Intents.handle_delete_metadata s.host s.represent h o
  dispatch h (insert_schema o) = Intents.handle_insert_schema s.host s.represent h o
  dispatch h (authorize o) = Intents.handle_authorize s.host s.represent h o
  dispatch h (capture o) = Intents.handle_capture s.host s.represent h o
  dispatch h (void hold_id) = Intents.handle_void s.host s.represent h hold_id
  dispatch h (revert o) = Intents.handle_revert s.host s.represent h o
  dispatch h (amend o) = Intents.handle_amend s.host s.represent h o
  dispatch h (batch mode is) = handle_batch s.host s.represent h mode is
  dispatch h (convert o) = Intents.handle_convert s.host s.represent h o
  dispatch h unset = refuse Code.unimplemented

  unfoldable pub submit_intent : Context → Intent → Rpc SubmitResponse
  submit_intent ctx i = do
    refuse_if (is_empty i.header.ledger_id) Code.invalid_argument
    principal ← extract_principal ctx
    authorize_ledger ctx i.header.ledger_id
    enforce_policy i.header.ledger_id (record {
      principal = principal;
      operation = (classify_intent i.operation).0;
      accounts = (classify_intent i.operation).1;
    })
    dispatch i.header i.operation

  -- `Submit`
  unfoldable pub submit : Context → Option Intent → Rpc SubmitResponse
  submit ctx intent = present Code.invalid_argument intent >>= submit_intent ctx

  abbrev pub nanoseconds_per_second : ℕ
  nanoseconds_per_second = 1000000000

  -- `SubmitForApproval`; the seconds are taken not to be negative nor to overflow.
  unfoldable pub submit_for_approval :
      Context → ByteString → ByteString → List ByteString → ℕ → Rpc ByteString
  submit_for_approval ctx ledger_id payload required seconds = do
    refuse_if (is_empty ledger_id) Code.invalid_argument
    refuse_if (is_empty payload) Code.invalid_argument
    refuse_if (is_empty required) Code.invalid_argument
    submitted_by ← extract_principal ctx
    authorize_ledger ctx ledger_id
    lift map_planner_error (
        Approval.submit_for_approval s.host ledger_id payload required submitted_by
          (seconds * nanoseconds_per_second))

  pub record ApproveResponse : Type 0 where
    pub fully_approved : Bool
    pub event_id : ByteString
    pub transaction : Option TransactionRecord

  -- An answer with another id than the intent's is that of an execution.
  unfoldable pub approve_response : ByteString → SubmitResult → ApproveResponse
  approve_response intent_id r =
      let executed : ApproveResponse = record {
        fully_approved = true;
        event_id = r.event_id;
        transaction = r.transaction;
      } in
      let waiting : ApproveResponse = record {
        fully_approved = false;
        event_id = [];
        transaction = none;
      } in
      if is_empty r.event_id
      then waiting
      else if str_eq r.event_id intent_id
      then waiting
      else executed

  -- `ApproveIntent`
  unfoldable pub approve_intent :
      Context → ByteString → ByteString → ByteString → Rpc ApproveResponse
  approve_intent ctx ledger_id intent_id signature = do
    refuse_if (is_empty ledger_id) Code.invalid_argument
    refuse_if (is_empty intent_id) Code.invalid_argument
    principal ← extract_principal ctx
    authorize_ledger ctx ledger_id
    r ←
        lift map_planner_error
          (Approval.approve s.host s.decode ledger_id intent_id principal signature)
    respond (approve_response intent_id r)
