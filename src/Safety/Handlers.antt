-- ===== src/Safety/Handlers.antt =====
-- The invariants of the frame, for the writing methods of the ledger service
-- (internal/api/grpc/service.go).
use fincore_ledger.Prelude.{ℕ, ByteString, Option, none, some, List, [], ◌∷◌}
use fincore_ledger.Policy.{Request}
use fincore_ledger.Storage.Records.{Error, Metadata, PolicyRecord}
use fincore_ledger.Storage.World.{Tables, Result, ok, err}
use fincore_ledger.Storage.Governance
use fincore_ledger.Planner.Inputs.{Host}
use fincore_ledger.Planner.Policies
use fincore_ledger.Api.Auth.{Context, Identity}
use fincore_ledger.Api.Wire
use fincore_ledger.Api.Intents
use fincore_ledger.Api.Nested
use fincore_ledger.Api.Service
use fincore_ledger.Api.Service.{Server}
use fincore_ledger.Safety.Rules.{
  Preserves, preserves_rules, Preserves-bind, Preserves-done, Preserves-attempt,
}
use fincore_ledger.Safety.Frame.{IsInvariant}
use fincore_ledger.Safety.Rpc.{
  rpc_rules, Preserves-then, Preserves-refuse_if, Preserves-present, Preserves-lift,
}
use fincore_ledger.Safety.Commands.{
  Preserves-post, Preserves-convert, Preserves-authorize, Preserves-capture, Preserves-void,
  Preserves-revert, Preserves-amend, Preserves-set_metadata, Preserves-delete_metadata,
  Preserves-insert_schema, Preserves-batch,
}
use fincore_ledger.Safety.Governed.{
  Preserves-create_ledger, Preserves-seal_ledger, Preserves-submit_for_approval, Preserves-approve,
  Preserves-denial,
}

module _ {Good : Tables → Type 0} where
  Preserves-set_string : (x : ByteString) → Preserves Good (Intents.set_string x)
  unfolding Intents.set_string
  Preserves-set_string x = Preserves-present _ _

  Preserves-postings : (ps : List Wire.Posting) → Preserves Good (Intents.posting_inputs ps)
  unfolding Intents.posting_inputs
  Preserves-postings [] = Preserves-done _
  Preserves-postings (p ∷ ps) =
      Preserves-then _ _ (Preserves-set_string _)
        λ _. Preserves-then _ _ (Preserves-postings ps) (λ _. Preserves-done _)

  Preserves-slippage : (x : ByteString) → Preserves Good (Intents.slippage x)
  unfolding Intents.slippage
  Preserves-slippage x = search (rpc_rules, Preserves-set_string)

  Preserves-params : (o : Wire.ConvertOperation) → Preserves Good (Intents.convert_params o)
  unfolding Intents.convert_params
  Preserves-params o = search (rpc_rules, Preserves-set_string, Preserves-slippage) depth 20

  Preserves-batch_intent :
      (host : Host) (rep : Wire.Any → ByteString) (h : Wire.Header) (o : Wire.Operation)
      → Preserves Good (Nested.batch_intent host rep h o)
  unfolding Nested.batch_intent
  Preserves-batch_intent host rep h (Wire.post ps) =
      Preserves-then _ _ (Preserves-postings ps) (λ _. Preserves-done _)
  Preserves-batch_intent host rep h (Wire.authorize o) =
      Preserves-then _ _ (Preserves-set_string _) (λ _. Preserves-done _)
  Preserves-batch_intent host rep h (Wire.capture o) =
      Preserves-then _ _ (Preserves-set_string _) (λ _. Preserves-done _)
  Preserves-batch_intent host rep h (Wire.convert o) =
      Preserves-then _ _ (Preserves-params o) (λ _. Preserves-done _)
  Preserves-batch_intent host rep h (Wire.void i) = Preserves-done _
  Preserves-batch_intent host rep h (Wire.revert o) = Preserves-done _
  Preserves-batch_intent host rep h (Wire.amend o) = Preserves-done _
  Preserves-batch_intent host rep h (Wire.set_metadata o) = Preserves-done _
  Preserves-batch_intent host rep h (Wire.delete_metadata o) = Preserves-done _
  Preserves-batch_intent host rep h (Wire.batch m is) = Preserves-done _
  Preserves-batch_intent host rep h (Wire.insert_schema o) = Preserves-done _
  Preserves-batch_intent host rep h Wire.unset = Preserves-done _

  Preserves-batch_intents :
      (host : Host) (rep : Wire.Any → ByteString) (is : Wire.Intents)
      → Preserves Good (Nested.batch_intents host rep is)
  unfolding Nested.batch_intents
  Preserves-batch_intents host rep Wire.no_intents = Preserves-done _
  Preserves-batch_intents host rep (Wire.nested h o is) =
      Preserves-then _ _ (Preserves-batch_intent host rep h o)
        λ _. Preserves-then _ _ (Preserves-batch_intents host rep is) (λ _. Preserves-done _)

  Preserves-authorize_identity :
      (i : Option Identity) (l : ByteString) → Preserves Good (Service.authorize_identity i l)
  unfolding Service.authorize_identity
  Preserves-authorize_identity none l = Preserves-done _
  Preserves-authorize_identity (some i) l = Preserves-refuse_if _ _

  pub Preserves-authorize_ledger :
      (ctx : Context) (l : ByteString) → Preserves Good (Service.authorize_ledger ctx l)
  unfolding Service.authorize_ledger
  Preserves-authorize_ledger ctx l = Preserves-authorize_identity ctx.identity l

  Preserves-principal_of : (p : Option ByteString) → Preserves Good (Service.principal_of p)
  unfolding Service.principal_of Service.named_principal
  Preserves-principal_of none = Preserves-done _
  Preserves-principal_of (some p) = search preserves_rules

  pub Preserves-extract : (ctx : Context) → Preserves Good (Service.extract_principal ctx)
  unfolding Service.extract_principal
  Preserves-extract ctx = Preserves-principal_of ctx.principal

  pub Preserves-require :
      (s : Server) (p : ByteString) → Preserves Good (Service.require_import_export_authz s p)
  unfolding Service.require_import_export_authz
  Preserves-require s p = Preserves-refuse_if _ _

  Preserves-check_stored :
      (p : Option PolicyRecord) (q : Request) → Preserves Good (Policies.check_stored p q)
  unfolding Policies.check_stored
  Preserves-check_stored none q = Preserves-done _
  Preserves-check_stored (some p) q = search preserves_rules

  Preserves-policy : (l : ByteString) → Preserves Good (Governance.get_active_policy l)
  unfolding Governance.get_active_policy
  Preserves-policy l = search preserves_rules

  pub Preserves-evaluate :
      (l : ByteString) (q : Request) → Preserves Good (Policies.evaluate_policy l q)
  unfolding Policies.evaluate_policy Policies.check_policy
  Preserves-evaluate l q =
      search (preserves_rules, Preserves-policy, Preserves-check_stored) depth 20

pub ruleset handler_rules = (
  rpc_rules, Preserves-authorize_ledger, Preserves-extract, Preserves-require, Preserves-evaluate,
)

module _ {Good : Tables → Type 0} (inv : IsInvariant Good) where
  Preserves-audit_denial :
      (l p r : ByteString) (e : Error) → Preserves Good (Service.audit_denial l p r e)
  unfolding Service.audit_denial
  Preserves-audit_denial l p r Error.policy_denied =
      Preserves-bind _ _ (Preserves-attempt _ (Preserves-denial inv l p r)) (λ _. Preserves-done _)
  Preserves-audit_denial l p r e = Preserves-done _

  Preserves-allow :
      (l p r : ByteString) (x : Result (Unit {0})) → Preserves Good (Service.allow_or_deny l p r x)
  unfolding Service.allow_or_deny
  Preserves-allow l p r (ok u) = Preserves-done _
  Preserves-allow l p r (err e) =
      Preserves-bind _ _ (Preserves-audit_denial l p r e) (λ _. Preserves-done _)

  Preserves-enforce : (l : ByteString) (q : Request) → Preserves Good (Service.enforce_policy l q)
  unfolding Service.enforce_policy
  Preserves-enforce l q = search (preserves_rules, Preserves-evaluate, Preserves-allow) depth 20

  module _ (s : Server) where
    Preserves-dispatch :
        (h : Wire.Header) (o : Wire.Operation) → Preserves Good (Service.dispatch s h o)
    unfolding Service.dispatch Intents.handle_post Intents.handle_set_metadata
        Intents.handle_delete_metadata Intents.handle_insert_schema Intents.handle_authorize
        Intents.handle_capture Intents.handle_void Intents.handle_revert Intents.handle_amend
        Intents.handle_convert Nested.handle_batch
    Preserves-dispatch h (Wire.post ps) =
        search (rpc_rules, Preserves-postings, Preserves-post inv s.host h.ledger_id)
    Preserves-dispatch h (Wire.set_metadata o) =
        search (rpc_rules, Preserves-set_metadata inv s.host h.ledger_id)
    Preserves-dispatch h (Wire.delete_metadata o) =
        search (rpc_rules, Preserves-delete_metadata inv s.host h.ledger_id)
    Preserves-dispatch h (Wire.insert_schema o) =
        search (rpc_rules, Preserves-insert_schema inv s.host h.ledger_id)
    Preserves-dispatch h (Wire.authorize o) =
        search (rpc_rules, Preserves-set_string, Preserves-authorize inv s.host h.ledger_id) depth
          20
    Preserves-dispatch h (Wire.capture o) =
        search (rpc_rules, Preserves-set_string, Preserves-capture inv s.host h.ledger_id) depth 20
    Preserves-dispatch h (Wire.void i) = search (rpc_rules, Preserves-void inv s.host h.ledger_id)
    Preserves-dispatch h (Wire.revert o) =
        search (rpc_rules, Preserves-revert inv s.host h.ledger_id)
    Preserves-dispatch h (Wire.amend o) = search (rpc_rules, Preserves-amend inv s.host h.ledger_id)
    Preserves-dispatch h (Wire.batch m is) =
        search (rpc_rules, Preserves-batch_intents, Preserves-batch inv s.host h.ledger_id) depth 20
    Preserves-dispatch h (Wire.convert o) =
        search (rpc_rules, Preserves-params, Preserves-convert inv s.host h.ledger_id) depth 20
    Preserves-dispatch h Wire.unset = Preserves-done _

    Preserves-submit_intent :
        (ctx : Context) (i : Wire.Intent) → Preserves Good (Service.submit_intent s ctx i)
    unfolding Service.submit_intent
    Preserves-submit_intent ctx i =
        search (handler_rules, Preserves-enforce, Preserves-dispatch) depth 20

    pub Preserves-submit_rpc :
        (ctx : Context) (i : Option Wire.Intent) → Preserves Good (Service.submit s ctx i)
    unfolding Service.submit
    Preserves-submit_rpc ctx i =
        Preserves-then _ _ (Preserves-present _ _) (Preserves-submit_intent ctx)

    pub Preserves-submit_for_approval_rpc :
        (ctx : Context) (l p : ByteString) (req : List ByteString) (n : ℕ)
        → Preserves Good (Service.submit_for_approval s ctx l p req n)
    unfolding Service.submit_for_approval
    Preserves-submit_for_approval_rpc ctx l p req n =
        search (handler_rules, Preserves-submit_for_approval inv s.host) depth 30

    pub Preserves-approve_rpc :
        (ctx : Context) (l i x : ByteString) → Preserves Good (Service.approve_intent s ctx l i x)
    unfolding Service.approve_intent
    Preserves-approve_rpc ctx l i x =
        search (handler_rules, Preserves-approve inv s.host s.decode) depth 30

  pub Preserves-create_rpc :
      (ctx : Context) (i b : ByteString) (m : Metadata)
      → Preserves Good (Service.create_ledger ctx i b m)
  unfolding Service.create_ledger
  Preserves-create_rpc ctx i b m = search (handler_rules, Preserves-create_ledger inv) depth 20

  pub Preserves-seal_rpc :
      (ctx : Context) (i : ByteString) → Preserves Good (Service.seal_ledger ctx i)
  unfolding Service.seal_ledger
  Preserves-seal_rpc ctx i = search (handler_rules, Preserves-seal_ledger inv) depth 20
