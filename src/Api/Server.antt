-- ===== src/Api/Server.antt =====
-- The methods of the ledger service as requests, each behind the authentication of its caller
-- (internal/api/grpc/service.go, internal/api/grpc/auth/auth.go).
use fincore_ledger.Prelude.{
  ℕ, ByteString, codes, Bool, true, false, if◌then◌else◌, Option, List, [], ◌∷◌, ◌++◌,
}
use fincore_ledger.Storage.Records.{Time, Metadata}
use fincore_ledger.Storage.World.{World, done, ◌>>=◌}
use fincore_ledger.Api.Status.{Rpc, Reply}
use fincore_ledger.Api.Auth.{Context, Authenticator, intercept, intercept_stream}
use fincore_ledger.Api.Wire.{Intent}
use fincore_ledger.Api.Service.{Server}
use fincore_ledger.Api.Service
use fincore_ledger.Api.Queries
use fincore_ledger.Api.Transfer.{LogEvent}
use fincore_ledger.Api.Transfer

pub data Request : Type 0 where
  create_ledger : ByteString → ByteString → Metadata → Request
  seal_ledger get_ledger : ByteString → Request
  list_ledgers : ℕ → ByteString → Request
  submit : Option Intent → Request
  submit_for_approval : ByteString → ByteString → List ByteString → ℕ → Request
  approve_intent : ByteString → ByteString → ByteString → Request
  get_transaction get_account get_hold get_schema get_log_event : ByteString → ByteString → Request
  list_transactions list_accounts list_log_events : ByteString → ℕ → ByteString → Request
  list_pending_approvals : ByteString → ℕ → ByteString → Request
  list_holds : ByteString → ByteString → ℕ → ByteString → Request
  get_balance : ByteString → ByteString → ByteString → Option Time → Option Time → Bool → Request
  verify_batch : ByteString → Request
  export_log : ℕ → ByteString → Request
  import_log : List LogEvent → Request

-- The full name of a method.
abbrev pub full_name : ByteString → ByteString
full_name name = codes "/ledger.v1.LedgerService/" ++ name

unfoldable pub method_of : Request → ByteString
method_of (create_ledger i b m) = full_name (codes "CreateLedger")
method_of (seal_ledger i) = full_name (codes "SealLedger")
method_of (get_ledger i) = full_name (codes "GetLedger")
method_of (list_ledgers n t) = full_name (codes "ListLedgers")
method_of (submit i) = full_name (codes "Submit")
method_of (submit_for_approval l p r n) = full_name (codes "SubmitForApproval")
method_of (approve_intent l i x) = full_name (codes "ApproveIntent")
method_of (get_transaction l i) = full_name (codes "GetTransaction")
method_of (get_account l i) = full_name (codes "GetAccount")
method_of (get_hold l i) = full_name (codes "GetHold")
method_of (get_schema l i) = full_name (codes "GetSchema")
method_of (get_log_event l i) = full_name (codes "GetLogEvent")
method_of (list_transactions l n t) = full_name (codes "ListTransactions")
method_of (list_accounts l n t) = full_name (codes "ListAccounts")
method_of (list_log_events l n t) = full_name (codes "ListLogEvents")
method_of (list_pending_approvals l n t) = full_name (codes "ListPendingApprovals")
method_of (list_holds l a n t) = full_name (codes "ListHolds")
method_of (get_balance l a x v y h) = full_name (codes "GetBalance")
method_of (verify_batch b) = full_name (codes "VerifyBatch")
method_of (export_log n l) = full_name (codes "Export")
method_of (import_log es) = full_name (codes "Import")

-- The methods of `Streams` in the description of the service.
unfoldable pub is_streaming : Request → Bool
is_streaming (export_log n l) = true
is_streaming (import_log es) = true
is_streaming r = false

-- Whether a method has answered, or with which code it has refused.
unfoldable pub outcome : {A : Type 0} → Reply A → Reply (Unit {0})
outcome (Reply.answer a) = Reply.answer tt
outcome (Reply.status c) = Reply.status c

abbrev pub told : {A : Type 0} → Rpc A → Rpc (Unit {0})
told m = m >>= λ r. done (outcome r)

module _ (s : Server) where
  unfoldable pub handle : Context → Request → Rpc (Unit {0})
  handle ctx (create_ledger i b m) = told (Service.create_ledger ctx i b m)
  handle ctx (seal_ledger i) = told (Service.seal_ledger ctx i)
  handle ctx (get_ledger i) = told (Queries.get_ledger_rpc ctx i)
  handle ctx (list_ledgers n t) = told (Queries.list_ledgers_rpc ctx n t)
  handle ctx (submit i) = told (Service.submit s ctx i)
  handle ctx (submit_for_approval l p r n) = told (Service.submit_for_approval s ctx l p r n)
  handle ctx (approve_intent l i x) = told (Service.approve_intent s ctx l i x)
  handle ctx (get_transaction l i) = told (Queries.get_transaction_rpc ctx l i)
  handle ctx (get_account l i) = told (Queries.get_account_rpc ctx l i)
  handle ctx (get_hold l i) = told (Queries.get_hold_rpc ctx l i)
  handle ctx (get_schema l i) = told (Queries.get_schema_rpc ctx l i)
  handle ctx (get_log_event l i) = told (Queries.get_log_event_rpc ctx l i)
  handle ctx (list_transactions l n t) = told (Queries.list_transactions_rpc ctx l n t)
  handle ctx (list_accounts l n t) = told (Queries.list_accounts_rpc ctx l n t)
  handle ctx (list_log_events l n t) = told (Queries.list_log_events_rpc ctx l n t)
  handle ctx (list_pending_approvals l n t) = told (Queries.list_pending_approvals_rpc ctx l n t)
  handle ctx (list_holds l a n t) = told (Queries.list_holds_rpc ctx l a n t)
  handle ctx (get_balance l a x v y h) = told (Queries.get_balance_rpc ctx l a x v y h)
  handle ctx (verify_batch b) = told (Queries.verify_batch_rpc s b)
  handle ctx (export_log n l) = told (Transfer.export_log s n ctx l)
  handle ctx (import_log es) = told (Transfer.import_log s ctx es)

  -- A request as the server takes it.
  unfoldable pub serve : Option Authenticator → Context → Request → Rpc (Unit {0})
  serve authn ctx r =
      if is_streaming r
      then intercept_stream authn (method_of r) ctx (λ c. handle c r)
      else intercept authn (method_of r) ctx (λ c. handle c r)

  -- Requests one after the other.
  unfoldable pub serve_all : Option Authenticator → List (Context × Request) → World → World
  serve_all authn [] w = w
  serve_all authn ((ctx, r) ∷ rest) w = serve_all authn rest (serve authn ctx r w).1
