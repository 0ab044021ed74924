-- ===== src/Api/Queries.antt =====
-- The reading methods of the ledger service (internal/api/grpc/service.go). A record of the storage
-- stands for the message that is made of it.
use fincore_ledger.Prelude.{
  ℕ, ByteString, Bool, Option, none, some, List, is_empty, filter, if◌then◌else◌,
}
use fincore_ledger.Prelude.Int.{ℤ, ◌-ℤ◌}
use fincore_ledger.Bigamount.{to_string}
use fincore_ledger.Storage.Records.{
  Time, LedgerRecord, LogEventRecord, AccountRecord, TransactionRecord, HoldRecord, SchemaRecord,
  PendingApprovalRecord,
}
use fincore_ledger.Storage.Governance.{get_ledger}
use fincore_ledger.Storage.Transactions.{get_schema}
use fincore_ledger.Storage.Pages
use fincore_ledger.Storage.Pages.{Page}
use fincore_ledger.Batches.{verify_batch}
use fincore_ledger.Api.Status.{
  Rpc, Code, respond, refuse_if, lift, missing_or_internal, always_internal, ◌>>=◌, ◌>>◌,
}
use fincore_ledger.Api.Auth.{Context, Identity, can_access_ledger}
use fincore_ledger.Api.Service.{Server, authorize_ledger}

unfoldable pub get_ledger_rpc : Context → ByteString → Rpc LedgerRecord
get_ledger_rpc ctx id = authorize_ledger ctx id >> lift missing_or_internal (get_ledger id)

-- The ledgers of a page that the token is scoped to; without an identity, all of them.
unfoldable pub visible : Option Identity → List LedgerRecord → List LedgerRecord
visible none rs = rs
visible (some i) rs = filter (λ r. can_access_ledger i r.id) rs

unfoldable pub list_ledgers_rpc : Context → ℕ → ByteString → Rpc (Page LedgerRecord)
list_ledgers_rpc ctx size token = do
  page ← lift always_internal (Pages.list_ledgers size token)
  respond (record page { items = visible ctx.identity page.items })

unfoldable pub get_transaction_rpc : Context → ByteString → ByteString → Rpc TransactionRecord
get_transaction_rpc ctx l id =
    authorize_ledger ctx l >> lift missing_or_internal (Pages.find_transaction l id)

unfoldable pub list_transactions_rpc :
    Context → ByteString → ℕ → ByteString → Rpc (Page TransactionRecord)
list_transactions_rpc ctx l size token =
    authorize_ledger ctx l >> lift always_internal (Pages.list_transactions l size token)

unfoldable pub get_account_rpc : Context → ByteString → ByteString → Rpc AccountRecord
get_account_rpc ctx l address =
    authorize_ledger ctx l >> lift missing_or_internal (Pages.find_account l address)

unfoldable pub list_accounts_rpc : Context → ByteString → ℕ → ByteString → Rpc (Page AccountRecord)
list_accounts_rpc ctx l size token =
    authorize_ledger ctx l >> lift always_internal (Pages.list_accounts l size token)

pub record BalanceResponse : Type 0 where
  pub posted_balance : ByteString
  pub available_balance : Option ByteString

unfoldable pub available : ByteString → ByteString → ByteString → ℤ → Bool → Rpc (Option ByteString)
available l account asset balance include_holds =
    let total = lift always_internal (Pages.find_holds_total l account asset) >>= λ held.
    respond (some (to_string (balance -ℤ held))) in
    if include_holds then total else respond none

-- `GetBalance`
unfoldable pub get_balance_rpc :
    Context
    → ByteString
    → ByteString
    → ByteString
    → Option Time
    → Option Time
    → Bool
    → Rpc BalanceResponse
get_balance_rpc ctx l account asset valid system include_holds = do
  refuse_if (is_empty asset) Code.invalid_argument
  authorize_ledger ctx l
  b ← lift always_internal (Pages.find_balance l account asset valid system)
  free ← available l account asset (b.input -ℤ b.output) include_holds
  respond (record { posted_balance = to_string (b.input -ℤ b.output); available_balance = free })

unfoldable pub get_schema_rpc : Context → ByteString → ByteString → Rpc SchemaRecord
get_schema_rpc ctx l version =
    authorize_ledger ctx l >> lift missing_or_internal (get_schema l version)

unfoldable pub list_log_events_rpc :
    Context → ByteString → ℕ → ByteString → Rpc (Page LogEventRecord)
list_log_events_rpc ctx l size token =
    authorize_ledger ctx l >> lift always_internal (Pages.list_log_events l size token)

unfoldable pub get_log_event_rpc : Context → ByteString → ByteString → Rpc LogEventRecord
get_log_event_rpc ctx l id =
    authorize_ledger ctx l >> lift missing_or_internal (Pages.get_log_event l id)

-- `VerifyBatch`, which looks at no context.
unfoldable pub verify_batch_rpc : Server → ByteString → Rpc (Bool × ByteString × ℕ)
verify_batch_rpc s batch_id =
    lift missing_or_internal (verify_batch s.host.sha256 s.host.format_time s.payload_text batch_id)

unfoldable pub list_pending_approvals_rpc :
    Context → ByteString → ℕ → ByteString → Rpc (Page PendingApprovalRecord)
list_pending_approvals_rpc ctx l size token = do
  refuse_if (is_empty l) Code.invalid_argument
  authorize_ledger ctx l
  lift always_internal (Pages.list_pending_approvals l size token)

unfoldable pub get_hold_rpc : Context → ByteString → ByteString → Rpc HoldRecord
get_hold_rpc ctx l id = authorize_ledger ctx l >> lift missing_or_internal (Pages.find_hold l id)

unfoldable pub list_holds_rpc :
    Context → ByteString → ByteString → ℕ → ByteString → Rpc (Page HoldRecord)
list_holds_rpc ctx l account size token =
    authorize_ledger ctx l >> lift always_internal (Pages.list_holds l account size token)
