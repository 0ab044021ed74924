-- ===== src/Safety/Serving.antt =====
-- The invariants of the frame, for the reading methods and for the server as a whole
-- (internal/api/grpc/service.go).
use fincore_ledger.Prelude.{ℕ, zero, suc, ByteString, Bool, Option, none, some, List, [], ◌∷◌}
use fincore_ledger.Prelude.Int.{ℤ}
use fincore_ledger.Storage.Records.{LogEventRecord, Time}
use fincore_ledger.Storage.World.{World, Tables}
use fincore_ledger.Storage.Governance.{get_ledger}
use fincore_ledger.Storage.Transactions.{get_schema}
use fincore_ledger.Storage.Pages
use fincore_ledger.Batches
use fincore_ledger.Api.Status.{Rpc}
use fincore_ledger.Api.Auth.{Context, Authenticator}
use fincore_ledger.Api.Auth
use fincore_ledger.Api.Service.{Server}
use fincore_ledger.Api.Queries
use fincore_ledger.Api.Transfer
use fincore_ledger.Api.Server
use fincore_ledger.Safety.Rules.{
  Preserves, preserves_rules, Preserves-bind, Preserves-done, Preserves-if,
}
use fincore_ledger.Safety.Frame.{IsInvariant}
use fincore_ledger.Safety.Rpc.{Preserves-then, Preserves-lift}
use fincore_ledger.Safety.Handlers.{
  handler_rules, Preserves-submit_rpc, Preserves-submit_for_approval_rpc, Preserves-approve_rpc,
  Preserves-create_rpc, Preserves-seal_rpc,
}

module _ {Good : Tables → Type 0} where
  Preserves-read : {A : Type 0} (f : Tables → A) → Preserves Good (Pages.read f)
  unfolding Pages.read
  Preserves-read f = search preserves_rules

  Preserves-read_row : {A : Type 0} (f : Tables → Option A) → Preserves Good (Pages.read_row f)
  unfolding Pages.read_row
  Preserves-read_row f = search preserves_rules

  pub Preserves-list_log :
      (l : ByteString) (n : ℕ) (t : ByteString) → Preserves Good (Pages.list_log_events l n t)
  unfolding Pages.list_log_events
  Preserves-list_log l n t = Preserves-read _

  pub Preserves-get_ledger : (i : ByteString) → Preserves Good (get_ledger i)
  unfolding get_ledger
  Preserves-get_ledger i = search preserves_rules

  Preserves-get_schema : (l v : ByteString) → Preserves Good (get_schema l v)
  unfolding get_schema
  Preserves-get_schema l v = search preserves_rules

  Preserves-available :
      (l a x : ByteString) (b : ℤ) (h : Bool) → Preserves Good (Queries.available l a x b h)
  unfolding Queries.available Pages.find_holds_total
  Preserves-available l a x b h = search (handler_rules, Preserves-read) depth 20

  Preserves-balance :
      (ctx : Context) (l a x : ByteString) (v y : Option Time) (h : Bool)
      → Preserves Good (Queries.get_balance_rpc ctx l a x v y h)
  unfolding Queries.get_balance_rpc Pages.find_balance
  Preserves-balance ctx l a x v y h =
      search (handler_rules, Preserves-read, Preserves-available) depth 20

  Preserves-verify : (s : Server) (b : ByteString) → Preserves Good (Queries.verify_batch_rpc s b)
  unfolding Queries.verify_batch_rpc Batches.verify_batch Batches.list_batch_events
  Preserves-verify s b = search handler_rules depth 20

  Preserves-export_pages :
      (s : Server) (n : ℕ) (l t : ByteString) (es : List LogEventRecord)
      → Preserves Good (Transfer.export_pages s n l t es)
  unfolding Transfer.export_pages
  Preserves-export_pages s zero l t es = Preserves-done _
  Preserves-export_pages s (suc n) l t es =
      Preserves-then _ _ (Preserves-lift _ _ (Preserves-list_log _ _ _))
        λ page. Preserves-if _ _ _ (Preserves-done _) (Preserves-export_pages s n l _ _)

  Preserves-export :
      (s : Server) (n : ℕ) (ctx : Context) (l : ByteString)
      → Preserves Good (Transfer.export_log s n ctx l)
  unfolding Transfer.export_log
  Preserves-export s n ctx l = search (handler_rules, Preserves-export_pages) depth 20

  Preserves-told : {A : Type 0} (m : Rpc A) → Preserves Good m → Preserves Good (Server.told m)
  Preserves-told m p = Preserves-bind _ _ p (λ r. Preserves-done _)

  Preserves-admit :
      {A : Type 0} (f : Context → Rpc A) (ctx : Option Context)
      → ((c : Context) → Preserves Good (f c))
      → Preserves Good (Auth.admit f ctx)
  unfolding Auth.admit
  Preserves-admit f none p = Preserves-done _
  Preserves-admit f (some c) p = p c

  Preserves-authenticated :
      {A : Type 0} (authn : Option Authenticator) (ctx : Context) (f : Context → Rpc A)
      → ((c : Context) → Preserves Good (f c))
      → Preserves Good (Auth.authenticated authn ctx f)
  unfolding Auth.authenticated
  Preserves-authenticated none ctx f p = Preserves-done _
  Preserves-authenticated (some a) ctx f p = Preserves-admit f _ p

  Preserves-intercept :
      {A : Type 0} (authn : Option Authenticator) (m : ByteString) (ctx : Context)
      (f : Context → Rpc A)
      → ((c : Context) → Preserves Good (f c))
      → Preserves Good (Auth.intercept authn m ctx f)
  unfolding Auth.intercept
  Preserves-intercept authn m ctx f p =
      Preserves-if _ _ _ (p ctx) (Preserves-authenticated authn ctx f p)

  Preserves-intercept_stream :
      {A : Type 0} (authn : Option Authenticator) (m : ByteString) (ctx : Context)
      (f : Context → Rpc A)
      → ((c : Context) → Preserves Good (f c))
      → Preserves Good (Auth.intercept_stream authn m ctx f)
  unfolding Auth.intercept_stream
  Preserves-intercept_stream authn m ctx f p =
      Preserves-if _ _ _ (p ctx) (Preserves-authenticated authn ctx f p)

module _ {Good : Tables → Type 0} (inv : IsInvariant Good) (s : Server)
    (imports : (ctx : Context) (es : List Transfer.LogEvent)
      → Preserves Good (Transfer.import_log s ctx es)) where
  Preserves-handle : (ctx : Context) (r : Server.Request) → Preserves Good (Server.handle s ctx r)
  unfolding Server.handle Queries.get_ledger_rpc Queries.list_ledgers_rpc
      Queries.get_transaction_rpc Queries.list_transactions_rpc Queries.get_account_rpc
      Queries.list_accounts_rpc Queries.get_schema_rpc Queries.list_log_events_rpc
      Queries.get_log_event_rpc Queries.list_pending_approvals_rpc Queries.get_hold_rpc
      Queries.list_holds_rpc Pages.list_ledgers Pages.find_transaction Pages.list_transactions
      Pages.find_account Pages.list_accounts Pages.get_log_event Pages.list_pending_approvals
      Pages.find_hold Pages.list_holds
  Preserves-handle ctx (Server.create_ledger i b m) =
      Preserves-told _ (Preserves-create_rpc inv ctx i b m)
  Preserves-handle ctx (Server.seal_ledger i) = Preserves-told _ (Preserves-seal_rpc inv ctx i)
  Preserves-handle ctx (Server.get_ledger i) =
      Preserves-told _ (search (handler_rules, Preserves-get_ledger))
  Preserves-handle ctx (Server.list_ledgers n t) =
      Preserves-told _ (search (handler_rules, Preserves-read))
  Preserves-handle ctx (Server.submit i) = Preserves-told _ (Preserves-submit_rpc inv s ctx i)
  Preserves-handle ctx (Server.submit_for_approval l p r n) =
      Preserves-told _ (Preserves-submit_for_approval_rpc inv s ctx l p r n)
  Preserves-handle ctx (Server.approve_intent l i x) =
      Preserves-told _ (Preserves-approve_rpc inv s ctx l i x)
  Preserves-handle ctx (Server.get_transaction l i) =
      Preserves-told _ (search (handler_rules, Preserves-read_row))
  Preserves-handle ctx (Server.get_account l i) =
      Preserves-told _ (search (handler_rules, Preserves-read_row))
  Preserves-handle ctx (Server.get_hold l i) =
      Preserves-told _ (search (handler_rules, Preserves-read_row))
  Preserves-handle ctx (Server.get_schema l i) =
      Preserves-told _ (search (handler_rules, Preserves-get_schema))
  Preserves-handle ctx (Server.get_log_event l i) =
      Preserves-told _ (search (handler_rules, Preserves-read_row))
  Preserves-handle ctx (Server.list_transactions l n t) =
      Preserves-told _ (search (handler_rules, Preserves-read))
  Preserves-handle ctx (Server.list_accounts l n t) =
      Preserves-told _ (search (handler_rules, Preserves-read))
  Preserves-handle ctx (Server.list_log_events l n t) =
      Preserves-told _ (search (handler_rules, Preserves-list_log))
  Preserves-handle ctx (Server.list_pending_approvals l n t) =
      Preserves-told _ (search (handler_rules, Preserves-read))
  Preserves-handle ctx (Server.list_holds l a n t) =
      Preserves-told _ (search (handler_rules, Preserves-read))
  Preserves-handle ctx (Server.get_balance l a x v y h) =
      Preserves-told _ (Preserves-balance ctx l a x v y h)
  Preserves-handle ctx (Server.verify_batch b) = Preserves-told _ (Preserves-verify s b)
  Preserves-handle ctx (Server.export_log n l) = Preserves-told _ (Preserves-export s n ctx l)
  Preserves-handle ctx (Server.import_log es) = Preserves-told _ (imports ctx es)

  pub Preserves-serve :
      (authn : Option Authenticator) (ctx : Context) (r : Server.Request)
      → Preserves Good (Server.serve s authn ctx r)
  unfolding Server.serve
  Preserves-serve authn ctx r =
      Preserves-if (Server.is_streaming r) _ _
        (Preserves-intercept_stream authn _ ctx _ (λ c. Preserves-handle c r))
        (Preserves-intercept authn _ ctx _ (λ c. Preserves-handle c r))

  pub serve_all-Good :
      (authn : Option Authenticator) (rs : List (Context × Server.Request)) (w : World)
      → Good w.tables
      → Good (Server.serve_all s authn rs w).tables
  unfolding Server.serve_all
  serve_all-Good authn [] w g = g
  serve_all-Good authn ((ctx, r) ∷ rs) w g =
      serve_all-Good authn rs _ ((Preserves-serve authn ctx r).at w g)
