-- ===== src/Safety/Served.antt =====
-- The server as a whole under the invariants of the books and of the log
-- (internal/api/grpc/service.go, internal/api/grpc/auth/auth.go).
use fincore_ledger.Prelude.{ℕ, ◌+◌, ByteString, Option, none, some, List, [], ◌∷◌}
use fincore_ledger.Storage.Records.{LogEventRecord}
use fincore_ledger.Storage.World.{World, Tables}
use fincore_ledger.Storage.Log.{add_event}
use fincore_ledger.Storage.Governance.{exec_alone}
use fincore_ledger.Api.Auth.{Context, Authenticator}
use fincore_ledger.Api.Service.{Server}
use fincore_ledger.Api.Server.{Request, serve_all}
use fincore_ledger.Api.Transfer.{
  Expected, LogEvent, start_ledger, expected_or_start, import_event, import_all, import_log,
}
use fincore_ledger.Safety.Rules.{Preserves, Preserves-done}
use fincore_ledger.Safety.Rpc.{Preserves-then, Preserves-refuse_if}
use fincore_ledger.Safety.Batching.{Preserves-batch_id}
use fincore_ledger.Safety.Governed.{Preserves-alone}
use fincore_ledger.Safety.Handlers.{handler_rules}
use fincore_ledger.Safety.Serving.{Preserves-get_ledger, Preserves-list_log, serve_all-Good}
use fincore_ledger.Safety.Balance.{Balanced, Balanced-IsInvariant}
use fincore_ledger.Safety.Gapless.{Gapless, Gapless-IsInvariant}
use fincore_ledger.Safety.Imports.{Gapless-import}

module _ {Good : Tables → Type 0} (s : Server)
    (grows : (t : Tables) (r : LogEventRecord)
      → Good t
      → Good (record t { log_events = r ∷ t.log_events })) where
  Preserves-start : (p l : ByteString) → Preserves Good (start_ledger s p l)
  unfolding start_ledger
  Preserves-start p l =
      search (handler_rules, Preserves-get_ledger, Preserves-list_log, Preserves-batch_id) depth 30

  Preserves-expected :
      (p l : ByteString) (o : Option Expected) → Preserves Good (expected_or_start s p l o)
  unfolding expected_or_start
  Preserves-expected p l none = Preserves-start p l
  Preserves-expected p l (some x) = Preserves-done _

  Preserves-add : (r : LogEventRecord) → Preserves Good (exec_alone (add_event r))
  unfolding add_event
  Preserves-add r = Preserves-alone _ _ _ (λ t g. grows t r g)

  Preserves-import_event : (e : LogEvent) (x : Expected) → Preserves Good (import_event e x)
  unfolding import_event
  Preserves-import_event e x = search (handler_rules, Preserves-add) depth 30

  Preserves-import_all :
      (p : ByteString) (es : List LogEvent) (xs : List Expected) (n : ℕ)
      → Preserves Good (import_all s p xs n es)
  unfolding import_all
  Preserves-import_all p [] xs n = Preserves-done _
  Preserves-import_all p (e ∷ es) xs n = Preserves-then _ _ (Preserves-refuse_if _ _) λ _.
      Preserves-then _ _ (Preserves-refuse_if _ _) λ _.
        Preserves-then _ _ (Preserves-expected p _ _) λ x.
          Preserves-then _ _ (Preserves-import_event e x)
            (λ y. Preserves-import_all p es (y ∷ xs) (n + 1))

  Preserves-import : (ctx : Context) (es : List LogEvent) → Preserves Good (import_log s ctx es)
  unfolding import_log
  Preserves-import ctx es = search (handler_rules, Preserves-import_all) depth 20

-- Whatever requests callers send, and whoever they are, the books stay balanced: if in every ledger
-- the outputs of each asset add up to its inputs before the requests, they do so after them.
pub serve_all-Balanced :
    (s : Server) (authn : Option Authenticator) (rs : List (Context × Request)) (w : World)
    → Balanced w.tables
    → Balanced (serve_all s authn rs w).tables
serve_all-Balanced s = serve_all-Good Balanced-IsInvariant s (Preserves-import s (λ t r g. g))

-- Whatever requests callers send, imports of a log among them, and whichever calls fail, the events
-- of every ledger stay numbered without a gap: if they are numbered 1, 2, 3 and so on in the order of
-- the log before the requests, they are so after them.
pub serve_all-Gapless :
    (s : Server) (authn : Option Authenticator) (rs : List (Context × Request)) (w : World)
    → Gapless w.tables
    → Gapless (serve_all s authn rs w).tables
serve_all-Gapless s = serve_all-Good Gapless-IsInvariant s (Gapless-import s)
