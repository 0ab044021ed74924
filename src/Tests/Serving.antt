-- ===== src/Tests/Serving.antt =====
-- Concrete requests, pages and replays, and each property at them.
use fincore_ledger.Prelude.{
  ℕ, zero, suc, ◌≡◌, ◌≤◌, ◌<◌, refl, ByteString, codes, true, false, Option, none, some, List, [],
  ◌∷◌, ◌++◌, ◌≢◌, str_eq, length, arith,
}
use fincore_ledger.Storage.Records.{LogEventRecord, Payload}
use fincore_ledger.Storage.World.{World, ok}
use fincore_ledger.Storage.Volumes.{sum_input, sum_output}
use fincore_ledger.Storage.Pages
use fincore_ledger.Api.Status.{answer, status, Code}
use fincore_ledger.Api.Auth
use fincore_ledger.Api.Auth.{Context, Identity, Token, Claim, Authenticator, can_access_ledger}
use fincore_ledger.Api.Wire.{Intent, Header, Operation}
use fincore_ledger.Api.Wire
use fincore_ledger.Api.Service.{Server}
use fincore_ledger.Api.Transfer.{LogEvent, export_pages}
use fincore_ledger.Api.Server.{Request, serve, serve_all}
use fincore_ledger.Api.Ratelimit
use fincore_ledger.Api.Ratelimit.{Limiter, Arrival, limit_for, key_of, check_all}
use fincore_ledger.Subscriptions.{
  Progress, goes_on, waits, replay_all, replay_from, at_start, should_include,
}
use fincore_ledger.Safety.Balance.{Balanced, total_input, total_output}
use fincore_ledger.Safety.Gapless.{Gapless, is_numbered}
use fincore_ledger.Safety.Served.{serve_all-Balanced, serve_all-Gapless}
use fincore_ledger.Tenancy.{
  Refuses, claim_grants, ledger_of, is_export, identity_of-scope, serve-Unauthenticated,
  serve-Outsider,
}
use fincore_ledger.Paging.Walk.{Ordered, walk, skim, walk-skim}
use fincore_ledger.Paging.Export.{rows_of, export_pages-skim}
use fincore_ledger.Paging.Replay.{replay_all-waits, replay_from-skim}
use fincore_ledger.Throttling.{admitted, check_all-bound}
use fincore_ledger.Tests.Fixtures.{host, decode, fresh, no_tables}

abbrev server : Server
server = record {
  host = host;
  decode = decode;
  represent = λ x. [];
  json_valid = λ x. true;
  payload_text = λ p. [];
  admin_principals = codes "root" ∷ [];
}

abbrev pub tenant : Identity
tenant = record { principal = codes "root"; ledgers = codes "main" ∷ []; all_ledgers = false }

abbrev pub bare : Context
bare = record { incoming = none; principal = none; identity = none }

-- An authenticator that knows one caller.
abbrev always : Context → Option Identity
always ctx = some tenant

abbrev never : Context → Option Identity
never ctx = none

abbrev pub header : Header
header = record {
  ledger_id = codes "main";
  valid_time = none;
  idempotency_key = [];
  reference = [];
  metadata = [];
  dry_run = false;
}

abbrev posting : Intent
posting = record {
  header = header;
  operation = Wire.post (
      record {
        source = codes "_world";
        destination = codes "users:1";
        amount = codes "500";
        asset = codes "USD/2";
      }
      ∷ []);
}

abbrev imported : ℕ → LogEvent
imported n = record {
  event_id = n ∷ [];
  ledger_id = codes "main";
  ledger_seq = n;
  system_time = some 900;
  valid_time = some 900;
  event_type = 1;
  payload = codes "{}";
  idempotency_key = [];
  batch_id = [];
  schema_version = 0;
}

abbrev requests : List (Context × Request)
requests =
    (bare, Request.create_ledger (codes "main") [] [])
    ∷ (bare, Request.import_log (imported 1 ∷ imported 2 ∷ []))
    ∷ (bare, Request.submit (some posting))
    ∷ (bare, Request.seal_ledger (codes "other"))
    ∷ []

serve_all-Balanced_example :
    Balanced (serve_all server (some (Auth.gives_identity always)) requests fresh).tables
unfolding total_input total_output sum_input sum_output
serve_all-Balanced_example =
    serve_all-Balanced server (some (Auth.gives_identity always)) requests fresh (λ l a. refl)

serve_all-Gapless_example :
    Gapless (serve_all server (some (Auth.gives_identity always)) requests fresh).tables
unfolding is_numbered
serve_all-Gapless_example =
    serve_all-Gapless server (some (Auth.gives_identity always)) requests fresh (λ l. refl)

serve-Unauthenticated_example :
    serve server (some (Auth.gives_identity never)) bare (Request.submit (some posting)) fresh
    ≡ (ok (status Code.unauthenticated), fresh)
serve-Unauthenticated_example =
    serve-Unauthenticated server never bare (Request.submit (some posting)) fresh refl

serve-Outsider_example :
    Refuses
      (serve server (some (Auth.gives_identity always)) bare (Request.seal_ledger (codes "other")))
      fresh
unfolding can_access_ledger ledger_of is_export str_eq
serve-Outsider_example =
    serve-Outsider server always bare (Request.seal_ledger (codes "other")) fresh tenant
      (codes "other") refl refl refl refl

abbrev token : Token
token = record {
  subject = codes "root";
  ledgers_claim = Claim.array (none ∷ some (codes "main") ∷ []);
}

identity_of-scope_example :
    can_access_ledger tenant (codes "main") ≡ claim_grants (codes "main") token.ledgers_claim
unfolding Auth.identity_of Auth.parse_ledgers_claim Auth.collect_ledgers str_eq
identity_of-scope_example = identity_of-scope token tenant (codes "main") refl

abbrev pub event : ℕ → LogEventRecord
event n = record {
  event_id = n ∷ [];
  ledger_id = codes "main";
  ledger_seq = n;
  system_time = 900;
  valid_time = 900;
  event_type = 1;
  payload = Payload.raw [];
  idempotency_key = [];
  idempotency_hash = none;
  batch_id = [];
  schema_version = 0;
}

abbrev logged : World
logged = record fresh {
  tables = record no_tables { log_events = event 3 ∷ event 2 ∷ event 1 ∷ [] };
}

abbrev id_of : LogEventRecord → ByteString
id_of e = e.event_id

abbrev three : List LogEventRecord
three = event 1 ∷ event 2 ∷ event 3 ∷ []

three-Ordered : Ordered id_of three
unfolding Pages.precedes
three-Ordered = (((refl, (refl, tt)), refl), (((refl, tt), refl), ((tt, refl), tt)))

logged-Ordered : Ordered id_of (rows_of (codes "main") logged)
unfolding Pages.ordered_log Pages.order_by Pages.insert_row Pages.in_ledger str_eq
logged-Ordered = three-Ordered

logged-length : length (rows_of (codes "main") logged) < 4
unfolding Pages.ordered_log Pages.order_by Pages.insert_row Pages.in_ledger str_eq
logged-length = omega arith

walk-skim_example : walk id_of 4 1 [] three ≡ skim 1 three
walk-skim_example = walk-skim id_of 4 1 three three-Ordered (omega arith)

export_pages-skim_example :
    export_pages server 4 (codes "main") [] [] logged
    ≡ (ok (answer (skim 1000 (rows_of (codes "main") logged))), logged)
export_pages-skim_example =
    export_pages-skim server (codes "main") logged refl 4 logged-Ordered logged-length

rows-split : rows_of (codes "main") logged ≡ [] ++ (event 1 ∷ event 2 ∷ event 3 ∷ [])
unfolding Pages.ordered_log Pages.order_by Pages.insert_row Pages.in_ledger str_eq
rows-split = refl

replay_from-skim_example :
    replay_from 4 (codes "main") [] (event 1).event_id logged
    ≡ (ok (replay_all [] (skim 100 (event 2 ∷ event 3 ∷ [])) (goes_on at_start)), logged)
replay_from-skim_example =
    replay_from-skim (codes "main") [] logged refl 4 [] (event 1) (event 2 ∷ event 3 ∷ [])
      rows-split three-Ordered (omega arith)

abbrev copies : ℕ → List LogEventRecord
copies zero = []
copies (suc n) = event 1 ∷ copies n

abbrev filled : Progress
filled = record at_start { replayed = 100; channel = copies 100 }

replay_all-waits_example : replay_all [] (event 2 ∷ []) (goes_on filled) ≡ waits
unfolding should_include
replay_all-waits_example =
    replay_all-waits [] (event 2 ∷ []) filled (omega arith) (omega arith) (omega arith)

abbrev limiter : Limiter
limiter = record { read_rps = 0; write_rps = 2 }

abbrev pub arrival : Arrival
arrival = record {
  method = codes "/ledger.v1.LedgerService/Submit";
  subject = codes "p:root";
  time = 5000000000;
  counter_fails = false;
}

arrival-limited : (limit_for limiter arrival.method).0 ≢ 0
unfolding limit_for Ratelimit.is_write_method Ratelimit.after_last_slash str_eq
arrival-limited = omega arith

check_all-bound_example :
    admitted limiter
      (key_of limiter arrival)
      (check_all limiter (arrival ∷ arrival ∷ arrival ∷ []) [])
    ≤ (limit_for limiter arrival.method).0
check_all-bound_example =
    check_all-bound limiter arrival (arrival ∷ arrival ∷ arrival ∷ []) arrival-limited
