-- ===== src/Tests/Clients.antt =====
-- Concrete postings, settings and variables, and each property at them.
use fincore_ledger.Prelude.{
  ◌≡◌, ◌≤◌, ◌<◌, length, arith, refl, ByteString, codes, true, false, some, List, [], ◌∷◌, str_eq,
  ◌≢◌,
}
use fincore_ledger.Prelude
use fincore_ledger.Policy
use fincore_ledger.Accounts
use fincore_ledger.Assets
use fincore_ledger.Bigamount
use fincore_ledger.Api.Wire.{Posting}
use fincore_ledger.Api.Intents.{handle_post}
use fincore_ledger.Api.Ratelimit.{Limiter, limit_for, key_of, check_all}
use fincore_ledger.Throttling.{admitted}
use fincore_ledger.Tenancy.{Refuses}
use fincore_ledger.Sdk.Client
use fincore_ledger.Sdk.Client.{validate_transaction}
use fincore_ledger.Sdk.Agreement.{
  accepts, inputs_of, validate_transaction-accepts, rejected-refused,
}
use fincore_ledger.Config.Settings
use fincore_ledger.Config.Settings.{Config, limiter_of, new_rate_limiter, validate}
use fincore_ledger.Config.Environment
use fincore_ledger.Config.Environment.{lookup_env, load_lines, Variables}
use fincore_ledger.Config.Checked.{validate-bound, load_lines-keeps}
use fincore_ledger.Sdk.Listing.{list_holds, holds_of, list_holds-skim}
use fincore_ledger.Storage.Records.{HoldRecord}
use fincore_ledger.Storage.World.{World, ok}
use fincore_ledger.Prelude.Int.{pos}
use fincore_ledger.Storage.Pages
use fincore_ledger.Api.Status.{answer}
use fincore_ledger.Api.Status
use fincore_ledger.Storage.World
use fincore_ledger.Api.Auth.{Context}
use fincore_ledger.Api.Auth
use fincore_ledger.Api.Service
use fincore_ledger.Api.Service.{authorize_ledger}
use fincore_ledger.Paging.Walk.{Ordered, skim}
use fincore_ledger.Tests.Fixtures.{host, fresh, no_tables}
use fincore_ledger.Tests.Serving.{header, arrival, tenant, bare}

abbrev payment : Posting
payment = record {
  source = codes "_world";
  destination = codes "users:1";
  amount = codes "500";
  asset = codes "USD/2";
}

abbrev nothing_paid : Posting
nothing_paid = record payment { amount = codes "0" }

abbrev payments : List Posting
payments = payment ∷ []

validate_transaction-accepts_example : validate_transaction payments ≡ accepts (inputs_of payments)
validate_transaction-accepts_example = validate_transaction-accepts payments

unpaid : validate_transaction (payment ∷ nothing_paid ∷ []) ≡ false
unfolding validate_transaction Client.validate_each Client.validate_posting
    Accounts.is_valid_address Assets.is_valid_asset Client.validate_amount Client.positive_amount
    Bigamount.from_string Bigamount.is_positive
unpaid = refl

rejected-refused_example :
    Refuses (handle_post host (λ x. []) header (payment ∷ nothing_paid ∷ [])) fresh
rejected-refused_example =
    rejected-refused host (λ x. []) header (payment ∷ nothing_paid ∷ []) fresh unpaid

abbrev settings : Config
settings = record {
  postgres_dsn = codes "postgres://db/ledger";
  redis_url = codes "redis://cache";
  grpc_port = 9090;
  http_port = 8080;
  otel_endpoint = [];
  otel_insecure = false;
  worker = record {
    batch_close_interval = 5;
    checkpoint_interval = 60;
    hold_expiry_interval = 30;
    approval_expiry_interval = 30;
    stuck_approval_threshold = 300;
  };
  auth = record {
    method = codes "jwt";
    jwks_url = codes "https://keys";
    audience = [];
    issuer = [];
    admin_principals = [];
  };
  rate_limit = record { enabled = true; read_rps = 100; write_rps = 20 };
  environment = codes "production";
  log_level = codes "info";
}

settings-valid : validate settings ≡ true
unfolding validate Settings.is_port str_eq Settings.are_positive Settings.has_safe_database
    Settings.contains Prelude.has_prefix Settings.has_safe_keys Settings.has_limits
settings-valid = refl

abbrev given : Limiter
given = limiter_of settings.rate_limit

limiter-given : new_rate_limiter settings.rate_limit ≡ some given
unfolding new_rate_limiter
limiter-given = refl

validate-bound_example :
    ((limit_for given arrival.method).0 ≢ 0)
    × (admitted given (key_of given arrival) (check_all given (arrival ∷ arrival ∷ []) [])
        ≤ (limit_for given arrival.method).0)
validate-bound_example =
    validate-bound settings given arrival (arrival ∷ arrival ∷ []) settings-valid limiter-given

abbrev set_port : Variables
set_port = (codes "LEDGER_HTTP_PORT", codes "80") ∷ []

abbrev env_file : List ByteString
env_file = codes "# ports" ∷ codes "LEDGER_HTTP_PORT=8080" ∷ codes "LEDGER_GRPC_PORT = '9090'" ∷ []

port-set : lookup_env (codes "LEDGER_HTTP_PORT") set_port ≡ some (codes "80")
unfolding lookup_env str_eq
port-set = refl

load_lines-keeps_example :
    lookup_env (codes "LEDGER_HTTP_PORT") (load_lines env_file set_port) ≡ some (codes "80")
load_lines-keeps_example =
    load_lines-keeps env_file (codes "LEDGER_HTTP_PORT") set_port (codes "80") port-set

grpc_port-read :
    lookup_env (codes "LEDGER_GRPC_PORT") (load_lines env_file set_port) ≡ some (codes "9090")
unfolding lookup_env load_lines Environment.load_line Policy.trim_space Prelude.has_prefix
    Environment.load_assignment Environment.cut Environment.define str_eq Environment.set_env
    Environment.unquote Environment.starts_with Environment.ends_with
grpc_port-read = refl

abbrev hold : ByteString → HoldRecord
hold i = record {
  ledger_id = codes "main";
  hold_id = i;
  source = codes "users:1";
  destination_hint = [];
  asset = codes "USD/2";
  authorized_amount = pos 5;
  captured_amount = pos 0;
  voided = false;
  expired = false;
  expires_at = 5000;
  authorized_event_id = [];
  valid_time = 900;
  system_time = 900;
}

abbrev holding : World
holding = record fresh {
  tables = record no_tables { holds = hold (codes "b") ∷ hold (codes "a") ∷ [] };
}

abbrev caller : Context
caller = record bare { identity = some tenant }

caller-allowed : authorize_ledger caller (codes "main") holding ≡ (ok (answer tt), holding)
unfolding authorize_ledger Service.authorize_identity Auth.can_access_ledger str_eq Status.refuse_if
    World.done
caller-allowed = refl

holding-Ordered : Ordered (λ h. h.hold_id) (holds_of (codes "main") [] holding)
unfolding Pages.order_by Pages.insert_row Pages.hold_row Pages.precedes str_eq
holding-Ordered = (((refl, tt), refl), ((tt, refl), tt))

holding-length : length (holds_of (codes "main") [] holding) < 3
unfolding Pages.order_by Pages.insert_row Pages.hold_row Pages.precedes str_eq
holding-length = omega arith

list_holds-skim_example :
    list_holds caller (codes "main") [] 3 [] [] holding
    ≡ (ok (answer (skim 1000 (holds_of (codes "main") [] holding))), holding)
list_holds-skim_example =
    list_holds-skim caller (codes "main") [] holding refl caller-allowed 3 holding-Ordered
      holding-length
