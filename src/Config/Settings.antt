-- ===== src/Config/Settings.antt =====
-- The settings of the server and their validation (internal/config/config.go). Numbers and durations
-- are taken not to be negative; a negative one is refused as 0 is.
use fincore_ledger.Prelude.{
  ℕ, ByteString, codes, Bool, Option, none, some, List, [], ◌∷◌, ◌&&◌, ◌||◌, not, leb, ◌==◌, str_eq,
  has_prefix, any, is_empty, if◌then◌else◌,
}
use fincore_ledger.Policy.{trim_space}
use fincore_ledger.Api.Ratelimit.{Limiter}

pub record WorkerConfig : Type 0 where
  pub batch_close_interval : ℕ
  pub checkpoint_interval : ℕ
  pub hold_expiry_interval : ℕ
  pub approval_expiry_interval : ℕ
  pub stuck_approval_threshold : ℕ

pub record AuthConfig : Type 0 where
  pub method : ByteString
  pub jwks_url : ByteString
  pub audience : ByteString
  pub issuer : ByteString
  pub admin_principals : List ByteString

pub record RateLimitConfig : Type 0 where
  pub enabled : Bool
  pub read_rps : ℕ
  pub write_rps : ℕ

pub record Config : Type 0 where
  pub postgres_dsn : ByteString
  pub redis_url : ByteString
  pub grpc_port : ℕ
  pub http_port : ℕ
  pub otel_endpoint : ByteString
  pub otel_insecure : Bool
  pub worker : WorkerConfig
  pub auth : AuthConfig
  pub rate_limit : RateLimitConfig
  pub environment : ByteString
  pub log_level : ByteString

-- `strings.Contains`
unfoldable pub contains : ByteString → ByteString → Bool
contains [] p = is_empty p
contains (c ∷ s) p = has_prefix (c ∷ s) p || contains s p

unfoldable pub is_port : ℕ → Bool
is_port n = not (n == 0) && leb n 65535

abbrev pub valid_environments : List ByteString
valid_environments = codes "development" ∷ codes "production" ∷ codes "test" ∷ []

abbrev pub valid_levels : List ByteString
valid_levels = codes "debug" ∷ codes "info" ∷ codes "warn" ∷ codes "error" ∷ []

abbrev pub is_development : Config → Bool
is_development c = str_eq c.environment (codes "development")

unfoldable pub are_positive : WorkerConfig → Bool
are_positive w =
    not (w.batch_close_interval == 0)
    && not (w.checkpoint_interval == 0)
    && not (w.hold_expiry_interval == 0)
    && not (w.approval_expiry_interval == 0)
    && not (w.stuck_approval_threshold == 0)

unfoldable pub has_safe_database : Config → Bool
has_safe_database c = is_development c || not (contains c.postgres_dsn (codes "sslmode=disable"))

unfoldable pub has_safe_keys : Config → Bool
has_safe_keys c = is_development c || has_prefix c.auth.jwks_url (codes "https://")

unfoldable pub has_limits : RateLimitConfig → Bool
has_limits r = not r.enabled || (not (r.read_rps == 0) && not (r.write_rps == 0))

-- `validate`, as whether there is no error.
unfoldable pub validate : Config → Bool
validate c =
    not (is_empty c.postgres_dsn)
    && not (is_empty c.redis_url)
    && is_port c.grpc_port
    && is_port c.http_port
    && any (str_eq c.environment) valid_environments
    && any (str_eq c.log_level) valid_levels
    && are_positive c.worker
    && has_safe_database c
    && str_eq c.auth.method (codes "jwt")
    && not (is_empty c.auth.jwks_url)
    && has_safe_keys c
    && has_limits c.rate_limit

-- `strings.Split` at a comma.
abbrev pub join_first : ℕ → List ByteString → List ByteString
join_first c [] = (c ∷ []) ∷ []
join_first c (p ∷ ps) = (c ∷ p) ∷ ps

unfoldable pub split_at_commas : ByteString → List ByteString
split_at_commas [] = [] ∷ []
split_at_commas (c ∷ s) =
    let rest = split_at_commas s in if c == 44 then [] ∷ rest else join_first c rest

unfoldable pub keep_named : List ByteString → List ByteString
keep_named [] = []
keep_named (p ∷ ps) =
    let rest = keep_named ps in if is_empty (trim_space p) then rest else trim_space p ∷ rest

-- `splitCSV`
unfoldable pub split_csv : ByteString → List ByteString
split_csv s = if is_empty s then [] else keep_named (split_at_commas s)

abbrev pub limiter_of : RateLimitConfig → Limiter
limiter_of r = record { read_rps = r.read_rps; write_rps = r.write_rps }

-- `newRateLimiter` (cmd/server/main.go)
unfoldable pub new_rate_limiter : RateLimitConfig → Option Limiter
new_rate_limiter r = if r.enabled then some (limiter_of r) else none
