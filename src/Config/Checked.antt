-- ===== src/Config/Checked.antt =====
-- What a configuration that has been checked promises, and what the file of variables leaves alone
-- (internal/config/config.go).
use fincore_ledger.Prelude.{
  ℕ, ◌≤◌, ◌≡◌, ◌≢◌, refl, ap, subst, ByteString, codes, Bool, true, false, Option, none, some, List,
  [], ◌∷◌, ◌&&◌, ◌||◌, not, ◌==◌, str_eq, str_eq→eq, has_prefix, any, is_empty, if◌then◌else◌,
  arith,
}
use fincore_ledger.Policy.{trim_space}
use fincore_ledger.Api.Ratelimit.{Limiter, Arrival, limit_for, is_write_method, key_of, check_all}
use fincore_ledger.Throttling.{admitted, check_all-bound}
use fincore_ledger.Config.Settings
use fincore_ledger.Config.Settings.{Config, RateLimitConfig, validate, limiter_of, new_rate_limiter}
use fincore_ledger.Config.Environment.{
  Variables, lookup_env, set_env, define, load_assignment, load_line, load_lines, cut, unquote,
}

last_check : (a b : Bool) → a && b ≡ true → b ≡ true
last_check true b h = h
last_check false b h = cc

both_positive :
    (on : Bool) (x y : ℕ)
    → on ≡ true
    → not on || (not (x == 0) && not (y == 0)) ≡ true
    → (x ≢ 0) × (y ≢ 0)
both_positive on x y e h = ground arith

abbrev pub rate_of : Bool → ℕ × ByteString → ℕ × ByteString → ℕ
rate_of b x y = (if◌then◌else◌ {A = ℕ × ByteString} b x y).0

limits_positive :
    (r : RateLimitConfig)
    → r.enabled ≡ true
    → Settings.has_limits r ≡ true
    → (m : ByteString) → (limit_for (limiter_of r) m).0 ≢ 0
unfolding Settings.has_limits limit_for
limits_positive r e h m =
    by_class (is_write_method m) (both_positive r.enabled r.read_rps r.write_rps e h)
  where
    by_class :
        (b : Bool)
        → (r.read_rps ≢ 0) × (r.write_rps ≢ 0)
        → rate_of b (r.write_rps, codes "w") (r.read_rps, codes "r") ≢ 0
    by_class true (p, q) = q
    by_class false (p, q) = p

validate-limits : (c : Config) → validate c ≡ true → Settings.has_limits c.rate_limit ≡ true
unfolding validate
validate-limits c h = ground arith

enabled_limiter :
    (r : RateLimitConfig) (l : Limiter) (b : Bool)
    → (if b then some (limiter_of r) else none) ≡ some l
    → (b ≡ true) × (limiter_of r ≡ l)
enabled_limiter r l true h = (refl, cc)
enabled_limiter r l false h = cc

-- Where a configuration that passes its checks gives the server a limiter, whatever requests arrive,
-- of those with the key of one of them at most the limit of its class, which is not 0, are let through
-- while Redis answers.
pub validate-bound :
    (c : Config) (l : Limiter) (a : Arrival) (rs : List Arrival)
    → validate c ≡ true
    → new_rate_limiter c.rate_limit ≡ some l
    → ((limit_for l a.method).0 ≢ 0)
      × (admitted l (key_of l a) (check_all l rs []) ≤ (limit_for l a.method).0)
unfolding new_rate_limiter
validate-bound c l a rs h e =
    let (on, same) = enabled_limiter c.rate_limit l c.rate_limit.enabled e in
    let positive =
      subst (λ l. (limit_for l a.method).0 ≢ 0) same
        (limits_positive c.rate_limit on (validate-limits c h) a.method) in
    (positive, check_all-bound l a rs positive)

set_other :
    (k key value : ByteString) (vs : Variables) (v : ByteString)
    → lookup_env key vs ≡ none
    → lookup_env k vs ≡ some v
    → lookup_env k (set_env key value vs) ≡ some v
unfolding set_env lookup_env
set_other k key value vs v h g =
    by_guard (is_empty key || any (λ c. c == 0) key || any (λ c. c == 0) value)
  where
    by_key : (b : Bool) → str_eq key k ≡ b → (if b then some value else lookup_env k vs) ≡ some v
    by_key true e = let p = ap (λ k. lookup_env k vs) (str_eq→eq key k e) in cc
    by_key false e = g

    by_guard : (b : Bool) → lookup_env k (if b then vs else (key, value) ∷ vs) ≡ some v
    by_guard true = g
    by_guard false = by_key (str_eq key k) refl

define-keeps :
    (k key value : ByteString) (vs : Variables) (v : ByteString)
    → lookup_env k vs ≡ some v
    → lookup_env k (define key value vs) ≡ some v
unfolding define
define-keeps k key value vs v h = by_lookup (lookup_env key vs) refl
  where
    by_lookup :
        (o : Option ByteString)
        → lookup_env key vs ≡ o
        → lookup_env k (elim o [ none ↦ set_env key value vs | some v ↦ vs ]) ≡ some v
    by_lookup none e = set_other k key value vs v e h
    by_lookup (some w) e = h

assignment_keeps :
    (o : Option (ByteString × ByteString)) (k : ByteString) (vs : Variables) (v : ByteString)
    → lookup_env k vs ≡ some v
    → lookup_env k (load_assignment o vs) ≡ some v
unfolding load_assignment
assignment_keeps none k vs v h = h
assignment_keeps (some (key, value)) k vs v h =
    define-keeps k (trim_space key) (unquote (trim_space value)) vs v h

load_line-keeps :
    (l k : ByteString) (vs : Variables) (v : ByteString)
    → lookup_env k vs ≡ some v
    → lookup_env k (load_line l vs) ≡ some v
unfolding load_line
load_line-keeps l k vs v h =
    by_comment (is_empty (trim_space l) || has_prefix (trim_space l) (codes "#"))
  where
    by_comment :
        (b : Bool)
        → lookup_env k (if b then vs else load_assignment (cut (trim_space l)) vs) ≡ some v
    by_comment true = h
    by_comment false = assignment_keeps (cut (trim_space l)) k vs v h

-- The file of variables leaves every variable that the environment has as it is.
pub load_lines-keeps :
    (ls : List ByteString) (k : ByteString) (vs : Variables) (v : ByteString)
    → lookup_env k vs ≡ some v
    → lookup_env k (load_lines ls vs) ≡ some v
unfolding load_lines
load_lines-keeps [] k vs v h = h
load_lines-keeps (l ∷ ls) k vs v h =
    load_lines-keeps ls k (load_line l vs) v (load_line-keeps l k vs v h)
