-- ===== src/Api/Auth.antt =====
-- Authentication of a request (internal/api/grpc/auth/auth.go). A set of ledgers is a list. The
-- library that verifies a token is an argument: what it makes of the text of a token.
use fincore_ledger.Prelude.{
  ℕ, ◌+◌, ByteString, codes, Bool, true, false, Option, none, some, List, [], ◌∷◌, ◌&&◌, ◌||◌, leb,
  not, str_eq, has_prefix, is_empty, any, map, length, take, drop, if◌then◌else◌,
}
use fincore_ledger.Policy.{trim_space}
use fincore_ledger.Api.Status.{Rpc, Code, refuse}

pub record Identity : Type 0 where
  pub principal : ByteString
  pub ledgers : List ByteString
  pub all_ledgers : Bool

-- `CanAccessLedger`
unfoldable pub can_access_ledger : Identity → ByteString → Bool
can_access_ledger i ledger_id = i.all_ledgers || any (str_eq ledger_id) i.ledgers

-- What a handler reads of its context: the incoming metadata, which only holds printable ASCII, and
-- the values that an interceptor has stored.
pub record Context : Type 0 where
  pub incoming : Option (List (ByteString × ByteString))
  pub principal : Option ByteString
  pub identity : Option Identity

abbrev pub all_ledgers_wildcard : ByteString
all_ledgers_wildcard = codes "*"

-- The claim "ledgers" of a token: absent, of another type, or an array whose elements may be strings.
pub data Claim : Type 0 where
  absent other : Claim
  array : List (Option ByteString) → Claim

pub record Token : Type 0 where
  pub subject : ByteString
  pub ledgers_claim : Claim

-- The loop over the claim, with the ledgers found so far.
unfoldable pub collect_ledgers : List (Option ByteString) → List ByteString → List ByteString × Bool
collect_ledgers [] found = (found, false)
collect_ledgers (none ∷ es) found = collect_ledgers es found
collect_ledgers (some s ∷ es) found =
    let rest = collect_ledgers es (s ∷ found) in
    if str_eq s all_ledgers_wildcard then ([], true) else rest

-- `parseLedgersClaim`
unfoldable pub parse_ledgers_claim : Claim → List ByteString × Bool
parse_ledgers_claim absent = ([], false)
parse_ledgers_claim other = ([], false)
parse_ledgers_claim (array es) = collect_ledgers es []

abbrev pub bearer_prefix : ByteString
bearer_prefix = codes "Bearer "

abbrev pub lower_byte : ℕ → ℕ
lower_byte c = if leb 65 c && leb c 90 then c + 32 else c

-- `strings.EqualFold`, for a second string of ASCII letters without k and s.
unfoldable pub equal_fold : ByteString → ByteString → Bool
equal_fold s t = str_eq (map lower_byte s) (map lower_byte t)

-- The first value of a key of the metadata.
unfoldable pub first_value : ByteString → List (ByteString × ByteString) → Option ByteString
first_value key [] = none
first_value key ((k, v) ∷ rest) =
    let later = first_value key rest in if str_eq k key then some v else later

unfoldable pub token_of_header : ByteString → Option ByteString
token_of_header header =
    let prefix = take 7 header in
    let token = trim_space (drop 7 header) in
    if leb (length header) 7 || not (equal_fold prefix bearer_prefix)
    then none
    else if is_empty token
    then none
    else some token

unfoldable pub token_of_value : Option ByteString → Option ByteString
token_of_value none = none
token_of_value (some header) = token_of_header header

-- `bearerToken`
unfoldable pub bearer_token : Option (List (ByteString × ByteString)) → Option ByteString
bearer_token none = none
bearer_token (some md) = token_of_value (first_value (codes "authorization") md)

unfoldable pub identity_of : Option Token → Option Identity
identity_of none = none
identity_of (some t) =
    let (ledgers, all) = parse_ledgers_claim t.ledgers_claim in
    let i : Identity = record { principal = t.subject; ledgers = ledgers; all_ledgers = all } in
    if is_empty t.subject then none else some i

unfoldable pub verify : (ByteString → Option Token) → Option ByteString → Option Identity
verify parse none = none
verify parse (some raw) = identity_of (parse raw)

-- `AuthenticateIdentity` of the authenticator for tokens.
unfoldable pub authenticate_identity : (ByteString → Option Token) → Context → Option Identity
authenticate_identity parse ctx = verify parse (bearer_token ctx.incoming)

-- An authenticator gives an identity, or only a principal.
pub data Authenticator : Type 0 where
  gives_identity : (Context → Option Identity) → Authenticator
  gives_principal : (Context → Option ByteString) → Authenticator

unfoldable pub with_identity : Context → Option Identity → Option Context
with_identity ctx none = none
with_identity ctx (some i) = some (record ctx { principal = some i.principal; identity = some i })

unfoldable pub with_principal : Context → Option ByteString → Option Context
with_principal ctx none = none
with_principal ctx (some p) = some (record ctx { principal = some p })

-- `authenticateAndInject`
unfoldable pub authenticate_and_inject : Context → Authenticator → Option Context
authenticate_and_inject ctx (gives_identity f) = with_identity ctx (f ctx)
authenticate_and_inject ctx (gives_principal f) = with_principal ctx (f ctx)

-- `methodIsExempt`
unfoldable pub method_is_exempt : ByteString → Bool
method_is_exempt m =
    has_prefix m (codes "/grpc.health.v1.Health/") || has_prefix m (codes "/grpc.reflection.")

module _ {A : Type 0} where
  unfoldable pub admit : (Context → Rpc A) → Option Context → Rpc A
  admit handler none = refuse Code.unauthenticated
  admit handler (some ctx) = handler ctx

  unfoldable pub authenticated : Option Authenticator → Context → (Context → Rpc A) → Rpc A
  authenticated none ctx handler = refuse Code.unauthenticated
  authenticated (some authn) ctx handler = admit handler (authenticate_and_inject ctx authn)

  -- `NewUnaryServerInterceptor`
  unfoldable pub intercept : Option Authenticator → ByteString → Context → (Context → Rpc A) → Rpc A
  intercept authn method ctx handler =
      if method_is_exempt method then handler ctx else authenticated authn ctx handler

  -- `NewStreamServerInterceptor`: the handler reads the context of its stream, which is that of the
  -- caller or, in a `principalStream`, the one with the identity.
  unfoldable pub intercept_stream :
      Option Authenticator → ByteString → Context → (Context → Rpc A) → Rpc A
  intercept_stream authn method stream handler =
      if method_is_exempt method then handler stream else authenticated authn stream handler
