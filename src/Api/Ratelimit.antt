-- ===== src/Api/Ratelimit.antt =====
-- The rate limiter (internal/api/grpc/ratelimit/ratelimit.go). The counters in Redis are a list of
-- keys with their counts; the expiry of a key, which nothing reads again, is left out. Logging is
-- left out.
use fincore_ledger.Prelude.{
  ℕ, ◌+◌, ◌/◌, ByteString, codes, Bool, true, Option, none, some, List, [], ◌∷◌, ◌++◌, ◌==◌, leb,
  str_eq, any, is_empty, if◌then◌else◌,
}
use fincore_ledger.Prelude.Int.{pos}
use fincore_ledger.Bigamount.{to_string}

abbrev pub write_methods : List ByteString
write_methods =
    codes "Submit"
    ∷ codes "SubmitForApproval"
    ∷ codes "ApproveIntent"
    ∷ codes "Import"
    ∷ codes "CreateLedger"
    ∷ codes "SealLedger"
    ∷ []

-- What follows the last slash, or the whole text.
unfoldable pub after_last_slash : ByteString → ByteString → ByteString
after_last_slash found [] = found
after_last_slash found (c ∷ s) = after_last_slash (if c == 47 then s else found) s

unfoldable pub is_write_method : ByteString → Bool
is_write_method method = any (str_eq (after_last_slash method method)) write_methods

-- A limit of 0 stands for one that is not positive.
pub record Limiter : Type 0 where
  pub read_rps : ℕ
  pub write_rps : ℕ

-- `limitFor`
unfoldable pub limit_for : Limiter → ByteString → ℕ × ByteString
limit_for l method =
    if is_write_method method then (l.write_rps, codes "w") else (l.read_rps, codes "r")

-- The address of the peer and, where it splits, its host.
pub record Peer : Type 0 where
  pub address : ByteString
  pub host : Option ByteString

unfoldable pub peer_key : Option Peer → ByteString
peer_key none = codes "anon"
peer_key (some p) = codes "ip:" ++ (elim (p.host) [ none ↦ p.address | some h ↦ h ])

-- `principalKey`
unfoldable pub principal_key : Option ByteString → Option Peer → ByteString
principal_key none peer = peer_key peer
principal_key (some p) peer = if is_empty p then peer_key peer else codes "p:" ++ p

abbrev pub Counters : Type 0
Counters = List (ByteString × ℕ)

unfoldable pub count_of : ByteString → Counters → ℕ
count_of key [] = 0
count_of key ((k, n) ∷ cs) = let rest = count_of key cs in if str_eq k key then n else rest

-- The command INCR: the new count.
unfoldable pub incr : ByteString → Counters → ℕ × Counters
incr key cs = let n = count_of key cs + 1 in (n, (key, n) ∷ cs)

abbrev pub colon : ByteString
colon = codes ":"

unfoldable pub window_key : ByteString → ByteString → ℕ → ByteString
window_key class subject second =
    codes "rl:" ++ class ++ colon ++ subject ++ colon ++ to_string (pos second)

-- One request at a time in nanoseconds, its subject, and whether Redis answers.
pub record Arrival : Type 0 where
  pub method : ByteString
  pub subject : ByteString
  pub time : ℕ
  pub counter_fails : Bool

unfoldable pub key_of : Limiter → Arrival → ByteString
key_of l a = window_key (limit_for l a.method).1 a.subject (a.time / 1000000000)

unfoldable pub counted : ℕ → ℕ × Counters → Bool × Counters
counted limit (n, cs) = (leb n limit, cs)

-- `check`, by way of `allow`: whether the request may go on. A counter that fails lets it through.
unfoldable pub check : Limiter → Arrival → Counters → Bool × Counters
check l a cs =
    let limit = (limit_for l a.method).0 in
    if limit == 0
    then (true, cs)
    else if a.counter_fails
    then (true, cs)
    else counted limit (incr (key_of l a) cs)

-- The requests one after the other, with their answers.
unfoldable pub check_all : Limiter → List Arrival → Counters → List (Arrival × Bool)
check_all l [] cs = []
check_all l (a ∷ rest) cs = let (allowed, cs') = check l a cs in (a, allowed) ∷ check_all l rest cs'
