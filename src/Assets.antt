-- ===== src/Assets.antt =====
-- Asset identifiers (pkg/assets/assets.go).
use fincore_ledger.Prelude.{
  ℕ, zero, suc, ◌+◌, ◌-◌, ◌*◌, ByteString, Bool, true, false, Option, none, some, [], ◌∷◌, ◌&&◌,
  ◌||◌, ◌==◌, leb, if◌then◌else◌,
}

unfoldable pub is_upper : ℕ → Bool
is_upper c = leb b'A' c && leb c b'Z'

unfoldable pub is_digit : ℕ → Bool
is_digit c = leb b'0' c && leb c b'9'

-- `(\/\d{1,6})?$` behind the slash: `room` digits may follow, and `seen` says that one has.
unfoldable pub match_precision : ℕ → Bool → ByteString → Bool
unfolding is_digit
match_precision room seen [] = seen
match_precision zero seen (c ∷ s) = false
match_precision (suc room) seen (c ∷ s) = is_digit c && match_precision room true s

-- `(_[A-Z]{1,16})?(\/\d{1,6})?$` behind the underscore.
unfoldable pub match_suffix : ℕ → Bool → ByteString → Bool
unfolding is_upper match_precision
match_suffix room seen [] = seen
match_suffix zero seen (c ∷ s) = c == b'/' && match_precision 6 false s
match_suffix (suc room) seen (c ∷ s) =
    let precision = match_precision 6 false s in
    let more = match_suffix room true s in
    if c == b'/' then seen && precision else is_upper c && more

-- `[A-Z0-9]{0,16}(_[A-Z]{1,16})?(\/\d{1,6})?$` behind the first letter.
unfoldable pub match_ticker : ℕ → ByteString → Bool
unfolding is_upper is_digit match_suffix match_precision
match_ticker room [] = true
match_ticker zero (c ∷ s) =
    if c == b'_' then match_suffix 16 false s else c == b'/' && match_precision 6 false s
match_ticker (suc room) (c ∷ s) =
    let more = match_ticker room s in
    if c == b'_'
    then match_suffix 16 false s
    else if c == b'/'
    then match_precision 6 false s
    else (is_upper c || is_digit c) && more

-- `Validate`, as the test that it makes.
unfoldable pub is_valid_asset : ByteString → Bool
unfolding match_ticker is_upper
is_valid_asset [] = false
is_valid_asset (c ∷ s) = is_upper c && match_ticker 16 s

pub record Asset : Type 0 where
  pub raw : ByteString
  pub ticker : ByteString
  pub suffix : ByteString
  pub precision : Option ℕ

-- The text before and behind the first byte `b`, where there is one.
unfoldable pub cut : ℕ → ByteString → Option (ByteString × ByteString)
cut b [] = none
cut b (c ∷ s) =
    let rest = cut b s in
    if c == b then some ([], s) else elim rest [ none ↦ none | some (l, r) ↦ some (c ∷ l, r) ]

-- `strconv.Atoi` on decimal digits; a valid asset has no other byte behind its slash.
unfoldable pub atoi : ℕ → ByteString → ℕ
atoi n [] = n
atoi n (c ∷ s) = atoi (n * 10 + (c - b'0')) s

unfoldable pub split_suffix : ByteString → Option ℕ → ByteString → Asset
unfolding cut
split_suffix raw precision s = elim (cut b'_' s) [
  | none ↦ record { raw = raw; ticker = s; suffix = []; precision = precision }
  | some (l, r) ↦ record { raw = raw; ticker = l; suffix = r; precision = precision }
]

-- `Parse`: `none` is an error, and a precision of -1 is `none`. A valid asset has one slash at most,
-- so its last is its first.
unfoldable pub parse_asset : ByteString → Option Asset
unfolding is_valid_asset cut atoi split_suffix
parse_asset raw =
    let parsed : Asset = elim (cut b'/' raw) [
      | none ↦ split_suffix raw none raw
      | some (l, r) ↦ split_suffix raw (some (atoi 0 r)) l
    ] in
    if is_valid_asset raw then some parsed else none
