-- ===== src/Accounts.antt =====
-- Account addresses (pkg/accounts/accounts.go).

use fincore_ledger.Prelude.{
  ℕ, ByteString, codes, Bool, true, false, List, [], ◌∷◌, ◌&&◌, ◌||◌, ◌==◌, leb, str_eq, length,
  if◌then◌else◌,
}

abbrev pub max_address_length : ℕ
max_address_length = 1024

abbrev pub world : ByteString
world = codes "_world"

-- A byte of the class `[a-zA-Z0-9_-]`.
unfoldable pub is_segment_byte : ℕ → Bool
is_segment_byte c =
    (leb b'a' c && leb c b'z')
    || (leb b'A' c && leb c b'Z')
    || (leb b'0' c && leb c b'9')
    || c == b'_'
    || c == b'-'

-- `^[a-zA-Z0-9_-]+(:[a-zA-Z0-9_-]+)*$` from a place where `open` says whether the segment that has
-- begun has a byte already.
unfoldable pub match_address : Bool → ByteString → Bool
unfolding is_segment_byte
match_address begun [] = begun
match_address begun (c ∷ s) =
    (is_segment_byte c || (c == b':' && begun)) && match_address (is_segment_byte c) s

-- `Validate`, as the test that it makes: not empty, not too long, and of the form.
unfoldable pub is_valid_address : ByteString → Bool
unfolding match_address
is_valid_address [] = false
is_valid_address (c ∷ s) = leb (length (c ∷ s)) max_address_length && match_address false (c ∷ s)

unfoldable pub is_issuer : ByteString → List ByteString → Bool
is_issuer address [] = false
is_issuer address (i ∷ is) = str_eq address i || is_issuer address is

abbrev pub join_head : ℕ → List ByteString → List ByteString
join_head c [] = (c ∷ []) ∷ []
join_head c (s ∷ ss) = (c ∷ s) ∷ ss

-- `strings.Split(address, ":")`
unfoldable pub segments : ByteString → List ByteString
segments [] = [] ∷ []
segments (c ∷ s) = let rest = segments s in if c == b':' then [] ∷ rest else join_head c rest

unfoldable pub root : ByteString → ByteString
unfolding segments
root address = elim (segments address) [ [] ↦ [] | s ∷ ss ↦ s ]

unfoldable pub is_reserved : ByteString → Bool
unfolding root
is_reserved address = str_eq (root address) (codes "_")

-- The loop over the segments of a pattern, where the two lengths agree.
unfoldable pub match_segments : List ByteString → List ByteString → Bool
match_segments [] [] = true
match_segments [] (p ∷ ps) = false
match_segments (a ∷ rest) [] = false
match_segments (a ∷ rest) (p ∷ ps) = (str_eq p (codes "*") || str_eq p a) && match_segments rest ps

unfoldable pub match_pattern : ByteString → ByteString → Bool
unfolding segments match_segments
match_pattern address pattern =
    length (segments address) == length (segments pattern)
    && match_segments (segments address) (segments pattern)
