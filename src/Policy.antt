-- ===== src/Policy.antt =====
-- The deny-list policies (internal/policy/evaluator.go). A policy text is a list of bytes.
use fincore_ledger.Prelude.{
  ℕ, ByteString, codes, Bool, true, false, Option, none, some, List, [], ◌∷◌, ◌++◌, ◌&&◌, ◌||◌,
  ◌==◌, leb, str_eq, has_prefix, is_empty, if◌then◌else◌,
}

-- `strings.Split(text, "\n")`
abbrev pub join_head : ℕ → List ByteString → List ByteString
join_head c [] = (c ∷ []) ∷ []
join_head c (s ∷ ss) = (c ∷ s) ∷ ss

unfoldable pub lines_of : ByteString → List ByteString
lines_of [] = [] ∷ []
lines_of (c ∷ s) = let rest = lines_of s in if c == 10 then [] ∷ rest else join_head c rest

-- ASCII white space, which `TrimSpace` and `Fields` look for.
unfoldable pub is_space : ℕ → Bool
is_space c = c == 32 || (leb 9 c && leb c 13)

-- `strings.Fields`: `word` is what has been read of the current field.
unfoldable pub flush : ByteString → List ByteString → List ByteString
flush [] rest = rest
flush (c ∷ w) rest = (c ∷ w) ∷ rest

unfoldable pub fields_from : ByteString → ByteString → List ByteString
unfolding is_space flush
fields_from word [] = flush word []
fields_from word (c ∷ s) =
    let next = fields_from [] s in
    let longer = fields_from (word ++ (c ∷ [])) s in
    elim (is_space c) [ true ↦ flush word next | false ↦ longer ]

unfoldable pub fields : ByteString → List ByteString
unfolding fields_from
fields s = fields_from [] s

unfoldable pub trim_left : ByteString → ByteString
unfolding is_space
trim_left [] = []
trim_left (c ∷ s) = if is_space c then trim_left s else c ∷ s

-- The text up to its last byte that is no space.
unfoldable pub trim_right : ByteString → ByteString
unfolding is_space
trim_right [] = []
trim_right (c ∷ s) = let rest = trim_right s in if is_space c && is_empty rest then [] else c ∷ rest

unfoldable pub trim_space : ByteString → ByteString
unfolding trim_left trim_right
trim_space s = trim_right (trim_left s)

-- The text before a final ":*", colon included, where there is one.
unfoldable pub prefix_of : ByteString → Option ByteString
prefix_of [] = none
prefix_of (c ∷ s) =
    let rest = prefix_of s in
    if str_eq (c ∷ s) (codes ":*")
    then some (codes ":")
    else elim rest [ none ↦ none | some p ↦ some (c ∷ p) ]

-- `matchPattern`
unfoldable pub match_pattern : ByteString → ByteString → Bool
unfolding prefix_of
match_pattern pattern value =
    if str_eq pattern (codes "*")
    then true
    else elim (prefix_of pattern) [ some p ↦ has_prefix value p | none ↦ str_eq pattern value ]

-- What a line of a policy says.
pub data Rule : Type 0 where
  skip deny_all malformed : Rule
  deny : ByteString → ByteString → ByteString → List ByteString → Rule

-- The fields behind `deny`; a pattern that is missing is "*".
unfoldable pub deny_fields : List ByteString → Rule
deny_fields [] = malformed
deny_fields (p ∷ []) = deny p (codes "*") (codes "*") []
deny_fields (p ∷ o ∷ []) = deny p o (codes "*") []
deny_fields (p ∷ o ∷ a ∷ rest) = deny p o a rest

unfoldable pub parse_fields : List ByteString → Rule
unfolding deny_fields
parse_fields [] = malformed
parse_fields (verb ∷ rest) = if str_eq verb (codes "deny") then deny_fields rest else malformed

-- The tests on a trimmed line.
unfoldable pub parse_line : ByteString → Rule
unfolding parse_fields fields trim_space
parse_line raw =
    let line = trim_space raw in
    if is_empty line || has_prefix line (codes "#")
    then skip
    else if str_eq line (codes "deny all")
    then deny_all
    else parse_fields (fields line)

pub record Request : Type 0 where
  pub principal : ByteString
  pub operation : ByteString
  pub accounts : List ByteString

unfoldable pub touches_match : ByteString → List ByteString → Bool
unfolding match_pattern
touches_match pattern [] = false
touches_match pattern (a ∷ rest) = match_pattern pattern a || touches_match pattern rest

-- Whether a rule denies a request. Fields behind the account pattern are not looked at.
unfoldable pub rule_denies : Request → Rule → Bool
unfolding touches_match match_pattern
rule_denies q skip = false
rule_denies q deny_all = true
rule_denies q malformed = false
rule_denies q (deny p o a rest) =
    match_pattern p q.principal
    && (match_pattern o q.operation && (str_eq a (codes "*") || touches_match a q.accounts))

unfoldable pub any_denies : Request → List ByteString → Bool
unfolding rule_denies parse_line
any_denies q [] = false
any_denies q (l ∷ ls) = rule_denies q (parse_line l) || any_denies q ls

-- `Evaluate`, as whether the request is denied.
unfoldable pub evaluate : ByteString → Request → Bool
unfolding any_denies lines_of
evaluate [] q = false
evaluate (c ∷ s) q = any_denies q (lines_of (c ∷ s))

unfoldable pub rule_is_valid : Rule → Bool
rule_is_valid skip = true
rule_is_valid deny_all = true
rule_is_valid malformed = false
rule_is_valid (deny p o a rest) = is_empty rest

unfoldable pub all_lines_valid : List ByteString → Bool
unfolding rule_is_valid parse_line
all_lines_valid [] = true
all_lines_valid (l ∷ ls) = rule_is_valid (parse_line l) && all_lines_valid ls

-- `ValidatePolicy`, as whether there is no error.
unfoldable pub validate_policy : ByteString → Bool
unfolding all_lines_valid lines_of
validate_policy s = all_lines_valid (lines_of s)
