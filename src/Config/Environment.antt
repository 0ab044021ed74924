-- ===== src/Config/Environment.antt =====
-- The file of environment variables (internal/config/config.go, loadDotEnv). The lines are those of
-- the scanner; the process environment is a list of variables.
use fincore_ledger.Prelude.{
  ℕ, ◌-◌, ByteString, codes, Bool, false, Option, none, some, List, [], ◌∷◌, ◌&&◌, ◌||◌, leb, ◌==◌,
  str_eq, has_prefix, any, is_empty, length, take, drop, if◌then◌else◌,
}
use fincore_ledger.Policy.{trim_space}

abbrev pub Variables : Type 0
Variables = List (ByteString × ByteString)

-- `os.LookupEnv`
unfoldable pub lookup_env : ByteString → Variables → Option ByteString
lookup_env key [] = none
lookup_env key ((k, v) ∷ vs) = let rest = lookup_env key vs in if str_eq k key then some v else rest

-- `os.Setenv` refuses an empty key and zero bytes; the code does not look at its error.
unfoldable pub set_env : ByteString → ByteString → Variables → Variables
set_env key value vs =
    if is_empty key || any (λ c. c == 0) key || any (λ c. c == 0) value
    then vs
    else (key, value) ∷ vs

-- `strings.Cut` at an equals sign.
abbrev pub push_key : ℕ → Option (ByteString × ByteString) → Option (ByteString × ByteString)
push_key c none = none
push_key c (some (k, v)) = some (c ∷ k, v)

unfoldable pub cut : ByteString → Option (ByteString × ByteString)
cut [] = none
cut (c ∷ s) = let rest = cut s in if c == 61 then some ([], s) else push_key c rest

unfoldable pub ends_with : ℕ → ByteString → Bool
ends_with q [] = false
ends_with q (c ∷ []) = c == q
ends_with q (c ∷ d ∷ s) = ends_with q (d ∷ s)

unfoldable pub starts_with : ℕ → ByteString → Bool
starts_with q [] = false
starts_with q (c ∷ s) = c == q

-- A value of two bytes or more between two double or two single quotes loses them.
unfoldable pub unquote : ByteString → ByteString
unquote v =
    if leb 2 (length v)
      && ((starts_with 34 v && ends_with 34 v) || (starts_with 39 v && ends_with 39 v))
    then drop 1 (take (length v - 1) v)
    else v

unfoldable pub define : ByteString → ByteString → Variables → Variables
define key value vs = elim (lookup_env key vs) [ none ↦ set_env key value vs | some v ↦ vs ]

unfoldable pub load_assignment : Option (ByteString × ByteString) → Variables → Variables
load_assignment none vs = vs
load_assignment (some (k, v)) vs = define (trim_space k) (unquote (trim_space v)) vs

unfoldable pub load_line : ByteString → Variables → Variables
load_line raw vs =
    let line = trim_space raw in
    if is_empty line || has_prefix line (codes "#") then vs else load_assignment (cut line) vs

-- The loop of `loadDotEnv`.
unfoldable pub load_lines : List ByteString → Variables → Variables
load_lines [] vs = vs
load_lines (l ∷ ls) vs = load_lines ls (load_line l vs)
