-- ===== src/Chart.antt =====
-- The chart of accounts (internal/ir/schema.go): a tree of the segments that an address may have.
-- Every error there is a text of its own, so a check is a test and a parse is an option.
use fincore_ledger.Prelude.{
  ByteString, codes, Bool, true, false, Option, none, some, List, [], ◌∷◌, ◌&&◌, ◌||◌, str_eq,
  has_prefix, if◌then◌else◌,
}
use fincore_ledger.Accounts.{segments}

-- A JSON document as encoding/json reads it: a list of entries for an object, with no key twice.
mutual
  pub data Json : Type 0 where
    null : Json
    string : ByteString → Json
    scalar : ByteString → Json
    object : Entries → Json

  pub data Entries : Type 0 where
    end : Entries
    entry : ByteString → Json → Entries → Entries

-- A node has its children, the compiled `.pattern`, and whether it is a leaf; `.metadata` is not
-- used by any check.
mutual
  pub data ChartNode : Type 0 where
    node : Children → Option (ByteString → Bool) → Bool → ChartNode

  pub data Children : Type 0 where
    childless : Children
    child : ByteString → ChartNode → Children → Children

abbrev pub children_of : ChartNode → Children
children_of (node cs p leaf) = cs

abbrev pub is_childless : Children → Bool
is_childless childless = true
is_childless (child k n cs) = false

-- What `parseNode` has gathered from the entries it has seen.
pub record Draft : Type 0 where
  pub children : Children
  pub pattern : Option (ByteString → Bool)
  pub leaf : Bool

abbrev pub empty_draft : Draft
empty_draft = record { children = childless; pattern = none; leaf = false }

abbrev pub is_map : Json → Bool
is_map null = true
is_map (string s) = false
is_map (scalar s) = false
is_map (object es) = true

module _ (compile : ByteString → Option (ByteString → Bool)) where
  abbrev pub with_pattern : ByteString → Option Draft → Option Draft
  with_pattern p none = none
  with_pattern p (some d) = elim (compile p) [
    | none ↦ none
    | some f ↦ some (record d { pattern = some f })
  ]

  -- `.pattern` must be a string, or null for an empty one, that compiles.
  abbrev pub add_pattern : Json → Option Draft → Option Draft
  add_pattern null d = with_pattern [] d
  add_pattern (string s) d = with_pattern s d
  add_pattern (scalar s) d = none
  add_pattern (object es) d = none

  abbrev pub add_leaf : Option Draft → Option Draft
  add_leaf none = none
  add_leaf (some d) = some (record d { leaf = true })

  abbrev pub add_child : ByteString → Option ChartNode → Option Draft → Option Draft
  add_child k none d = none
  add_child k (some n) none = none
  add_child k (some n) (some d) = some (record d { children = child k n d.children })

  -- One entry of a node's object: `parsed` is its value read as a node.
  abbrev pub add_entry : ByteString → Json → Option ChartNode → Option Draft → Option Draft
  add_entry key val parsed d =
      if str_eq key (codes ".pattern")
      then add_pattern val d
      else if str_eq key (codes ".self")
      then add_leaf d
      else if str_eq key (codes ".metadata")
      then (if is_map val then d else none)
      else add_child key parsed d

  -- A node without children is a leaf even where `.self` is missing.
  abbrev pub finish_node : Option Draft → Option ChartNode
  finish_node none = none
  finish_node (some d) = some (node d.children d.pattern (d.leaf || is_childless d.children))

  unfoldable mutual
    pub parse_node : Json → Option ChartNode
    parse_node null = finish_node (some empty_draft)
    parse_node (string s) = none
    parse_node (scalar s) = none
    parse_node (object es) = finish_node (parse_entries es)

    pub parse_entries : Entries → Option Draft
    parse_entries end = some empty_draft
    parse_entries (entry key val es) = add_entry key val (parse_node val) (parse_entries es)

  abbrev pub cons_child : ByteString → Option ChartNode → Option Children → Option Children
  cons_child k none cs = none
  cons_child k (some n) none = none
  cons_child k (some n) (some cs) = some (child k n cs)

  unfoldable pub parse_roots : Entries → Option Children
  parse_roots end = some childless
  parse_roots (entry key val es) = cons_child key (parse_node val) (parse_roots es)

  -- `ParseChartOfAccounts`, behind the reading of the JSON text.
  unfoldable pub parse_chart : Json → Option Children
  parse_chart null = some childless
  parse_chart (string s) = none
  parse_chart (scalar s) = none
  parse_chart (object es) = parse_roots es

unfoldable pub find_exact : ByteString → Children → Option ChartNode
find_exact seg childless = none
find_exact seg (child k n cs) =
    let rest = find_exact seg cs in if str_eq k seg then some n else rest

abbrev pub accepts : ChartNode → ByteString → Bool
accepts (node cs none leaf) seg = true
accepts (node cs (some p) leaf) seg = p seg

-- The first variable child whose pattern accepts the segment, in the order of the list; Go runs
-- through the map in an order of its own.
unfoldable pub find_variable : ByteString → Children → Option ChartNode
find_variable seg childless = none
find_variable seg (child k n cs) =
    let rest = find_variable seg cs in
    if has_prefix k (codes "$") && accepts n seg then some n else rest

abbrev pub or_else : Option ChartNode → Option ChartNode → Option ChartNode
or_else none o = o
or_else (some n) o = some n

-- `matchNode`; `deeper` is the check of the remaining segments against the children.
unfoldable pub match_node : List ByteString → ChartNode → (Children → Bool) → Bool
match_node [] (node cs p leaf) deeper = leaf || is_childless cs
match_node (s ∷ rest) (node cs p leaf) deeper = if is_childless cs then false else deeper cs

abbrev pub match_found : List ByteString → Option ChartNode → (Children → Bool) → Bool
match_found rest none deeper = false
match_found rest (some n) deeper = match_node rest n deeper

-- `validateSegments`
unfoldable pub validate_segments : List ByteString → Children → Bool
unfolding find_exact find_variable match_node
validate_segments [] nodes = false
validate_segments (seg ∷ rest) nodes =
    match_found rest (or_else (find_exact seg nodes) (find_variable seg nodes))
      (validate_segments rest)

-- `ValidateAccount`: an empty chart allows every address.
unfoldable pub validate_account : Children → ByteString → Bool
unfolding validate_segments
validate_account roots address =
    if is_childless roots then true else validate_segments (segments address) roots

unfoldable pub validate_posting : Children → ByteString → ByteString → Bool
unfolding validate_account
validate_posting roots source destination =
    validate_account roots source && validate_account roots destination
