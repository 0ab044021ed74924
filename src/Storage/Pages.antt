-- ===== src/Storage/Pages.antt =====
-- The paged lists and the reads by key outside a transaction (internal/storage/postgres/store_log.go,
-- store_ledgers.go, store_accounts.go, store_transactions.go, store_holds.go, store_governance.go,
-- store_volumes.go). Texts are ordered by their bytes.
use fincore_ledger.Prelude.{
  ℕ, ◌+◌, ByteString, Bool, true, false, Option, none, some, List, [], ◌∷◌, ◌&&◌, ◌||◌, not, ◌==◌,
  ltb, leb, str_eq, is_empty, filter, find?, take, get_elem?, if◌then◌else◌,
}
use fincore_ledger.Prelude.Int.{ℤ}
use fincore_ledger.Storage.Records.{
  Time, LedgerRecord, LogEventRecord, AccountRecord, TransactionRecord, HoldRecord,
  PendingApprovalRecord, BalanceResult, not_found,
}
use fincore_ledger.Storage.World.{Act, Tables, call, gets, some_or, ◌>>=◌, ◌>>◌}
use fincore_ledger.Storage.Volumes.{balance_of}
use fincore_ledger.Storage.Holds.{is_hold, active_total}
use fincore_ledger.Storage.Transactions.{is_transaction, is_account}
use fincore_ledger.Storage.Governance.{pending}

-- `<` on texts.
unfoldable pub precedes : ByteString → ByteString → Bool
precedes s [] = false
precedes [] (d ∷ t) = true
precedes (c ∷ s) (d ∷ t) = ltb c d || (c == d && precedes s t)

abbrev pub max_page_size : ℕ
max_page_size = 1000

-- The `limit` of a list; a negative size is read as 0, which the code treats alike.
unfoldable pub page_limit : ℕ → ℕ
page_limit size = if size == 0 then 100 else if ltb max_page_size size then max_page_size else size

-- The `limit` of the list of approvals, where a size that is too large also gives the default.
unfoldable pub approvals_limit : ℕ → ℕ
approvals_limit size = if size == 0 || ltb max_page_size size then 100 else size

pub record Page (A : Type 0) : Type 0 where
  pub items : List A
  pub next_token : ByteString

module _ {A : Type 0} where
  -- `ORDER BY`, with the comparison of two rows.
  unfoldable pub insert_row : (A → A → Bool) → A → List A → List A
  insert_row le a [] = a ∷ []
  insert_row le a (b ∷ bs) = if le a b then a ∷ b ∷ bs else b ∷ insert_row le a bs

  unfoldable pub order_by : (A → A → Bool) → List A → List A
  unfolding insert_row
  order_by le [] = []
  order_by le (a ∷ bs) = insert_row le a (order_by le bs)

  unfoldable pub token_of : (A → ByteString) → Option A → ByteString
  token_of key none = []
  token_of key (some a) = key a

  -- The rows that the query gives: one more than the limit. The token of the next page is the key of
  -- the row that is cut off.
  unfoldable pub cut_page : (A → ByteString) → ℕ → List A → Page A
  cut_page key limit rows = record {
    items = take limit rows;
    next_token = token_of key (get_elem? rows limit);
  }

  -- One query over the rows in order: those that the token lets through, up to the limit and one.
  unfoldable pub query_page :
      (A → ByteString) → (ByteString → A → Bool) → ℕ → ByteString → List A → Page A
  unfolding cut_page
  query_page key is_past limit token rows =
      let later = if is_empty token then rows else filter (is_past token) rows in
      cut_page key limit (take (limit + 1) later)

unfoldable pub read : {A : Type 0} → (Tables → A) → Act A
read f = call >> gets (λ w. f w.tables)

unfoldable pub read_row : {A : Type 0} → (Tables → Option A) → Act A
read_row f = do call; some_or not_found (← gets (λ w. f w.tables))

abbrev pub by_text : {A : Type 0} → (A → ByteString) → A → A → Bool
by_text key a b = not (precedes (key b) (key a))

abbrev pub past_text : {A : Type 0} → (A → ByteString) → ByteString → A → Bool
past_text key token a = precedes token (key a)

unfoldable pub in_ledger : ByteString → LogEventRecord → Bool
in_ledger ledger_id e = str_eq e.ledger_id ledger_id

-- The events of a ledger, `ORDER BY ledger_seq`.
unfoldable pub ordered_log : ByteString → List LogEventRecord → List LogEventRecord
unfolding in_ledger
ordered_log ledger_id es =
    order_by (λ a b. leb a.ledger_seq b.ledger_seq) (filter (in_ledger ledger_id) es)

unfoldable pub log_page : ByteString → ℕ → ByteString → Tables → Page LogEventRecord
unfolding ordered_log
log_page ledger_id limit token t =
    query_page (λ e. e.event_id) (past_text (λ e. e.event_id)) limit token
      (ordered_log ledger_id t.log_events)

unfoldable pub list_log_events : ByteString → ℕ → ByteString → Act (Page LogEventRecord)
list_log_events ledger_id size token = read (log_page ledger_id (page_limit size) token)

unfoldable pub get_log_event : ByteString → ByteString → Act LogEventRecord
unfolding in_ledger
get_log_event ledger_id event_id =
    read_row (λ t. find? (λ e. in_ledger ledger_id e && str_eq e.event_id event_id) t.log_events)

unfoldable pub list_ledgers : ℕ → ByteString → Act (Page LedgerRecord)
list_ledgers size token = read (λ t.
    query_page (λ r. r.id) (past_text (λ r. r.id)) (page_limit size) token
      (order_by (by_text (λ r. r.id)) t.ledgers))

unfoldable pub list_accounts : ByteString → ℕ → ByteString → Act (Page AccountRecord)
list_accounts ledger_id size token = read (λ t.
    query_page (λ a. a.address) (past_text (λ a. a.address)) (page_limit size) token
      (order_by (by_text (λ a. a.address)) (filter (λ a. str_eq a.ledger_id ledger_id) t.accounts)))

-- `ORDER BY system_time DESC, transaction_id DESC`
unfoldable pub newer_transaction : TransactionRecord → TransactionRecord → Bool
newer_transaction a b =
    ltb b.system_time a.system_time
    || (a.system_time == b.system_time && not (precedes a.transaction_id b.transaction_id))

unfoldable pub list_transactions : ByteString → ℕ → ByteString → Act (Page TransactionRecord)
unfolding newer_transaction
list_transactions ledger_id size token = read (λ t.
    query_page (λ x. x.transaction_id) (λ token x. precedes x.transaction_id token)
      (page_limit size) token
      (order_by newer_transaction (filter (λ x. str_eq x.ledger_id ledger_id) t.transactions)))

unfoldable pub hold_row : ByteString → ByteString → HoldRecord → Bool
hold_row ledger_id account h =
    str_eq h.ledger_id ledger_id && (is_empty account || str_eq h.source account)

unfoldable pub list_holds : ByteString → ByteString → ℕ → ByteString → Act (Page HoldRecord)
unfolding hold_row
list_holds ledger_id account size token = read (λ t.
    query_page (λ h. h.hold_id) (past_text (λ h. h.hold_id)) (page_limit size) token
      (order_by (by_text (λ h. h.hold_id)) (filter (hold_row ledger_id account) t.holds)))

unfoldable pub pending_row : ByteString → PendingApprovalRecord → Bool
pending_row ledger_id a = str_eq a.ledger_id ledger_id && str_eq a.state pending

unfoldable pub list_pending_approvals :
    ByteString → ℕ → ByteString → Act (Page PendingApprovalRecord)
unfolding pending_row
list_pending_approvals ledger_id size token = read (λ t.
    query_page (λ a. a.intent_id) (past_text (λ a. a.intent_id)) (approvals_limit size) token
      (order_by (by_text (λ a. a.intent_id)) (filter (pending_row ledger_id) t.approvals)))

-- The reads of `Store` by key: the query of the transaction, on a connection of its own.
unfoldable pub find_transaction : ByteString → ByteString → Act TransactionRecord
find_transaction ledger_id tx_id =
    read_row (λ t. find? (is_transaction ledger_id tx_id) t.transactions)

unfoldable pub find_account : ByteString → ByteString → Act AccountRecord
find_account ledger_id address = read_row (λ t. find? (is_account ledger_id address) t.accounts)

unfoldable pub find_hold : ByteString → ByteString → Act HoldRecord
find_hold ledger_id hold_id = read_row (λ t. find? (is_hold ledger_id hold_id) t.holds)

unfoldable pub find_balance :
    ByteString → ByteString → ByteString → Option Time → Option Time → Act BalanceResult
find_balance ledger_id account asset valid system =
    read (λ t. balance_of ledger_id account asset valid system t.volumes)

unfoldable pub find_holds_total : ByteString → ByteString → ByteString → Act ℤ
find_holds_total ledger_id account asset = read (λ t. active_total ledger_id account asset t.holds)
