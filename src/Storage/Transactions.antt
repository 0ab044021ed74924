-- ===== src/Storage/Transactions.antt =====
-- Transactions, accounts and schemas (internal/storage/postgres/store_transactions.go,
-- store_accounts.go, store_metadata.go).
use fincore_ledger.Prelude.{
  ByteString, Bool, Option, none, some, List, [], ◌∷◌, ◌&&◌, ◌||◌, not, str_eq, any, find?,
  update_where, is_empty, if◌then◌else◌,
}
use fincore_ledger.Storage.Records.{
  TransactionRecord, AccountRecord, SchemaRecord, Document, bytes, text, value, Metadata, not_found,
  violation, transaction_reference_conflict,
}
use fincore_ledger.Storage.World.{
  Act, Tables, Result, ok, err, exec, select, affect, call, gets, some_or, ◌>>=◌, ◌>>◌,
}
use fincore_ledger.Storage.Metadata.{merge, delete_key}

unfoldable pub is_transaction : ByteString → ByteString → TransactionRecord → Bool
is_transaction ledger_id tx_id r = str_eq r.ledger_id ledger_id && str_eq r.transaction_id tx_id

-- The primary key, and (ledger_id, reference) where the reference is not NULL.
unfoldable pub clashes : TransactionRecord → TransactionRecord → Bool
clashes a b =
    str_eq a.ledger_id b.ledger_id
    && (str_eq a.transaction_id b.transaction_id
        || (not (is_empty a.reference) && str_eq a.reference b.reference))

unfoldable pub add_transaction : TransactionRecord → Tables → Result Tables
unfolding clashes
add_transaction r t =
    if any (clashes r) t.transactions
    then err transaction_reference_conflict
    else ok (record t { transactions = r ∷ t.transactions })

unfoldable pub insert_transaction : TransactionRecord → Act (Unit {0})
insert_transaction r = exec (add_transaction r)

unfoldable pub get_transaction : ByteString → ByteString → Act TransactionRecord
unfolding is_transaction
get_transaction ledger_id tx_id = do
  found ← select (λ t. find? (is_transaction ledger_id tx_id) t.transactions)
  some_or not_found found

unfoldable pub edit_metadata :
    ByteString → ByteString → (Metadata → Metadata) → Tables → Option Tables
unfolding is_transaction
edit_metadata ledger_id tx_id f t =
    let p = is_transaction ledger_id tx_id in
    let edit = λ (r : TransactionRecord). record r { metadata = f r.metadata } in
    if any p t.transactions
    then some (record t { transactions = update_where p edit t.transactions })
    else none

unfoldable pub update_transaction_metadata : ByteString → ByteString → Metadata → Act (Unit {0})
unfolding edit_metadata
update_transaction_metadata ledger_id tx_id d =
    affect not_found (edit_metadata ledger_id tx_id (λ m. merge m d))

unfoldable pub delete_transaction_metadata_key :
    ByteString → ByteString → ByteString → Act (Unit {0})
unfolding edit_metadata
delete_transaction_metadata_key ledger_id tx_id key =
    affect not_found (edit_metadata ledger_id tx_id (delete_key key))

unfoldable pub is_account : ByteString → ByteString → AccountRecord → Bool
is_account ledger_id address r = str_eq r.ledger_id ledger_id && str_eq r.address address

-- `INSERT … ON CONFLICT (ledger_id, address) DO UPDATE`: the first use stays, the metadata is merged.
unfoldable pub put_account : AccountRecord → List AccountRecord → List AccountRecord
unfolding is_account
put_account a [] = a ∷ []
put_account a (r ∷ rs) =
    if is_account a.ledger_id a.address r
    then record r { updated_at = a.updated_at; metadata = merge r.metadata a.metadata } ∷ rs
    else r ∷ put_account a rs

unfoldable pub upsert_account : AccountRecord → Act (Unit {0})
unfolding put_account
upsert_account a = exec (λ t. ok (record t { accounts = put_account a t.accounts }))

-- `GetAccount`, with ErrNotFound as `none`, which is how its callers take it.
unfoldable pub find_account : ByteString → ByteString → Act (Option AccountRecord)
unfolding is_account
find_account ledger_id address = select (λ t. find? (is_account ledger_id address) t.accounts)

unfoldable pub is_schema : ByteString → ByteString → SchemaRecord → Bool
is_schema ledger_id version r = str_eq r.ledger_id ledger_id && str_eq r.version version

unfoldable pub add_schema : SchemaRecord → Tables → Result Tables
unfolding is_schema
add_schema r t =
    if any (is_schema r.ledger_id r.version) t.schemas
    then err violation
    else ok (record t { schemas = r ∷ t.schemas })

-- What `json.Marshal` writes and `json.Unmarshal` into an `any` reads back: a []byte is written as
-- a base64 string, so it comes back as a string.
unfoldable pub through_json : (ByteString → ByteString) → Document → Document
through_json base64 (bytes b) = text (base64 b)
through_json base64 (text s) = text s
through_json base64 (value v) = value v

unfoldable pub insert_schema : (ByteString → ByteString) → SchemaRecord → Act (Unit {0})
unfolding through_json
insert_schema base64 r =
    let stored = record r { document = through_json base64 r.document } in exec (add_schema stored)

-- Outside a transaction.
unfoldable pub get_schema : ByteString → ByteString → Act SchemaRecord
unfolding is_schema
get_schema ledger_id version = do
  call
  some_or not_found (← gets (λ w. find? (is_schema ledger_id version) w.tables.schemas))
