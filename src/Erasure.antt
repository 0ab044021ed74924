-- ===== src/Erasure.antt =====
-- What deleting a key of an account's metadata does to the account
-- (internal/planner/operations_shared.go `doDeleteMetadataInTx`,
-- internal/storage/postgres/store_accounts.go `UpsertAccount`).
use fincore_ledger.Prelude.{
  ◌≡◌, refl, sym, ◌∙◌, ap, subst, ByteString, Bool, true, false, Option, none, some, List, [], ◌∷◌,
  str_eq, str_eq→eq, if◌then◌else◌, Bool-cases, inl, inr,
}
use fincore_ledger.Storage.Records.{Metadata, AccountRecord, Time}
use fincore_ledger.Storage.World.{World, Tables, ok}
use fincore_ledger.Storage.Metadata.{set_key, merge, delete_key}
use fincore_ledger.Storage.Transactions.{is_account, put_account, upsert_account}
use fincore_ledger.Planner.Metadata.{remove_metadata, delete_from_account}
use fincore_ledger.Safety.Rules.{Preserves, Preserves-exec, Preserves-bind, Preserves-done}
use fincore_ledger.Safety.Frame.{Preserves-find_account}

-- The value of a key.
unfoldable pub value_of : ByteString → Metadata → Option ByteString
value_of k [] = none
value_of k ((j, x) ∷ m) = if str_eq j k then some x else value_of k m

-- The value of a key in the row of an account.
unfoldable pub value_at :
    ByteString → ByteString → ByteString → List AccountRecord → Option ByteString
unfolding value_of is_account
value_at k ledger_id address [] = none
value_at k ledger_id address (r ∷ rs) =
    if is_account ledger_id address r
    then value_of k r.metadata
    else value_at k ledger_id address rs

if_false : {A : Type 0} (b : Bool) (x y : A) → b ≡ false → (if b then x else y) ≡ y
if_false b x y h = rw h

set_other :
    (k j v : ByteString) (m : Metadata)
    → str_eq j k ≡ false
    → value_of k (set_key j v m) ≡ value_of k m
unfolding value_of set_key
set_other k j v [] h = if_false _ _ _ h
set_other k j v ((i, x) ∷ m) h = elim (Bool-cases (str_eq i j)) [
  | inl e ↦
      let same = str_eq→eq i j e in
      let other : str_eq i k ≡ false = ap (λ z. str_eq z k) same ∙ h in
      let set : value_of k (if str_eq i j then (j, v) ∷ m else (i, x) ∷ set_key j v m)
          ≡ value_of k ((j, v) ∷ m) =
        ap (λ b. value_of k (if b then (j, v) ∷ m else (i, x) ∷ set_key j v m)) e in
      set ∙ (if_false _ _ _ h ∙ sym (if_false _ _ _ other))
  | inr e ↦
      let set : value_of k (if str_eq i j then (j, v) ∷ m else (i, x) ∷ set_key j v m)
          ≡ value_of k ((i, x) ∷ set_key j v m) =
        ap (λ b. value_of k (if b then (j, v) ∷ m else (i, x) ∷ set_key j v m)) e in
      set ∙ ap (λ z. if str_eq i k then some x else z) (set_other k j v m h)
]

merge_kept :
    (k : ByteString) (m d : Metadata) → value_of k d ≡ none → value_of k (merge m d) ≡ value_of k m
unfolding merge value_of
merge_kept k m [] h = refl
merge_kept k m ((j, v) ∷ d) h = elim (Bool-cases (str_eq j k)) [
  | inl e ↦ cc
  | inr e ↦ merge_kept k (set_key j v m) d (sym (if_false _ _ _ e) ∙ h) ∙ set_other k j v m e
]

delete_gone : (k : ByteString) (m : Metadata) → value_of k (delete_key k m) ≡ none
unfolding value_of delete_key
delete_gone k [] = refl
delete_gone k ((j, x) ∷ m) = gone (str_eq j k) refl (delete_gone k m)
  where
    gone :
        (b : Bool)
        → str_eq j k ≡ b
        → value_of k (delete_key k m) ≡ none
        → value_of k (if b then delete_key k m else (j, x) ∷ delete_key k m) ≡ none
    gone true e p = p
    gone false e p = if_false _ _ _ e ∙ p

-- An upsert with metadata that lacks a key leaves the key's value in every row.
put_account-kept :
    (k l i : ByteString) (a : AccountRecord) (rs : List AccountRecord)
    → value_of k a.metadata ≡ none
    → value_at k l i (put_account a rs) ≡ value_at k l i rs
unfolding value_at put_account is_account
put_account-kept k l i a [] h = lacking (is_account l i a) (value_of k a.metadata) h
  where
    lacking : (b : Bool) (x : Option ByteString) → x ≡ none → (if b then x else none) ≡ none
    lacking true x h = h
    lacking false x h = refl
put_account-kept k l i a (r ∷ rs) h =
    put_at (is_account a.ledger_id a.address r) (merge_kept k r.metadata a.metadata h)
      (put_account-kept k l i a rs h)
  where
    row : AccountRecord
    row = record r { updated_at = a.updated_at; metadata = merge r.metadata a.metadata }

    put_at :
        (b : Bool)
        → value_of k row.metadata ≡ value_of k r.metadata
        → value_at k l i (put_account a rs) ≡ value_at k l i rs
        → value_at k l i (if b then row ∷ rs else r ∷ put_account a rs) ≡ value_at k l i (r ∷ rs)
    put_at true p q = ap (λ z. if is_account l i r then z else value_at k l i rs) p
    put_at false p q = ap (λ z. if is_account l i r then value_of k r.metadata else z) q

module _ (k l i : ByteString) (v : Option ByteString) where
  HasValue : Tables → Type 0
  HasValue t = value_at k l i t.accounts ≡ v

  upsert_lacking :
      (a : AccountRecord) → value_of k a.metadata ≡ none → Preserves HasValue (upsert_account a)
  unfolding HasValue upsert_account
  upsert_lacking a h = Preserves-exec _ λ t u g e.
      upserted t (record t { accounts = put_account a t.accounts }) u
        (put_account-kept k l i a t.accounts h ∙ g) e
    where
      upserted : (t s u : Tables) → HasValue s → ok s ≡ ok u → HasValue u
      upserted t s u g e = let same : s ≡ u = cc in subst HasValue same g

  delete_from-HasValue :
      (t : Time) (o : Option AccountRecord) → Preserves HasValue (delete_from_account k t o)
  unfolding delete_from_account
  delete_from-HasValue t none = Preserves-done _
  delete_from-HasValue t (some a) = upsert_lacking _ (delete_gone k a.metadata)

  remove-HasValue : (n m : ByteString) (t : Time) → Preserves HasValue (remove_metadata n 0 m k t)
  unfolding remove_metadata
  remove-HasValue n m t = Preserves-bind _ _ (Preserves-find_account _ _) (delete_from-HasValue t)

-- Deleting a key of an account's metadata never takes the key away: behind the deletion, whether it
-- returns or fails, every account has the value of the key that it had before.
pub remove_metadata-kept :
    (ledger_id target key : ByteString) (t : Time) (w : World) (l i : ByteString)
    → value_at key l i (remove_metadata ledger_id 0 target key t w).1.tables.accounts
      ≡ value_at key l i w.tables.accounts
unfolding HasValue
remove_metadata-kept ledger_id target key t w l i =
    (remove-HasValue key l i (value_at key l i w.tables.accounts) ledger_id target t).at w refl
