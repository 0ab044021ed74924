-- ===== src/Storage/Holds.antt =====
-- The holds and the relationships between transactions
-- (internal/storage/postgres/store_holds.go).
use fincore_ledger.Prelude.{
  ByteString, Bool, true, Option, none, some, List, [], ◌∷◌, ◌&&◌, ◌||◌, not, ◌==◌, str_eq, any,
  find?, filter, update_where, take, leb, ltb, if◌then◌else◌,
}
use fincore_ledger.Prelude.Int.{ℤ, pos, ◌+ℤ◌, ◌-ℤ◌, ltb_ℤ}
use fincore_ledger.Storage.Records.{HoldRecord, RelationshipRecord, Time, violation, not_found}
use fincore_ledger.Storage.World.{
  Act, Tables, Result, ok, err, exec, select, call, gets, some_or, affect, ◌>>=◌, ◌>>◌,
}

unfoldable pub is_hold : ByteString → ByteString → HoldRecord → Bool
is_hold ledger_id hold_id h = str_eq h.ledger_id ledger_id && str_eq h.hold_id hold_id

unfoldable pub is_open : HoldRecord → Bool
is_open h = not h.voided && not h.expired

unfoldable pub add_hold : HoldRecord → Tables → Result Tables
unfolding is_hold
add_hold h t =
    if any (is_hold h.ledger_id h.hold_id) t.holds
    then err violation
    else ok (record t { holds = h ∷ t.holds })

unfoldable pub insert_hold : HoldRecord → Act (Unit {0})
insert_hold h = exec (add_hold h)

-- `TxStore.GetHold`, which also locks the row.
unfoldable pub get_hold : ByteString → ByteString → Act HoldRecord
unfolding is_hold
get_hold ledger_id hold_id = do
  found ← select (λ t. find? (is_hold ledger_id hold_id) t.holds)
  some_or not_found found

-- `UPDATE … WHERE ledger_id = $1 AND hold_id = $2 AND NOT voided AND NOT expired`, with the error
-- when no row is affected.
unfoldable pub update_hold :
    ByteString → ByteString → (HoldRecord → HoldRecord) → Tables → Option Tables
unfolding is_hold is_open
update_hold ledger_id hold_id f t =
    let p = λ (h : HoldRecord). is_hold ledger_id hold_id h && is_open h in
    if any p t.holds then some (record t { holds = update_where p f t.holds }) else none

unfoldable pub capture_more : ℤ → HoldRecord → HoldRecord
capture_more delta h = record h { captured_amount = h.captured_amount +ℤ delta }

unfoldable pub update_hold_captured : ByteString → ByteString → ℤ → Act (Unit {0})
unfolding capture_more
update_hold_captured ledger_id hold_id delta =
    affect not_found (update_hold ledger_id hold_id (capture_more delta))

unfoldable pub set_voided : HoldRecord → HoldRecord
set_voided h = record h { voided = true }

unfoldable pub void_hold : ByteString → ByteString → Act (Unit {0})
unfolding set_voided
void_hold ledger_id hold_id = affect not_found (update_hold ledger_id hold_id set_voided)

unfoldable pub set_expired : HoldRecord → HoldRecord
set_expired h = record h { expired = true }

unfoldable pub expire_hold : ByteString → ByteString → Act (Unit {0})
unfolding set_expired
expire_hold ledger_id hold_id = affect not_found (update_hold ledger_id hold_id set_expired)

unfoldable pub is_overdue : Time → HoldRecord → Bool
unfolding is_open
is_overdue t h = ltb h.expires_at t && is_open h && ltb_ℤ h.captured_amount h.authorized_amount

-- `ORDER BY expires_at ASC`
unfoldable pub insert_by_expiry : HoldRecord → List HoldRecord → List HoldRecord
insert_by_expiry h [] = h ∷ []
insert_by_expiry h (x ∷ xs) =
    if leb h.expires_at x.expires_at then h ∷ x ∷ xs else x ∷ insert_by_expiry h xs

unfoldable pub sort_by_expiry : List HoldRecord → List HoldRecord
unfolding insert_by_expiry
sort_by_expiry [] = []
sort_by_expiry (h ∷ hs) = insert_by_expiry h (sort_by_expiry hs)

-- Outside a transaction; `now()` is the clock.
unfoldable pub list_expired_holds : Act (List HoldRecord)
unfolding is_overdue sort_by_expiry
list_expired_holds = do
  call
  gets (λ w. take 1000 (sort_by_expiry (filter (is_overdue w.clock) w.tables.holds)))

unfoldable pub holds_bucket : ByteString → ByteString → ByteString → HoldRecord → Bool
unfolding is_open
holds_bucket ledger_id account asset h =
    str_eq h.ledger_id ledger_id && str_eq h.source account && str_eq h.asset asset && is_open h

-- `COALESCE(SUM(authorized_amount - captured_amount), 0)` over the active holds of a bucket.
unfoldable pub active_total : ByteString → ByteString → ByteString → List HoldRecord → ℤ
unfolding holds_bucket
active_total ledger_id account asset [] = pos 0
active_total ledger_id account asset (h ∷ hs) =
    let rest = active_total ledger_id account asset hs in
    if holds_bucket ledger_id account asset h
    then h.authorized_amount -ℤ h.captured_amount +ℤ rest
    else rest

unfoldable pub get_active_holds_total : ByteString → ByteString → ByteString → Act ℤ
get_active_holds_total ledger_id account asset =
    select (λ t. active_total ledger_id account asset t.holds)

unfoldable pub same_relationship : RelationshipRecord → RelationshipRecord → Bool
same_relationship a b =
    str_eq a.ledger_id b.ledger_id
    && str_eq a.parent_tx_id b.parent_tx_id
    && str_eq a.child_tx_id b.child_tx_id
    && a.relationship_type == b.relationship_type

unfoldable pub add_relationship : RelationshipRecord → Tables → Result Tables
unfolding same_relationship
add_relationship r t =
    if any (same_relationship r) t.relationships
    then err violation
    else ok (record t { relationships = r ∷ t.relationships })

unfoldable pub insert_relationship : RelationshipRecord → Act (Unit {0})
insert_relationship r = exec (add_relationship r)

unfoldable pub touches : ByteString → ByteString → RelationshipRecord → Bool
touches ledger_id tx_id r =
    str_eq r.ledger_id ledger_id && (str_eq r.parent_tx_id tx_id || str_eq r.child_tx_id tx_id)

-- `GetRelationships` at depth 1, the only depth the planner asks for; the order of the rows is left
-- as stored.
unfoldable pub get_relationships : ByteString → ByteString → Act (List RelationshipRecord)
unfolding touches
get_relationships ledger_id tx_id = select (λ t. filter (touches ledger_id tx_id) t.relationships)
