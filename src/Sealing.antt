-- ===== src/Sealing.antt =====
-- Operations on a sealed ledger (internal/planner/planner.go `checkLedgerNotSealed`).
use fincore_ledger.Prelude.{
  ◌≡◌, refl, subst, ByteString, Bool, true, false, Option, none, some, List, [], ◌∷◌, str_eq,
  if◌then◌else◌, find?,
}
use fincore_ledger.Storage.Records.{LedgerRecord, Error, not_found, ledger_sealed}
use fincore_ledger.Storage.World.{
  World, Tables, Act, Result, ok, err, continue, call, gets, some_or, fail, fail_if, ◌>>=◌, ◌>>◌,
}
use fincore_ledger.Storage.Governance.{is_ledger, sealed, get_ledger}
use fincore_ledger.Planner.Inputs.{Host, BatchIntent, ConvertParams}
use fincore_ledger.Planner.Events.{check_ledger_not_sealed}
use fincore_ledger.Planner.Operations
use fincore_ledger.Planner.Batch
use fincore_ledger.Planner.Batch.{
  Kind, post, authorize, capture, void, revert, amend, convert, set_metadata, delete_metadata,
  unknown,
}
use fincore_ledger.Safety.Rules.{OnOk, Upholds-Preserves, Preserves-fail_if, Preserves-call}
use fincore_ledger.Safety.Hoare.{
  Never, OnOk-bind, Returns, Returns-bind, Returns-OnOk, OnOk-Returns,
}

-- Whether the row of a ledger is sealed.
unfoldable pub is_sealed : ByteString → List LedgerRecord → Bool
unfolding is_ledger
is_sealed ledger_id [] = false
is_sealed ledger_id (r ∷ rs) =
    if is_ledger ledger_id r then str_eq r.state sealed else is_sealed ledger_id rs

module _ (l : ByteString) where
  abbrev Shut : Tables → Type 0
  Shut t = is_sealed l t.ledgers ≡ true

  found-sealed :
      (rs : List LedgerRecord) (r : LedgerRecord)
      → find? (is_ledger l) rs ≡ some r
      → is_sealed l rs ≡ true
      → str_eq r.state sealed ≡ true
  unfolding is_sealed
  found-sealed [] r e h = cc
  found-sealed (x ∷ rs) r e h = at_head (is_ledger l x) e h (λ e h. found-sealed rs r e h)
    where
      at_head :
          (b : Bool)
          → (if b then some x else find? (is_ledger l) rs) ≡ some r
          → (if b then str_eq x.state sealed else is_sealed l rs) ≡ true
          → (find? (is_ledger l) rs ≡ some r → is_sealed l rs ≡ true → str_eq r.state sealed ≡ true)
          → str_eq r.state sealed ≡ true
      at_head true e h k = let same : x ≡ r = cc in subst (λ r. str_eq r.state sealed ≡ true) same h
      at_head false e h k = k e h

  got :
      (o : Option LedgerRecord) (u : World)
      → ((r : LedgerRecord) → o ≡ some r → str_eq r.state sealed ≡ true)
      → Returns (λ r _. str_eq r.state sealed ≡ true) (some_or not_found o u)
  unfolding some_or
  got none u k = tt
  got (some r) u k = k r refl

  looked :
      (r : Result (Unit {0})) (v : World)
      → Shut v.tables
      → Returns
          (λ r _. str_eq r.state sealed ≡ true)
          (continue r (λ _ u. some_or not_found (find? (is_ledger l) u.tables.ledgers) u) v)
  looked (ok _) v h =
      got (find? (is_ledger l) v.tables.ledgers) v (λ r e. found-sealed v.tables.ledgers r e h)
  looked (err e) v h = tt

  get_ledger-Shut :
      (w : World) → Shut w.tables → Returns (λ r _. str_eq r.state sealed ≡ true) (get_ledger l w)
  unfolding get_ledger gets ◌>>=◌
  get_ledger-Shut w h = looked (call w).0 (call w).1 ((Preserves-call {Good = Shut}).at w h)

  refused_if :
      (b : Bool) (m : Act LedgerRecord) (w : World)
      → b ≡ true
      → OnOk Never ((fail_if b ledger_sealed >> m) w)
  unfolding fail_if ◌>>=◌
  refused_if true m w h = tt
  refused_if false m w h = cc

  not_sealed-refused : (w : World) → Shut w.tables → OnOk Never (check_ledger_not_sealed l w)
  unfolding check_ledger_not_sealed
  not_sealed-refused w h = OnOk-Returns Never _ (
      Returns-bind (λ r _. str_eq r.state sealed ≡ true) (λ _. Never) (get_ledger l) _ w
        (get_ledger-Shut w h) (λ r u p. Returns-OnOk Never _ (refused_if _ _ u p)))

  at_once-refused :
      {A : Type 0} (f : LedgerRecord → Act A) (w : World)
      → Shut w.tables
      → OnOk Never ((check_ledger_not_sealed l >>= f) w)
  at_once-refused f w h = OnOk-bind Never Never _ f w (not_sealed-refused w h) (λ _ u n. absurd n)

  checked-refused :
      {A : Type 0} (b : Bool) (e : Error) (f : LedgerRecord → Act A) (w : World)
      → Shut w.tables
      → OnOk Never ((fail_if b e >> (check_ledger_not_sealed l >>= f)) w)
  checked-refused b e f w h =
      OnOk-bind Shut Never _ _ w ((Upholds-Preserves {Good = Shut} (Preserves-fail_if b e)).at w h)
        (λ _ u k. at_once-refused f u k)

module _ (host : Host) (l : ByteString) (w : World) (h : Shut l w.tables) where
  convert-refused :
      (i : BatchIntent) (o : Option ConvertParams) → OnOk Never (Batch.convert_intent host l i o w)
  unfolding Batch.convert_intent Operations.submit_convert fail
  convert-refused i none = tt
  convert-refused i (some c) = checked-refused l _ _ _ w h

  kind-refused : (k : Kind) (i : BatchIntent) → OnOk Never (Batch.execute_kind host l k i w)
  unfolding Batch.execute_kind Operations.submit_post Operations.submit_authorize
      Operations.submit_capture Operations.submit_void Operations.submit_revert
      Operations.submit_amend Operations.submit_set_metadata Operations.submit_delete_metadata fail
  kind-refused post i = checked-refused l _ _ _ w h
  kind-refused authorize i = checked-refused l _ _ _ w h
  kind-refused capture i = checked-refused l _ _ _ w h
  kind-refused void i = at_once-refused l _ w h
  kind-refused revert i = at_once-refused l _ w h
  kind-refused amend i = at_once-refused l _ w h
  kind-refused convert i = convert-refused i _
  kind-refused set_metadata i = at_once-refused l _ w h
  kind-refused delete_metadata i = at_once-refused l _ w h
  kind-refused unknown i = tt

-- Where the ledger is sealed, an intent of every kind returns an error.
pub execute_intent-refused :
    (host : Host) (l : ByteString) (i : BatchIntent) (w : World)
    → is_sealed l w.tables.ledgers ≡ true
    → OnOk (λ _. ⊥) (Batch.execute_intent host l i w)
unfolding Batch.execute_intent
execute_intent-refused host l i w h = kind-refused host l w h (Batch.kind_of i.intent_type) i

-- Where the ledger is sealed, a batch of intents returns an error in every mode.
pub submit_batch-refused :
    (host : Host) (l : ByteString) (is : List BatchIntent) (mode : ByteString) (w : World)
    → is_sealed l w.tables.ledgers ≡ true
    → OnOk (λ _. ⊥) (Batch.submit_batch host l is mode w)
unfolding Batch.submit_batch
submit_batch-refused host l is mode w h = at_once-refused l _ w h
