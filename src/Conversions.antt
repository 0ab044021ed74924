-- ===== src/Conversions.antt =====
-- What a conversion with slippage does (internal/planner/operations_shared.go `doConvertInTx`,
-- the primary key of volumes_delta in migrations/001_init.up.sql).
use fincore_ledger.Prelude.{
  ◌≡◌, refl, sym, subst, ByteString, Bool, true, false, List, [], ◌∷◌, ◌++◌, str_eq_refl,
  if◌then◌else◌, any, ◌||◌,
}
use fincore_ledger.Prelude.Int.{ℤ}
use fincore_ledger.Storage.Records.{VolumeDeltaRecord, LedgerRecord, violation}
use fincore_ledger.Storage.World.{World, Tables, ok, err}
use fincore_ledger.Storage.Volumes.{insert_volume_delta, add_delta, same_row}
use fincore_ledger.Planner.Inputs.{Host, ConvertParams}
use fincore_ledger.Planner.Validation.{deref}
use fincore_ledger.Planner.Events.{Times, Key, input_leg, output_leg}
use fincore_ledger.Planner.Convert.{
  insert_legs, legs_of, conversion_legs, slippage_legs, has_slippage, do_convert_in_tx,
}
use fincore_ledger.Safety.Balance.{added}
use fincore_ledger.Safety.Rules.{OnOk}
use fincore_ledger.Safety.Hoare.{Never, behind, OnOk-bind, OnOk-weaken, exec-OnOk}

-- A row with the key of `d` is stored.
HasRow : VolumeDeltaRecord → Tables → Type 0
HasRow d t = any (same_row d) t.volumes ≡ true

refused : (d : VolumeDeltaRecord) (t u : Tables) → HasRow d t → add_delta d t ≡ ok u → ⊥
unfolding HasRow add_delta
refused d t u h e =
    refused_at (any (same_row d) t.volumes) (record t { volumes = d ∷ t.volumes }) u h e
  where
    refused_at :
        (b : Bool) (v u : Tables) → b ≡ true → (if b then err violation else ok v) ≡ ok u → ⊥
    refused_at true v u h e = cc
    refused_at false v u h e = cc

insert-OnOk :
    (d : VolumeDeltaRecord) (w : World)
    → OnOk (λ t. add_delta d w.tables ≡ ok t) (insert_volume_delta d w)
unfolding insert_volume_delta
insert-OnOk d w = exec-OnOk (add_delta d) w

-- A delta whose row is stored cannot be inserted.
insert-refused :
    (d : VolumeDeltaRecord) (w : World) → HasRow d w.tables → OnOk Never (insert_volume_delta d w)
insert-refused d w h =
    OnOk-weaken (λ t. add_delta d w.tables ≡ ok t) Never _ (insert-OnOk d w)
      (λ t e. refused d w.tables t h e)

same_output :
    (l s a e : ByteString) (t : Times) (x y : ℤ)
    → same_row (output_leg l s a e t x) (output_leg l s a e t y) ≡ true
unfolding same_row
same_output l s a e t x y = simp (str_eq_refl l, str_eq_refl s, str_eq_refl a, str_eq_refl e)

stored :
    (d e : VolumeDeltaRecord) (t u : Tables)
    → same_row d e ≡ true
    → add_delta e t ≡ ok u
    → HasRow d u
unfolding HasRow
stored d e t u h p =
    subst (HasRow d) (sym (added e t u p)) (here (same_row d e) (any (same_row d) t.volumes) h)
  where
    here : (b c : Bool) → b ≡ true → b || c ≡ true
    here true c h = refl
    here false c h = cc

kept : (d e : VolumeDeltaRecord) (t u : Tables) → HasRow d t → add_delta e t ≡ ok u → HasRow d u
unfolding HasRow
kept d e t u h p =
    subst (HasRow d) (sym (added e t u p)) (there (same_row d e) (any (same_row d) t.volumes) h)
  where
    there : (b c : Bool) → c ≡ true → b || c ≡ true
    there true c h = refl
    there false c h = h

-- Deltas of which a later one has the key of a stored row are never all inserted.
insert_legs-refused :
    (d : VolumeDeltaRecord) (xs ys : List VolumeDeltaRecord) (w : World)
    → HasRow d w.tables
    → OnOk Never (insert_legs (xs ++ (d ∷ ys)) w)
unfolding insert_legs
insert_legs-refused d [] ys w h =
    OnOk-bind Never Never _ _ w (insert-refused d w h) (λ _ v n. absurd n)
insert_legs-refused d (x ∷ xs) ys w h =
    OnOk-bind (HasRow d) Never _ _ w
      (OnOk-weaken (λ t. add_delta x w.tables ≡ ok t) (HasRow d) _ (insert-OnOk x w)
        (λ t e. kept d x w.tables t h e))
      (λ _ v k. insert_legs-refused d xs ys v k)

slippage_legs-refused :
    (l e : ByteString) (t : Times) (c : ConvertParams) (w : World)
    → OnOk Never (insert_legs (conversion_legs l e t c ++ slippage_legs l e t c) w)
unfolding conversion_legs slippage_legs insert_legs
slippage_legs-refused l e t c w =
    let paid = output_leg l c.source c.source_asset e t (deref c.source_amount) in
    let slipped = output_leg l c.source c.source_asset e t (deref c.slippage_amount) in
    OnOk-bind (HasRow slipped) Never _ _ w
      (OnOk-weaken (λ t. add_delta paid w.tables ≡ ok t) (HasRow slipped) _ (insert-OnOk paid w)
        (λ u p. stored slipped paid w.tables u (same_output l c.source c.source_asset e t _ _) p))
      (λ _ v h.
        insert_legs-refused slipped
          (input_leg l c.destination c.source_asset e t (deref c.source_amount)
            ∷ output_leg l c.destination c.dest_asset e t (deref c.dest_amount)
            ∷ input_leg l c.source c.dest_asset e t (deref c.dest_amount)
            ∷ [])
          (input_leg l c.slippage_account c.source_asset e t (deref c.slippage_amount) ∷ []) v h)

legs_of-refused :
    (l e : ByteString) (t : Times) (c : ConvertParams) (w : World)
    → has_slippage c ≡ true
    → OnOk Never (insert_legs (legs_of l e t c) w)
unfolding legs_of
legs_of-refused l e t c w h =
    subst
      (λ b. OnOk Never (
        insert_legs
          (if b then conversion_legs l e t c ++ slippage_legs l e t c else conversion_legs l e t c)
          w))
      (sym h) (slippage_legs-refused l e t c w)

-- A conversion with slippage never goes through: where the slippage is positive and its account is
-- named, the core returns an error, whatever else it is given and in every state.
pub do_convert_in_tx-refused :
    (host : Host) (ledger : LedgerRecord) (c : ConvertParams) (k : Key) (t : Times) (w : World)
    → has_slippage c ≡ true
    → OnOk (λ _. ⊥) (do_convert_in_tx host ledger c k t w)
unfolding do_convert_in_tx
do_convert_in_tx-refused host ledger c k t w h =
    behind _ _
      (λ _. behind _ _ (λ _. behind _ _ (λ _. behind _ _ (λ _. behind _ _ (λ (e, _) u.
        OnOk-bind Never Never _ _ u (legs_of-refused ledger.id e t c u h) (λ _ v n. absurd n))))))
      w
