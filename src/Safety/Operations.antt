-- ===== src/Safety/Operations.antt =====
-- The invariants of the frame, for the cores other than the post.
pub mod Steps
use fincore_ledger.Prelude.{
  ℕ, refl, zero, suc, ByteString, Bool, true, false, Option, none, some, List, [], ◌∷◌,
  if◌then◌else◌, ◌++◌,
}
use fincore_ledger.Prelude.Int.{ℤ}
use fincore_ledger.Storage.Records.{
  LedgerRecord, HoldRecord, TransactionRecord, Metadata, Time, AccountRecord, VolumeDeltaRecord,
  not_found,
}
use fincore_ledger.Storage.World.{Tables, Act, Result, ok, err, ◌>>◌}
use fincore_ledger.Storage.Volumes.{insert_volume_delta}
use fincore_ledger.Planner.Inputs.{Host, PostingInput, ConvertParams}
use fincore_ledger.Planner.Events
use fincore_ledger.Planner.Holds
use fincore_ledger.Planner.Convert
use fincore_ledger.Planner.Revert
use fincore_ledger.Planner.Metadata
use fincore_ledger.Planner.Expire
use fincore_ledger.Safety.Cores.{
  Preserves-available, Preserves-record_key, Preserves-upsert_accounts, Upholds-insert_deltas,
  Upholds-move_funds,
}
use fincore_ledger.Safety.Rules.{
  Upholds-assoc, Preserves, Upholds, preserves_rules, uphold_rules, Preserves-bind, Preserves-if,
  Preserves-done, Preserves-fail, Preserves-attempt, Upholds-Preserves, Upholds-bind,
}
use fincore_ledger.Safety.Frame.{
  IsInvariant, Mirrors, Preserves-insert_hold, Preserves-void_hold, Preserves-expire_hold,
  Preserves-update_hold_captured, Preserves-insert_relationship, Preserves-insert_transaction,
  Preserves-update_metadata, Preserves-delete_metadata_key, Preserves-upsert_account,
  Preserves-insert_schema, Preserves-insert_history, Preserves-get_hold, Preserves-get_transaction,
  Preserves-find_account, Preserves-get_ledger_in_tx, Preserves-get_relationships,
}
use fincore_ledger.Safety.Operations.Steps.{
  Preserves-check_available, Preserves-check_source, Preserves-check_open, Preserves-check_reversed,
  Preserves-unless_missing, Preserves-snapshot,
}

module _ {Good : Tables → Type 0} (inv : IsInvariant Good) where
  pair :
      {A : Type 0} (d e : VolumeDeltaRecord) (m : Act A)
      → Mirrors d e
      → Upholds Good m
      → Upholds Good (insert_volume_delta d >> (insert_volume_delta e >> m))
  pair d e m s p = Upholds-assoc _ _ _ (Upholds-bind _ _ (inv.move d e s) (λ _. p))

  Upholds-conversion_legs :
      (l e : ByteString) (t : Events.Times) (c : ConvertParams) (ds : List VolumeDeltaRecord)
      → Upholds Good (Convert.insert_legs ds)
      → Upholds Good (Convert.insert_legs (Convert.conversion_legs l e t c ++ ds))
  unfolding Convert.insert_legs Convert.conversion_legs
  Upholds-conversion_legs l e t c ds p =
      pair _ _ _ (record { ledgers = refl; assets = refl; out_in = refl; in_out = refl })
        (pair _ _ _ (record { ledgers = refl; assets = refl; out_in = refl; in_out = refl }) p)

  Upholds-no_legs : Upholds Good (Convert.insert_legs [])
  unfolding Convert.insert_legs
  Upholds-no_legs = Upholds-Preserves (Preserves-done _)

  Upholds-slippage_legs :
      (l e : ByteString) (t : Events.Times) (c : ConvertParams)
      → Upholds Good (Convert.insert_legs (Convert.slippage_legs l e t c))
  unfolding Convert.insert_legs Convert.slippage_legs
  Upholds-slippage_legs l e t c =
      pair _ _ _ (record { ledgers = refl; assets = refl; out_in = refl; in_out = refl })
        Upholds-no_legs

  Upholds-either_legs :
      (b : Bool) (x y : List VolumeDeltaRecord)
      → Upholds Good (Convert.insert_legs x)
      → Upholds Good (Convert.insert_legs y)
      → Upholds Good (Convert.insert_legs (if b then x else y))
  Upholds-either_legs true x y p q = p
  Upholds-either_legs false x y p q = q

  Upholds-insert_legs :
      (l e : ByteString) (t : Events.Times) (c : ConvertParams)
      → Upholds Good (Convert.insert_legs (Convert.legs_of l e t c))
  unfolding Convert.legs_of Convert.conversion_legs
  Upholds-insert_legs l e t c =
      Upholds-either_legs _ _ _ (Upholds-conversion_legs l e t c _ (Upholds-slippage_legs l e t c))
        (Upholds-conversion_legs l e t c [] Upholds-no_legs)

  pub Upholds-do_convert :
      (host : Host) (ledger : LedgerRecord) (c : ConvertParams) (k : Events.Key) (t : Events.Times)
      → Upholds Good (Convert.do_convert_in_tx host ledger c k t)
  unfolding Convert.do_convert_in_tx
  Upholds-do_convert host ledger c k t =
      search
        (
          uphold_rules,
          inv.append,
          Preserves-check_source,
          Upholds-insert_legs,
          Preserves-upsert_accounts inv,
          Preserves-insert_transaction inv,
          Preserves-record_key inv,
        )
        depth 30

  pub Upholds-do_authorize :
      (ledger : LedgerRecord) (s d a : ByteString) (x : Option ℤ) (y : Time) (k : Events.Key)
      (t : Time)
      → Upholds Good (Holds.do_authorize_in_tx ledger s d a x y k t)
  unfolding Holds.do_authorize_in_tx Holds.write_hold
  Upholds-do_authorize ledger s d a x y k t =
      search
        (
          uphold_rules,
          inv.append,
          Preserves-check_available,
          Preserves-insert_hold inv,
          Preserves-upsert_account inv,
          Preserves-record_key inv,
        )
        depth 30

  pub Upholds-do_capture :
      (l h : ByteString) (x : Option ℤ) (d : ByteString) (k : Events.Key) (t : Time)
      → Upholds Good (Holds.do_capture_in_tx l h x d k t)
  unfolding Holds.do_capture_in_tx Holds.write_capture
  Upholds-do_capture l h x d k t =
      search
        (
          uphold_rules,
          inv.append,
          Preserves-get_hold,
          Preserves-check_open,
          Preserves-update_hold_captured inv,
          Upholds-move_funds inv,
          Preserves-upsert_account inv,
          Preserves-record_key inv,
        )
        depth 30

  pub Upholds-do_void :
      (l h : ByteString) (k : Events.Key) (t : Time) → Upholds Good (Holds.do_void_in_tx l h k t)
  unfolding Holds.do_void_in_tx
  Upholds-do_void l h k t =
      search
        (
          uphold_rules,
          inv.append,
          Preserves-get_hold,
          Preserves-check_open,
          Preserves-void_hold inv,
          Preserves-record_key inv,
        )
        depth 30

  pub Upholds-do_revert :
      (l o : ByteString) (force dated : Bool) (r : ByteString) (k : Events.Key) (t : Time)
      → Upholds Good (Revert.do_revert_in_tx l o force dated r k t)
  unfolding Revert.do_revert_in_tx Revert.write_reversal
  Upholds-do_revert l o force dated r k t =
      search
        (
          uphold_rules,
          inv.append,
          Preserves-get_transaction,
          Preserves-get_relationships,
          Preserves-get_ledger_in_tx,
          Preserves-check_reversed,
          Preserves-insert_transaction inv,
          Upholds-insert_deltas inv,
          Preserves-upsert_accounts inv,
          Preserves-insert_relationship inv,
          Preserves-record_key inv,
        )
        depth 40

  pub Upholds-do_amend :
      (l o : ByteString) (m : Metadata) (k : Events.Key) (t : Time)
      → Upholds Good (Revert.do_amend_in_tx l o m k t)
  unfolding Revert.do_amend_in_tx
  Upholds-do_amend l o m k t =
      search
        (
          uphold_rules,
          inv.append,
          Preserves-get_transaction,
          Preserves-update_metadata inv,
          Preserves-insert_history inv,
          Preserves-insert_relationship inv,
          Preserves-record_key inv,
        )
        depth 30

  Preserves-apply_metadata :
      (l : ByteString) (n : ℕ) (i : ByteString) (m : Metadata) (t : Time)
      → Preserves Good (Metadata.apply_metadata l n i m t)
  unfolding Metadata.apply_metadata
  Preserves-apply_metadata l zero i m t = Preserves-upsert_account inv _
  Preserves-apply_metadata l (suc zero) i m t = Preserves-update_metadata inv _ _ _
  Preserves-apply_metadata l (suc (suc n)) i m t = Preserves-done _

  Preserves-write_history :
      (l : ByteString) (n : ℕ) (i : ByteString) (v : ℕ) (m : Metadata) (e : ByteString) (t : Time)
      → Preserves Good (Metadata.write_history l n i v m e t)
  unfolding Metadata.write_history
  Preserves-write_history l n i v m e t = Preserves-insert_history inv _

  pub Upholds-do_set_metadata :
      (l : ByteString) (n : ℕ) (i : ByteString) (m : Metadata) (k : Events.Key) (t : Time)
      → Upholds Good (Metadata.do_set_metadata_in_tx l n i m k t)
  unfolding Metadata.do_set_metadata_in_tx
  Upholds-do_set_metadata l n i m k t =
      search
        (
          uphold_rules,
          inv.append,
          Preserves-apply_metadata,
          Preserves-write_history,
          Preserves-record_key inv,
        )
        depth 30

  Preserves-delete_from_account :
      (key : ByteString) (t : Time) (o : Option AccountRecord)
      → Preserves Good (Metadata.delete_from_account key t o)
  unfolding Metadata.delete_from_account
  Preserves-delete_from_account key t none = Preserves-done _
  Preserves-delete_from_account key t (some a) = Preserves-upsert_account inv _

  Preserves-remove_metadata :
      (l : ByteString) (n : ℕ) (i key : ByteString) (t : Time)
      → Preserves Good (Metadata.remove_metadata l n i key t)
  unfolding Metadata.remove_metadata
  Preserves-remove_metadata l zero i key t =
      Preserves-bind _ _ (Preserves-find_account _ _) (Preserves-delete_from_account key t)
  Preserves-remove_metadata l (suc zero) i key t =
      Preserves-bind _ _ (Preserves-attempt _ (Preserves-delete_metadata_key inv _ _ _))
        Preserves-unless_missing
  Preserves-remove_metadata l (suc (suc n)) i key t = Preserves-done _

  pub Upholds-do_delete_metadata :
      (l : ByteString) (n : ℕ) (i key : ByteString) (k : Events.Key) (t : Time)
      → Upholds Good (Metadata.do_delete_metadata_in_tx l n i key k t)
  unfolding Metadata.do_delete_metadata_in_tx
  Upholds-do_delete_metadata l n i key k t =
      search
        (
          uphold_rules,
          inv.append,
          Preserves-remove_metadata,
          Preserves-snapshot,
          Preserves-write_history,
          Preserves-record_key inv,
        )
        depth 30

  pub Upholds-do_insert_schema :
      (host : Host) (l d v : ByteString) (k : Events.Key) (t : Time)
      → Upholds Good (Metadata.do_insert_schema_in_tx host l d v k t)
  unfolding Metadata.do_insert_schema_in_tx
  Upholds-do_insert_schema host l d v k t =
      search (uphold_rules, inv.append, Preserves-insert_schema inv, Preserves-record_key inv) depth
        30

  pub Upholds-expire_in_tx : (h : HoldRecord) (t : Time) → Upholds Good (Expire.expire_in_tx h t)
  unfolding Expire.expire_in_tx Expire.write_expiry
  Upholds-expire_in_tx h t =
      search (uphold_rules, inv.append, Preserves-get_hold, Preserves-expire_hold inv) depth 30
