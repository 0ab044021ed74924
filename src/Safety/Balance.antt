-- ===== src/Safety/Balance.antt =====
-- Double entry: the total outputs and inputs of the volume deltas of a ledger and an asset
-- (internal/storage/postgres/store_volumes.go, internal/planner/operations_shared.go).
use fincore_ledger.Prelude.{
  ℕ, ◌≡◌, sym, subst, ByteString, Bool, true, false, Option, List, ◌∷◌, str_eq, any, if◌then◌else◌,
  ◌&&◌,
}
use fincore_ledger.Prelude.Int.{ℤ, ◌+ℤ◌, int_laws}
use fincore_ledger.Storage.Records.{VolumeDeltaRecord, Payload, Time, violation}
use fincore_ledger.Storage.World.{World, Tables, ok, err, ◌>>◌}
use fincore_ledger.Storage.Volumes.{sum_input, sum_output, insert_volume_delta, add_delta, same_row}
use fincore_ledger.Planner.Events.{Key, Times, append_event}
use fincore_ledger.Planner.Approval.{append_audit}
use fincore_ledger.Planner.Inputs.{Host, BatchIntent}
use fincore_ledger.System.{Command, run}
use fincore_ledger.Safety.Rules.{Upholds, uphold_rules}
use fincore_ledger.Safety.Hoare.{OnOk-bind, OnOk-weaken, exec-OnOk}
use fincore_ledger.Safety.Batching.{Preserves-batch_id}
use fincore_ledger.Safety.Frame.{IsInvariant, Mirrors, Preserves-log_event, Preserves-next_seq}
use fincore_ledger.Safety.Sequences.{run-Good}

-- The deltas of one ledger and one asset.
unfoldable pub of_asset : ByteString → ByteString → VolumeDeltaRecord → Bool
of_asset ledger_id asset d = str_eq d.ledger_id ledger_id && str_eq d.asset asset

-- The total input of a ledger's asset, and its total output.
unfoldable pub total_input : ByteString → ByteString → List VolumeDeltaRecord → ℤ
unfolding of_asset
total_input ledger_id asset = sum_input (of_asset ledger_id asset)

unfoldable pub total_output : ByteString → ByteString → List VolumeDeltaRecord → ℤ
unfolding of_asset
total_output ledger_id asset = sum_output (of_asset ledger_id asset)

abbrev pub Balanced : Tables → Type 0
Balanced t = (l a : ByteString) → total_input l a t.volumes ≡ total_output l a t.volumes

same_bucket :
    (d e : VolumeDeltaRecord) (l a : ByteString) → Mirrors d e → of_asset l a d ≡ of_asset l a e
unfolding of_asset
same_bucket d e l a m = let p = m.ledgers in let q = m.assets in cc

left_comm : (x y z : ℤ) → x +ℤ (y +ℤ z) ≡ y +ℤ (x +ℤ z)
left_comm x y z = grind int_laws

-- Two mirrored deltas add the same to both sides.
swap_sums : (x y z w i o : ℤ) → x ≡ w → z ≡ y → i ≡ o → z +ℤ (x +ℤ i) ≡ w +ℤ (y +ℤ o)
swap_sums x y z w i o p q r = let s = left_comm y w o in cc

pair_sums :
    (b c : Bool) (x y z w i o : ℤ)
    → b ≡ c
    → x ≡ w
    → z ≡ y
    → i ≡ o
    → (if c then z +ℤ (if b then x +ℤ i else i) else (if b then x +ℤ i else i))
      ≡ (if c then w +ℤ (if b then y +ℤ o else o) else (if b then y +ℤ o else o))
pair_sums true true x y z w i o s p q r = swap_sums x y z w i o p q r
pair_sums false false x y z w i o s p q r = r
pair_sums true false x y z w i o s p q r = cc
pair_sums false true x y z w i o s p q r = cc

two-Balanced :
    (d e : VolumeDeltaRecord) (t : Tables)
    → Mirrors d e
    → Balanced t
    → Balanced (record t { volumes = e ∷ (d ∷ t.volumes) })
unfolding total_input total_output sum_input sum_output
two-Balanced d e t m g l a =
    pair_sums (of_asset l a d) (of_asset l a e) d.input_delta d.output_delta e.input_delta
      e.output_delta _ _ (same_bucket d e l a m) m.in_out (sym m.out_in) (g l a)

pub added :
    (d : VolumeDeltaRecord) (t u : Tables)
    → add_delta d t ≡ ok u
    → u ≡ record t { volumes = d ∷ t.volumes }
unfolding add_delta
added d t u e = added_at (any (same_row d) t.volumes) (record t { volumes = d ∷ t.volumes }) u e
  where
    added_at : (b : Bool) (v u : Tables) → (if b then err violation else ok v) ≡ ok u → u ≡ v
    added_at true v u e = cc
    added_at false v u e = let same : v ≡ u = cc in sym same

Upholds-pair :
    (d e : VolumeDeltaRecord)
    → Mirrors d e
    → Upholds Balanced (insert_volume_delta d >> insert_volume_delta e)
unfolding insert_volume_delta
Upholds-pair d e m = record {
  at = λ w g.
      OnOk-bind (λ t. add_delta d w.tables ≡ ok t) Balanced _ _ w (exec-OnOk (add_delta d) w)
        λ _ v p.
          OnOk-weaken (λ t. add_delta e v.tables ≡ ok t) Balanced _ (exec-OnOk (add_delta e) v)
            λ t q. subst Balanced (sym (added e v.tables t q)) (
              subst (λ s. Balanced (record s { volumes = e ∷ s.volumes }))
                (sym (added d w.tables v.tables p)) (two-Balanced d e w.tables m g));
}

Balanced-append :
    (l : ByteString) (n : ℕ) (p : Payload) (k : Key) (t : Times)
    → Upholds Balanced (append_event l n p k t)
unfolding append_event
Balanced-append l n p k t =
    search
      (
        uphold_rules,
        Preserves-batch_id,
        Preserves-next_seq,
        Preserves-log_event {Good = Balanced} (λ t x g. g),
      )
      depth 20

Balanced-audit : (l e b p : ByteString) (t : Time) → Upholds Balanced (append_audit l e b p t)
unfolding append_audit
Balanced-audit l e b p t =
    search (uphold_rules, Preserves-next_seq, Preserves-log_event {Good = Balanced} (λ t x g. g))
      depth 20

pub Balanced-IsInvariant : IsInvariant Balanced
Balanced-IsInvariant = record {
  ledgers = λ t x g. g;
  keys = λ t x g. g;
  accounts = λ t x g. g;
  transactions = λ t x g. g;
  schemas = λ t x g. g;
  history = λ t x g. g;
  holds = λ t x g. g;
  relationships = λ t x g. g;
  policies = λ t x g. g;
  approvals = λ t x g. g;
  append = Balanced-append;
  audit = Balanced-audit;
  move = Upholds-pair;
}

-- Whatever commands run, and whichever of their calls fail, the books stay balanced: if in every
-- ledger the outputs of each asset add up to its inputs before the commands, they do so after them.
pub run-Balanced :
    (host : Host) (decode : ByteString → Option BatchIntent) (cs : List Command) (w : World)
    → Balanced w.tables
    → Balanced (run host decode cs w).tables
run-Balanced host decode = run-Good Balanced-IsInvariant host decode
