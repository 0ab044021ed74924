-- ===== src/Tests/Sweeping.antt =====
-- Concrete batches, and each property at them.
use fincore_ledger.Prelude.{
  ℕ, zero, suc, ◌≡◌, refl, ByteString, codes, true, none, List, [], ◌∷◌, ◌++◌, any, map, length,
  str_eq, arith,
}
use fincore_ledger.Storage.Records.{BatchRecord, LogEventRecord, Time}
use fincore_ledger.Storage.World.{World, ok, ◌>>◌}
use fincore_ledger.Batches
use fincore_ledger.Batches.{is_batch, close_batch, verify_batch}
use fincore_ledger.Batches.Sweep
use fincore_ledger.Batches.Sweep.{overdue_batches, is_expired, close_expired_batches}
use fincore_ledger.Batches.Closing.{HaveNone, events_of, close_expired_batches-stalls}
use fincore_ledger.Batches.Verified.{close_batch-verify}
use fincore_ledger.Tests.Fixtures.{host, fresh, no_tables}
use fincore_ledger.Tests.Serving.{event}

abbrev row : ByteString → Time → BatchRecord
row b t = record {
  batch_id = b;
  ledger_id = codes "main";
  opened_at = t;
  closed_at = none;
  event_count = 0;
  merkle_root = none;
  prev_batch_id = [];
  attestation_uri = [];
}

-- Batches whose only transaction was rolled back.
abbrev empties : ℕ → List BatchRecord
empties zero = []
empties (suc n) = row (0 ∷ n ∷ []) 1000 ∷ empties n

abbrev late : BatchRecord
late = row (codes "late") 2000

abbrev posted : LogEventRecord
posted = record (event 1) { batch_id = codes "late" }

abbrev swept : World
swept = record fresh {
  tables = record no_tables { log_events = posted ∷ [] };
  batches = late ∷ empties 100;
  clock = 60000000000;
}

swept-overdue : overdue_batches swept ≡ empties 100 ++ (late ∷ [])
unfolding overdue_batches Sweep.sort_by_opening Sweep.insert_by_opening Sweep.is_overdue
    Sweep.is_open
swept-overdue = refl

empties-HaveNone : (n : ℕ) → HaveNone swept.tables (map (λ b. b.batch_id) (empties n))
unfolding Batches.sort_by_seq str_eq
empties-HaveNone zero = tt
empties-HaveNone (suc n) = (refl, empties-HaveNone n)

close_expired_batches-stalls_example :
    let v = (close_expired_batches host.sha256 host.format_time (λ p. []) swept).1 in
    (v.batches ≡ swept.batches)
    × ((more : List BatchRecord) × (overdue_batches v ≡ empties 100 ++ ((late ∷ []) ++ more)))
close_expired_batches-stalls_example =
    close_expired_batches-stalls host.sha256 host.format_time (λ p. []) swept (empties 100)
      (late ∷ []) swept-overdue (omega arith) (empties-HaveNone 100) tt

late-stored : any (is_batch (codes "late")) swept.batches ≡ true
unfolding is_batch str_eq
late-stored = refl

late-events : events_of (codes "late") swept.tables ≡ posted ∷ []
unfolding Batches.sort_by_seq Batches.insert_by_seq str_eq
late-events = refl

close_batch-verify_example :
    (root : ByteString) × (v : World) × ((close_batch host.sha256 host.format_time
            (λ p. [])
            (codes "late")
          >> verify_batch host.sha256 host.format_time (λ p. []) (codes "late"))
        swept
      ≡ (ok (true, root, length (posted ∷ [])), v))
close_batch-verify_example =
    close_batch-verify host.sha256 host.format_time (λ p. []) swept (codes "late") posted [] refl
      late-stored late-events
