-- ===== src/Tests/Replaying.antt =====
-- A concrete idempotency key, and the replay of its event.
use fincore_ledger.Prelude.{◌≡◌, refl, codes, false, some, [], ◌∷◌, ◌++◌, str_eq}
use fincore_ledger.Storage.Records.{IdempotencyKeyRecord, invalid, invalid_idempotency_input}
use fincore_ledger.Storage.World.{World, err, fail, ◌>>◌}
use fincore_ledger.Storage.Log
use fincore_ledger.Planner.Events.{Key}
use fincore_ledger.Planner.Submit.{bytes_of, cache_key, submit_with_idempotency}
use fincore_ledger.Replays.{
  known_key, replay_of, submit_with_idempotency-replays, submit_with_idempotency-collides,
}
use fincore_ledger.Tests.Fixtures.{host, fresh, no_tables}

abbrev stored : IdempotencyKeyRecord
stored = record {
  ledger_id = codes "main";
  idempotency_key = codes "key";
  event_id = codes "event";
  idempotency_hash = codes "hash";
}

abbrev used : World
used = record fresh { tables = record no_tables { idempotency_keys = stored ∷ [] } }

abbrev again : Key
again = record { key = codes "key"; hash = some (codes "hash") }

again-known : known_key (codes "main") (codes "key") used ≡ some (codes "hash", codes "event")
unfolding Log.is_key str_eq
again-known = refl

submit_with_idempotency-replays_example :
    (v : World) × ((submit_with_idempotency host (codes "main") again 1 false (fail invalid) used
        ≡ (replay_of (bytes_of again.hash) (codes "hash", codes "event"), v))
      × ((v.tables ≡ used.tables)
          × (known_key (codes "main") again.key v ≡ some (codes "hash", codes "event"))))
submit_with_idempotency-replays_example =
    submit_with_idempotency-replays host (codes "main") again 1 false (fail invalid) used
      (codes "hash", codes "event") refl refl again-known

hashes-differ : str_eq (codes "first") (codes "second") ≡ false
unfolding str_eq
hashes-differ = refl

submit_with_idempotency-collides_example :
    (v : World) × (((cache_key
              (codes "main")
              (codes "eu" ++ (codes ":" ++ codes "7"))
              (codes "event")
              (codes "first")
            >> submit_with_idempotency host
                (codes "main" ++ (codes ":" ++ codes "eu"))
                (record { key = codes "7"; hash = some (codes "second") })
                1
                false
                (fail invalid))
          fresh
        ≡ (err invalid_idempotency_input, v))
      × (v.tables ≡ fresh.tables))
submit_with_idempotency-collides_example =
    submit_with_idempotency-collides host (codes "main") (codes "eu") (codes "7") (codes "event")
      (codes "first") (codes "second") 1 false (fail invalid) fresh refl refl hashes-differ
