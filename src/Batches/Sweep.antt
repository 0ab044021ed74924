-- ===== src/Batches/Sweep.antt =====
-- The periodic sweep over open batches (internal/log/batch/manager.go, CloseExpiredBatches;
-- internal/storage/postgres/store_batches.go, ListOpenBatches). Each close runs to its end before the
-- next begins, so no close finds another one of its batch under way.
use fincore_ledger.Prelude.{
  ℕ, ◌+◌, ◌-◌, ByteString, Bool, true, false, none, some, List, [], ◌∷◌, ◌&&◌, not, filter, map,
  take, leb, ltb, if◌then◌else◌,
}
use fincore_ledger.Storage.Records.{BatchRecord, Payload, Time}
use fincore_ledger.Storage.World.{
  World, OpenBatchState, Act, Result, ok, err, call, gets, modify, done, attempt, ◌>>=◌, ◌>>◌,
}
use fincore_ledger.Batches.{default_max_age, close_batch_with_retry}

abbrev pub open_batches_limit : ℕ
open_batches_limit = 100

unfoldable pub is_open : BatchRecord → Bool
is_open b = elim b.closed_at [ none ↦ true | some t ↦ false ]

-- `closed_at IS NULL AND opened_at < now() - $1`
unfoldable pub is_overdue : Time → Time → BatchRecord → Bool
is_overdue age t b = is_open b && ltb (b.opened_at + age) t

-- `ORDER BY opened_at`
unfoldable pub insert_by_opening : BatchRecord → List BatchRecord → List BatchRecord
insert_by_opening b [] = b ∷ []
insert_by_opening b (x ∷ xs) =
    let rest = insert_by_opening b xs in
    if leb b.opened_at x.opened_at then b ∷ x ∷ xs else x ∷ rest

unfoldable pub sort_by_opening : List BatchRecord → List BatchRecord
sort_by_opening [] = []
sort_by_opening (b ∷ bs) = insert_by_opening b (sort_by_opening bs)

unfoldable pub overdue_batches : World → List BatchRecord
overdue_batches w = sort_by_opening (filter (is_overdue default_max_age w.clock) w.batches)

-- `ListOpenBatches`, with the age that the sweep asks for.
unfoldable pub list_open_batches : Act (List BatchRecord)
list_open_batches = do call; gets (λ w. take open_batches_limit (overdue_batches w))

-- `time.Since(openedAt) >= maxAge`
unfoldable pub is_expired : Time → ByteString × OpenBatchState → Bool
is_expired t (l, s) = leb default_max_age (t - s.opened_at)

-- The batches that have expired leave the map.
unfoldable pub evict_expired : Act (List ByteString)
evict_expired = do
  expired ← gets (λ w. filter (is_expired w.clock) w.open_batch)
  modify (λ w. record w { open_batch = filter (λ e. not (is_expired w.clock e)) w.open_batch })
  done (map (λ e. e.1.batch_id) expired)

module _ (sha256 : ByteString → ByteString) (format_time : Time → ByteString)
    (marshal : Payload → ByteString) where
  unfoldable pub close_each : List ByteString → Act (Unit {0})
  close_each [] = done tt
  close_each (b ∷ bs) = close_batch_with_retry sha256 format_time marshal b >> close_each bs

  unfoldable pub close_listed : Result (List BatchRecord) → Act (Unit {0})
  close_listed (err e) = done tt
  close_listed (ok bs) = close_each (map (λ b. b.batch_id) bs)

  -- `CloseExpiredBatches`
  unfoldable pub close_expired_batches : Act (Unit {0})
  close_expired_batches = do
    to_close ← evict_expired
    close_each to_close
    orphaned ← attempt list_open_batches
    close_listed orphaned
