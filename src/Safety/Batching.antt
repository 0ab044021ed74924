-- ===== src/Safety/Batching.antt =====
-- The invariants of the frame, for the choice of the open batch.
use fincore_ledger.Prelude.{
  ByteString, Bool, true, false, Option, none, some, if◌then◌else◌, is_empty, any, ◌++◌, [], ◌∷◌,
}
use fincore_ledger.Storage.Records.{Time, BatchRecord, violation}
use fincore_ledger.Storage.World.{World, OpenBatchState, Tables, Result, ok, err}
use fincore_ledger.Batches
use fincore_ledger.Safety.Rules.{
  Preserves, Preserves-bind, Preserves-if, Preserves-done, Preserves-mint, Preserves-now,
  Preserves-call, Preserves-modify, Preserves-gets,
}

module _ (Good : Tables → Type 0) where
  put_batch-Good :
      (b : BatchRecord) (w : World) → Good w.tables → Good (Batches.put_batch b w).1.tables
  unfolding Batches.put_batch
  put_batch-Good b w g =
      put-Good (any (Batches.is_batch b.batch_id) w.batches) (record w { batches = b ∷ w.batches })
        w g g
    where
      put-Good :
          (c : Bool) (v w : World)
          → Good v.tables
          → Good w.tables
          → let refused : Result (Unit {0}) × World = (err violation, w) in
            Good (if c then refused else (ok tt, v)).1.tables
      put-Good true v w g h = h
      put-Good false v w g h = g

  queued-Good :
      (c : Bool) (v w : World) → Good v.tables → Good w.tables → Good (if c then w else v).tables
  queued-Good true v w g h = h
  queued-Good false v w g h = g

module _ {Good : Tables → Type 0} where
  Preserves-create_batch : (b : BatchRecord) → Preserves Good (Batches.create_batch b)
  unfolding Batches.create_batch
  Preserves-create_batch b =
      Preserves-bind _ _ Preserves-call (λ _. record { at = λ w g. put_batch-Good Good b w g })

  Preserves-queue_close : (l old : ByteString) → Preserves Good (Batches.queue_close l old)
  unfolding Batches.queue_close
  Preserves-queue_close l old = Preserves-modify _ (λ w g.
      queued-Good Good (is_empty old) (record w { closing = w.closing ++ ((l, old) ∷ []) }) w g g)

  Preserves-open_new : (l old : ByteString) → Preserves Good (Batches.open_new_batch l old)
  unfolding Batches.open_new_batch
  Preserves-open_new l old = Preserves-bind _ _ Preserves-mint λ _.
      Preserves-bind _ _ Preserves-now λ _. Preserves-bind _ _ (Preserves-create_batch _) λ _.
        Preserves-bind _ _ (Preserves-modify _ (λ w g. g))
          λ _. Preserves-bind _ _ (Preserves-queue_close l old) (λ _. Preserves-done _)

  Preserves-reuse : (l : ByteString) (s : OpenBatchState) → Preserves Good (Batches.reuse_batch l s)
  unfolding Batches.reuse_batch
  Preserves-reuse l s = Preserves-bind _ _ (Preserves-modify _ (λ w g. g)) (λ _. Preserves-done _)

  Preserves-choose :
      (l : ByteString) (t : Time) (o : Option OpenBatchState)
      → Preserves Good (Batches.choose_batch l t o)
  unfolding Batches.choose_batch
  Preserves-choose l t none = Preserves-open_new l _
  Preserves-choose l t (some s) = Preserves-if _ _ _ (Preserves-reuse l s) (Preserves-open_new l _)

  pub Preserves-batch_id : (l : ByteString) → Preserves Good (Batches.current_batch_id l)
  unfolding Batches.current_batch_id
  Preserves-batch_id l =
      Preserves-bind _ _ Preserves-now
        λ t. Preserves-bind _ _ (Preserves-gets _) (λ o. Preserves-choose l t o)
