-- ===== src/Safety/Sequences.antt =====
-- The invariants of the frame, for sequences of commands.
use fincore_ledger.Prelude.{ByteString, Option, List, [], ◌∷◌}
use fincore_ledger.Storage.World.{World, Tables}
use fincore_ledger.Planner.Inputs.{Host, BatchIntent}
use fincore_ledger.System.{
  Command, perform, run, create_ledger, seal_ledger, insert_policy, post, convert, authorize,
  capture, void, revert, amend, set_metadata, delete_metadata, insert_schema, batch,
  submit_for_approval, approve, expire_approvals, expire_holds, deny,
}
use fincore_ledger.Safety.Frame.{IsInvariant}
use fincore_ledger.Safety.Commands.{
  Preserves-post, Preserves-convert, Preserves-authorize, Preserves-capture, Preserves-void,
  Preserves-revert, Preserves-amend, Preserves-set_metadata, Preserves-delete_metadata,
  Preserves-insert_schema, Preserves-batch,
}
use fincore_ledger.Safety.Governed.{
  Preserves-create_ledger, Preserves-seal_ledger, Preserves-insert_policy,
  Preserves-submit_for_approval, Preserves-approve, Preserves-expire_stale, Preserves-pages,
  Preserves-denial,
}

module _ {Good : Tables → Type 0} (inv : IsInvariant Good) (host : Host)
    (decode : ByteString → Option BatchIntent) where
  perform-Good : (c : Command) (w : World) → Good w.tables → Good (perform host decode c w).tables
  unfolding perform
  perform-Good (create_ledger i b m) = (Preserves-create_ledger inv i b m).at
  perform-Good (seal_ledger i) = (Preserves-seal_ledger inv i).at
  perform-Good (insert_policy p) = (Preserves-insert_policy inv p).at
  perform-Good (post l ps r m k v dry) = (Preserves-post inv host l ps r m k v dry).at
  perform-Good (convert l c k) = (Preserves-convert inv host l c k).at
  perform-Good (authorize l s d a x y k) = (Preserves-authorize inv host l s d a x y k).at
  perform-Good (capture l h x d k) = (Preserves-capture inv host l h x d k).at
  perform-Good (void l h k) = (Preserves-void inv host l h k).at
  perform-Good (revert l o f e r k) = (Preserves-revert inv host l o f e r k).at
  perform-Good (amend l o m k) = (Preserves-amend inv host l o m k).at
  perform-Good (set_metadata l n i m k) = (Preserves-set_metadata inv host l n i m k).at
  perform-Good (delete_metadata l n i x k) = (Preserves-delete_metadata inv host l n i x k).at
  perform-Good (insert_schema l d v k) = (Preserves-insert_schema inv host l d v k).at
  perform-Good (batch l is mode) = (Preserves-batch inv host l is mode).at
  perform-Good (submit_for_approval l p r b t) =
      (Preserves-submit_for_approval inv host l p r b t).at
  perform-Good (approve l i p s) = (Preserves-approve inv host decode l i p s).at
  perform-Good (expire_approvals t) = (Preserves-expire_stale inv t).at
  perform-Good (expire_holds pages) = (Preserves-pages inv host pages 0).at
  perform-Good (deny l p r) = (Preserves-denial inv l p r).at

  pub run-Good :
      (cs : List Command) (w : World) → Good w.tables → Good (run host decode cs w).tables
  unfolding run
  run-Good [] w g = g
  run-Good (c ∷ cs) w g = run-Good cs (perform host decode c w) (perform-Good c w g)
