-- ===== src/System.antt =====
-- The system as a sequence of commands: each operation that the gRPC services and the background
-- sweeps call (internal/planner, internal/storage/postgres/store_ledgers.go and
-- store_governance.go), run one after the other on one state. A command that fails leaves the state
-- that its last statement left.
use fincore_ledger.Prelude.{ℕ, ByteString, Bool, Option, List, [], ◌∷◌}
use fincore_ledger.Prelude.Int.{ℤ}
use fincore_ledger.Storage.Records.{Time, Metadata, PolicyRecord}
use fincore_ledger.Storage.World.{World, Act}
use fincore_ledger.Storage.Governance
use fincore_ledger.Planner.Inputs.{Host, PostingInput, ConvertParams, BatchIntent}
use fincore_ledger.Planner.Operations
use fincore_ledger.Planner.Batch
use fincore_ledger.Planner.Approval
use fincore_ledger.Planner.Expire
use fincore_ledger.Planner.Policies

pub data Command : Type 0 where
  create_ledger : ByteString → ByteString → Metadata → Command
  seal_ledger : ByteString → Command
  insert_policy : PolicyRecord → Command
  post :
      ByteString
      → List PostingInput
      → ByteString
      → Metadata
      → ByteString
      → Option Time
      → Bool
      → Command
  convert : ByteString → ConvertParams → ByteString → Command
  authorize :
      ByteString → ByteString → ByteString → ByteString → Option ℤ → Time → ByteString → Command
  capture : ByteString → ByteString → Option ℤ → ByteString → ByteString → Command
  void : ByteString → ByteString → ByteString → Command
  revert : ByteString → ByteString → Bool → Bool → ByteString → ByteString → Command
  amend : ByteString → ByteString → Metadata → ByteString → Command
  set_metadata : ByteString → ℕ → ByteString → Metadata → ByteString → Command
  delete_metadata : ByteString → ℕ → ByteString → ByteString → ByteString → Command
  insert_schema : ByteString → ByteString → ByteString → ByteString → Command
  batch : ByteString → List BatchIntent → ByteString → Command
  submit_for_approval : ByteString → ByteString → List ByteString → ByteString → Time → Command
  approve : ByteString → ByteString → ByteString → ByteString → Command
  expire_approvals : Time → Command
  expire_holds : ℕ → Command
  deny : ByteString → ByteString → ByteString → Command

-- The state behind an action, whatever its outcome.
abbrev pub after : {A : Type 0} → Act A → World → World
after m w = (m w).1

module _ (host : Host) (decode : ByteString → Option BatchIntent) where
  unfoldable pub perform : Command → World → World
  perform (create_ledger i b m) = after (Governance.create_ledger i b m)
  perform (seal_ledger i) = after (Governance.seal_ledger i)
  perform (insert_policy p) = after (Governance.insert_policy p)
  perform (post l ps r m k v dry) = after (Operations.submit_post host l ps r m k v dry)
  perform (convert l c k) = after (Operations.submit_convert host l c k)
  perform (authorize l s d a x y k) = after (Operations.submit_authorize host l s d a x y k)
  perform (capture l h x d k) = after (Operations.submit_capture host l h x d k)
  perform (void l h k) = after (Operations.submit_void host l h k)
  perform (revert l o f e r k) = after (Operations.submit_revert host l o f e r k)
  perform (amend l o m k) = after (Operations.submit_amend host l o m k)
  perform (set_metadata l n i m k) = after (Operations.submit_set_metadata host l n i m k)
  perform (delete_metadata l n i x k) = after (Operations.submit_delete_metadata host l n i x k)
  perform (insert_schema l d v k) = after (Operations.submit_insert_schema host l d v k)
  perform (batch l is mode) = after (Batch.submit_batch host l is mode)
  perform (submit_for_approval l p r b t) = after (Approval.submit_for_approval host l p r b t)
  perform (approve l i p s) = after (Approval.approve host decode l i p s)
  perform (expire_approvals t) = after (Approval.expire_stale_approvals t)
  perform (expire_holds pages) = after (Expire.expire_pages host pages 0)
  perform (deny l p r) = after (Policies.write_policy_denial_event l p r)

  unfoldable pub run : List Command → World → World
  run [] w = w
  run (c ∷ cs) w = run cs (perform c w)
