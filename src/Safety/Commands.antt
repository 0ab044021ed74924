-- ===== src/Safety/Commands.antt =====
-- The invariants of the frame, for the standalone operations and the batches of intents.
use fincore_ledger.Prelude.{ℕ, ByteString, Bool, Option, none, some, List, [], ◌∷◌}
use fincore_ledger.Prelude.Int.{ℤ}
use fincore_ledger.Storage.Records.{Time, Metadata}
use fincore_ledger.Storage.World.{now, Tables, Act, ◌>>=◌}
use fincore_ledger.Planner.Inputs.{
  Host, PostingInput, ConvertParams, BatchIntent, BatchIntentResult, BatchResult,
}
use fincore_ledger.Planner.Events.{check_ledger_not_sealed}
use fincore_ledger.Planner.Operations
use fincore_ledger.Planner.Batch
use fincore_ledger.Planner.Batch.{
  Kind, post, authorize, capture, void, revert, amend, convert, set_metadata, delete_metadata,
  unknown,
}
use fincore_ledger.Safety.Rules.{
  Preserves, Upholds, preserves_rules, uphold_rules, Preserves-bind, Preserves-done, Preserves-fail,
  Preserves-now, Preserves-attempt, Upholds-bind, Upholds-Preserves,
}
use fincore_ledger.Safety.Frame.{IsInvariant, Preserves-get_ledger, Preserves-get_ledger_in_tx}
use fincore_ledger.Safety.Cores.{Upholds-do_post}
use fincore_ledger.Safety.Operations.{
  Upholds-do_convert, Upholds-do_authorize, Upholds-do_capture, Upholds-do_void, Upholds-do_revert,
  Upholds-do_amend, Upholds-do_set_metadata, Upholds-do_delete_metadata, Upholds-do_insert_schema,
}
use fincore_ledger.Safety.Runs.{
  Preserves-submit, Preserves-begin, Preserves-with_rollback, Preserves-commit,
}

module _ {Good : Tables → Type 0} where
  pub Preserves-not_sealed : (l : ByteString) → Preserves Good (check_ledger_not_sealed l)
  unfolding check_ledger_not_sealed
  Preserves-not_sealed l = search (preserves_rules, Preserves-get_ledger)

module _ {Good : Tables → Type 0} (inv : IsInvariant Good) (host : Host) (l : ByteString) where
  pub Preserves-post :
      (ps : List PostingInput) (r : ByteString) (m : Metadata) (k : ByteString) (v : Option Time)
      (dry : Bool)
      → Preserves Good (Operations.submit_post host l ps r m k v dry)
  unfolding Operations.submit_post
  Preserves-post ps r m k v dry =
      search (preserves_rules, Preserves-not_sealed, Preserves-submit, Upholds-do_post inv) depth 20

  pub Preserves-convert :
      (c : ConvertParams) (k : ByteString) → Preserves Good (Operations.submit_convert host l c k)
  unfolding Operations.submit_convert
  Preserves-convert c k =
      search (preserves_rules, Preserves-not_sealed, Preserves-submit, Upholds-do_convert inv) depth
        20

  pub Preserves-authorize :
      (s d a : ByteString) (x : Option ℤ) (y : Time) (k : ByteString)
      → Preserves Good (Operations.submit_authorize host l s d a x y k)
  unfolding Operations.submit_authorize
  Preserves-authorize s d a x y k =
      search (preserves_rules, Preserves-not_sealed, Preserves-submit, Upholds-do_authorize inv)
        depth 20

  pub Preserves-capture :
      (h : ByteString) (x : Option ℤ) (d k : ByteString)
      → Preserves Good (Operations.submit_capture host l h x d k)
  unfolding Operations.submit_capture
  Preserves-capture h x d k =
      search (preserves_rules, Preserves-not_sealed, Preserves-submit, Upholds-do_capture inv) depth
        20

  pub Preserves-void : (h k : ByteString) → Preserves Good (Operations.submit_void host l h k)
  unfolding Operations.submit_void
  Preserves-void h k =
      search (preserves_rules, Preserves-not_sealed, Preserves-submit, Upholds-do_void inv) depth 20

  pub Preserves-revert :
      (o : ByteString) (force dated : Bool) (r k : ByteString)
      → Preserves Good (Operations.submit_revert host l o force dated r k)
  unfolding Operations.submit_revert
  Preserves-revert o force dated r k =
      search (preserves_rules, Preserves-not_sealed, Preserves-submit, Upholds-do_revert inv) depth
        20

  pub Preserves-amend :
      (o : ByteString) (m : Metadata) (k : ByteString)
      → Preserves Good (Operations.submit_amend host l o m k)
  unfolding Operations.submit_amend
  Preserves-amend o m k =
      search (preserves_rules, Preserves-not_sealed, Preserves-submit, Upholds-do_amend inv) depth
        20

  pub Preserves-set_metadata :
      (n : ℕ) (i : ByteString) (m : Metadata) (k : ByteString)
      → Preserves Good (Operations.submit_set_metadata host l n i m k)
  unfolding Operations.submit_set_metadata
  Preserves-set_metadata n i m k =
      search (preserves_rules, Preserves-not_sealed, Preserves-submit, Upholds-do_set_metadata inv)
        depth 20

  pub Preserves-delete_metadata :
      (n : ℕ) (i x k : ByteString)
      → Preserves Good (Operations.submit_delete_metadata host l n i x k)
  unfolding Operations.submit_delete_metadata
  Preserves-delete_metadata n i x k =
      search
        (preserves_rules, Preserves-not_sealed, Preserves-submit, Upholds-do_delete_metadata inv)
        depth 20

  pub Preserves-insert_schema :
      (d v k : ByteString) → Preserves Good (Operations.submit_insert_schema host l d v k)
  unfolding Operations.submit_insert_schema
  Preserves-insert_schema d v k =
      search (preserves_rules, Preserves-not_sealed, Preserves-submit, Upholds-do_insert_schema inv)
        depth 20

  Preserves-convert_intent :
      (i : BatchIntent) (o : Option ConvertParams)
      → Preserves Good (Batch.convert_intent host l i o)
  unfolding Batch.convert_intent
  Preserves-convert_intent i none = Preserves-fail _
  Preserves-convert_intent i (some c) = Preserves-convert c _

  Preserves-kind : (k : Kind) (i : BatchIntent) → Preserves Good (Batch.execute_kind host l k i)
  unfolding Batch.execute_kind
  Preserves-kind post i = Preserves-post _ _ _ _ _ _
  Preserves-kind authorize i = Preserves-authorize _ _ _ _ _ _
  Preserves-kind capture i = Preserves-capture _ _ _ _
  Preserves-kind void i = Preserves-void _ _
  Preserves-kind revert i = Preserves-revert _ _ _ _ _
  Preserves-kind amend i = Preserves-amend _ _ _
  Preserves-kind convert i = Preserves-convert_intent i _
  Preserves-kind set_metadata i = Preserves-set_metadata _ _ _ _
  Preserves-kind delete_metadata i = Preserves-delete_metadata _ _ _ _
  Preserves-kind unknown i = Preserves-fail _

  pub Preserves-intent : (i : BatchIntent) → Preserves Good (Batch.execute_intent host l i)
  unfolding Batch.execute_intent
  Preserves-intent i = Preserves-kind (Batch.kind_of i.intent_type) i

  Upholds-convert_in_tx :
      (o : Option ConvertParams) → Upholds Good (Batch.execute_convert_in_tx host l o)
  unfolding Batch.execute_convert_in_tx
  Upholds-convert_in_tx none = Upholds-Preserves (Preserves-fail _)
  Upholds-convert_in_tx (some c) =
      Upholds-bind _ _ (Upholds-Preserves (Preserves-get_ledger_in_tx _)) λ _.
        Upholds-bind _ _ (Upholds-Preserves Preserves-now)
          (λ _. Upholds-do_convert inv host _ _ _ _)

  Upholds-post_in_tx : (i : BatchIntent) → Upholds Good (Batch.execute_post_in_tx host l i)
  unfolding Batch.execute_post_in_tx
  Upholds-post_in_tx i =
      search (uphold_rules, Preserves-get_ledger_in_tx, Upholds-do_post inv) depth 20

  Upholds-authorize_in_tx :
      (i : BatchIntent) → Upholds Good (Batch.execute_authorize_in_tx host l i)
  unfolding Batch.execute_authorize_in_tx
  Upholds-authorize_in_tx i =
      search (uphold_rules, Preserves-get_ledger_in_tx, Upholds-do_authorize inv) depth 20

  at_now :
      {A : Type 0} (f : Time → Act A) → ((t : Time) → Upholds Good (f t)) → Upholds Good (now >>= f)
  at_now f p = Upholds-bind _ _ (Upholds-Preserves Preserves-now) p

  Upholds-kind : (k : Kind) (i : BatchIntent) → Upholds Good (Batch.execute_kind_in_tx host l k i)
  unfolding Batch.execute_kind_in_tx
  Upholds-kind post i = Upholds-post_in_tx i
  Upholds-kind authorize i = Upholds-authorize_in_tx i
  Upholds-kind capture i = at_now _ (λ t. Upholds-do_capture inv _ _ _ _ _ t)
  Upholds-kind void i = at_now _ (λ t. Upholds-do_void inv _ _ _ t)
  Upholds-kind revert i = at_now _ (λ t. Upholds-do_revert inv _ _ _ _ _ _ t)
  Upholds-kind amend i = at_now _ (λ t. Upholds-do_amend inv _ _ _ _ t)
  Upholds-kind convert i = Upholds-convert_in_tx _
  Upholds-kind set_metadata i = at_now _ (λ t. Upholds-do_set_metadata inv _ _ _ _ _ t)
  Upholds-kind delete_metadata i = at_now _ (λ t. Upholds-do_delete_metadata inv _ _ _ _ _ t)
  Upholds-kind unknown i = Upholds-Preserves (Preserves-fail _)

  Upholds-run_all :
      (is : List BatchIntent) (rs : List BatchIntentResult)
      → Upholds Good (Batch.run_all host l is rs)
  unfolding Batch.run_all Batch.execute_intent_in_tx
  Upholds-run_all [] rs = Upholds-Preserves (Preserves-done _)
  Upholds-run_all (i ∷ is) rs = Upholds-bind _ _ (Upholds-kind _ i) (λ _. Upholds-run_all is _)

  Preserves-submit_all : (is : List BatchIntent) → Preserves Good (Batch.submit_all host l is)
  unfolding Batch.submit_all
  Preserves-submit_all is = Preserves-begin _ λ before g.
      Preserves-bind _ _ (Preserves-with_rollback before _ g (Upholds-run_all is []))
        λ _. Preserves-bind _ _ (Preserves-commit before g) (λ _. Preserves-done _)

  Preserves-run_each :
      (is : List BatchIntent) (b : BatchResult) → Preserves Good (Batch.run_each host l is b)
  unfolding Batch.run_each
  Preserves-run_each [] b = Preserves-done _
  Preserves-run_each (i ∷ is) b =
      Preserves-bind _ _ (Preserves-attempt _ (Preserves-intent i)) (λ _. Preserves-run_each is _)

  pub Preserves-batch :
      (is : List BatchIntent) (mode : ByteString)
      → Preserves Good (Batch.submit_batch host l is mode)
  unfolding Batch.submit_batch
  Preserves-batch is mode =
      search (preserves_rules, Preserves-not_sealed, Preserves-submit_all, Preserves-run_each)
