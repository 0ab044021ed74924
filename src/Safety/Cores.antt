-- ===== src/Safety/Cores.antt =====
-- The invariants of the frame, for the steps that the cores share and for the post.
use fincore_ledger.Prelude.{refl, ByteString, Bool, Option, none, some, List, [], ◌∷◌}
use fincore_ledger.Prelude.Int.{ℤ}
use fincore_ledger.Storage.Records.{
  LedgerRecord, Metadata, Time, SchemaRecord, Document, bytes, text, value,
  idempotency_key_conflict,
}
use fincore_ledger.Storage.World.{done, Tables, Result, ok, err}
use fincore_ledger.Storage.Volumes.{get_balance}
use fincore_ledger.Storage.Holds.{get_active_holds_total}
use fincore_ledger.Chart.{Children}
use fincore_ledger.Planner.Inputs.{Host, PostingInput}
use fincore_ledger.Planner.Events
use fincore_ledger.Planner.Post
use fincore_ledger.Safety.Rules.{
  Preserves, Upholds, preserves_rules, uphold_rules, Preserves-bind, Preserves-if, Preserves-done,
  Preserves-fail, Preserves-fail_if, Preserves-attempt, Upholds-Preserves, Upholds-bind, Upholds-if,
}
use fincore_ledger.Safety.Frame.{
  IsInvariant, Preserves-insert_key, Preserves-insert_transaction, Preserves-upsert_account,
  Preserves-insert_history, Preserves-get_schema,
}

module _ {Good : Tables → Type 0} where
  Preserves-get_balance :
      (l a s : ByteString) (v y : Option Time) → Preserves Good (get_balance l a s v y)
  unfolding get_balance
  Preserves-get_balance l a s v y = search preserves_rules

  Preserves-active_holds : (l a s : ByteString) → Preserves Good (get_active_holds_total l a s)
  unfolding get_active_holds_total
  Preserves-active_holds l a s = search preserves_rules

  pub Preserves-available : (l a s : ByteString) → Preserves Good (Events.available_balance l a s)
  unfolding Events.available_balance
  Preserves-available l a s =
      search (preserves_rules, Preserves-get_balance, Preserves-active_holds)

  Preserves-check_bucket :
      (ledger : LedgerRecord) (a s : ByteString) (x : ℤ) (n : Events.Amounts)
      → Preserves Good (Events.check_bucket ledger a s x n)
  unfolding Events.check_bucket
  Preserves-check_bucket ledger a s x n = search (preserves_rules, Preserves-available)

  pub Preserves-check_source_balances :
      (ledger : LedgerRecord) (m n : Events.Amounts)
      → Preserves Good (Events.check_source_balances ledger m n)
  unfolding Events.check_source_balances
  Preserves-check_source_balances ledger [] n = Preserves-done _
  Preserves-check_source_balances ledger (((a, s), x) ∷ m) n =
      Preserves-bind _ _
        (Preserves-if _ _ _ (Preserves-done _) (Preserves-check_bucket ledger a s x n))
        (λ _. Preserves-check_source_balances ledger m n)

  Preserves-check_chart :
      (b : Bool) (c : Option Children) (ps : List PostingInput)
      → Preserves Good (Post.check_chart b c ps)
  unfolding Post.check_chart Post.complain
  Preserves-check_chart b none ps = Preserves-fail_if _ _
  Preserves-check_chart b (some c) ps =
      Preserves-if _ _ _ (Preserves-done _) (Preserves-fail_if _ _)

  Preserves-check_document :
      (host : Host) (b : Bool) (d : Document) (ps : List PostingInput)
      → Preserves Good (Post.check_document host b d ps)
  unfolding Post.check_document Post.complain
  Preserves-check_document host b (bytes x) ps = Preserves-check_chart _ _ _
  Preserves-check_document host b (text x) ps = Preserves-fail_if _ _
  Preserves-check_document host b (value x) ps = Preserves-fail_if _ _

  Preserves-found_schema :
      (host : Host) (b : Bool) (ps : List PostingInput) (r : Result SchemaRecord)
      → Preserves Good
          (elim r [ err _ ↦ done tt | ok s ↦ Post.check_document host b s.document ps ])
  Preserves-found_schema host b ps (ok s) = Preserves-check_document _ _ _ _
  Preserves-found_schema host b ps (err e) = Preserves-done _

  Preserves-enforce_schema :
      (host : Host) (ledger : LedgerRecord) (ps : List PostingInput)
      → Preserves Good (Post.enforce_schema host ledger ps)
  unfolding Post.enforce_schema Post.validate_postings_against_schema
  Preserves-enforce_schema host ledger ps =
      Preserves-if _ _ _
        (Preserves-if _ _ _ (Preserves-done _) (
          Preserves-bind _ _ (Preserves-attempt _ (Preserves-get_schema _ _))
            (Preserves-found_schema host _ ps)))
        (Preserves-done _)

module _ {Good : Tables → Type 0} (inv : IsInvariant Good) where
  pub Upholds-move_funds :
      (l s d a e : ByteString) (t : Events.Times) (x : ℤ)
      → Upholds Good (Events.move_funds l s d a e t x)
  unfolding Events.move_funds
  Upholds-move_funds l s d a e t x =
      inv.move _ _ (record { ledgers = refl; assets = refl; out_in = refl; in_out = refl })

  Preserves-pass_over : (r : Result (Unit {0})) → Preserves Good (Events.pass_over r)
  unfolding Events.pass_over
  Preserves-pass_over (ok _) = Preserves-done _
  Preserves-pass_over (err e) = elim e as (λ e. Preserves Good (Events.pass_over (err e))) [
    | idempotency_key_conflict ↦ Preserves-done _
    | x ↦ Preserves-fail x
  ]

  Preserves-record_idempotency :
      (l k e h : ByteString) → Preserves Good (Events.record_idempotency l k e h)
  unfolding Events.record_idempotency
  Preserves-record_idempotency l k e h =
      Preserves-bind _ _ (Preserves-attempt _ (Preserves-insert_key inv _)) Preserves-pass_over

  Preserves-record_at :
      (l e : ByteString) (k : Events.Key) (o : Option ByteString)
      → Preserves Good
          (elim o [ none ↦ done tt | some h ↦ Events.record_idempotency l (k.key) e h ])
  Preserves-record_at l e k none = Preserves-done _
  Preserves-record_at l e k (some h) = Preserves-record_idempotency _ _ _ _

  pub Preserves-record_key :
      (l e : ByteString) (k : Events.Key) → Preserves Good (Events.record_key l e k)
  unfolding Events.record_key
  Preserves-record_key l e k = Preserves-record_at l e k (Events.hash_of k)

  pub Preserves-upsert_accounts :
      (l : ByteString) (t : Time) (xs : List ByteString)
      → Preserves Good (Events.upsert_accounts l t xs)
  unfolding Events.upsert_accounts
  Preserves-upsert_accounts l t [] = Preserves-done _
  Preserves-upsert_accounts l t (x ∷ xs) =
      Preserves-bind _ _ (Preserves-upsert_account inv _) (λ _. Preserves-upsert_accounts l t xs)

  pub Upholds-insert_deltas :
      (l e : ByteString) (t : Events.Times) (ps : List PostingInput)
      → Upholds Good (Post.insert_deltas l e t ps)
  unfolding Post.insert_deltas
  Upholds-insert_deltas l e t [] = Upholds-Preserves (Preserves-done _)
  Upholds-insert_deltas l e t (p ∷ ps) =
      Upholds-bind _ _
        (Upholds-if _ _ _ (Upholds-Preserves (Preserves-done _)) (Upholds-move_funds _ _ _ _ _ _ _))
        (λ _. Upholds-insert_deltas l e t ps)

  Preserves-initial_history :
      (l i e : ByteString) (t : Events.Times) (m : Metadata)
      → Preserves Good (Post.initial_history l i e t m)
  unfolding Post.initial_history
  Preserves-initial_history l i e t m = search (preserves_rules, Preserves-insert_history inv)

  Upholds-write_post :
      (l : ByteString) (ps : List PostingInput) (r : ByteString) (m : Metadata) (k : Events.Key)
      (t : Events.Times)
      → Upholds Good (Post.write_post l ps r m k t)
  unfolding Post.write_post
  Upholds-write_post l ps r m k t =
      search
        (
          uphold_rules,
          inv.append,
          Preserves-insert_transaction inv,
          Preserves-initial_history,
          Upholds-insert_deltas,
          Preserves-upsert_accounts,
          Preserves-record_key,
        )
        depth 30

  pub Upholds-do_post :
      (host : Host) (ledger : LedgerRecord) (ps : List PostingInput) (r : ByteString) (m : Metadata)
      (k : Events.Key) (t : Events.Times) (dry : Bool)
      → Upholds Good (Post.do_post_in_tx host ledger ps r m k t dry)
  unfolding Post.do_post_in_tx
  Upholds-do_post host ledger ps r m k t dry =
      search
        (
          uphold_rules, Preserves-enforce_schema, Preserves-check_source_balances,
          Upholds-write_post,
        )
        depth 20
