-- ===== src/Safety/Governed/Writes.antt =====
-- The writes outside a transaction and the reads of approvals and overdue holds keep an invariant
-- of the tables (internal/storage/postgres/store_governance.go, store_ledgers.go, store_holds.go).
use fincore_ledger.Prelude.{ℕ, zero, suc, ◌≡◌, ByteString, Bool, true, false, if◌then◌else◌}
use fincore_ledger.Storage.Records.{Error, Time}
use fincore_ledger.Storage.World.{World, Tables, Act, ok, err, exec}
use fincore_ledger.Storage.Governance
use fincore_ledger.Storage.Log
use fincore_ledger.Storage.Holds
use fincore_ledger.Planner.Approval
use fincore_ledger.Safety.Rules.{
  Preserves, preserves_rules, Preserves-result, Preserves-bind, Preserves-done, Preserves-call,
  Preserves-attempt, Preserves-exec,
}
use fincore_ledger.Safety.Runs.{Preserves-wait}

module _ (Good : Tables → Type 0) where
  store_tables-Good :
      (b : Bool) (e : Error) (t : Tables) (w : World)
      → Good t
      → Good w.tables
      → Good (Governance.store_tables (if b then err e else ok t) w).1.tables
  unfolding Governance.store_tables
  store_tables-Good true e t w g h = h
  store_tables-Good false e t w g h = g

  stored_where-Good :
      (b : Bool) (e : Error) (t : Tables) (w : World)
      → Good t
      → Good w.tables
      → Good (Governance.store_tables (if b then ok t else err e) w).1.tables
  unfolding Governance.store_tables
  stored_where-Good true e t w g h = g
  stored_where-Good false e t w g h = h

  written_ok : (u t : Tables) → Good u → ok u ≡ ok t → Good t
  written_ok u t g e = let same : u ≡ t = cc in rw same at g

module _ {Good : Tables → Type 0} where
  -- A write of its own behind a test.
  pub Preserves-alone :
      (b : Tables → Bool) (e : Error) (u : Tables → Tables)
      → ((t : Tables) → Good t → Good (u t))
      → Preserves Good (Governance.exec_alone (λ t. if b t then err e else ok (u t)))
  unfolding Governance.exec_alone
  Preserves-alone b e u k = Preserves-bind _ _ Preserves-call λ _. record {
    at = λ w g. store_tables-Good Good (b w.tables) e (u w.tables) w (k w.tables g) g;
  }

  pub Preserves-alone_where :
      (b : Tables → Bool) (e : Error) (u : Tables → Tables)
      → ((t : Tables) → Good t → Good (u t))
      → Preserves Good (Governance.exec_alone (λ t. if b t then ok (u t) else err e))
  unfolding Governance.exec_alone
  Preserves-alone_where b e u k = Preserves-bind _ _ Preserves-call λ _. record {
    at = λ w g. stored_where-Good Good (b w.tables) e (u w.tables) w (k w.tables g) g;
  }

  pub Preserves-alone_always :
      (u : Tables → Tables)
      → ((t : Tables) → Good t → Good (u t))
      → Preserves Good (Governance.exec_alone (λ t. ok (u t)))
  unfolding Governance.exec_alone Governance.store_tables
  Preserves-alone_always u k =
      Preserves-bind _ _ Preserves-call λ _. record { at = λ w g. k w.tables g }

  pub Preserves-always :
      (u : Tables → Tables)
      → ((t : Tables) → Good t → Good (u t))
      → Preserves Good (exec (λ t. ok (u t)))
  Preserves-always u k = Preserves-exec _ (λ t t' g e. written_ok Good (u t) t' (k t g) e)

  pub Preserves-get_approval :
      (l i : ByteString) → Preserves Good (Governance.get_pending_approval l i)
  unfolding Governance.get_pending_approval
  Preserves-get_approval l i = search preserves_rules

  pub Preserves-late : Preserves Good Governance.list_expired_approvals
  unfolding Governance.list_expired_approvals
  Preserves-late = search preserves_rules

  pub Preserves-stuck : (t : Time) → Preserves Good (Governance.list_stuck_approvals t)
  unfolding Governance.list_stuck_approvals
  Preserves-stuck t = search preserves_rules

  Preserves-active_policy : (l : ByteString) → Preserves Good (Governance.get_active_policy l)
  unfolding Governance.get_active_policy
  Preserves-active_policy l = search preserves_rules

  pub Preserves-list_by_key :
      (l k : ByteString) → Preserves Good (Log.list_log_events_by_idempotency_key l k)
  unfolding Log.list_log_events_by_idempotency_key
  Preserves-list_by_key l k = search preserves_rules

  pub Preserves-expired_holds : Preserves Good Holds.list_expired_holds
  unfolding Holds.list_expired_holds
  Preserves-expired_holds = search preserves_rules

  pub Preserves-backoff_retry :
      {A : Type 0} (n : ℕ) (t : Time) (m : Act A)
      → Preserves Good m
      → Preserves Good (Approval.with_backoff_retry n t m)
  unfolding Approval.with_backoff_retry
  Preserves-backoff_retry zero t m p = p
  Preserves-backoff_retry (suc n) t m p = Preserves-bind _ _ (Preserves-attempt _ p) λ r.
      Preserves-result r _ _ (λ _. Preserves-done _)
        λ e. Preserves-bind _ _ (Preserves-wait t) (λ _. Preserves-backoff_retry n _ m p)
