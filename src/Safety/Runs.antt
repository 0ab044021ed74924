-- ===== src/Safety/Runs.antt =====
-- The invariants of the frame, for a transaction of the planner and the write path around it.
use fincore_ledger.Prelude.{ℕ, zero, suc, ByteString, Bool, true, false, if◌then◌else◌}
use fincore_ledger.Storage.Records.{Error, Time}
use fincore_ledger.Storage.World.{
  World, continue, Tables, Act, Result, ok, err, call, begin_tx, commit, settle, is_lost, rollback,
  with_rollback, undo_on_error, ◌>>=◌,
}
use fincore_ledger.Storage.Log.{get_idempotency_key}
use fincore_ledger.Planner.Inputs.{Host, SubmitResult}
use fincore_ledger.Planner.Events.{Key, publish_event}
use fincore_ledger.Planner.Submit
use fincore_ledger.Safety.Rules.{
  OnOk, Preserves, Upholds, preserves_rules, Preserves-result, Preserves-option, Preserves-bind,
  Preserves-if, Preserves-done, Preserves-fail, Preserves-call, Preserves-modify, Preserves-attempt,
}

module _ (Good : Tables → Type 0) where
  undo-Good :
      {A : Type 0} (before : Tables) (o : Result A × World)
      → Good before
      → OnOk Good o
      → Good (undo_on_error before o).1.tables
  unfolding undo_on_error
  undo-Good before (ok a, w) g h = h
  undo-Good before (err e, w) g h = g

  settle-Good :
      (before : Tables) (r : Result (Unit {0})) (w : World)
      → Good before
      → Good w.tables
      → Good (settle before r w).1.tables
  unfolding settle
  settle-Good before (ok _) w g h = h
  settle-Good before (err e) w g h = lost_or_not (is_lost e)
    where
      lost_or_not : (b : Bool) → Good (if b then w else record w { tables = before }).tables
      lost_or_not true = h
      lost_or_not false = g

  commit-Good :
      (b : Bool) (before : Tables) (r : Result (Unit {0})) (w v : World) (e : Error)
      → Good before
      → Good v.tables
      → let refused : Result (Unit {0}) × World = (err e, record w { tables = before }) in
        Good (if b then refused else settle before r v).1.tables
  commit-Good true before r w v e g h = g
  commit-Good false before r w v e g h = settle-Good before r v g h

  begun-Good :
      {A : Type 0} (r : Result (Unit {0})) (w : World) (f : Tables → Act A)
      → ((t : Tables) → Good t → Preserves Good (f t))
      → Good w.tables
      → let started : Unit {0} → Act Tables = λ _ v. (ok v.tables, record v { aborted = false }) in
        let (s, v) = continue r started w in Good (continue s f v).1.tables
  begun-Good (ok _) w f k g = (k w.tables g).at (record w { aborted = false }) g
  begun-Good (err e) w f k g = g

module _ {Good : Tables → Type 0} where
  -- The tables that a transaction starts from are good where the world's are.
  pub Preserves-begin :
      {A : Type 0} (f : Tables → Act A)
      → ((t : Tables) → Good t → Preserves Good (f t))
      → Preserves Good (begin_tx >>= f)
  unfolding begin_tx ◌>>=◌
  Preserves-begin f k = record {
    at = λ w g.
        let (r, v) = call w in begun-Good Good r v f k ((Preserves-call {Good = Good}).at w g);
  }

  pub Preserves-with_rollback :
      {A : Type 0} (before : Tables) (m : Act A)
      → Good before
      → Upholds Good m
      → Preserves Good (with_rollback before m)
  unfolding with_rollback
  Preserves-with_rollback before m g p = record {
    at = λ w h. undo-Good Good before (m w) g (p.at w h);
  }

  pub Preserves-commit : (before : Tables) → Good before → Preserves Good (commit before)
  unfolding commit
  Preserves-commit before g = record {
    at = λ w h.
        commit-Good Good w.aborted before (call w).0 w (call w).1 _ g
          ((Preserves-call {Good = Good}).at w h);
  }

  Preserves-rollback : (before : Tables) → Good before → Preserves Good (rollback before)
  unfolding rollback
  Preserves-rollback before g = record { at = λ w h. g }

  Preserves-cache_key : (l k e h : ByteString) → Preserves Good (Submit.cache_key l k e h)
  unfolding Submit.cache_key
  Preserves-cache_key l k e h =
      Preserves-bind _ _ Preserves-call (λ _. Preserves-modify _ (λ w g. g))

  pub Preserves-publish :
      (host : Host) (l e : ByteString) (n : ℕ) → Preserves Good (publish_event host l e n)
  unfolding publish_event
  Preserves-publish host l e n =
      Preserves-if _ _ _
        (Preserves-bind _ _ (Preserves-attempt _ Preserves-call) (λ r.
          Preserves-result r _ _ (λ _. Preserves-modify _ (λ w g. g)) (λ _. Preserves-done _)))
        (Preserves-done _)

  Preserves-post_commit :
      (l k e h : ByteString) → Preserves Good (Submit.post_commit_idempotency l k e h)
  unfolding Submit.post_commit_idempotency
  Preserves-post_commit l k e h = search (preserves_rules, Preserves-cache_key)

  pub Preserves-after_commit :
      (host : Host) (l : ByteString) (k : Key) (n : ℕ) (r : SubmitResult)
      → Preserves Good (Submit.after_commit host l k n r)
  unfolding Submit.after_commit
  Preserves-after_commit host l k n r =
      search (preserves_rules, Preserves-post_commit, Preserves-publish)

  pub Preserves-run_once :
      (host : Host) (l : ByteString) (k : Key) (n : ℕ) (dry : Bool) (work : Act SubmitResult)
      → Upholds Good work
      → Preserves Good (Submit.run_once host l k n dry work)
  unfolding Submit.run_once
  Preserves-run_once host l k n dry work p = Preserves-begin _ λ before g.
      Preserves-bind _ _ (Preserves-with_rollback before work g p) λ r.
        Preserves-if _ _ _
          (Preserves-bind _ _ (Preserves-rollback before g) (λ _. Preserves-done _))
          (Preserves-bind _ _ (Preserves-commit before g)
            (λ _. Preserves-after_commit host l k n r))

  pub Preserves-wait : (t : Time) → Preserves Good (Submit.wait t)
  unfolding Submit.wait
  Preserves-wait t = Preserves-bind _ _ Preserves-call (λ _. Preserves-modify _ (λ w g. g))

  pub Preserves-deadlock_retry :
      {A : Type 0} (n : ℕ) (t : Time) (m : Act A)
      → Preserves Good m
      → Preserves Good (Submit.with_deadlock_retry n t m)
  unfolding Submit.with_deadlock_retry
  Preserves-deadlock_retry zero t m p = p
  Preserves-deadlock_retry (suc n) t m p = Preserves-bind _ _ (Preserves-attempt _ p) λ r.
      Preserves-result r _ _ (λ _. Preserves-done _)
        λ e.
          Preserves-if _ _ _
            (Preserves-bind _ _ (Preserves-wait t) (λ _. Preserves-deadlock_retry n _ m p))
            (Preserves-fail _)

  pub Preserves-get_key : (l k : ByteString) → Preserves Good (get_idempotency_key l k)
  unfolding get_idempotency_key
  Preserves-get_key l k = search preserves_rules

  pub Preserves-resolve :
      (l k : ByteString) → Preserves Good (Submit.resolve_idempotency_conflict l k)
  unfolding Submit.resolve_idempotency_conflict
  Preserves-resolve l k = Preserves-bind _ _ (Preserves-attempt _ (Preserves-get_key l k)) λ r.
      Preserves-result r _ _
        (λ o. Preserves-option o _ _ (Preserves-fail _) (λ _. Preserves-done _))
        (λ _. Preserves-fail _)

  Preserves-hit_if : (a b c : ByteString) → Preserves Good (Submit.hit_if a b c)
  unfolding Submit.hit_if
  Preserves-hit_if a b c = search preserves_rules

  Preserves-submit_new :
      (host : Host) (l : ByteString) (k : Key) (n : ℕ) (dry : Bool) (work : Act SubmitResult)
      → Preserves Good (Submit.run_once host l k n dry work)
      → Preserves Good (Submit.submit_new host l k n dry work)
  unfolding Submit.submit_new
  Preserves-submit_new host l k n dry work p =
      Preserves-bind _ _ (Preserves-attempt _ (Preserves-deadlock_retry _ _ _ p)) λ r.
        Preserves-result r _ _ (λ _. Preserves-done _)
          λ e. Preserves-if _ _ _ (Preserves-resolve _ _) (Preserves-fail _)

  Preserves-check_database : (l k h : ByteString) → Preserves Good (Submit.check_database l k h)
  unfolding Submit.check_database
  Preserves-check_database l k h = Preserves-bind _ _ (Preserves-get_key l k) λ o.
      Preserves-option o _ _ (Preserves-done _) λ r.
        Preserves-bind _ _ (Preserves-hit_if _ _ _) λ _.
          Preserves-bind _ _ (Preserves-attempt _ (Preserves-cache_key _ _ _ _))
            (λ _. Preserves-done _)

  Preserves-cached_key : (l k : ByteString) → Preserves Good (Submit.cached_key l k)
  unfolding Submit.cached_key
  Preserves-cached_key l k = search preserves_rules

  pub Preserves-check_idempotency :
      (l k h : ByteString) → Preserves Good (Submit.check_idempotency l k h)
  unfolding Submit.check_idempotency
  Preserves-check_idempotency l k h =
      Preserves-bind _ _ (Preserves-attempt _ (Preserves-cached_key l k)) λ o.
        Preserves-option (Submit.or_miss o) _ _ (Preserves-check_database l k h)
          (λ _. Preserves-hit_if _ _ _)

  -- A submission preserves what its transaction does.
  pub Preserves-around :
      (host : Host) (l : ByteString) (k : Key) (n : ℕ) (dry : Bool) (work : Act SubmitResult)
      → Preserves Good (Submit.run_once host l k n dry work)
      → Preserves Good (Submit.submit_with_idempotency host l k n dry work)
  unfolding Submit.submit_with_idempotency
  Preserves-around host l k n dry work p =
      Preserves-if _ _ _ (Preserves-submit_new host l k n dry work p) (
        Preserves-bind _ _ (Preserves-check_idempotency _ _ _) λ o.
          Preserves-option o _ _ (Preserves-submit_new host l k n dry work p)
            (λ _. Preserves-done _))

  pub Preserves-submit :
      (host : Host) (l : ByteString) (k : Key) (n : ℕ) (dry : Bool) (work : Act SubmitResult)
      → Upholds Good work
      → Preserves Good (Submit.submit_with_idempotency host l k n dry work)
  Preserves-submit host l k n dry work p =
      Preserves-around host l k n dry work (Preserves-run_once host l k n dry work p)
