-- ===== src/Atomicity.antt =====
-- Failures and dry runs of the standalone write path and the ALL_OR_NOTHING batch
-- (internal/planner/operations_post.go `submitWithIdempotency`, operations_batch.go `SubmitBatch`).
pub mod Outcomes
use fincore_ledger.Prelude.{
  ℕ, zero, suc, ◌≡◌, ◌⊎◌, inl, inr, refl, sym, subst, ByteString, Bool, true, false, Option, none,
  some, List, if◌then◌else◌, not, is_empty, ◌&&◌, [],
}
use fincore_ledger.Storage.Records.{Error, Time, lost}
use fincore_ledger.Storage.World.{
  World, Tables, Act, Result, ok, err, done, fail, attempt, modify, continue, call, begin_tx,
  commit, settle, ◌>>=◌,
}
use fincore_ledger.Planner.Inputs.{Host, SubmitResult, BatchIntent}
use fincore_ledger.Planner.Events.{Key, publish_event}
use fincore_ledger.Planner.Submit
use fincore_ledger.Planner.Operations
use fincore_ledger.Planner.Batch
use fincore_ledger.Safety.Rules.{Preserves, Preserves-call}
use fincore_ledger.Safety.Runs.{Preserves-check_idempotency, Preserves-resolve, Preserves-wait}
pub use fincore_ledger.Atomicity.Outcomes.{OnErr, LeftBy, AllOrNothing}
use fincore_ledger.Atomicity.Outcomes.{
  Atomic, OnErr-done, OnErr-with_rollback, OnErr-commit_then, Atomic-begin, Atomic-run_once,
}

-- An action that changes no table.
record ReadOnly {A : Type 0} (m : Act A) : Type 0 where
  pub keeps : (w : World) → (m w).1.tables ≡ w.tables

ReadOnly-Preserves :
    {A : Type 0} (m : Act A) → ((t : Tables) → Preserves (λ u. u ≡ t) m) → ReadOnly m
ReadOnly-Preserves m p = record { keeps = λ w. (p w.tables).at w refl }

module _ {B : Type 0} (work : Act B) where
  OnErr-outcome :
      {A : Type 0} (t : Tables) (o : Result A × World)
      → o.1.tables ≡ t
      → OnErr (AllOrNothing work t) o
  OnErr-outcome t (ok a, w) p = tt
  OnErr-outcome t (err e, w) p = inl p

  Atomic-ReadOnly : {A : Type 0} (m : Act A) → ReadOnly m → Atomic work m
  Atomic-ReadOnly m p = record { at = λ w. OnErr-outcome w.tables (m w) (p.keeps w) }

  Atomic-continue :
      {A C : Type 0} (t : Tables) (r : Result A) (v : World) (f : A → Act C)
      → v.tables ≡ t
      → ((a : A) → Atomic work (f a))
      → OnErr (AllOrNothing work t) (continue r f v)
  Atomic-continue t (ok a) v f p k = subst (λ t. OnErr (AllOrNothing work t) (f a v)) p ((k a).at v)
  Atomic-continue t (err e) v f p k = inl p

  -- A read in front of an action.
  Atomic-bind :
      {A C : Type 0} (m : Act A) (f : A → Act C)
      → ReadOnly m
      → ((a : A) → Atomic work (f a))
      → Atomic work (m >>= f)
  unfolding ◌>>=◌
  Atomic-bind m f p k = record {
    at = λ w. let (r, v) = m w in Atomic-continue w.tables r v f (p.keeps w) k;
  }

  Atomic-if :
      {A : Type 0} (b : Bool) (m n : Act A)
      → Atomic work m
      → Atomic work n
      → Atomic work (if b then m else n)
  Atomic-if true m n p q = p
  Atomic-if false m n p q = q

  -- Another action for some errors; a lost answer stays what it is.
  Atomic-caught :
      {A : Type 0} (t : Tables) (r : Result A) (v : World) (g : Error → Act A)
      → OnErr (AllOrNothing work t) (r, v)
      → ((e : Error) → Atomic work (g e))
      → ((u : World) → g lost u ≡ (err lost, u))
      → let m : Act A = elim r [ ok a ↦ done a | err e ↦ g e ] in OnErr (AllOrNothing work t) (m v)
  unfolding done
  Atomic-caught t (ok a) v g p k n = tt
  Atomic-caught t (err e) v g (inl p) k n =
      subst (λ t. OnErr (AllOrNothing work t) (g e v)) p ((k e).at v)
  Atomic-caught t (err e) v g (inr (p, q)) k n =
      subst (λ e. OnErr (AllOrNothing work t) (g e v)) (sym p)
        (subst (OnErr (AllOrNothing work t)) (sym (n v)) (inr (refl, q)))

  -- An action that is tried, and another where it fails.
  Atomic-catch :
      {A : Type 0} (m : Act A) (g : Error → Act A)
      → Atomic work m
      → ((e : Error) → Atomic work (g e))
      → ((u : World) → g lost u ≡ (err lost, u))
      → Atomic work (attempt m >>= λ r. elim r [ ok a ↦ done a | err e ↦ g e ])
  unfolding attempt ◌>>=◌
  Atomic-catch m g p k n = record {
    at = λ w. let (r, v) = m w in Atomic-caught w.tables r v g (p.at w) k n;
  }

  Atomic-fail : {A : Type 0} (e : Error) → Atomic work (fail {A = A} e)
  unfolding fail
  Atomic-fail e = record { at = λ w. inl refl }

  Atomic-done : {A : Type 0} (a : A) → Atomic work (done a)
  unfolding done
  Atomic-done a = record { at = λ w. tt }

  Atomic-deadlock_retry :
      {A : Type 0} (n : ℕ) (t : Time) (m : Act A)
      → Atomic work m
      → Atomic work (Submit.with_deadlock_retry n t m)
  unfolding Submit.with_deadlock_retry fail
  Atomic-deadlock_retry zero t m p = p
  Atomic-deadlock_retry (suc n) t m p =
      let again = Atomic-deadlock_retry n (Submit.next_backoff t) m p in
      Atomic-catch m _ p
        (λ e.
          Atomic-if _ _ _
            (Atomic-bind _ _ (ReadOnly-Preserves _ (λ u. Preserves-wait t)) (λ _. again))
            (Atomic-fail e))
        (λ u. refl)

  Atomic-found :
      (o : Option SubmitResult) (m : Act SubmitResult)
      → Atomic work m
      → Atomic work (elim o [ some r ↦ done r | none ↦ m ])
  Atomic-found none m p = p
  Atomic-found (some r) m p = Atomic-done r

no_conflict :
    {A : Type 0} (b : Bool) (m : Act A) (w : World)
    → (if b && false then m else fail lost) w ≡ (err lost, w)
unfolding fail
no_conflict true m w = refl
no_conflict false m w = refl

Atomic-submit_new :
    (host : Host) (l : ByteString) (k : Key) (n : ℕ) (dry : Bool) (work : Act SubmitResult)
    → Atomic work (Submit.submit_new host l k n dry work)
unfolding Submit.submit_new
Atomic-submit_new host l k n dry work =
    Atomic-catch work _ _ (Atomic-deadlock_retry work _ _ _ (Atomic-run_once host l k n dry work))
      (λ e.
        Atomic-if work (not (is_empty k.key) && Submit.is_conflict e)
          (Submit.resolve_idempotency_conflict l k.key) _
          (Atomic-ReadOnly work _ (ReadOnly-Preserves _ (λ u. Preserves-resolve l k.key)))
          (Atomic-fail work e))
      (no_conflict (not (is_empty k.key)) _)

Atomic-submit :
    (host : Host) (l : ByteString) (k : Key) (n : ℕ) (dry : Bool) (work : Act SubmitResult)
    → Atomic work (Submit.submit_with_idempotency host l k n dry work)
unfolding Submit.submit_with_idempotency
Atomic-submit host l k n dry work = Atomic-if work _ _ _ (Atomic-submit_new host l k n dry work) (
    Atomic-bind work _ _ (ReadOnly-Preserves _ (λ u. Preserves-check_idempotency _ _ _))
      (λ o. Atomic-found work o _ (Atomic-submit_new host l k n dry work)))

-- Whatever work a submission runs, however often it is tried again and whichever calls fail: a
-- submission that returns an error leaves the tables of `Tables` as they were, or, only where the
-- answer of a commit is lost, as one whole run of the work that succeeds and starts from them leaves
-- them.
pub submit_with_idempotency-atomic :
    (host : Host) (l : ByteString) (k : Key) (n : ℕ) (dry : Bool) (work : Act SubmitResult)
    (w : World)
    → OnErr (AllOrNothing work w.tables) (Submit.submit_with_idempotency host l k n dry work w)
submit_with_idempotency-atomic host l k n dry work = (Atomic-submit host l k n dry work).at

-- An ALL_OR_NOTHING batch that returns an error, whichever of its intents fails, leaves the tables of
-- `Tables` as they were, or, only where the answer of the commit is lost, as a run of all its intents
-- that succeeds and starts from them leaves them.
pub submit_all-atomic :
    (host : Host) (l : ByteString) (is : List BatchIntent) (w : World)
    → OnErr (AllOrNothing (Batch.run_all host l is []) w.tables) (Batch.submit_all host l is w)
unfolding Batch.submit_all
submit_all-atomic host l is =
    let run = Batch.run_all host l is [] in
    (Atomic-begin run _ λ t w p.
      OnErr-with_rollback run t _ w p
        λ rs v q. OnErr-commit_then run t _ v q (λ _. OnErr-done _ _)).at
