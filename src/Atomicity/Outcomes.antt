-- ===== src/Atomicity/Outcomes.antt =====
-- Actions whose failures leave all that their work does or nothing, up to one transaction of the
-- standalone write path (internal/planner/operations_post.go, submitWithIdempotency).
use fincore_ledger.Prelude.{
  ℕ, ◌≡◌, ◌⊎◌, inl, inr, refl, sym, subst, ByteString, Bool, true, false, if◌then◌else◌,
}
use fincore_ledger.Storage.Records.{
  Error, not_found, already_exists, insufficient_funds, invalid_idempotency_input,
  idempotency_key_conflict, ledger_sealed, transaction_reference_conflict, already_reverted,
  deadlock, policy_denied, hold_expired, hold_voided, approval_expired, invalid, violation, driver,
  lost,
}
use fincore_ledger.Storage.World.{
  World, Tables, Act, Result, ok, err, done, attempt, modify, continue, call, begin_tx, commit,
  settle, rollback, with_rollback, undo_on_error, ◌>>=◌, is_lost,
}
use fincore_ledger.Planner.Inputs.{Host, SubmitResult}
use fincore_ledger.Planner.Events.{Key, publish_event}
use fincore_ledger.Planner.Submit
use fincore_ledger.Safety.Rules.{Preserves-call}

-- Where the action fails, its error and the tables behind it are good.
abbrev pub OnErr : {A : Type 0} → (Error → Tables → Type 0) → Result A × World → Type 0
OnErr Q (ok a, w) = Unit
OnErr Q (err e, w) = Q e w.tables

-- The tables that one whole run of the work leaves, which succeeds and starts from these.
abbrev pub LeftBy : {A : Type 0} → Act A → Tables → Tables → Type 0
LeftBy {A} work t u =
    (w : World) × (v : World) × (a : A) × ((w.tables ≡ t) × (work w ≡ (ok a, v)) × (v.tables ≡ u))

-- What a failure leaves: the tables as they were, or, where the answer of a commit is lost, what the
-- work that was committed has left.
abbrev pub AllOrNothing : {A : Type 0} → Act A → Tables → Error → Tables → Type 0
AllOrNothing work t e u = (u ≡ t) ⊎ ((e ≡ lost) × LeftBy work t u)

-- An action whose failures leave all that the work does or nothing.
pub record Atomic {A B : Type 0} (work : Act B) (m : Act A) : Type 0 where
  pub at : (w : World) → OnErr (AllOrNothing work w.tables) (m w)

pub OnErr-done : {A : Type 0} (Q : Error → Tables → Type 0) (a : A) (w : World) → OnErr Q (done a w)
unfolding done
OnErr-done Q a w = tt

OnErr-continue :
    {A B : Type 0} (Q : Error → Tables → Type 0) (r : Result A) (v : World) (f : A → Act B)
    → OnErr Q (r, v)
    → ((a : A) (u : World) → OnErr Q (f a u))
    → OnErr Q (continue r f v)
OnErr-continue Q (ok a) v f p k = k a v
OnErr-continue Q (err e) v f p k = p

pub OnErr-bind :
    {A B : Type 0} (Q : Error → Tables → Type 0) (m : Act A) (f : A → Act B)
    → ((w : World) → OnErr Q (m w))
    → ((a : A) (u : World) → OnErr Q (f a u))
    → (w : World) → OnErr Q ((m >>= f) w)
unfolding ◌>>=◌
OnErr-bind Q m f p k w = let (r, v) = m w in OnErr-continue Q r v f (p w) k

OnErr-if :
    {A : Type 0} (Q : Error → Tables → Type 0) (b : Bool) (m n : Act A)
    → ((w : World) → OnErr Q (m w))
    → ((w : World) → OnErr Q (n w))
    → (w : World) → OnErr Q ((if b then m else n) w)
OnErr-if Q true m n p q w = p w
OnErr-if Q false m n p q w = q w

OnErr-attempt :
    {A : Type 0} (Q : Error → Tables → Type 0) (m : Act A) (w : World) → OnErr Q (attempt m w)
unfolding attempt
OnErr-attempt Q m w = tt

OnErr-sent :
    (Q : Error → Tables → Type 0) (r : Result (Unit {0})) (f : World → World) (w : World)
    → let m : Act (Unit {0}) = elim r [ ok _ ↦ modify f | err _ ↦ done tt ] in OnErr Q (m w)
unfolding modify done
OnErr-sent Q (ok _) f w = tt
OnErr-sent Q (err e) f w = tt

OnErr-publish :
    (Q : Error → Tables → Type 0) (host : Host) (l e : ByteString) (n : ℕ) (w : World)
    → OnErr Q (publish_event host l e n w)
unfolding publish_event
OnErr-publish Q host l e n =
    OnErr-if Q _ _ _ (OnErr-bind Q _ _ (OnErr-attempt Q call) (λ r. OnErr-sent Q r _))
      (OnErr-done Q tt)

-- What follows a commit cannot fail.
OnErr-after_commit :
    (Q : Error → Tables → Type 0) (host : Host) (l : ByteString) (k : Key) (n : ℕ)
    (r : SubmitResult) (w : World)
    → OnErr Q (Submit.after_commit host l k n r w)
unfolding Submit.after_commit Submit.post_commit_idempotency
OnErr-after_commit Q host l k n r =
    OnErr-bind Q _ _
      (OnErr-if Q _ _ _ (OnErr-done Q tt)
        (OnErr-bind Q _ _ (OnErr-attempt Q _) (λ _. OnErr-done Q tt)))
      (λ _. OnErr-bind Q _ _ (OnErr-publish Q host l _ n) (λ _. OnErr-done Q r))

is_lost-eq : (e : Error) → is_lost e ≡ true → e ≡ lost
is_lost-eq not_found h = cc
is_lost-eq already_exists h = cc
is_lost-eq insufficient_funds h = cc
is_lost-eq invalid_idempotency_input h = cc
is_lost-eq idempotency_key_conflict h = cc
is_lost-eq ledger_sealed h = cc
is_lost-eq transaction_reference_conflict h = cc
is_lost-eq already_reverted h = cc
is_lost-eq deadlock h = cc
is_lost-eq policy_denied h = cc
is_lost-eq hold_expired h = cc
is_lost-eq hold_voided h = cc
is_lost-eq approval_expired h = cc
is_lost-eq invalid h = cc
is_lost-eq violation h = cc
is_lost-eq driver h = cc
is_lost-eq lost h = refl

OnErr-rollback : (Q : Error → Tables → Type 0) (t : Tables) (w : World) → OnErr Q (rollback t w)
unfolding rollback
OnErr-rollback Q t w = tt

module _ {B : Type 0} (work : Act B) (t : Tables) where
  failed_commit :
      (b : Bool) (e : Error) (w : World)
      → is_lost e ≡ b
      → LeftBy work t w.tables
      → AllOrNothing work t e (if b then w else record w { tables = t }).tables
  failed_commit true e w h k = inr (is_lost-eq e h, k)
  failed_commit false e w h k = inl refl

  settled :
      (r : Result (Unit {0})) (w : World)
      → LeftBy work t w.tables
      → OnErr (AllOrNothing work t) (settle t r w)
  unfolding settle
  settled (ok _) w k = tt
  settled (err e) w k = failed_commit (is_lost e) e w refl k

  committed :
      (b : Bool) (r : Result (Unit {0})) (w v : World) (e : Error)
      → LeftBy work t v.tables
      → let refused : Result (Unit {0}) × World = (err e, record w { tables = t }) in
        OnErr (AllOrNothing work t) (if b then refused else settle t r v)
  committed true r w v e k = inl refl
  committed false r w v e k = settled r v k

  -- The commit of what the work has left.
  pub OnErr-commit : (w : World) → LeftBy work t w.tables → OnErr (AllOrNothing work t) (commit t w)
  unfolding commit
  OnErr-commit w k =
      committed w.aborted (call w).0 w (call w).1 driver
        (subst (LeftBy work t) (sym ((Preserves-call {Good = λ u. u ≡ w.tables}).at w refl)) k)

  ran :
      {C : Type 0} (o : Result B × World) (w : World) (f : B → Act C)
      → w.tables ≡ t
      → work w ≡ o
      → ((a : B) (v : World) → LeftBy work t v.tables → OnErr (AllOrNothing work t) (f a v))
      → let (s, v) = undo_on_error t o in OnErr (AllOrNothing work t) (continue s f v)
  unfolding undo_on_error
  ran (ok a, v) w f p e k = k a v (w, v, a, (p, e, refl))
  ran (err x, v) w f p e k = inl refl

  -- The work with its rollback, and what follows it.
  pub OnErr-with_rollback :
      {C : Type 0} (f : B → Act C) (w : World)
      → w.tables ≡ t
      → ((a : B) (v : World) → LeftBy work t v.tables → OnErr (AllOrNothing work t) (f a v))
      → OnErr (AllOrNothing work t) ((with_rollback t work >>= f) w)
  unfolding with_rollback ◌>>=◌
  OnErr-with_rollback f w p k = ran (work w) w f p refl k

begun :
    {A B : Type 0} (work : Act B) (t : Tables) (r : Result (Unit {0})) (w : World)
    (f : Tables → Act A)
    → ((t : Tables) (w : World) → w.tables ≡ t → OnErr (AllOrNothing work t) (f t w))
    → w.tables ≡ t
    → let started : Unit {0} → Act Tables = λ _ v. (ok v.tables, record v { aborted = false }) in
      let (s, v) = continue r started w in OnErr (AllOrNothing work t) (continue s f v)
begun work t (ok _) w f k p =
    subst (λ t. OnErr (AllOrNothing work t) (f w.tables (record w { aborted = false }))) p
      (k w.tables (record w { aborted = false }) refl)
begun work t (err e) w f k p = inl p

-- A transaction whose failures restore the tables that it started from, or lose its answer.
pub Atomic-begin :
    {A B : Type 0} (work : Act B) (f : Tables → Act A)
    → ((t : Tables) (w : World) → w.tables ≡ t → OnErr (AllOrNothing work t) (f t w))
    → Atomic work (begin_tx >>= f)
unfolding begin_tx ◌>>=◌
Atomic-begin work f k = record {
  at = λ w.
      let (r, v) = call w in
      begun work w.tables r v f k ((Preserves-call {Good = λ u. u ≡ w.tables}).at w refl);
}

pub OnErr-commit_then :
    {B C : Type 0} (work : Act B) (t : Tables) (f : Unit {0} → Act C) (w : World)
    → LeftBy work t w.tables
    → ((a : Unit {0}) (u : World) → OnErr (AllOrNothing work t) (f a u))
    → OnErr (AllOrNothing work t) ((commit t >>= f) w)
unfolding ◌>>=◌
OnErr-commit_then work t f w k n =
    let (r, v) = commit t w in OnErr-continue _ r v f (OnErr-commit work t w k) n

pub Atomic-run_once :
    (host : Host) (l : ByteString) (k : Key) (n : ℕ) (dry : Bool) (work : Act SubmitResult)
    → Atomic work (Submit.run_once host l k n dry work)
unfolding Submit.run_once
Atomic-run_once host l k n dry work = Atomic-begin work _ λ t w p.
    OnErr-with_rollback work t _ w p λ r v q.
      undo_or_keep _ dry _ _ v (OnErr-bind _ _ _ (OnErr-rollback _ t) (λ _. OnErr-done _ r) v)
        (OnErr-commit_then work t _ v q (λ _. OnErr-after_commit _ host l k n r))
  where
    undo_or_keep :
        {A : Type 0} (Q : Error → Tables → Type 0) (b : Bool) (m n : Act A) (w : World)
        → OnErr Q (m w)
        → OnErr Q (n w)
        → OnErr Q ((if b then m else n) w)
    undo_or_keep Q true m n w p q = p
    undo_or_keep Q false m n w p q = q
