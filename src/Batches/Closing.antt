-- ===== src/Batches/Closing.antt =====
-- What the closing of a batch and the sweep over batches do (internal/log/batch/manager.go).
use fincore_ledger.Prelude.{
  ℕ, zero, suc, ◌≤◌, ◌≡◌, refl, sym, ap, subst, ◌∙◌, ByteString, not, Option, none, some, List, [],
  ◌∷◌, ◌++◌, append_assoc, ◌+◌, filter, length, map, take, str_eq, arith,
}
use fincore_ledger.Storage.Records.{Error, BatchRecord, LogEventRecord, Payload, Time}
use fincore_ledger.Storage.World.{
  World, Tables, Act, Result, ok, err, call, take_fault, wait, gets, modify, done, attempt,
  continue, ◌>>=◌,
}
use fincore_ledger.Batches.Merkle.{compute_root, climb}
use fincore_ledger.Batches.{
  sort_by_seq, list_batch_events, leaves_of, close_events, close_batch, close_retrying,
  close_batch_with_retry, initial_close_backoff, next_close_backoff, max_close_retries,
}
use fincore_ledger.Batches.Sweep.{
  open_batches_limit, is_expired, overdue_batches, list_open_batches, evict_expired, close_each,
  close_listed, close_expired_batches,
}
use fincore_ledger.Batches.Overdue.{overdue_of, overdue-later}

abbrev pub events_of : ByteString → Tables → List LogEventRecord
events_of b t = sort_by_seq (filter (λ e. str_eq e.batch_id b) t.log_events)

-- None of these batches has an event.
abbrev pub HaveNone : Tables → List ByteString → Type 0
HaveNone t [] = Unit
HaveNone t (b ∷ ids) = (events_of b t ≡ []) × HaveNone t ids

-- The tables and the batches are these, and the clock is at this time or later.
abbrev pub Held : Tables → List BatchRecord → Time → World → Type 0
Held t bs c w = (w.tables ≡ t) × (w.batches ≡ bs) × (c ≤ w.clock)

-- The action leaves these tables and batches alone, and does not set the clock back.
pub record Idle {A : Type 0} (t : Tables) (bs : List BatchRecord) (c : Time) (m : Act A)
    : Type 0 where
  pub at : (w : World) → Held t bs c w → Held t bs c (m w).1

later : (c x y : ℕ) → c ≤ x → c ≤ x + y
later c x y h = omega arith

module _ {t : Tables} {bs : List BatchRecord} {c : Time} where
  Idle-done : {A : Type 0} (a : A) → Idle t bs c (done a)
  unfolding done
  Idle-done a = record { at = λ w h. h }

  Idle-fault :
      (fs : List (Option Error)) (w : World) → Held t bs c w → Held t bs c (take_fault fs w).1
  unfolding take_fault
  Idle-fault [] w h = h
  Idle-fault (none ∷ fs) w h = h
  Idle-fault (some e ∷ fs) w h = h

  Idle-call : Idle t bs c call
  unfolding call
  Idle-call = record { at = λ w h. Idle-fault w.faults w h }

  Idle-attempt : {A : Type 0} (m : Act A) → Idle t bs c m → Idle t bs c (attempt m)
  unfolding attempt
  Idle-attempt m p = record { at = p.at }

  Idle-continue :
      {A B : Type 0} (r : Result A) (f : A → Act B) (w : World)
      → Held t bs c w
      → ((a : A) → Idle t bs c (f a))
      → Held t bs c (continue r f w).1
  Idle-continue (ok a) f w h k = (k a).at w h
  Idle-continue (err e) f w h k = h

  Idle-bind :
      {A B : Type 0} (m : Act A) (f : A → Act B)
      → Idle t bs c m
      → ((a : A) → Idle t bs c (f a))
      → Idle t bs c (m >>= f)
  unfolding ◌>>=◌
  Idle-bind m f p k = record { at = λ w h. Idle-continue (m w).0 f (m w).1 (p.at w h) k }

  module _ (sha256 : ByteString → ByteString) (format_time : Time → ByteString)
      (marshal : Payload → ByteString) where
    -- What a batch without events does to its close.
    Idle-read :
        (b : ByteString) (r : Result (Unit {0})) (w : World)
        → events_of b t ≡ []
        → Held t bs c w
        → Held t bs c
            (continue
              (continue r (λ _. gets (λ w. events_of b w.tables)) w).0
              (close_events sha256 format_time marshal b)
              (continue r (λ _. gets (λ w. events_of b w.tables)) w).1).1
    unfolding gets close_events leaves_of compute_root climb done
    Idle-read b (err e) w h g = g
    Idle-read b (ok _) w h (p, q, u) =
        subst (λ es. Held t bs c (close_events sha256 format_time marshal b es w).1)
          (sym (ap (events_of b) p ∙ h)) (p, q, u)

    Idle-close :
        (b : ByteString)
        → events_of b t ≡ []
        → Idle t bs c (close_batch sha256 format_time marshal b)
    unfolding close_batch list_batch_events ◌>>=◌
    Idle-close b h = record { at = λ w g. Idle-read b (call w).0 (call w).1 h (Idle-call.at w g) }

    Idle-wait : (backoff : Time) → Idle t bs c (wait backoff)
    unfolding wait modify
    Idle-wait backoff =
        Idle-bind _ _ Idle-call
          (λ _. record { at = λ w (p, q, u). (p, q, later c w.clock backoff u) })

    by_wait :
        (again : Act (Unit {0}))
        → Idle t bs c again
        → (waited : Result (Unit {0}))
        → Idle t bs c (elim waited [ ok _ ↦ again | err _ ↦ done tt ])
    by_wait again p (ok _) = p
    by_wait again p (err e) = Idle-done tt

    retry_step :
        (again : Act (Unit {0})) (backoff : Time) (r : Result (Unit {0}))
        → Idle t bs c again
        → Idle t bs c (elim r [
          | ok _ ↦ done tt
          | err e ↦
              attempt (wait backoff) >>= λ waited. elim waited [ ok _ ↦ again | err _ ↦ done tt ]
        ])
    retry_step again backoff (ok _) p = Idle-done tt
    retry_step again backoff (err e) p =
        Idle-bind _ _ (Idle-attempt _ (Idle-wait backoff)) (by_wait again p)

    Idle-retrying :
        (n : ℕ) (backoff : Time) (b : ByteString)
        → events_of b t ≡ []
        → Idle t bs c (close_retrying sha256 format_time marshal n backoff b)
    unfolding close_retrying
    Idle-retrying zero backoff b h =
        Idle-bind _ _ (Idle-attempt _ (Idle-close b h)) (λ _. Idle-done tt)
    Idle-retrying (suc n) backoff b h =
        let again = Idle-retrying n (next_close_backoff backoff) b h in
        Idle-bind _ _ (Idle-attempt _ (Idle-close b h)) (λ r. retry_step _ backoff r again)

    Idle-each :
        (ids : List ByteString)
        → HaveNone t ids
        → Idle t bs c (close_each sha256 format_time marshal ids)
    unfolding close_each close_batch_with_retry
    Idle-each [] h = Idle-done tt
    Idle-each (b ∷ ids) (h, k) =
        Idle-bind _ _ (Idle-retrying max_close_retries initial_close_backoff b h)
          (λ _. Idle-each ids k)

-- What was overdue stands in front of what is overdue.
still_overdue :
    (t : Tables) (bs : List BatchRecord) (c : Time) (w : World) (stuck waiting : List BatchRecord)
    → overdue_of bs c ≡ stuck ++ waiting
    → Held t bs c w
    → (more : List BatchRecord) × (overdue_batches w ≡ stuck ++ (waiting ++ more))
unfolding overdue_batches
still_overdue t bs c w stuck waiting e (p, q, u) =
    let (more, h) = overdue-later c w.clock bs u in
    (
      more,
      ap (λ bs. overdue_of bs w.clock) q
          ∙ h
          ∙ ap (λ xs. xs ++ more) e
          ∙ append_assoc stuck waiting more,
    )

HaveNone-take :
    (t : Tables) (n : ℕ) (stuck waiting : List BatchRecord)
    → n ≤ length stuck
    → HaveNone t (map (λ b. b.batch_id) stuck)
    → HaveNone t (map (λ b. b.batch_id) (take n (stuck ++ waiting)))
HaveNone-take t zero stuck waiting h k = tt
HaveNone-take t (suc n) [] waiting h k = elim (no_room n h) [ ]
  where
    no_room : (n : ℕ) → suc n ≤ 0 → ⊥
    no_room n h = omega arith
HaveNone-take t (suc n) (b ∷ stuck) waiting h (p, k) =
    (p, HaveNone-take t n stuck waiting (omega arith) k)

module _ (sha256 : ByteString → ByteString) (format_time : Time → ByteString)
    (marshal : Payload → ByteString) (t : Tables) (bs : List BatchRecord) (c : Time)
    (stuck waiting : List BatchRecord) (full : 100 ≤ length stuck)
    (none_has : HaveNone t (map (λ b. b.batch_id) stuck))
    (before : overdue_of bs c ≡ stuck ++ waiting) where
  listed_idle :
      (r : Result (Unit {0})) (w : World)
      → Held t bs c w
      → Held t bs c
          (close_listed sha256 format_time marshal
            (continue r (λ _. gets (λ w. take open_batches_limit (overdue_batches w))) w).0
            (continue r (λ _. gets (λ w. take open_batches_limit (overdue_batches w))) w).1).1
  unfolding close_listed gets done
  listed_idle (err e) w g = g
  listed_idle (ok _) w g =
      let (more, e) = still_overdue t bs c w stuck waiting before g in
      (Idle-each sha256 format_time marshal _ (
          subst (λ os. HaveNone t (map (λ b. b.batch_id) (take open_batches_limit os))) (sym e)
            (HaveNone-take t open_batches_limit stuck (waiting ++ more) full none_has))).at
        w g

  Idle-orphans : Idle t bs c (attempt list_open_batches >>= close_listed sha256 format_time marshal)
  unfolding attempt list_open_batches ◌>>=◌
  Idle-orphans = record { at = λ w g. listed_idle (call w).0 (call w).1 (Idle-call.at w g) }

module _ (sha256 : ByteString → ByteString) (format_time : Time → ByteString)
    (marshal : Payload → ByteString) where
  -- Where the oldest overdue batches, as many as a sweep lists or more, have no events, nor have those
  -- that have expired in memory, a sweep leaves every batch as it is, whichever calls fail, so that
  -- the overdue batches behind them stay open; what comes to be overdue in the meantime stands behind
  -- them.
  pub close_expired_batches-stalls :
      (w : World) (stuck waiting : List BatchRecord)
      → overdue_batches w ≡ stuck ++ waiting
      → 100 ≤ length stuck
      → HaveNone w.tables (map (λ b. b.batch_id) stuck)
      → HaveNone w.tables (map (λ e. e.1.batch_id) (filter (is_expired w.clock) w.open_batch))
      → let (r, v) = close_expired_batches sha256 format_time marshal w in
        (v.batches ≡ w.batches)
        × ((more : List BatchRecord) × (overdue_batches v ≡ stuck ++ (waiting ++ more)))
  unfolding close_expired_batches evict_expired overdue_batches ◌>>=◌ gets modify done
  close_expired_batches-stalls w stuck waiting e n h k =
      let (p, q, u) =
        (Idle-bind _ _ (Idle-each sha256 format_time marshal _ k) (λ _.
            Idle-orphans sha256 format_time marshal w.tables w.batches w.clock stuck waiting n h
              e)).at
          (record w { open_batch = filter (λ e. not (is_expired w.clock e)) w.open_batch })
          (refl, refl, from_now w.clock) in
      (
        q,
        still_overdue w.tables w.batches w.clock
            (close_expired_batches sha256 format_time marshal w).1 stuck waiting e (p, q, u),
      )
    where
      from_now : (c : ℕ) → c ≤ c
      from_now c = omega arith
