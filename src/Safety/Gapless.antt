-- ===== src/Safety/Gapless.antt =====
-- The sequence numbers of a ledger's events (internal/storage/postgres/store_log.go).
use fincore_ledger.Prelude.{
  str_eq→eq, ◌==◌, ℕ, ◌+◌, ◌≡◌, refl, sym, subst, ByteString, Bool, true, false, Option, List, [],
  ◌∷◌, str_eq, any, leb, if◌then◌else◌, ◌&&◌, arith,
}
use fincore_ledger.Storage.Records.{
  LogEventRecord, VolumeDeltaRecord, Payload, Time, idempotency_key_conflict,
}
use fincore_ledger.Storage.World.{World, Tables, ok, err, Act, select, statement, ◌>>=◌, ◌>>◌}
use fincore_ledger.Storage.Volumes.{insert_volume_delta, add_delta}
use fincore_ledger.Storage.Log.{max_seq, next_ledger_seq, append_log_event, add_event, clashes}
use fincore_ledger.Planner.Events.{Key, Times, append_event}
use fincore_ledger.Planner.Approval.{append_audit}
use fincore_ledger.Planner.Inputs.{Host, BatchIntent}
use fincore_ledger.System.{Command, run}
use fincore_ledger.Safety.Rules.{
  OnOk, Preserves, Upholds, Upholds-Preserves, Upholds-bind, Preserves-mint, Preserves-done,
}
use fincore_ledger.Safety.Hoare.{
  Returns, Returns-bind, Returns-OnOk, OnOk-Returns, select-Returns, OnOk-weaken, OnOk-bind,
  exec-OnOk, statement-Same,
}
use fincore_ledger.Safety.Batching.{Preserves-batch_id}
use fincore_ledger.Safety.Frame.{IsInvariant, Preserves-guarded}
use fincore_ledger.Safety.Sequences.{run-Good}

-- How many events of a ledger the log holds.
unfoldable pub count_events : ByteString → List LogEventRecord → ℕ
count_events ledger_id [] = 0
count_events ledger_id (e ∷ es) =
    let rest = count_events ledger_id es in if str_eq e.ledger_id ledger_id then rest + 1 else rest

-- Newest first, each event of a ledger has the number of its place: 1, 2, 3 and so on.
unfoldable pub is_numbered : ByteString → List LogEventRecord → Bool
unfolding count_events
is_numbered ledger_id [] = true
is_numbered ledger_id (e ∷ es) =
    (if str_eq e.ledger_id ledger_id then e.ledger_seq == count_events ledger_id es + 1 else true)
    && is_numbered ledger_id es

abbrev pub Gapless : Tables → Type 0
Gapless t = (l : ByteString) → is_numbered l t.log_events ≡ true

right_true : (a b : Bool) → a && b ≡ true → b ≡ true
right_true true b h = h
right_true false b h = cc

numbered_step :
    (b c : Bool) (s m n : ℕ)
    → (if b then s == n + 1 else true) && c ≡ true
    → m ≡ n
    → (if b && leb m s then s else m) ≡ (if b then n + 1 else n)
numbered_step b c s m n h p = ground arith

max_seq-count :
    (l : ByteString) (es : List LogEventRecord)
    → is_numbered l es ≡ true
    → max_seq l es ≡ count_events l es
unfolding max_seq count_events is_numbered
max_seq-count l [] h = refl
max_seq-count l (e ∷ es) h =
    numbered_step (str_eq e.ledger_id l) (is_numbered l es) e.ledger_seq (max_seq l es)
      (count_events l es) h (max_seq-count l es (right_true _ _ h))

numbered_next :
    (b c : Bool) (s n : ℕ)
    → (b ≡ true → s ≡ n + 1)
    → c ≡ true
    → (if b then s == n + 1 else true) && c ≡ true
numbered_next true true s n h p = let q = h refl in ground arith
numbered_next false true s n h p = refl
numbered_next b false s n h p = cc

-- An event with the number that the code reads continues the sequence.
pub Gapless-event :
    (r : LogEventRecord) (t : Tables)
    → r.ledger_seq ≡ max_seq r.ledger_id t.log_events + 1
    → Gapless t
    → Gapless (record t { log_events = r ∷ t.log_events })
unfolding is_numbered
Gapless-event r t e g l =
    numbered_next (str_eq r.ledger_id l) (is_numbered l t.log_events) r.ledger_seq
      (count_events l t.log_events)
      (λ h. let p = str_eq→eq r.ledger_id l h in let q = max_seq-count l t.log_events (g l) in cc)
      (g l)

pub appended :
    (r : LogEventRecord) (t u : Tables)
    → add_event r t ≡ ok u
    → u ≡ record t { log_events = r ∷ t.log_events }
unfolding add_event
appended r t u e =
    appended_at (any (clashes r) t.log_events) (record t { log_events = r ∷ t.log_events }) u e
  where
    appended_at :
        (b : Bool) (v u : Tables)
        → (if b then err idempotency_key_conflict else ok v) ≡ ok u
        → u ≡ v
    appended_at true v u e = cc
    appended_at false v u e = let same : v ≡ u = cc in sym same

next_seq-Returns :
    (l : ByteString) (w : World)
    → Returns (λ n t. (n ≡ max_seq l t.log_events + 1) × (t ≡ w.tables)) (next_ledger_seq l w)
unfolding next_ledger_seq
next_seq-Returns l w =
    Returns-bind (λ _ t. t ≡ w.tables) _ statement _ w
      (Returns-OnOk (λ t. t ≡ w.tables) (statement w) (statement-Same w))
      (λ _ u p.
        subst
          (λ s.
            Returns (λ n t. (n ≡ max_seq l t.log_events + 1) × (t ≡ s))
              (select (λ t. max_seq l t.log_events + 1) u))
          p (select-Returns (λ t. max_seq l t.log_events + 1) u))

append_log-OnOk :
    (r : LogEventRecord) (w : World)
    → r.ledger_seq ≡ max_seq r.ledger_id w.tables.log_events + 1
    → Gapless w.tables
    → OnOk Gapless (append_log_event r w)
unfolding append_log_event
append_log-OnOk r w e g =
    OnOk-weaken (λ t. add_event r w.tables ≡ ok t) Gapless _ (exec-OnOk (add_event r) w)
      λ t q. subst Gapless (sym (appended r w.tables t q)) (Gapless-event r w.tables e g)

-- An event that is given the number that was read.
Upholds-next :
    {A : Type 0} (l : ByteString) (r : ℕ → LogEventRecord) (f : ℕ → Act A)
    → ((n : ℕ) → (r n).ledger_id ≡ l)
    → ((n : ℕ) → (r n).ledger_seq ≡ n)
    → ((n : ℕ) → Upholds Gapless (f n))
    → Upholds Gapless (next_ledger_seq l >>= λ n. append_log_event (r n) >> f n)
Upholds-next l r f p q k = record {
  at = λ w g. OnOk-Returns Gapless _ (
      Returns-bind (λ n t. (n ≡ max_seq l t.log_events + 1) × (t ≡ w.tables)) (λ _. Gapless)
        (next_ledger_seq l) _ w (next_seq-Returns l w)
        λ n u h. Returns-OnOk Gapless _ (
          OnOk-bind Gapless Gapless (append_log_event (r n)) _ u
            (append_log-OnOk (r n) u (seq_of n u h.0) (subst Gapless (sym h.1) g))
            (λ _ v. (k n).at v)));
}
  where
    seq_of :
        (n : ℕ) (u : World)
        → n ≡ max_seq l u.tables.log_events + 1
        → (r n).ledger_seq ≡ max_seq (r n).ledger_id u.tables.log_events + 1
    seq_of n u h = let a = p n in let b = q n in cc

Gapless-append :
    (l : ByteString) (n : ℕ) (p : Payload) (k : Key) (t : Times)
    → Upholds Gapless (append_event l n p k t)
unfolding append_event
Gapless-append l n p k t = Upholds-bind _ _ (Upholds-Preserves Preserves-mint) λ e.
    Upholds-bind _ _ (Upholds-Preserves (Preserves-batch_id l))
      λ b. Upholds-next l _ _ (λ _. refl) (λ _. refl) (λ _. Upholds-Preserves (Preserves-done _))

Gapless-audit : (l e b p : ByteString) (t : Time) → Upholds Gapless (append_audit l e b p t)
unfolding append_audit
Gapless-audit l e b p t = record {
  at = λ w g. OnOk-Returns Gapless _ (
      Returns-bind (λ n t. (n ≡ max_seq l t.log_events + 1) × (t ≡ w.tables)) (λ _. Gapless)
        (next_ledger_seq l) _ w (next_seq-Returns l w)
        λ n u h. Returns-OnOk Gapless _ (append_log-OnOk _ u h.0 (subst Gapless (sym h.1) g)));
}

Gapless-volume : (d : VolumeDeltaRecord) → Preserves Gapless (insert_volume_delta d)
unfolding insert_volume_delta add_delta
Gapless-volume d = Preserves-guarded _ _ _ (λ t g. g)

pub Gapless-IsInvariant : IsInvariant Gapless
Gapless-IsInvariant = record {
  ledgers = λ t x g. g;
  keys = λ t x g. g;
  accounts = λ t x g. g;
  transactions = λ t x g. g;
  schemas = λ t x g. g;
  history = λ t x g. g;
  holds = λ t x g. g;
  relationships = λ t x g. g;
  policies = λ t x g. g;
  approvals = λ t x g. g;
  append = Gapless-append;
  audit = Gapless-audit;
  move = λ d e m.
      Upholds-bind _ _ (Upholds-Preserves (Gapless-volume d))
        (λ _. Upholds-Preserves (Gapless-volume e));
}

-- Whatever commands run, and whichever of their calls fail, the events of every ledger stay numbered
-- without a gap: if they are numbered 1, 2, 3 and so on in the order of the log before the commands,
-- they are so after them.
pub run-Gapless :
    (host : Host) (decode : ByteString → Option BatchIntent) (cs : List Command) (w : World)
    → Gapless w.tables
    → Gapless (run host decode cs w).tables
run-Gapless host decode = run-Good Gapless-IsInvariant host decode
