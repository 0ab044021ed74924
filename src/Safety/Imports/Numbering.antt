-- ===== src/Safety/Imports/Numbering.antt =====
-- The numbering of a ledger while its log is imported (internal/api/grpc/service.go, Import).
use fincore_ledger.Prelude.{
  ℕ, ◌+◌, ◌≡◌, ◌⊎◌, inl, inr, refl, sym, subst, ByteString, Bool, true, false, Option, some, List,
  [], ◌∷◌, ◌==◌, not, is_empty, str_eq, str_eq→eq, leb, filter, ◌&&◌, if◌then◌else◌, take, arith,
}
use fincore_ledger.Storage.Records.{Time, LogEventRecord}
use fincore_ledger.Storage.World.{Tables, ok}
use fincore_ledger.Storage.Log.{max_seq, add_event}
use fincore_ledger.Storage.Pages
use fincore_ledger.Api.Transfer.{Expected, LogEvent, lookup_expected, imported_row}
use fincore_ledger.Safety.Gapless.{Gapless, Gapless-event, appended}

-- A ledger's expected number is the next of its log.
abbrev pub Follows : ByteString → Expected → Tables → Type 0
Follows l x t = (x.next_seq ≡ max_seq l t.log_events + 1) × (x.ledger_id ≡ l)

abbrev pub Tracked : List Expected → Tables → Type 0
Tracked xs t =
    Gapless t × ((l : ByteString) (x : Expected) → lookup_expected l xs ≡ some x → Follows l x t)

added_seq :
    (b : Bool) (s m : ℕ)
    → (b ≡ true → s ≡ m + 1)
    → (if b && leb m s then s else m) ≡ (if b then m + 1 else m)
added_seq true s m h = let p = h refl in ground arith
added_seq false s m h = refl

max_seq-next :
    (r : LogEventRecord) (es : List LogEventRecord) (l : ByteString)
    → r.ledger_seq ≡ max_seq r.ledger_id es + 1
    → max_seq l (r ∷ es) ≡ (if str_eq r.ledger_id l then max_seq l es + 1 else max_seq l es)
unfolding max_seq
max_seq-next r es l h =
    added_seq (str_eq r.ledger_id l) r.ledger_seq (max_seq l es)
      (λ b. let p = str_eq→eq r.ledger_id l b in cc)

newest_or_older :
    {A : Type 0} (b : Bool) (y z : A) (o : Option A)
    → (if b then some y else o) ≡ some z
    → ((b ≡ true) × (y ≡ z)) ⊎ ((b ≡ false) × (o ≡ some z))
newest_or_older true y z o e = inl (refl, cc)
newest_or_older false y z o e = inr (refl, e)

Follows-newest :
    (l : ByteString) (y : Expected) (r : LogEventRecord) (t : Tables)
    → r.ledger_seq ≡ max_seq r.ledger_id t.log_events + 1
    → y.ledger_id ≡ r.ledger_id
    → y.next_seq ≡ r.ledger_seq + 1
    → str_eq y.ledger_id l ≡ true
    → Follows l y (record t { log_events = r ∷ t.log_events })
Follows-newest l y r t h i n b =
    let same : y.ledger_id ≡ l = str_eq→eq y.ledger_id l b in
    let mine : str_eq r.ledger_id l ≡ true = cc in
    let top : max_seq l (r ∷ t.log_events)
        ≡ (if true then max_seq l t.log_events + 1 else max_seq l t.log_events) =
      subst
        (λ b.
          max_seq l (r ∷ t.log_events)
          ≡ (if b then max_seq l t.log_events + 1 else max_seq l t.log_events))
        mine (max_seq-next r t.log_events l h) in
    let next : r.ledger_seq ≡ max_seq l t.log_events + 1 = cc in (omega arith, same)

Follows-older :
    (l : ByteString) (z : Expected) (r : LogEventRecord) (t : Tables)
    → r.ledger_seq ≡ max_seq r.ledger_id t.log_events + 1
    → str_eq r.ledger_id l ≡ false
    → Follows l z t
    → Follows l z (record t { log_events = r ∷ t.log_events })
Follows-older l z r t h b (n, i) =
    let top : max_seq l (r ∷ t.log_events)
        ≡ (if false then max_seq l t.log_events + 1 else max_seq l t.log_events) =
      subst
        (λ b.
          max_seq l (r ∷ t.log_events)
          ≡ (if b then max_seq l t.log_events + 1 else max_seq l t.log_events))
        b (max_seq-next r t.log_events l h) in
    (omega arith, i)

Tracked-next :
    (xs : List Expected) (y : Expected) (r : LogEventRecord) (t : Tables)
    → Tracked xs t
    → r.ledger_seq ≡ max_seq r.ledger_id t.log_events + 1
    → y.ledger_id ≡ r.ledger_id
    → y.next_seq ≡ r.ledger_seq + 1
    → Tracked (y ∷ xs) (record t { log_events = r ∷ t.log_events })
unfolding lookup_expected
Tracked-next xs y r t (g, tr) h i n = (
  Gapless-event r t h g,
  λ l z e. elim (newest_or_older (str_eq y.ledger_id l) y z (lookup_expected l xs) e) [
    | inl (b, p) ↦
        subst (λ z. Follows l z (record t { log_events = r ∷ t.log_events })) p
          (Follows-newest l y r t h i n b)
    | inr (b, p) ↦ Follows-older l z r t h (subst (λ k. str_eq k l ≡ false) i b) (tr l z p)
  ],
)

-- No event of the ledger, where a page of one is empty.
row_stays :
    (r : LogEventRecord) (es : List LogEventRecord) (le : LogEventRecord → LogEventRecord → Bool)
    → is_empty (take 1 (take 2 (Pages.insert_row le r es))) ≡ false
unfolding Pages.insert_row
row_stays r [] le = refl
row_stays r (e ∷ es) le = row_stays_at (le r e) r e es le
  where
    row_stays_at :
        (b : Bool) (r e : LogEventRecord) (es : List LogEventRecord)
        (le : LogEventRecord → LogEventRecord → Bool)
        → is_empty (take 1 (take 2 (if b then r ∷ e ∷ es else e ∷ Pages.insert_row le r es)))
          ≡ false
    row_stays_at true r e es le = refl
    row_stays_at false r e es le = refl

no_rows_at :
    (b : Bool) (e : LogEventRecord) (fs : List LogEventRecord)
    (le : LogEventRecord → LogEventRecord → Bool) (s m : ℕ)
    → (is_empty (take 1 (take 2 (Pages.order_by le fs))) ≡ true → m ≡ 0)
    → is_empty (take 1 (take 2 (Pages.order_by le (if b then e ∷ fs else fs)))) ≡ true
    → (if b && leb m s then s else m) ≡ 0
unfolding Pages.order_by
no_rows_at true e fs le s m k h = let p = row_stays e (Pages.order_by le fs) le in cc
no_rows_at false e fs le s m k h = k h

no_rows :
    (l : ByteString) (es : List LogEventRecord)
    → is_empty (take 1 (take 2 (Pages.ordered_log l es))) ≡ true
    → max_seq l es ≡ 0
unfolding Pages.ordered_log Pages.order_by Pages.in_ledger max_seq
no_rows l [] h = refl
no_rows l (e ∷ es) h =
    no_rows_at (str_eq e.ledger_id l) e (filter (Pages.in_ledger l) es) _ e.ledger_seq
      (max_seq l es) (no_rows l es) h

pub empty_page :
    (l : ByteString) (t : Tables) (p : Pages.Page LogEventRecord)
    → p ≡ Pages.log_page l 1 [] t
    → not (is_empty p.items) ≡ false
    → max_seq l t.log_events ≡ 0
unfolding Pages.log_page Pages.query_page Pages.cut_page
empty_page l t p e h =
    no_rows l t.log_events (not_false _ (subst (λ p. not (is_empty p.items) ≡ false) e h))
  where
    not_false : (b : Bool) → not b ≡ false → b ≡ true
    not_false true h = refl
    not_false false h = cc

same_number : (a b : ℕ) → not (a == b) ≡ false → a ≡ b
same_number a b h = ground arith

pub imported-Tracked :
    (xs : List Expected) (e : LogEvent) (x : Expected) (t u : Tables) (system valid : Time)
    → Tracked xs t × Follows e.ledger_id x t
    → not (x.next_seq == e.ledger_seq) ≡ false
    → add_event (imported_row e system valid x.batch_id) t ≡ ok u
    → Tracked (record x { next_seq = x.next_seq + 1 } ∷ xs) u
unfolding imported_row
imported-Tracked xs e x t u system valid (g, (n, i)) b h =
    let row = imported_row e system valid x.batch_id in
    let after : Expected = record x { next_seq = x.next_seq + 1 } in
    let same = same_number x.next_seq e.ledger_seq b in
    let next : e.ledger_seq ≡ max_seq e.ledger_id t.log_events + 1 = cc in
    subst (Tracked (after ∷ xs)) (sym (appended row t u h))
      (Tracked-next xs after row t g next i (omega arith))
