-- ===== src/Paging/Replay.antt =====
-- The replay of a subscription (internal/subscriptions/manager.go, Subscribe) against the log.
use fincore_ledger.Prelude.{
  ℕ, zero, suc, ◌+◌, ◌≤◌, ◌<◌, ◌≡◌, refl, sym, ap, subst, ◌∙◌, ByteString, Bool, true, false, List,
  [], ◌∷◌, ◌++◌, is_empty, length, filter, ltb, ltb→lt, length-append, if◌then◌else◌, arith,
}
use fincore_ledger.Storage.Records.{LogEventRecord}
use fincore_ledger.Storage.World.{World, Tables, Act, Result, ok, err, done, gets, call, continue}
use fincore_ledger.Storage.World
use fincore_ledger.Storage.Pages
use fincore_ledger.Storage.Pages.{log_page, page_limit}
use fincore_ledger.Subscriptions.{
  Progress, Replay, goes_on, too_many, waits, note, send, should_include, replay_one, replay_all,
  replay_pages, replay_from, at_start, max_replay_events,
}
use fincore_ledger.Paging.Walk.{walk, walk-behind, Ordered, Ordered-middle, skim}
use fincore_ledger.Storage.Through.{call_through}
use fincore_ledger.Paging.Export.{rows_of}

replay_waits : (types : List ℕ) (es : List LogEventRecord) → replay_all types es waits ≡ waits
unfolding replay_all
replay_waits types [] = refl
replay_waits types (e ∷ es) = refl

replay_many : (types : List ℕ) (es : List LogEventRecord) → replay_all types es too_many ≡ too_many
unfolding replay_all
replay_many types [] = refl
replay_many types (e ∷ es) = refl

-- The events of a subscription's types.
abbrev pub included : List ℕ → List LogEventRecord → List LogEventRecord
included types es = filter (λ e. should_include e.event_type types) es

one_by_one :
    (many inc room : Bool) (p q : Progress) (types : List ℕ) (es : List LogEventRecord)
    → many ≡ false
    → replay_all types es
        (if many then too_many else if inc then (if room then goes_on q else waits) else goes_on p)
      ≡ (if inc
          then (if room then replay_all types es (goes_on q) else waits)
          else replay_all types es (goes_on p))
unfolding replay_all
one_by_one true inc room p q types es h = cc
one_by_one false true true p q types es h = refl
one_by_one false true false p q types es h = replay_waits types es
one_by_one false false room p q types es h = refl

waits_step :
    (inc room : Bool) (r s : Replay) (c n : ℕ)
    → room ≡ ltb c 100
    → c ≤ 100
    → 100 < c + (if inc then n + 1 else n)
    → (inc ≡ true → room ≡ true → 100 < (c + 1) + n → r ≡ waits)
    → (inc ≡ false → 100 < c + n → s ≡ waits)
    → (if inc then (if room then r else waits) else s) ≡ waits
waits_step true true r s c n e h k p q = p refl refl (omega arith)
waits_step true false r s c n e h k p q = refl
waits_step false room r s c n e h k p q = q refl k

length_included :
    (b : Bool) (e : LogEventRecord) (es : List LogEventRecord)
    → length (if b then e ∷ es else es) ≡ (if b then length es + 1 else length es)
length_included true e es = omega arith
length_included false e es = refl

not_many : (r n : ℕ) → r + suc n ≤ 100000 → ltb 100000 (r + 1) ≡ false
not_many r n h = ground arith

-- Where no more events are replayed than the bound of 100000 lets through, nothing is read from the
-- channel, and more events of the subscription's types are replayed than it has room for, the replay
-- comes to wait for room.
pub replay_all-waits :
    (types : List ℕ) (es : List LogEventRecord) (p : Progress)
    → p.replayed + length es ≤ 100000
    → length p.channel ≤ 100
    → 100 < length p.channel + length (included types es)
    → replay_all types es (goes_on p) ≡ waits
unfolding replay_all replay_one send note
replay_all-waits types [] p b c h = elim (too_full (length p.channel) c h) [ ]
  where
    too_full : (n : ℕ) → n ≤ 100 → 100 < n + 0 → ⊥
    too_full n c h = omega arith
replay_all-waits types (e ∷ es) p b c h =
    let inc = should_include e.event_type types in
    let next : Progress = note e p in
    let sent : Progress = record next { channel = p.channel ++ (e ∷ []) } in
    one_by_one (ltb max_replay_events (p.replayed + 1)) inc (ltb (length p.channel) 100) next sent
      types es (not_many p.replayed (length es) b)
    ∙ waits_step inc (ltb (length p.channel) 100) (replay_all types es (goes_on sent))
        (replay_all types es (goes_on next)) (length p.channel) (length (included types es)) refl c
        (subst (λ n. 100 < length p.channel + n) (length_included inc e (included types es)) h)
        (λ i r k.
          let grown : length (p.channel ++ (e ∷ [])) ≡ length p.channel + 1 =
            length-append p.channel (e ∷ []) in
          let free : length p.channel < 100 = ltb→lt _ _ r in
          replay_all-waits types es sent (omega arith) (omega arith) (omega arith))
        (λ i k. replay_all-waits types es next (omega arith) c k)

-- What a list of events in two parts does.
replay-append :
    (types : List ℕ) (es fs : List LogEventRecord) (r : Replay)
    → replay_all types (es ++ fs) r ≡ replay_all types fs (replay_all types es r)
unfolding replay_all
replay-append types [] fs r = refl
replay-append types (e ∷ es) fs (goes_on p) = replay-append types es fs (replay_one types e p)
replay-append types (e ∷ es) fs too_many = sym (replay_many types fs)
replay-append types (e ∷ es) fs waits = sym (replay_waits types fs)

read_page :
    {A : Type 0} (f : Tables → A) (w : World)
    → w.faults ≡ []
    → Pages.read f w ≡ (ok (f w.tables), w)
unfolding World.◌>>=◌ Pages.read gets
read_page f w e = ap (λ o. continue o.0 (λ _. gets (λ w. f w.tables)) o.1) (call_through w e)

then_through :
    {A B : Type 0} (m : Act A) (f : A → Act B) (w : World) (a : A)
    → m w ≡ (ok a, w)
    → World.◌>>=◌ m f w ≡ f a w
unfolding World.◌>>=◌
then_through m f w a e = ap (λ o. continue o.0 f o.1) e

last_or_next :
    (b : Bool) (types : List ℕ) (items more : List LogEventRecord) (r : Replay) (m : Act Replay)
    (w : World)
    → m w ≡ (ok (replay_all types more (replay_all types items r)), w)
    → (if b then done (replay_all types items r) else m) w
      ≡ (ok (replay_all types (if b then items else items ++ more) r), w)
unfolding done
last_or_next true types items more r m w e = refl
last_or_next false types items more r m w e =
    e ∙ ap (λ r. (ok r, w)) (sym (replay-append types items more r))

abbrev pub replayed : World → List ℕ → List LogEventRecord → Result Replay × World
replayed w types xs = (ok (replay_all types xs (goes_on at_start)), w)

taken_last : (b : Bool) (m n : Act Replay) (w : World) → b ≡ false → (if b then m else n) w ≡ n w
taken_last true m n w e = cc
taken_last false m n w e = refl

module _ (l : ByteString) (types : List ℕ) (w : World) (quiet : w.faults ≡ []) where
  replay_pages-walk :
      (fuel : ℕ) (token : ByteString) (r : Replay)
      → replay_pages fuel l types token r w
        ≡ (ok (replay_all types (walk (λ e. e.event_id) fuel 100 token (rows_of l w)) r), w)
  unfolding replay_pages walk replay_all done log_page Pages.list_log_events page_limit
  replay_pages-walk zero token r = refl
  replay_pages-walk (suc fuel) token (goes_on p) =
      let page = log_page l 100 token w.tables in
      then_through _ _ w page (read_page (log_page l 100 token) w quiet)
      ∙ last_or_next (is_empty page.next_token) types page.items _ (goes_on p) _ w
          (replay_pages-walk fuel page.next_token (replay_all types page.items (goes_on p)))
  replay_pages-walk (suc fuel) token too_many = ap (λ r. (ok r, w)) (sym (replay_many types _))
  replay_pages-walk (suc fuel) token waits = ap (λ r. (ok r, w)) (sym (replay_waits types _))

  -- Where no call fails and identifiers increase with the sequence numbers, a replay behind an event
  -- goes through the later events of the ledger without those at the places 101, 202, 303 and so on
  -- behind it.
  pub replay_from-skim :
      (fuel : ℕ) (pre : List LogEventRecord) (e : LogEventRecord) (ys : List LogEventRecord)
      → rows_of l w ≡ pre ++ (e ∷ ys)
      → Ordered (λ e. e.event_id) (pre ++ (e ∷ ys))
      → length ys < fuel
      → replay_from fuel l types e.event_id w
        ≡ (ok (replay_all types (skim 100 ys) (goes_on at_start)), w)
  unfolding replay_from
  replay_from-skim fuel pre e ys split o h =
      let key = λ (e : LogEventRecord). e.event_id in
      taken_last (is_empty e.event_id) _ _ w (Ordered-middle key pre e ys o)
      ∙ replay_pages-walk fuel e.event_id (goes_on at_start)
      ∙ ap (λ xs. replayed w types (walk key fuel 100 e.event_id xs)) split
      ∙ ap (replayed w types) (walk-behind key fuel 100 pre e ys o h)

  -- Under the same conditions, where those events are not too many to be replayed and more than 100
  -- of them have the types of the subscription, the replay waits for room in a channel that nobody
  -- reads.
  pub replay_from-waits :
      (fuel : ℕ) (pre : List LogEventRecord) (e : LogEventRecord) (ys : List LogEventRecord)
      → rows_of l w ≡ pre ++ (e ∷ ys)
      → Ordered (λ e. e.event_id) (pre ++ (e ∷ ys))
      → length ys < fuel
      → length (skim 100 ys) ≤ 100000
      → 100 < length (included types (skim 100 ys))
      → replay_from fuel l types e.event_id w ≡ (ok waits, w)
  replay_from-waits fuel pre e ys split o h few full =
      replay_from-skim fuel pre e ys split o h
      ∙ ap (λ r. (ok r, w))
          (replay_all-waits types (skim 100 ys) at_start (omega arith) (omega arith) (omega arith))
