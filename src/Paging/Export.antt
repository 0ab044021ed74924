-- ===== src/Paging/Export.antt =====
-- The export of a log (internal/api/grpc/service.go, Export) against the log.
use fincore_ledger.Prelude.{
  ℕ, zero, suc, ◌≤◌, ◌<◌, ◌≡◌, refl, sym, ap, ◌∙◌, ByteString, Bool, true, false, List, [], ◌∷◌,
  ◌++◌, is_empty, length, append_nil, append_assoc, if◌then◌else◌, arith,
}
use fincore_ledger.Storage.Records.{LogEventRecord}
use fincore_ledger.Storage.World.{
  World, Tables, Act, Result, ok, err, done, gets, call, attempt, continue, take_fault,
}
use fincore_ledger.Storage.World
use fincore_ledger.Storage.Through.{call_through}
use fincore_ledger.Storage.Pages
use fincore_ledger.Storage.Pages.{Page, ordered_log, log_page, page_limit, past_text, query_page}
use fincore_ledger.Api.Status.{
  answer, Rpc, respond, proceed, ◌>>=◌, reply_of, lift, always_internal,
}
use fincore_ledger.Api.Service.{Server}
use fincore_ledger.Api.Transfer.{export_pages}
use fincore_ledger.Paging.Walk.{walk, walk-skim, Ordered, skim, skim_from}

module _ {A : Type 0} where
  skim_whole : (n k : ℕ) (xs : List A) → length xs ≤ k → skim_from n k xs ≡ xs
  unfolding skim_from
  skim_whole n k [] h = refl
  skim_whole n zero (x ∷ xs) h = elim (nothing_left (length xs) h) [ ]
    where
      nothing_left : (m : ℕ) → suc m ≤ 0 → ⊥
      nothing_left m h = omega arith
  skim_whole n (suc k) (x ∷ xs) h = ap (λ ys. x ∷ ys) (skim_whole n k xs (omega arith))

  skim_within : (n k : ℕ) (xs : List A) → length (skim_from n k xs) ≤ length xs
  unfolding skim_from
  skim_within n k [] = omega arith
  skim_within n (suc k) (x ∷ xs) = let h = skim_within n k xs in omega arith
  skim_within n zero (x ∷ xs) = let h = skim_within n n xs in omega arith

  skim_loses : (n k : ℕ) (xs : List A) → k < length xs → length (skim_from n k xs) < length xs
  unfolding skim_from
  skim_loses n k [] h = omega arith
  skim_loses n (suc k) (x ∷ xs) h = let p = skim_loses n k xs (omega arith) in omega arith
  skim_loses n zero (x ∷ xs) h = let p = skim_within n n xs in omega arith

pub read_through :
    {A : Type 0} (f : Tables → A) (w : World)
    → w.faults ≡ []
    → lift always_internal (Pages.read f) w ≡ (ok (answer (f w.tables)), w)
unfolding lift attempt World.◌>>=◌ Pages.read gets reply_of done
read_through f w e =
    ap
      (λ o.
        let (r, u) = continue o.0 (λ _. gets (λ w. f w.tables)) o.1 in reply_of always_internal r u)
      (call_through w e)

pub bind_through :
    {A B : Type 0} (m : Rpc A) (f : A → Rpc B) (w : World) (a : A)
    → m w ≡ (ok (answer a), w)
    → (m >>= f) w ≡ f a w
unfolding ◌>>=◌ World.◌>>=◌ proceed
bind_through m f w a e = ap (λ o. continue o.0 (proceed f) o.1) e

abbrev pub rows_of : ByteString → World → List LogEventRecord
rows_of l w = ordered_log l w.tables.log_events

last_or_more :
    (b : Bool) (sent items more : List LogEventRecord) (m : Rpc (List LogEventRecord)) (w : World)
    → m w ≡ (ok (answer ((sent ++ items) ++ more)), w)
    → (if b then respond (sent ++ items) else m) w
      ≡ (ok (answer (sent ++ (if b then items else items ++ more))), w)
unfolding done
last_or_more true sent items more m w e = refl
last_or_more false sent items more m w e =
    e ∙ ap (λ es. (ok (answer es), w)) (append_assoc sent items more)

module _ (s : Server) (l : ByteString) (w : World) (quiet : w.faults ≡ []) where
  export_pages-walk :
      (fuel : ℕ) (token : ByteString) (sent : List LogEventRecord)
      → export_pages s fuel l token sent w
        ≡ (ok (answer (sent ++ walk (λ e. e.event_id) fuel 1000 token (rows_of l w))), w)
  unfolding export_pages walk done log_page Pages.list_log_events page_limit
  export_pages-walk zero token sent = ap (λ es. (ok (answer es), w)) (sym (append_nil sent))
  export_pages-walk (suc fuel) token sent =
      let p = log_page l 1000 token w.tables in
      bind_through _ _ w p (read_through (log_page l 1000 token) w quiet)
      ∙ last_or_more (is_empty p.next_token) sent p.items _ _ w
          (export_pages-walk fuel p.next_token (sent ++ p.items))

  -- Where no call fails and the identifiers of a ledger's events increase with their sequence
  -- numbers, and fuel is given for more pages than the ledger has events, an export sends the events
  -- of the ledger in order without those at the places 1001, 2002, 3003 and so on.
  pub export_pages-skim :
      (fuel : ℕ)
      → Ordered (λ e. e.event_id) (rows_of l w)
      → length (rows_of l w) < fuel
      → export_pages s fuel l [] [] w ≡ (ok (answer (skim 1000 (rows_of l w))), w)
  export_pages-skim fuel o h =
      export_pages-walk fuel [] []
      ∙ ap (λ es. (ok (answer es), w)) (walk-skim (λ e. e.event_id) fuel 1000 (rows_of l w) o h)

  -- Under the same conditions, an export of a ledger of at most 1000 events sends all of them.
  pub export_pages_complete :
      (fuel : ℕ)
      → Ordered (λ e. e.event_id) (rows_of l w)
      → length (rows_of l w) < fuel
      → length (rows_of l w) ≤ 1000
      → export_pages s fuel l [] [] w ≡ (ok (answer (rows_of l w)), w)
  export_pages_complete fuel o h k =
      export_pages-skim fuel o h
      ∙ ap (λ es. (ok (answer es), w)) (skim_whole 1000 1000 (rows_of l w) k)

  -- Under the same conditions, an export of a ledger of more than 1000 events succeeds and sends
  -- fewer events than the ledger has.
  pub export_pages-loses :
      (fuel : ℕ)
      → Ordered (λ e. e.event_id) (rows_of l w)
      → length (rows_of l w) < fuel
      → 1000 < length (rows_of l w)
      → (es : List LogEventRecord) × ((export_pages s fuel l [] [] w ≡ (ok (answer es), w))
          × (length es < length (rows_of l w)))
  export_pages-loses fuel o h k =
      (skim 1000 (rows_of l w), (export_pages-skim fuel o h, skim_loses 1000 1000 (rows_of l w) k))
