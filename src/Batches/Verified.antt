-- ===== src/Batches/Verified.antt =====
-- The verification of a batch behind its close (internal/log/batch/manager.go).
use fincore_ledger.Prelude.{
  ℕ, ◌≡◌, refl, ap, ◌∙◌, ByteString, ◌||◌, Bool, true, false, Option, none, some, List, [], ◌∷◌,
  any, find?, update_where, length, str_eq_refl,
}
use fincore_ledger.Storage.Records.{BatchRecord, LogEventRecord, Payload, Time, not_found, invalid}
use fincore_ledger.Storage.World.{World, Act, ok, call, gets, modify, done, some_or, ◌>>=◌, ◌>>◌}
use fincore_ledger.Storage.Through.{call_through, bind_ok}
use fincore_ledger.Batches.Merkle.{compute_root, verify, matches_root}
use fincore_ledger.Batches.Roots.{compute_root-total}
use fincore_ledger.Batches.{
  is_batch, list_batch_events, leaves_of, close_with, close_events, close_batch, verify_batch,
}
use fincore_ledger.Batches.Closing.{events_of}

-- What the rewriting of the rows that pass a test does to the first of them.
abbrev Updated : (BatchRecord → Bool) → (BatchRecord → BatchRecord) → List BatchRecord → Type 0
Updated p f bs = (b : BatchRecord) × (find? p (update_where p f bs) ≡ some (f b))

Updated-step :
    (p : BatchRecord → Bool) (f : BatchRecord → BatchRecord) (b : BatchRecord)
    (bs : List BatchRecord) (t : Bool)
    → p b ≡ t
    → p (f b) ≡ p b
    → t || any p bs ≡ true
    → (any p bs ≡ true → Updated p f bs)
    → Updated p f (b ∷ bs)
Updated-step p f b bs true e k h rest = (b, simp (e, k))
Updated-step p f b bs false e k h rest = let (x, q) = rest h in (x, simp (e, q))

find-Updated :
    (p : BatchRecord → Bool) (f : BatchRecord → BatchRecord) (bs : List BatchRecord)
    → ((b : BatchRecord) → p (f b) ≡ p b)
    → any p bs ≡ true
    → Updated p f bs
find-Updated p f [] k h = cc
find-Updated p f (b ∷ bs) k h = Updated-step p f b bs (p b) refl (k b) h (find-Updated p f bs k)

events_through :
    (b : ByteString) (w : World)
    → w.faults ≡ []
    → list_batch_events b w ≡ (ok (events_of b w.tables), w)
unfolding list_batch_events gets
events_through b w e = bind_ok call _ w w tt (call_through w e)

module _ (sha256 : ByteString → ByteString) (format_time : Time → ByteString)
    (marshal : Payload → ByteString) where
  abbrev closed_by : ByteString → ByteString → ℕ → World → World
  closed_by b root n w = record w {
    batches =
        update_where (is_batch b)
          (λ x. record x { closed_at = some w.clock; merkle_root = some root; event_count = n })
          w.batches;
  }

  close_batch-closes :
      (w : World) (b root : ByteString)
      → w.faults ≡ []
      → compute_root sha256 (leaves_of sha256 format_time marshal (events_of b w.tables))
        ≡ some root
      → close_batch sha256 format_time marshal b w
        ≡ (ok tt, closed_by b root (length (events_of b w.tables)) w)
  unfolding close_batch close_events close_with modify
  close_batch-closes w b root q e =
      let close : Option ByteString → Act (Unit {0}) = λ o. elim o [
        | none ↦ done tt
        | some root ↦ close_with sha256 format_time marshal b root (length (events_of b w.tables))
      ] in
      bind_ok (list_batch_events b) _ w w (events_of b w.tables) (events_through b w q)
      ∙ ap (λ o. close o w) e
      ∙ bind_ok call _ w w tt (call_through w q)

  verify_closed :
      (v : World) (b root : ByteString) (x : BatchRecord)
      → v.faults ≡ []
      → find? (is_batch b) v.batches ≡ some x
      → x.merkle_root ≡ some root
      → compute_root sha256 (leaves_of sha256 format_time marshal (events_of b v.tables))
        ≡ some root
      → verify_batch sha256 format_time marshal b v
        ≡ (ok (true, root, length (events_of b v.tables)), v)
  unfolding verify_batch verify matches_root gets some_or done ◌>>=◌
  verify_closed v b root x q f m e =
      bind_ok call _ v v tt (call_through v q)
      ∙ bind_ok (some_or not_found (find? (is_batch b) v.batches)) _ v v x
          (ap (λ o. some_or not_found o v) f)
      ∙ bind_ok (some_or invalid x.merkle_root) _ v v root (ap (λ o. some_or invalid o v) m)
      ∙ bind_ok (list_batch_events b) _ v v (events_of b v.tables) (events_through b v q)
      ∙ ap (λ o. (ok (matches_root sha256 o (some root), root, length (events_of b v.tables)), v)) e
      ∙ ap (λ t. (ok (t, root, length (events_of b v.tables)), v)) (str_eq_refl root)

  -- Where no call fails and a batch that stands in the table has events, its close succeeds, and its
  -- verification behind that gives true, a root, and the number of its events.
  pub close_batch-verify :
      (w : World) (b : ByteString) (e : LogEventRecord) (es : List LogEventRecord)
      → w.faults ≡ []
      → any (is_batch b) w.batches ≡ true
      → events_of b w.tables ≡ e ∷ es
      → (root : ByteString) × (v : World) × ((close_batch sha256 format_time marshal b
              >> verify_batch sha256 format_time marshal b)
            w
          ≡ (ok (true, root, length (e ∷ es)), v))
  unfolding is_batch leaves_of
  close_batch-verify w b e es q h k =
      let (root, r) = compute_root-total sha256 _ (leaves_of sha256 format_time marshal es) in
      let r' = ap (λ es. compute_root sha256 (leaves_of sha256 format_time marshal es)) k ∙ r in
      let n = length (events_of b w.tables) in
      let v = closed_by b root n w in
      let (x, f) = find-Updated (is_batch b) _ w.batches (λ x. refl) h in
      (
        root,
        v,
        bind_ok _ _ w v tt (close_batch-closes w b root q r')
            ∙ verify_closed v b root _ q f refl r'
            ∙ ap (λ es. (ok (true, root, length es), v)) k,
      )
