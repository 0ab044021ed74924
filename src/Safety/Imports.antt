-- ===== src/Safety/Imports.antt =====
-- The import of events (internal/api/grpc/service.go, Import) against the sequence numbers of the
-- log.
pub mod Numbering
use fincore_ledger.Prelude.{
  ℕ, ◌+◌, ◌≡◌, ◌⊎◌, inl, inr, refl, sym, subst, ByteString, Bool, true, false, Option, none, some,
  List, [], ◌∷◌, ◌==◌, not, is_empty, str_eq, str_eq→eq, leb, filter, ◌&&◌, if◌then◌else◌, take,
  arith,
}
use fincore_ledger.Storage.Records.{Time, LogEventRecord}
use fincore_ledger.Storage.World.{World, Tables, ok, done}
use fincore_ledger.Storage.Governance.{exec_alone}
use fincore_ledger.Storage.Log.{max_seq, add_event}
use fincore_ledger.Storage.Pages
use fincore_ledger.Api.Status.{Rpc, refuse_if, lift}
use fincore_ledger.Api.Auth.{Context}
use fincore_ledger.Api.Service.{Server}
use fincore_ledger.Api.Transfer.{
  Expected, LogEvent, lookup_expected, start_ledger, expected_or_start, import_event, import_all,
  import_log, imported_row, import_error,
}
use fincore_ledger.Safety.Rules.{Preserves, Preserves-now}
use fincore_ledger.Safety.Batching.{Preserves-batch_id}
use fincore_ledger.Safety.Gapless.{Gapless, Gapless-event, appended}
use fincore_ledger.Safety.Rpc.{Preserves-lift, Preserves-present, Preserves-refuse_if}
use fincore_ledger.Safety.Handlers.{Preserves-evaluate, Preserves-extract, Preserves-require}
use fincore_ledger.Safety.Serving.{Preserves-get_ledger}
use fincore_ledger.Safety.Yields.{
  Yields, Yields-then, Yields-kept, Yields-Good, Yields-refuse_if, Yields-read, Yields-weaken,
  Yields-alone,
}
use fincore_ledger.Safety.Imports.Numbering.{Follows, Tracked, empty_page, imported-Tracked}

module _ (s : Server) (principal : ByteString) (xs : List Expected) where
  -- The first event of a ledger finds none of its events in the log.
  start_ledger-Follows :
      (l : ByteString) (w : World)
      → Tracked xs w.tables
      → Yields (λ x t. Tracked xs t × Follows l x t) (Tracked xs) (start_ledger s principal l w)
  unfolding start_ledger Pages.list_log_events Pages.page_limit done
  start_ledger-Follows l w g =
      let R : Expected → Tables → Type 0 = λ x t. Tracked xs t × Follows l x t in
      Yields-then (Tracked xs) (λ _. Tracked xs) R _ _ w
        (Yields-kept (Tracked xs) _ w (Preserves-lift _ _ (Preserves-evaluate _ _)) g)
        λ _ w1 g1.
          Yields-then (Tracked xs) (λ _. Tracked xs) R _ _ w1
            (Yields-kept (Tracked xs) _ w1 (Preserves-lift _ _ (Preserves-get_ledger _)) g1)
            λ rec w2 g2.
              Yields-then (Tracked xs) (λ _. Tracked xs) R _ _ w2
                (Yields-kept (Tracked xs) _ w2 (Preserves-refuse_if _ _) g2)
                λ _ w3 g3.
                  Yields-then (Tracked xs) (λ p t. Tracked xs t × (p ≡ Pages.log_page l 1 [] t)) R _
                    _ w3 (Yields-read (Tracked xs) (Pages.log_page l 1 []) w3 g3)
                    λ p w4 h4.
                      Yields-then (Tracked xs) (λ _ t. Tracked xs t × (max_seq l t.log_events ≡ 0))
                        R _ _ w4
                        (Yields-weaken
                          (λ _ t.
                            (Tracked xs t × (p ≡ Pages.log_page l 1 [] t))
                            × (not (is_empty p.items) ≡ false))
                          (λ _ t. Tracked xs t × (max_seq l t.log_events ≡ 0))
                          (λ t. Tracked xs t × (p ≡ Pages.log_page l 1 [] t)) (Tracked xs)
                          (refuse_if _ _ w4) (Yields-refuse_if _ _ _ w4 h4)
                          (λ _ t h. (h.0.0, empty_page l t p h.0.1 h.1)) (λ t h. h.0))
                        λ _ w5 g5.
                          Yields-then (Tracked xs)
                            (λ _ t. Tracked xs t × (max_seq l t.log_events ≡ 0)) R _ _ w5
                            (Yields-weaken (λ _ t. Tracked xs t × (max_seq l t.log_events ≡ 0))
                              (λ _ t. Tracked xs t × (max_seq l t.log_events ≡ 0))
                              (λ t. Tracked xs t × (max_seq l t.log_events ≡ 0)) (Tracked xs)
                              (lift _ _ w5)
                              (Yields-kept _ _ w5 (Preserves-lift _ _ (Preserves-batch_id l)) g5)
                              (λ _ t h. h) (λ t h. h.0))
                            λ b w6 g6. let e = g6.1 in (g6.0, (omega arith, refl))

  expected-Follows :
      (l : ByteString) (o : Option Expected) (w : World)
      → lookup_expected l xs ≡ o
      → Tracked xs w.tables
      → Yields
          (λ x t. Tracked xs t × Follows l x t)
          (Tracked xs)
          (expected_or_start s principal l o w)
  unfolding expected_or_start done
  expected-Follows l none w e g = start_ledger-Follows l w g
  expected-Follows l (some x) w e g = (g, g.1 l x e)

  import_event-Tracked :
      (e : LogEvent) (x : Expected) (w : World)
      → Tracked xs w.tables
      → Follows e.ledger_id x w.tables
      → Yields (λ y t. Tracked (y ∷ xs) t) Gapless (import_event e x w)
  unfolding import_event done
  import_event-Tracked e x w g f =
      let P : Tables → Type 0 = λ t. Tracked xs t × Follows e.ledger_id x t in
      let R : Expected → Tables → Type 0 = λ y t. Tracked (y ∷ xs) t in
      let row = λ (system valid : Time). imported_row e system valid x.batch_id in
      let after : Expected = record x { next_seq = x.next_seq + 1 } in
      Yields-weaken R R P Gapless _
        (Yields-then P (λ _. P) R _ _ w (Yields-kept P _ w (Preserves-present _ _) (g, f))
          λ system w1 g1.
            Yields-then P (λ _. P) R _ _ w1 (Yields-kept P _ w1 (Preserves-present _ _) g1)
              λ valid w2 g2.
                Yields-then P (λ _. P) R _ _ w2
                  (Yields-kept P _ w2 (Preserves-lift _ _ Preserves-now) g2)
                  λ t w3 g3.
                    Yields-then P (λ _. P) R _ _ w3
                      (Yields-kept P _ w3 (Preserves-refuse_if _ _) g3)
                      λ _ w4 g4.
                        Yields-then P (λ _ t. P t × (not (x.next_seq == e.ledger_seq) ≡ false)) R _
                          _ w4 (Yields-refuse_if P _ _ w4 g4)
                          λ _ w5 g5.
                            Yields-then P (λ _. R after) R _ _ w5
                              (Yields-weaken (λ _ t. add_event (row system valid) w5.tables ≡ ok t)
                                (λ _. R after) (λ t. t ≡ w5.tables) P
                                (lift import_error (exec_alone (add_event (row system valid))) w5)
                                (Yields-alone import_error (add_event (row system valid)) w5)
                                (λ _ t h.
                                  imported-Tracked xs e x w5.tables t system valid g5.0 g5.1 h)
                                (λ t h. subst P (sym h) g5.0))
                              λ _ w6 g6. g6)
        (λ _ t h. h) (λ t h. h.0.0)

Tracked-kept :
    {A : Type 0} (xs : List Expected) (m : Rpc A) (w : World)
    → Preserves (Tracked xs) m
    → Tracked xs w.tables
    → Yields (λ _. Tracked xs) Gapless (m w)
Tracked-kept xs m w p g =
    Yields-weaken (λ _. Tracked xs) (λ _. Tracked xs) (Tracked xs) Gapless (m w)
      (Yields-kept (Tracked xs) m w p g) (λ _ t h. h) (λ t h. h.0)

module _ (s : Server) (principal : ByteString) where
  import_all-Gapless :
      (es : List LogEvent) (xs : List Expected) (n : ℕ) (w : World)
      → Tracked xs w.tables
      → Yields (λ _. Gapless) Gapless (import_all s principal xs n es w)
  unfolding import_all done
  import_all-Gapless [] xs n w g = g.0
  import_all-Gapless (e ∷ es) xs n w g =
      let R : ℕ → Tables → Type 0 = λ _. Gapless in
      let P : Expected → Tables → Type 0 = λ x t. Tracked xs t × Follows e.ledger_id x t in
      let found = lookup_expected e.ledger_id xs in
      Yields-then Gapless (λ _. Tracked xs) R _ _ w
        (Tracked-kept xs _ w (Preserves-refuse_if _ _) g)
        λ _ w1 g1.
          Yields-then Gapless (λ _. Tracked xs) R _ _ w1
            (Tracked-kept xs _ w1 (Preserves-refuse_if _ _) g1)
            λ _ w2 g2.
              Yields-then Gapless P R _ _ w2
                (Yields-weaken P P (Tracked xs) Gapless
                  (expected_or_start s principal e.ledger_id found w2)
                  (expected-Follows s principal xs e.ledger_id found w2 refl g2) (λ _ t h. h)
                  (λ t h. h.0))
                λ x w3 g3.
                  Yields-then Gapless (λ y. Tracked (y ∷ xs)) R _ _ w3
                    (import_event-Tracked s principal xs e x w3 g3.0 g3.1)
                    λ y w4. import_all-Gapless es (y ∷ xs) (n + 1) w4

pub Gapless-import :
    (s : Server) (ctx : Context) (es : List LogEvent) → Preserves Gapless (import_log s ctx es)
unfolding import_log lookup_expected
Gapless-import s ctx es = record {
  at = λ w g. Yields-Good Gapless _ (
      Yields-then Gapless (λ _. Gapless) (λ _. Gapless) _ _ w
        (Yields-kept Gapless _ w (Preserves-extract ctx) g)
        λ p w1 g1.
          Yields-then Gapless (λ _. Gapless) (λ _. Gapless) _ _ w1
            (Yields-kept Gapless _ w1 (Preserves-require s p) g1)
            λ _ w2 g2. import_all-Gapless s p es [] 0 w2 (g2, λ l x h. cc));
}
