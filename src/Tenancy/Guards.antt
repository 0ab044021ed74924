-- ===== src/Tenancy/Guards.antt =====
-- Requests that the services refuse, and the guards that refuse them (internal/api/grpc/service.go,
-- internal/api/grpc/auth/auth.go).
use fincore_ledger.Prelude.{
  ◌≡◌, ◌⊎◌, inl, inr, refl, sym, ap, subst, ◌∙◌, ByteString, Bool, true, false, Option, none, some,
  [], ◌∷◌, not,
}
use fincore_ledger.Storage.World.{World, Result, ok, done, continue}
use fincore_ledger.Storage.World
use fincore_ledger.Api.Status.{answer, status, Rpc, Code, proceed, ◌>>=◌, refuse_if, present}
use fincore_ledger.Api.Auth.{Context, Identity, can_access_ledger}
use fincore_ledger.Api.Service.{Server}
use fincore_ledger.Api.Service
use fincore_ledger.Api.Queries
use fincore_ledger.Api.Server.{Request, handle, outcome, told}
use fincore_ledger.Api.Wire.{Intent}

abbrev pub Refuses : {A : Type 0} → Rpc A → World → Type 0
Refuses m w = (c : Code) × (m w ≡ (ok (status c), w))

-- A guard refuses or lets through, and leaves the state alone.
abbrev pub Guards : {A : Type 0} → Rpc A → World → Type 0
Guards {A} m w = Refuses m w ⊎ ((a : A) × (m w ≡ (ok (answer a), w)))

module _ {A B : Type 0} (m : Rpc A) (f : A → Rpc B) (w : World) where
  pub Refuses-then : Refuses m w → Refuses (m >>= f) w
  unfolding ◌>>=◌ World.◌>>=◌ proceed done
  Refuses-then (c, e) = (c, ap (λ o. continue o.0 (proceed f) o.1) e)

  pub Refuses-given : (a : A) → m w ≡ (ok (answer a), w) → Refuses (f a) w → Refuses (m >>= f) w
  unfolding ◌>>=◌ World.◌>>=◌ proceed done
  Refuses-given a e (c, e') = (c, ap (λ o. continue o.0 (proceed f) o.1) e ∙ e')

  Refuses-past : Guards m w → ((a : A) → Refuses (f a) w) → Refuses (m >>= f) w
  Refuses-past (inl r) k = Refuses-then r
  Refuses-past (inr (a, e)) k = Refuses-given a e (k a)

Refuses-told : {A : Type 0} (m : Rpc A) (w : World) → Refuses m w → Refuses (told m) w
unfolding World.◌>>=◌ done outcome
Refuses-told m w (c, e) = (c, ap (λ o. continue o.0 (λ r. done (outcome r)) o.1) e)

Guards-refuse_if : (b : Bool) (c : Code) (w : World) → Guards (refuse_if b c) w
unfolding refuse_if done
Guards-refuse_if true c w = inl (c, refl)
Guards-refuse_if false c w = inr (tt, refl)

Guards-named : (p : ByteString) (w : World) → Guards (Service.named_principal p) w
unfolding Service.named_principal done
Guards-named [] w = inl (Code.unauthenticated, refl)
Guards-named (c ∷ p) w = inr (c ∷ p, refl)

Guards-principal_of : (p : Option ByteString) (w : World) → Guards (Service.principal_of p) w
unfolding Service.principal_of done
Guards-principal_of none w = inl (Code.unauthenticated, refl)
Guards-principal_of (some p) w = Guards-named p w

Guards-extract : (ctx : Context) (w : World) → Guards (Service.extract_principal ctx) w
unfolding Service.extract_principal
Guards-extract ctx w = Guards-principal_of ctx.principal w

-- The ledger that a request names; the events of an import name theirs each.
unfoldable pub ledger_of : Request → Option ByteString
ledger_of (Request.create_ledger i b m) = some i
ledger_of (Request.seal_ledger i) = some i
ledger_of (Request.get_ledger i) = some i
ledger_of (Request.list_ledgers n t) = none
ledger_of (Request.submit none) = none
ledger_of (Request.submit (some i)) = some i.header.ledger_id
ledger_of (Request.submit_for_approval l p r n) = some l
ledger_of (Request.approve_intent l i x) = some l
ledger_of (Request.get_transaction l i) = some l
ledger_of (Request.get_account l i) = some l
ledger_of (Request.get_hold l i) = some l
ledger_of (Request.get_schema l i) = some l
ledger_of (Request.get_log_event l i) = some l
ledger_of (Request.list_transactions l n t) = some l
ledger_of (Request.list_accounts l n t) = some l
ledger_of (Request.list_log_events l n t) = some l
ledger_of (Request.list_pending_approvals l n t) = some l
ledger_of (Request.list_holds l a n t) = some l
ledger_of (Request.get_balance l a x v y h) = some l
ledger_of (Request.verify_batch b) = none
ledger_of (Request.export_log n l) = some l
ledger_of (Request.import_log es) = none

-- Export looks at the principal, and not at the ledgers of its token.
unfoldable pub is_export : Request → Bool
is_export (Request.export_log n l) = true
is_export r = false

module _ (ctx : Context) (l : ByteString) (w : World)
    (closed : Refuses (Service.authorize_ledger ctx l) w) where
  named : (x : ByteString) → some x ≡ some l → x ≡ l
  named x e = cc

  closed_at : (x : ByteString) → some x ≡ some l → Refuses (Service.authorize_ledger ctx x) w
  closed_at x e = subst (λ l. Refuses (Service.authorize_ledger ctx l) w) (sym (named x e)) closed

  submit-Refuses :
      (s : Server) (i : Intent) → i.header.ledger_id ≡ l → Refuses (Service.submit s ctx (some i)) w
  unfolding Service.submit Service.submit_intent present done
  submit-Refuses s i e = Refuses-given _ _ w i refl (
      Refuses-past _ _ w (Guards-refuse_if _ _ w) λ _.
        Refuses-past _ _ w (Guards-extract ctx w) λ p.
          Refuses-then _ _ w
            (subst (λ l. Refuses (Service.authorize_ledger ctx l) w) (sym e) closed))

  pub handle-Refuses :
      (s : Server) (r : Request)
      → ledger_of r ≡ some l
      → is_export r ≡ false
      → Refuses (handle s ctx r) w
  unfolding handle ledger_of is_export Service.create_ledger Service.seal_ledger
      Service.submit_for_approval Service.approve_intent Queries.get_ledger_rpc
      Queries.get_transaction_rpc Queries.list_transactions_rpc Queries.get_account_rpc
      Queries.list_accounts_rpc Queries.get_schema_rpc Queries.list_log_events_rpc
      Queries.get_log_event_rpc Queries.list_pending_approvals_rpc Queries.get_hold_rpc
      Queries.list_holds_rpc Queries.get_balance_rpc
  handle-Refuses s (Request.create_ledger i b m) e k =
      Refuses-told _ w (Refuses-then _ _ w (closed_at _ e))
  handle-Refuses s (Request.seal_ledger i) e k =
      Refuses-told _ w (Refuses-then _ _ w (closed_at _ e))
  handle-Refuses s (Request.get_ledger i) e k =
      Refuses-told _ w (Refuses-then _ _ w (closed_at _ e))
  handle-Refuses s (Request.get_transaction x i) e k =
      Refuses-told _ w (Refuses-then _ _ w (closed_at _ e))
  handle-Refuses s (Request.get_account x i) e k =
      Refuses-told _ w (Refuses-then _ _ w (closed_at _ e))
  handle-Refuses s (Request.get_hold x i) e k =
      Refuses-told _ w (Refuses-then _ _ w (closed_at _ e))
  handle-Refuses s (Request.get_schema x i) e k =
      Refuses-told _ w (Refuses-then _ _ w (closed_at _ e))
  handle-Refuses s (Request.get_log_event x i) e k =
      Refuses-told _ w (Refuses-then _ _ w (closed_at _ e))
  handle-Refuses s (Request.list_transactions x n t) e k =
      Refuses-told _ w (Refuses-then _ _ w (closed_at _ e))
  handle-Refuses s (Request.list_accounts x n t) e k =
      Refuses-told _ w (Refuses-then _ _ w (closed_at _ e))
  handle-Refuses s (Request.list_log_events x n t) e k =
      Refuses-told _ w (Refuses-then _ _ w (closed_at _ e))
  handle-Refuses s (Request.list_holds x a n t) e k =
      Refuses-told _ w (Refuses-then _ _ w (closed_at _ e))
  handle-Refuses s (Request.submit none) e k = cc
  handle-Refuses s (Request.submit (some i)) e k = Refuses-told _ w (submit-Refuses s i (named _ e))
  handle-Refuses s (Request.submit_for_approval x p r n) e k = Refuses-told _ w (
      Refuses-past _ _ w (Guards-refuse_if _ _ w) λ _.
        Refuses-past _ _ w (Guards-refuse_if _ _ w) λ _.
          Refuses-past _ _ w (Guards-refuse_if _ _ w)
            λ _. Refuses-past _ _ w (Guards-extract ctx w) λ _. Refuses-then _ _ w (closed_at _ e))
  handle-Refuses s (Request.approve_intent x i y) e k = Refuses-told _ w (
      Refuses-past _ _ w (Guards-refuse_if _ _ w) λ _.
        Refuses-past _ _ w (Guards-refuse_if _ _ w)
          λ _. Refuses-past _ _ w (Guards-extract ctx w) λ _. Refuses-then _ _ w (closed_at _ e))
  handle-Refuses s (Request.list_pending_approvals x n t) e k =
      Refuses-told _ w
        (Refuses-past _ _ w (Guards-refuse_if _ _ w) λ _. Refuses-then _ _ w (closed_at _ e))
  handle-Refuses s (Request.get_balance x a y v z h) e k =
      Refuses-told _ w
        (Refuses-past _ _ w (Guards-refuse_if _ _ w) λ _. Refuses-then _ _ w (closed_at _ e))
  handle-Refuses s (Request.list_ledgers n t) e k = cc
  handle-Refuses s (Request.verify_batch b) e k = cc
  handle-Refuses s (Request.export_log n x) e k = cc
  handle-Refuses s (Request.import_log es) e k = cc

pub authorize-Refuses :
    (ctx : Context) (i : Identity) (l : ByteString) (w : World)
    → ctx.identity ≡ some i
    → can_access_ledger i l ≡ false
    → Refuses (Service.authorize_ledger ctx l) w
unfolding Service.authorize_ledger Service.authorize_identity refuse_if done
authorize-Refuses ctx i l w e h =
    subst (λ o. Refuses (Service.authorize_identity o l) w) (sym e)
      (subst (λ b. Refuses (refuse_if (not b) Code.permission_denied) w) (sym h)
        (Code.permission_denied, refl))
