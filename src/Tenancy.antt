-- ===== src/Tenancy.antt =====
-- Who may reach a ledger: the scope of a token (internal/api/grpc/auth/auth.go) and the methods of
-- the ledger service that name a ledger (internal/api/grpc/service.go).
pub mod Guards
use fincore_ledger.Prelude.{
  ◌≡◌, ◌⊎◌, inl, inr, refl, sym, ap, subst, ◌∙◌, ByteString, Bool, true, false, Option, none, some,
  List, [], ◌∷◌, ◌||◌, not, str_eq, has_prefix, any, is_empty, if◌then◌else◌, arith,
}
use fincore_ledger.Storage.World.{World, Result, ok, done, continue}
use fincore_ledger.Storage.World
use fincore_ledger.Api.Status.{answer, status, Rpc, Code, proceed, ◌>>=◌, refuse_if, present}
use fincore_ledger.Api.Auth
use fincore_ledger.Api.Auth.{Context, Identity, Token, Claim, can_access_ledger}
use fincore_ledger.Api.Service.{Server}
use fincore_ledger.Api.Service
use fincore_ledger.Api.Queries
use fincore_ledger.Api.Server.{Request, is_streaming, handle, serve, method_of, outcome, told}
use fincore_ledger.Api.Wire.{Intent}
pub use fincore_ledger.Tenancy.Guards.{Refuses, Refuses-then, Refuses-given}
unfoldable pub use fincore_ledger.Tenancy.Guards.{ledger_of, is_export}
use fincore_ledger.Tenancy.Guards.{handle-Refuses, authorize-Refuses}

-- An element of the claim that lets the token at a ledger: the ledger itself, or "*".
unfoldable pub grants : ByteString → Option ByteString → Bool
grants l none = false
grants l (some x) = str_eq x Auth.all_ledgers_wildcard || str_eq l x

unfoldable pub claim_grants : ByteString → Claim → Bool
claim_grants l Claim.absent = false
claim_grants l Claim.other = false
claim_grants l (Claim.array es) = any (grants l) es

abbrev pub reaches : ByteString → List ByteString × Bool → Bool
reaches l (ls, all) = all || any (str_eq l) ls

scope_step :
    (star same : Bool) (found rest : Bool) (p q : List ByteString × Bool) (l : ByteString)
    → reaches l q ≡ rest || (same || found)
    → reaches l p ≡ true
    → reaches l (if star then p else q) ≡ ((star || same) || rest) || found
scope_step true same found rest p q l h k = ground arith
scope_step false true found rest p q l h k = ground arith
scope_step false false found rest p q l h k = ground arith

collect-scope :
    (l : ByteString) (es : List (Option ByteString)) (found : List ByteString)
    → reaches l (Auth.collect_ledgers es found) ≡ any (grants l) es || any (str_eq l) found
unfolding Auth.collect_ledgers grants
collect-scope l [] found = refl
collect-scope l (none ∷ es) found = collect-scope l es found
collect-scope l (some x ∷ es) found =
    scope_step (str_eq x Auth.all_ledgers_wildcard) (str_eq l x) (any (str_eq l) found)
      (any (grants l) es) ([], true) _ l (collect-scope l es (x ∷ found)) refl

or_false : (b : Bool) → b || false ≡ b
or_false true = refl
or_false false = refl

parse-scope :
    (l : ByteString) (c : Claim) → reaches l (Auth.parse_ledgers_claim c) ≡ claim_grants l c
unfolding Auth.parse_ledgers_claim claim_grants
parse-scope l Claim.absent = refl
parse-scope l Claim.other = refl
parse-scope l (Claim.array es) = collect-scope l es [] ∙ or_false _

given : {A : Type 0} (b : Bool) (x y : A) → (if b then none else some x) ≡ some y → x ≡ y
given true x y e = cc
given false x y e = cc

-- The identity made of a token with a subject reaches exactly the ledgers that its claim lists as
-- strings, and every ledger where the claim lists "*"; a claim that is absent or no array reaches none.
pub identity_of-scope :
    (t : Token) (i : Identity) (l : ByteString)
    → Auth.identity_of (some t) ≡ some i
    → can_access_ledger i l ≡ claim_grants l t.ledgers_claim
unfolding Auth.identity_of can_access_ledger
identity_of-scope t i l e =
    subst
      (λ (i : Identity). i.all_ledgers || any (str_eq l) i.ledgers ≡ claim_grants l t.ledgers_claim)
      (given (is_empty t.subject) _ i e) (parse-scope l t.ledgers_claim)

same_branch : {A : Type 0} (b : Bool) (m : Rpc A) (w : World) → (if b then m else m) w ≡ m w
same_branch true m w = refl
same_branch false m w = refl

method_of-authenticated : (r : Request) → Auth.method_is_exempt (method_of r) ≡ false
unfolding method_of Auth.method_is_exempt has_prefix
method_of-authenticated (Request.create_ledger i b m) = refl
method_of-authenticated (Request.seal_ledger i) = refl
method_of-authenticated (Request.get_ledger i) = refl
method_of-authenticated (Request.list_ledgers n t) = refl
method_of-authenticated (Request.submit_for_approval l p r n) = refl
method_of-authenticated (Request.approve_intent l i x) = refl
method_of-authenticated (Request.get_transaction l i) = refl
method_of-authenticated (Request.get_account l i) = refl
method_of-authenticated (Request.get_hold l i) = refl
method_of-authenticated (Request.get_schema l i) = refl
method_of-authenticated (Request.get_log_event l i) = refl
method_of-authenticated (Request.list_transactions l n t) = refl
method_of-authenticated (Request.list_accounts l n t) = refl
method_of-authenticated (Request.list_log_events l n t) = refl
method_of-authenticated (Request.list_pending_approvals l n t) = refl
method_of-authenticated (Request.list_holds l a n t) = refl
method_of-authenticated (Request.get_balance l a x v y h) = refl
method_of-authenticated (Request.verify_batch b) = refl
method_of-authenticated (Request.export_log n l) = refl
method_of-authenticated (Request.import_log es) = refl
method_of-authenticated (Request.submit i) = refl

module _ (s : Server) (f : Context → Option Identity) (ctx : Context) (r : Request)
    (w : World) where
  -- What the server does with a caller of a given identity.
  served_as :
      (o : Option Identity)
      → f ctx ≡ o
      → serve s (some (Auth.gives_identity f)) ctx r w
        ≡ Auth.admit (λ c. handle s c r) (Auth.with_identity ctx o) w
  unfolding serve Auth.intercept Auth.intercept_stream Auth.authenticated
      Auth.authenticate_and_inject
  served_as o e =
      same_branch (is_streaming r) _ w
      ∙ subst
          (λ b.
            (if b
                then handle s ctx r
                else Auth.admit (λ c. handle s c r) (Auth.with_identity ctx (f ctx)))
              w
            ≡ Auth.admit (λ c. handle s c r) (Auth.with_identity ctx o) w)
          (sym (method_of-authenticated r))
          (ap (λ o. Auth.admit (λ c. handle s c r) (Auth.with_identity ctx o) w) e)

  -- A caller whose credentials give no identity is refused by every method of the ledger service,
  -- and the state stays as it was.
  pub serve-Unauthenticated :
      f ctx ≡ none
      → serve s (some (Auth.gives_identity f)) ctx r w ≡ (ok (status Code.unauthenticated), w)
  unfolding Auth.with_identity Auth.admit done
  serve-Unauthenticated e = served_as none e

  -- A caller whose token does not reach the ledger that a request names is refused, and the state
  -- stays as it was, by every modelled method but Export and those whose request itself names no
  -- ledger: ListLedgers, VerifyBatch, and Import, whose events name theirs.
  pub serve-Outsider :
      (i : Identity) (l : ByteString)
      → f ctx ≡ some i
      → can_access_ledger i l ≡ false
      → ledger_of r ≡ some l
      → is_export r ≡ false
      → Refuses (serve s (some (Auth.gives_identity f)) ctx r) w
  unfolding Auth.with_identity Auth.admit
  serve-Outsider i l e h k x =
      let inside : Context = record ctx { principal = some i.principal; identity = some i } in
      let (c, p) = handle-Refuses inside l w (authorize-Refuses inside i l w refl h) s r k x in
      (c, served_as (some i) e ∙ p)
