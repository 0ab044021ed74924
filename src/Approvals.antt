-- ===== src/Approvals.antt =====
-- When an approval leads to execution (internal/planner/operations_approval.go `Approve`).
use fincore_ledger.Prelude.{
  ℕ, zero, suc, ◌≡◌, refl, sym, ap, subst, ◌∙◌, ByteString, Bool, true, false, Option, none, some,
  List, [], ◌∷◌, ◌++◌, ◌&&◌, ◌||◌, All, not, find?, find?-update_where, find?-passes, get_elem?,
  str_eq, str_eq→eq, str_eq_refl, if◌then◌else◌, ltb,
}
use fincore_ledger.Storage.Records.{Time, PendingApprovalRecord, ApprovalEntry, invalid, not_found}
use fincore_ledger.Storage.World.{
  World, Tables, Act, Result, ok, err, done, gets, exec, now, fail_if, ◌>>=◌, ◌>>◌,
}
use fincore_ledger.Storage.Governance
use fincore_ledger.Storage.Governance.{
  is_intent, in_state, edit_approvals, get_pending_approval, add_approval, pending, executing,
}
use fincore_ledger.Planner.Approval.{
  Outcome, too_late, partly, complete, all_approved, has_approved, record_approval, approve_in_tx,
}
use fincore_ledger.Safety.Hoare.{
  Returns, Returns-bind, Returns-OnOk, Returns-weaken, exec-OnOk, select-Returns, some_or-Returns,
  fail_if-Returns, affect-Returns,
}

-- One of the entries has been made by this principal.
abbrev pub HasEntry : List ApprovalEntry → ByteString → Type 0
HasEntry xs r = (i : ℕ) × (x : ApprovalEntry) × ((get_elem? xs i ≡ some x) × (x.principal ≡ r))

abbrev pub Stored : ByteString → ByteString → PendingApprovalRecord → Tables → Type 0
Stored l i a t = find? (is_intent l i) t.approvals ≡ some a

-- The row was pending, and has got one entry more, of this principal.
abbrev pub Signed : ByteString → ByteString → ByteString → Tables → PendingApprovalRecord → Type 0
Signed l i principal t a =
    (b : PendingApprovalRecord) × (e : ApprovalEntry) × (Stored l i b t
      × (b.state ≡ pending)
      × (e.principal ≡ principal)
      × (a ≡ record b { received_approvals = b.received_approvals ++ (e ∷ []) }))

-- A complete approval behind the tables `t`: every required approver has an entry, the row before it
-- was pending and has got the entry of this principal, and it is stored as executing.
abbrev pub Justified : ByteString → ByteString → ByteString → Tables → Outcome → Tables → Type 0
Justified l i principal t too_late u = Unit
Justified l i principal t partly u = Unit
Justified l i principal t (complete a) u =
    All (HasEntry a.received_approvals) a.required_approvers
    × Signed l i principal t a
    × ((at : Time) × Stored l i (record a { state = executing; executing_at = some at }) u)

later_entry :
    (x : ApprovalEntry) (xs : List ApprovalEntry) (r : ByteString)
    → HasEntry xs r
    → HasEntry (x ∷ xs) r
later_entry x xs r (n, y, h) = (suc n, y, h)

entry_step :
    (b : Bool) (x : ApprovalEntry) (xs : List ApprovalEntry) (r : ByteString)
    → str_eq x.principal r ≡ b
    → b || has_approved r xs ≡ true
    → (has_approved r xs ≡ true → HasEntry xs r)
    → HasEntry (x ∷ xs) r
entry_step true x xs r e h k = (zero, x, (refl, str_eq→eq x.principal r e))
entry_step false x xs r e h k = later_entry x xs r (k h)

has_approved-HasEntry :
    (r : ByteString) (xs : List ApprovalEntry) → has_approved r xs ≡ true → HasEntry xs r
unfolding has_approved
has_approved-HasEntry r [] h = cc
has_approved-HasEntry r (x ∷ xs) h =
    entry_step (str_eq x.principal r) x xs r refl h (has_approved-HasEntry r xs)

both : (a b : Bool) → a && b ≡ true → (a ≡ true) × (b ≡ true)
both true b h = (refl, h)
both false b h = cc

all_approved-HasEntry :
    (rs : List ByteString) (xs : List ApprovalEntry)
    → all_approved rs xs ≡ true
    → All (HasEntry xs) rs
unfolding all_approved
all_approved-HasEntry [] xs h = tt
all_approved-HasEntry (r ∷ rs) xs h =
    let (p, q) = both (has_approved r xs) (all_approved rs xs) h in
    (has_approved-HasEntry r xs p, all_approved-HasEntry rs xs q)

get_pending_approval-Returns :
    (l i : ByteString) (w : World)
    → Returns (λ a t. Stored l i a w.tables × (t ≡ w.tables)) (get_pending_approval l i w)
unfolding get_pending_approval
get_pending_approval-Returns l i w =
    Returns-bind _ _ _ _ w (select-Returns (λ t. find? (is_intent l i) t.approvals) w) λ o u (p, q).
      Returns-weaken (λ a t. (o ≡ some a) × (t ≡ u.tables)) _ _ (some_or-Returns not_found o u)
        λ a t (h, k).
          (ap (λ (t : Tables). find? (is_intent l i) t.approvals) (sym q) ∙ sym p ∙ h, k ∙ q)

guarded : (b : Bool) (t u : Tables) → (if b then some t else none) ≡ some u → u ≡ t
guarded true t u h = cc
guarded false t u h = cc

abbrev signed_by : ApprovalEntry → PendingApprovalRecord → PendingApprovalRecord
signed_by e b = record b { received_approvals = b.received_approvals ++ (e ∷ []) }

abbrev started_at : Time → PendingApprovalRecord → PendingApprovalRecord
started_at at b = record b { state = executing; executing_at = some at }

abbrev Added : ByteString → ByteString → ByteString → Tables → Unit {0} → Tables → Type 0
Added l i principal t x u =
    (e : ApprovalEntry) × ((e.principal ≡ principal)
      × (u ≡ edit_approvals (in_state l i pending) (signed_by e) t))

abbrev Started : ByteString → ByteString → Tables → Unit {0} → Tables → Type 0
Started l i t x u = (at : Time) × (u ≡ edit_approvals (is_intent l i) (started_at at) t)

add_approval-Returns :
    (l i principal signature : ByteString) (w : World)
    → Returns (Added l i principal w.tables) (add_approval l i principal signature w)
unfolding add_approval ◌>>=◌ gets
add_approval-Returns l i principal signature w =
    let entry : ApprovalEntry = record {
      principal = principal;
      signature = signature;
      signed_at = w.clock;
    } in
    Returns-weaken _ (Added l i principal w.tables) _ (affect-Returns not_found _ w)
      λ _ t h. (entry, (refl, guarded _ _ t h))

mark_approval_executing-Returns :
    (l i : ByteString) (w : World)
    → Returns (Started l i w.tables) (Governance.mark_approval_executing l i w)
unfolding Governance.mark_approval_executing ◌>>=◌ gets
mark_approval_executing-Returns l i w =
    let start : Tables → Tables = edit_approvals (is_intent l i) (started_at w.clock) in
    Returns-weaken _ (Started l i w.tables) _
      (Returns-OnOk {A = Unit {0}} (λ t. ok (start w.tables) ≡ ok t) (exec (λ t. ok (start t)) w)
        (exec-OnOk (λ t. ok (start t)) w))
      λ _ t h. (w.clock, marked t _ h)
  where
    marked : (t u : Tables) → ok u ≡ ok t → t ≡ u
    marked t u h = cc

one_row :
    (o : Option PendingApprovalRecord) (a b : PendingApprovalRecord)
    → o ≡ some a
    → o ≡ some b
    → a ≡ b
one_row o a b p q = cc

-- The row behind an edit of the rows of its intent.
edited-Stored :
    (l i : ByteString) (q : PendingApprovalRecord → Bool)
    (f : PendingApprovalRecord → PendingApprovalRecord) (b : PendingApprovalRecord) (t u : Tables)
    → ((x : PendingApprovalRecord) → is_intent l i (f x) ≡ is_intent l i x)
    → Stored l i b t
    → q b ≡ true
    → u ≡ edit_approvals q f t
    → Stored l i (f b) u
unfolding edit_approvals
edited-Stored l i q f b t u k h e p =
    ap (λ (t : Tables). find? (is_intent l i) t.approvals) p
    ∙ find?-update_where (is_intent l i) q f t.approvals b k h
    ∙ ap (λ s. some (if s then f b else b)) e

started-same :
    (l i : ByteString) (at : Time) (x : PendingApprovalRecord)
    → is_intent l i (started_at at x) ≡ is_intent l i x
unfolding is_intent
started-same l i at x = refl

signed-same :
    (l i : ByteString) (e : ApprovalEntry) (x : PendingApprovalRecord)
    → is_intent l i (signed_by e x) ≡ is_intent l i x
unfolding is_intent
signed-same l i e x = refl

in_state-holds :
    (l i : ByteString) (b : PendingApprovalRecord)
    → is_intent l i b ≡ true
    → b.state ≡ pending
    → in_state l i pending b ≡ true
unfolding in_state
in_state-holds l i b h p = simp (h, p, str_eq_refl pending)

module _ (l i principal signature : ByteString) (t : Tables) where
  finish-Justified :
      (c : Bool) (a : PendingApprovalRecord) (w : World)
      → all_approved a.required_approvers a.received_approvals ≡ c
      → Signed l i principal t a
      → Stored l i a w.tables
      → let finish : Act Outcome =
          if c then Governance.mark_approval_executing l i >> done (complete a) else done partly in
        Returns (Justified l i principal t) (finish w)
  unfolding done
  finish-Justified false a w e s h = tt
  finish-Justified true a w e s h =
      Returns-bind (Started l i w.tables) _ _ _ w (mark_approval_executing-Returns l i w)
        λ _ u (at, p). (
          all_approved-HasEntry a.required_approvers a.received_approvals e,
          s,
          (
            at,
            edited-Stored l i (is_intent l i) (started_at at) a w.tables u.tables
                (started-same l i at) h (find?-passes (is_intent l i) w.tables.approvals a h) p,
          ),
        )

  record_approval-Justified :
      (b : PendingApprovalRecord) (w : World)
      → w.tables ≡ t
      → Stored l i b t
      → b.state ≡ pending
      → Returns (Justified l i principal t) (record_approval l i principal signature w)
  unfolding record_approval
  record_approval-Justified b w same h p =
      Returns-bind (Added l i principal w.tables) _ _ _ w
        (add_approval-Returns l i principal signature w)
        λ _ u (e, (q, k)).
          let stored : Stored l i (signed_by e b) u.tables =
            edited-Stored l i (in_state l i pending) (signed_by e) b t u.tables (signed-same l i e)
              h (in_state-holds l i b (find?-passes (is_intent l i) t.approvals b h) p)
              (k ∙ ap (λ t. edit_approvals (in_state l i pending) (signed_by e) t) same) in
          Returns-bind (λ a v. Stored l i a u.tables × (v ≡ u.tables)) _ _ _ u
            (get_pending_approval-Returns l i u)
            λ a v (m, n).
              finish-Justified (all_approved a.required_approvers a.received_approvals) a v refl
                (b, e, (h, p, q, one_row _ a _ m stored)) (subst (Stored l i a) (sym n) m)

not-false : (s p : ByteString) → not (str_eq s p) ≡ false → s ≡ p
not-false s p h = str_eq→eq s p (is_true (str_eq s p) h)
  where
    is_true : (b : Bool) → not b ≡ false → b ≡ true
    is_true true h = refl
    is_true false h = cc

unrelated : {A : Type 0} (o : Result A × World) → Returns (λ _ _. Unit) o
unrelated (ok a, w) = tt
unrelated (err e, w) = tt

now_same : (w : World) → Returns (λ _ t. t ≡ w.tables) (now w)
unfolding now
now_same w = refl

late_or_go :
    (l i principal signature : ByteString) (t : Tables) (late refused : Bool)
    (b : PendingApprovalRecord) (w : World)
    → w.tables ≡ t
    → Stored l i b t
    → b.state ≡ pending
    → let m : Act Outcome =
        if late
        then Governance.update_approval_state_in_tx l i Governance.expired >> done too_late
        else fail_if refused invalid >> record_approval l i principal signature in
      Returns (Justified l i principal t) (m w)
unfolding done
late_or_go l i principal signature t true refused b w same h p =
    Returns-bind (λ _ _. Unit) _ _ _ w (unrelated _) (λ _ u x. tt)
late_or_go l i principal signature t false refused b w same h p =
    Returns-bind (λ _ u. (refused ≡ false) × (u ≡ w.tables)) _ _ _ w
      (fail_if-Returns refused invalid w)
      λ _ u (q, k). record_approval-Justified l i principal signature t b u (k ∙ same) h p

-- Where the transaction of an approval ends as complete, which is what lets the intent run: every
-- required approver has an entry in the row, which was stored as pending before it, has got one entry
-- more, of the principal, and is stored as executing behind it.
pub approve_in_tx-Justified :
    (l i principal signature : ByteString) (w : World)
    → Returns (Justified l i principal w.tables) (approve_in_tx l i principal signature w)
unfolding approve_in_tx
approve_in_tx-Justified l i principal signature w =
    Returns-bind (λ b t. Stored l i b w.tables × (t ≡ w.tables)) _ _ _ w
      (get_pending_approval-Returns l i w)
      λ b u (h, k).
        Returns-bind (λ _ t. (not (str_eq b.state pending) ≡ false) × (t ≡ u.tables)) _ _ _ u
          (fail_if-Returns _ invalid u)
          λ _ v (p, q).
            Returns-bind (λ _ t. t ≡ v.tables) _ now _ v (now_same v)
              λ t x r.
                late_or_go l i principal signature w.tables (ltb b.expires_at t) _ b x (r ∙ q ∙ k) h
                  (not-false b.state pending p)
