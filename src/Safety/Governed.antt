-- ===== src/Safety/Governed.antt =====
-- The invariants of the frame, for ledgers, policies, approvals and the sweep over expired holds.
pub mod Writes
use fincore_ledger.Prelude.{
  ℕ, zero, suc, ◌≡◌, ByteString, Bool, true, false, Option, List, [], ◌∷◌, if◌then◌else◌,
}
use fincore_ledger.Storage.Records.{
  Error, Time, Metadata, HoldRecord, PendingApprovalRecord, PolicyRecord,
}
use fincore_ledger.Storage.World.{World, Tables, Act, ok, err, exec}
use fincore_ledger.Storage.Governance
use fincore_ledger.Storage.Log
use fincore_ledger.Storage.Holds
use fincore_ledger.Planner.Inputs.{Host, BatchIntent}
use fincore_ledger.Planner.Approval
use fincore_ledger.Planner.Expire
use fincore_ledger.Planner.Policies
use fincore_ledger.Safety.Rules.{
  Preserves, preserves_rules, Preserves-result, Preserves-option, Preserves-bind, Preserves-if,
  Preserves-done, Preserves-fail, Preserves-now, Preserves-call, Preserves-modify,
  Preserves-attempt, Upholds-Preserves, Preserves-exec, Preserves-mint, Preserves-gets,
}
use fincore_ledger.Safety.Frame.{IsInvariant, Preserves-update}
use fincore_ledger.Safety.Batching.{Preserves-batch_id}
use fincore_ledger.Safety.Operations.{Upholds-expire_in_tx}
use fincore_ledger.Safety.Runs.{
  Preserves-begin, Preserves-with_rollback, Preserves-commit, Preserves-publish, Preserves-wait,
}
use fincore_ledger.Safety.Commands.{Preserves-not_sealed, Preserves-intent}
pub use fincore_ledger.Safety.Governed.Writes.{Preserves-alone}
use fincore_ledger.Safety.Governed.Writes.{
  Preserves-alone_where, Preserves-alone_always, Preserves-always, Preserves-get_approval,
  Preserves-late, Preserves-stuck, Preserves-list_by_key, Preserves-expired_holds,
  Preserves-backoff_retry,
}

module _ {Good : Tables → Type 0} (inv : IsInvariant Good) where
  pub Preserves-create_ledger :
      (i b : ByteString) (m : Metadata) → Preserves Good (Governance.create_ledger i b m)
  unfolding Governance.create_ledger
  Preserves-create_ledger i b m = Preserves-bind _ _ Preserves-call λ _.
      Preserves-bind _ _ (Preserves-gets _) λ _.
        Preserves-bind _ _ (Preserves-alone _ _ _ (λ t g. inv.ledgers t _ g))
          (λ _. Preserves-done _)

  pub Preserves-seal_ledger : (i : ByteString) → Preserves Good (Governance.seal_ledger i)
  unfolding Governance.seal_ledger
  Preserves-seal_ledger i = Preserves-bind _ _ (Preserves-gets _) λ _.
      Preserves-bind _ _ (Preserves-alone_where _ _ _ (λ t g. inv.ledgers t _ g))
        (λ _. search preserves_rules)

  pub Preserves-insert_policy : (p : PolicyRecord) → Preserves Good (Governance.insert_policy p)
  unfolding Governance.insert_policy
  Preserves-insert_policy p = Preserves-alone _ _ _ (λ t g. inv.policies t _ g)

  Preserves-state_in_tx :
      (l i s : ByteString) → Preserves Good (Governance.update_approval_state_in_tx l i s)
  unfolding Governance.update_approval_state_in_tx Governance.edit_approvals
  Preserves-state_in_tx l i s = Preserves-always _ (λ t g. inv.approvals t _ g)

  Preserves-state : (l i s : ByteString) → Preserves Good (Governance.update_approval_state l i s)
  unfolding Governance.update_approval_state Governance.edit_approvals
  Preserves-state l i s = Preserves-alone_always _ (λ t g. inv.approvals t _ g)

  Preserves-state_if :
      (l i s r : ByteString) → Preserves Good (Governance.update_approval_state_if l i s r)
  unfolding Governance.update_approval_state_if Governance.edit_approvals
  Preserves-state_if l i s r = Preserves-bind _ _ Preserves-call λ _.
      Preserves-bind _ _ (Preserves-gets _) λ _.
        Preserves-bind _ _ (Preserves-modify _ (λ w g. inv.approvals w.tables _ g))
          (λ _. Preserves-done _)

  Preserves-mark : (l i : ByteString) → Preserves Good (Governance.mark_approval_executing l i)
  unfolding Governance.mark_approval_executing Governance.edit_approvals
  Preserves-mark l i =
      Preserves-bind _ _ (Preserves-gets _) (λ _. Preserves-always _ (λ t g. inv.approvals t _ g))

  Preserves-add_approval : (l i p s : ByteString) → Preserves Good (Governance.add_approval l i p s)
  unfolding Governance.add_approval Governance.edit_approvals
  Preserves-add_approval l i p s =
      Preserves-bind _ _ (Preserves-gets _)
        (λ _. Preserves-update _ _ _ (λ t g. inv.approvals t _ g))

  pub Preserves-submit_for_approval :
      (host : Host) (l p : ByteString) (req : List ByteString) (by : ByteString) (t : Time)
      → Preserves Good (Approval.submit_for_approval host l p req by t)
  unfolding Approval.submit_for_approval Governance.insert_pending_approval
  Preserves-submit_for_approval host l p req by t = Preserves-bind _ _ (Preserves-not_sealed l) λ _.
      Preserves-bind _ _ Preserves-mint λ _. Preserves-bind _ _ Preserves-now λ _.
        Preserves-bind _ _ (Preserves-alone _ _ _ (λ t g. inv.approvals t _ g))
          (λ _. Preserves-done _)

  Preserves-approve_in_tx : (l i p s : ByteString) → Preserves Good (Approval.approve_in_tx l i p s)
  unfolding Approval.approve_in_tx Approval.record_approval
  Preserves-approve_in_tx l i p s =
      search
        (
          preserves_rules, Preserves-get_approval, Preserves-state_in_tx, Preserves-add_approval,
          Preserves-mark,
        )
        depth 20

  Preserves-write_audit :
      (l e p : ByteString) (t : Time) → Preserves Good (Approval.write_audit l e p t)
  unfolding Approval.write_audit
  Preserves-write_audit l e p t = Preserves-bind _ _ (Preserves-batch_id l) λ b.
      Preserves-begin _ λ before g.
        Preserves-bind _ _ (Preserves-with_rollback before _ g (inv.audit l e b p t))
          (λ _. Preserves-commit before g)

  Preserves-audit :
      (host : Host) (l p : ByteString)
      → Preserves Good (Approval.record_approval_audit_event host l p)
  unfolding Approval.record_approval_audit_event
  Preserves-audit host l p = Preserves-bind _ _ Preserves-now λ t.
      Preserves-bind _ _ Preserves-mint λ e.
        Preserves-bind _ _
          (Preserves-attempt _ (Preserves-backoff_retry _ _ _ (Preserves-write_audit l e p t)))
          λ r. Preserves-result r _ _ (λ _. Preserves-publish _ _ _ _) (λ _. Preserves-done _)

  Preserves-reject : (l i : ByteString) (e : Error) → Preserves Good (Approval.reject l i e)
  unfolding Approval.reject
  Preserves-reject l i e =
      Preserves-bind _ _ (Preserves-attempt _ (Preserves-state l i _)) (λ _. Preserves-fail _)

  Preserves-execute_approved :
      (host : Host) (decode : ByteString → Option BatchIntent) (l i : ByteString)
      (a : PendingApprovalRecord)
      → Preserves Good (Approval.execute_approved host decode l i a)
  unfolding Approval.execute_approved
  Preserves-execute_approved host decode l i a =
      Preserves-option (decode a.intent_payload) _ _ (Preserves-reject l i _) λ x.
        Preserves-bind _ _ (Preserves-attempt _ (Preserves-intent inv host l _)) λ r.
          Preserves-result r _ _
            (λ _. Preserves-bind _ _ (Preserves-audit host l _) λ _.
              Preserves-bind _ _ (Preserves-attempt _ (Preserves-state_if l i _ _))
                (λ _. Preserves-done _))
            (λ e. Preserves-reject l i e)

  Preserves-after_approval :
      (host : Host) (decode : ByteString → Option BatchIntent) (l i : ByteString)
      (o : Approval.Outcome)
      → Preserves Good (Approval.after_approval host decode l i o)
  unfolding Approval.after_approval
  Preserves-after_approval host decode l i Approval.too_late = Preserves-fail _
  Preserves-after_approval host decode l i Approval.partly = Preserves-done _
  Preserves-after_approval host decode l i (Approval.complete a) =
      Preserves-execute_approved host decode l i a

  pub Preserves-approve :
      (host : Host) (decode : ByteString → Option BatchIntent) (l i p s : ByteString)
      → Preserves Good (Approval.approve host decode l i p s)
  unfolding Approval.approve
  Preserves-approve host decode l i p s = Preserves-begin _ λ before g.
      Preserves-bind _ _
        (Preserves-with_rollback before _ g (Upholds-Preserves (Preserves-approve_in_tx l i p s)))
        λ o.
          Preserves-bind _ _ (Preserves-commit before g)
            (λ _. Preserves-after_approval host decode l i o)

  Preserves-expire_all :
      (as' : List PendingApprovalRecord) → Preserves Good (Approval.expire_all as')
  unfolding Approval.expire_all
  Preserves-expire_all [] = Preserves-done _
  Preserves-expire_all (a ∷ rest) =
      Preserves-bind _ _ (Preserves-attempt _ (Preserves-state _ _ _))
        (λ _. Preserves-expire_all rest)

  Preserves-recover_one : (a : PendingApprovalRecord) → Preserves Good (Approval.recover_one a)
  unfolding Approval.recover_one
  Preserves-recover_one a =
      Preserves-bind _ _ (Preserves-attempt _ (Preserves-list_by_key _ _)) λ r.
        Preserves-result r _ _
          (λ _.
            Preserves-bind _ _ (Preserves-attempt _ (Preserves-state_if _ _ _ _))
              (λ _. Preserves-done _))
          (λ _. Preserves-done _)

  Preserves-recover_all :
      (as' : List PendingApprovalRecord) → Preserves Good (Approval.recover_all as')
  unfolding Approval.recover_all
  Preserves-recover_all [] = Preserves-done _
  Preserves-recover_all (a ∷ rest) =
      Preserves-bind _ _ (Preserves-recover_one a) (λ _. Preserves-recover_all rest)

  pub Preserves-expire_stale : (t : Time) → Preserves Good (Approval.expire_stale_approvals t)
  unfolding Approval.expire_stale_approvals
  Preserves-expire_stale t =
      search
        (
          preserves_rules, Preserves-late, Preserves-expire_all, Preserves-stuck,
          Preserves-recover_all,
        )
        depth 12

  Preserves-expire_single :
      (host : Host) (h : HoldRecord) → Preserves Good (Expire.expire_single_hold host h)
  unfolding Expire.expire_single_hold
  Preserves-expire_single host h = Preserves-bind _ _ Preserves-now λ t.
      Preserves-begin _ λ before g.
        Preserves-bind _ _ (Preserves-with_rollback before _ g (Upholds-expire_in_tx inv h t)) λ o.
          Preserves-option o _ _ (Preserves-done _)
            λ e. Preserves-bind _ _ (Preserves-commit before g) (λ _. Preserves-publish _ _ _ _)

  Preserves-page :
      (host : Host) (hs : List HoldRecord) (n : ℕ) → Preserves Good (Expire.expire_page host hs n)
  unfolding Expire.expire_page
  Preserves-page host [] n = Preserves-done _
  Preserves-page host (h ∷ hs) n =
      Preserves-bind _ _ (Preserves-attempt _ (Preserves-expire_single host h))
        (λ _. Preserves-page host hs _)

  pub Preserves-pages :
      (host : Host) (fuel n : ℕ) → Preserves Good (Expire.expire_pages host fuel n)
  unfolding Expire.expire_pages
  Preserves-pages host zero n = Preserves-done _
  Preserves-pages host (suc fuel) n = Preserves-bind _ _ Preserves-expired_holds λ page.
      Preserves-bind _ _ (Preserves-page host page 0)
        λ m. Preserves-if _ _ _ (Preserves-done _) (Preserves-pages host fuel _)

  pub Preserves-denial :
      (l p r : ByteString) → Preserves Good (Policies.write_policy_denial_event l p r)
  unfolding Policies.write_policy_denial_event
  Preserves-denial l p r = Preserves-bind _ _ Preserves-now λ t. Preserves-begin _ λ before g.
      Preserves-bind _ _ (Preserves-with_rollback before _ g (inv.append _ _ _ _ _))
        (λ _. Preserves-commit before g)
