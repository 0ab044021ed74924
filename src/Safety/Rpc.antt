-- ===== src/Safety/Rpc.antt =====
-- The rules of the invariants for the handlers of the services (internal/api/grpc).
use fincore_ledger.Prelude.{Bool, true, false, Option, none, some}
use fincore_ledger.Storage.Records.{Error}
use fincore_ledger.Storage.World.{Tables, Act, Result, ok, err}
use fincore_ledger.Api.Status.{
  Reply, answer, status, Rpc, Code, proceed, ◌>>=◌, refuse_if, present, reply_of, lift,
}
use fincore_ledger.Safety.Rules.{
  Preserves, Preserves-bind, Preserves-done, Preserves-attempt, preserves_rules,
}

module _ {Good : Tables → Type 0} where
  Preserves-proceed :
      {A B : Type 0} (f : A → Rpc B) (r : Reply A)
      → ((a : A) → Preserves Good (f a))
      → Preserves Good (proceed f r)
  unfolding proceed
  Preserves-proceed f (answer a) p = p a
  Preserves-proceed f (status c) p = Preserves-done _

  pub Preserves-then :
      {A B : Type 0} (m : Rpc A) (f : A → Rpc B)
      → Preserves Good m
      → ((a : A) → Preserves Good (f a))
      → Preserves Good (m >>= f)
  unfolding ◌>>=◌
  Preserves-then m f p q = Preserves-bind _ _ p (λ r. Preserves-proceed f r q)

  pub Preserves-refuse_if : (b : Bool) (c : Code) → Preserves Good (refuse_if b c)
  unfolding refuse_if
  Preserves-refuse_if true c = Preserves-done _
  Preserves-refuse_if false c = Preserves-done _

  pub Preserves-present : {A : Type 0} (c : Code) (o : Option A) → Preserves Good (present c o)
  unfolding present
  Preserves-present c none = Preserves-done _
  Preserves-present c (some a) = Preserves-done _

  pub Preserves-reply_of :
      {A : Type 0} (f : Error → Code) (r : Result A) → Preserves Good (reply_of f r)
  unfolding reply_of
  Preserves-reply_of f (ok a) = Preserves-done _
  Preserves-reply_of f (err e) = Preserves-done _

  pub Preserves-lift :
      {A : Type 0} (f : Error → Code) (m : Act A) → Preserves Good m → Preserves Good (lift f m)
  unfolding lift
  Preserves-lift f m p = Preserves-bind _ _ (Preserves-attempt m p) (Preserves-reply_of f)

pub ruleset rpc_rules =
    (preserves_rules, Preserves-then, Preserves-refuse_if, Preserves-present, Preserves-lift)
