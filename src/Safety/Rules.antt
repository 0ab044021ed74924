-- ===== src/Safety/Rules.antt =====
-- Invariants of actions, with one rule for each way in which an action is built. The invariants are
-- predicates on the tables, and the rules are used by `search`.
use fincore_ledger.Prelude.{
  ◌≡◌, refl, subst, Bool, true, false, Option, none, some, List, [], ◌∷◌, if◌then◌else◌,
}
use fincore_ledger.Storage.Records.{Error, driver}
use fincore_ledger.Storage.World.{
  World, Tables, Act, Result, ok, err, done, fail, gets, some_or, attempt, continue, ◌>>=◌, modify,
  fail_if, ◌>>◌, take_fault, call, mark_aborted, statement, select, write, exec, affected, affect,
  mint, now,
}

-- The outcome is good where it is no error.
abbrev pub OnOk : {A : Type 0} → (Tables → Type 0) → Result A × World → Type 0
OnOk Good (ok a, w) = Good w.tables
OnOk Good (err e, w) = Unit

-- `m` keeps the tables good, whether it returns or fails.
pub record Preserves {A : Type 0} (Good : Tables → Type 0) (m : Act A) : Type 0 where
  pub at : (w : World) → Good w.tables → Good (m w).1.tables

-- `m` keeps the tables good where it returns; a failure is for the rollback.
pub record Upholds {A : Type 0} (Good : Tables → Type 0) (m : Act A) : Type 0 where
  pub at : (w : World) → Good w.tables → OnOk Good (m w)

OnOk-outcome :
    {A : Type 0} (Good : Tables → Type 0) (o : Result A × World) → Good o.1.tables → OnOk Good o
OnOk-outcome Good (ok a, w) h = h
OnOk-outcome Good (err e, w) h = tt

continue_assoc :
    {A B C : Type 0} (r : Result A) (n : Act B) (k : Act C) (w : World)
    → let (s, w') = continue r (λ _. n) w in continue s (λ _. k) w' ≡ continue r (λ _. n >> k) w
unfolding ◌>>=◌
continue_assoc (ok a) n k w = refl
continue_assoc (err e) n k w = refl

module _ (Good : Tables → Type 0) where
  take_fault-Good :
      (fs : List (Option Error)) (w : World) → Good w.tables → Good (take_fault fs w).1.tables
  unfolding take_fault
  take_fault-Good [] w h = h
  take_fault-Good (none ∷ fs) w h = h
  take_fault-Good (some e ∷ fs) w h = h

  mark_aborted-Good :
      (r : Result (Unit {0})) (w : World) → Good w.tables → Good (mark_aborted r w).1.tables
  unfolding mark_aborted
  mark_aborted-Good (ok _) w h = h
  mark_aborted-Good (err e) w h = h

  statement-Good :
      (b : Bool) (w : World) (r : Result (Unit {0})) (w' : World)
      → Good w.tables
      → Good w'.tables
      → let refused : Result (Unit {0}) × World = (err driver, w) in
        Good (if b then refused else mark_aborted r w').1.tables
  statement-Good true w r w' h k = h
  statement-Good false w r w' h k = mark_aborted-Good r w' k

module _ {Good : Tables → Type 0} where
  pub Upholds-Preserves : {A : Type 0} {m : Act A} → Preserves Good m → Upholds Good m
  Upholds-Preserves {m} p = record { at = λ w h. OnOk-outcome Good (m w) (p.at w h) }

  pub Preserves-done : {A : Type 0} (a : A) → Preserves Good (done a)
  unfolding done
  Preserves-done a = record { at = λ w h. h }

  pub Preserves-fail : {A : Type 0} (e : Error) → Preserves Good (fail {A = A} e)
  unfolding fail
  Preserves-fail e = record { at = λ w h. h }

  pub Preserves-gets : {A : Type 0} (f : World → A) → Preserves Good (gets f)
  unfolding gets
  Preserves-gets f = record { at = λ w h. h }

  pub Preserves-some_or : {A : Type 0} (e : Error) (o : Option A) → Preserves Good (some_or e o)
  unfolding some_or
  Preserves-some_or e none = record { at = λ w h. h }
  Preserves-some_or e (some a) = record { at = λ w h. h }

  pub Preserves-fail_if : (b : Bool) (e : Error) → Preserves Good (fail_if b e)
  unfolding fail_if
  Preserves-fail_if true e = record { at = λ w h. h }
  Preserves-fail_if false e = record { at = λ w h. h }

  pub Preserves-attempt : {A : Type 0} (m : Act A) → Preserves Good m → Preserves Good (attempt m)
  unfolding attempt
  Preserves-attempt m p = record { at = λ w h. p.at w h }

  Preserves-continue :
      {A B : Type 0} (r : Result A) (f : A → Act B)
      → ((a : A) → Preserves Good (f a))
      → (w : World) → Good w.tables
      → Good (continue r f w).1.tables
  Preserves-continue (ok a) f k w h = (k a).at w h
  Preserves-continue (err e) f k w h = h

  pub Preserves-bind :
      {A B : Type 0} (m : Act A) (f : A → Act B)
      → Preserves Good m
      → ((a : A) → Preserves Good (f a))
      → Preserves Good (m >>= f)
  unfolding ◌>>=◌
  Preserves-bind m f p k = record {
    at = λ w h. let (r, w') = m w in Preserves-continue r f k w' (p.at w h);
  }

  pub Preserves-if :
      {A : Type 0} (b : Bool) (m n : Act A)
      → Preserves Good m
      → Preserves Good n
      → Preserves Good (if b then m else n)
  Preserves-if true m n p q = p
  Preserves-if false m n p q = q

  Upholds-continue :
      {A B : Type 0} (r : Result A) (f : A → Act B)
      → ((a : A) → Upholds Good (f a))
      → (w : World) → OnOk Good (r, w)
      → OnOk Good (continue r f w)
  Upholds-continue (ok a) f k w h = (k a).at w h
  Upholds-continue (err e) f k w h = tt

  pub Upholds-bind :
      {A B : Type 0} (m : Act A) (f : A → Act B)
      → Upholds Good m
      → ((a : A) → Upholds Good (f a))
      → Upholds Good (m >>= f)
  unfolding ◌>>=◌
  Upholds-bind m f p k = record {
    at = λ w h. let (r, w') = m w in Upholds-continue r f k w' (p.at w h);
  }

  pub Upholds-if :
      {A : Type 0} (b : Bool) (m n : Act A)
      → Upholds Good m
      → Upholds Good n
      → Upholds Good (if b then m else n)
  Upholds-if true m n p q = p
  Upholds-if false m n p q = q

  pub Preserves-result :
      {A B : Type 0} (r : Result A) (f : A → Act B) (g : Error → Act B)
      → ((a : A) → Preserves Good (f a))
      → ((e : Error) → Preserves Good (g e))
      → Preserves Good (elim r [ ok a ↦ f a | err e ↦ g e ])
  Preserves-result (ok a) f g p q = p a
  Preserves-result (err e) f g p q = q e

  pub Preserves-option :
      {A B : Type 0} (o : Option A) (m : Act B) (f : A → Act B)
      → Preserves Good m
      → ((a : A) → Preserves Good (f a))
      → Preserves Good (elim o [ none ↦ m | some a ↦ f a ])
  Preserves-option none m f p q = p
  Preserves-option (some a) m f p q = q a

  pub Upholds-assoc :
      {A B C : Type 0} (m : Act A) (n : Act B) (k : Act C)
      → Upholds Good ((m >> n) >> k)
      → Upholds Good (m >> (n >> k))
  unfolding ◌>>=◌
  Upholds-assoc m n k p = record {
    at = λ w h. let (r, w') = m w in subst (OnOk Good) (continue_assoc r n k w') (p.at w h);
  }

  pub Preserves-modify :
      (f : World → World)
      → ((w : World) → Good w.tables → Good (f w).tables)
      → Preserves Good (modify f)
  unfolding modify
  Preserves-modify f k = record { at = k }

  pub Preserves-call : Preserves Good call
  unfolding call
  Preserves-call = record { at = λ w h. take_fault-Good Good w.faults w h }

  pub Preserves-statement : Preserves Good statement
  unfolding statement
  Preserves-statement = record {
    at = λ w h. statement-Good Good w.aborted w (call w).0 (call w).1 h (Preserves-call.at w h);
  }

  pub Preserves-select : {A : Type 0} (f : Tables → A) → Preserves Good (select f)
  unfolding select
  Preserves-select f = Preserves-bind _ _ Preserves-statement (λ _. Preserves-gets _)

  write-Good :
      (r : Result Tables) (w : World)
      → ((t : Tables) → r ≡ ok t → Good t)
      → Good w.tables
      → Good (write r w).1.tables
  unfolding write
  write-Good (ok t) w k h = k t refl
  write-Good (err e) w k h = h

  pub Preserves-exec :
      (f : Tables → Result Tables)
      → ((t t' : Tables) → Good t → f t ≡ ok t' → Good t')
      → Preserves Good (exec f)
  unfolding exec
  Preserves-exec f k =
      Preserves-bind _ _ Preserves-statement
        (λ _. record { at = λ w h. write-Good (f w.tables) w (λ t e. k w.tables t h e) h })

  affected-Good :
      (e : Error) (o : Option Tables) (w : World)
      → ((t : Tables) → o ≡ some t → Good t)
      → Good w.tables
      → Good (affected e o w).1.tables
  unfolding affected
  affected-Good e none w k h = h
  affected-Good e (some t) w k h = k t refl

  pub Preserves-affect :
      (e : Error) (f : Tables → Option Tables)
      → ((t t' : Tables) → Good t → f t ≡ some t' → Good t')
      → Preserves Good (affect e f)
  unfolding affect
  Preserves-affect e f k =
      Preserves-bind _ _ Preserves-statement
        (λ _. record { at = λ w h. affected-Good e (f w.tables) w (λ t p. k w.tables t h p) h })

  pub Preserves-mint : Preserves Good mint
  unfolding mint
  Preserves-mint = record { at = λ w h. h }

  pub Preserves-now : Preserves Good now
  unfolding now
  Preserves-now = record { at = λ w h. h }

pub ruleset preserves_rules = (
  Preserves-done, Preserves-fail, Preserves-gets, Preserves-some_or, Preserves-fail_if,
  Preserves-attempt, Preserves-bind, Preserves-if, Preserves-call, Preserves-statement,
  Preserves-select, Preserves-mint, Preserves-now,
)

pub ruleset uphold_rules = (
  Upholds-bind, Upholds-if, Upholds-Preserves, Preserves-done, Preserves-fail, Preserves-some_or,
  Preserves-fail_if, Preserves-select, Preserves-mint, Preserves-now,
)
