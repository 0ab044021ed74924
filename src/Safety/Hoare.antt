-- ===== src/Safety/Hoare.antt =====
-- What an action leaves where it returns, from the state that it started in.
use fincore_ledger.Prelude.{Bool, true, false, Option, none, some, ◌≡◌, refl, subst}
use fincore_ledger.Storage.Records.{Error}
use fincore_ledger.Storage.World.{
  World, Tables, Act, Result, ok, err, continue, ◌>>=◌, statement, exec, write, select, gets,
  some_or, fail_if, affect, affected,
}
use fincore_ledger.Safety.Rules.{OnOk, Preserves-statement, Upholds-Preserves}

OnOk-continue :
    {A B : Type 0} (P Q : Tables → Type 0) (r : Result A) (v : World) (f : A → Act B)
    → OnOk P (r, v)
    → ((a : A) (u : World) → P u.tables → OnOk Q (f a u))
    → OnOk Q (continue r f v)
OnOk-continue P Q (ok a) v f p k = k a v p
OnOk-continue P Q (err e) v f p k = tt

pub OnOk-bind :
    {A B : Type 0} (P Q : Tables → Type 0) (m : Act A) (f : A → Act B) (w : World)
    → OnOk P (m w)
    → ((a : A) (u : World) → P u.tables → OnOk Q (f a u))
    → OnOk Q ((m >>= f) w)
unfolding ◌>>=◌
OnOk-bind P Q m f w p k = let (r, v) = m w in OnOk-continue P Q r v f p k

pub OnOk-weaken :
    {A : Type 0} (P Q : Tables → Type 0) (o : Result A × World)
    → OnOk P o
    → ((t : Tables) → P t → Q t)
    → OnOk Q o
OnOk-weaken P Q (ok a, w) p k = k w.tables p
OnOk-weaken P Q (err e, w) p k = tt

-- A statement leaves the tables alone.
pub statement-Same : (w : World) → OnOk (λ t. t ≡ w.tables) (statement w)
statement-Same w = (Upholds-Preserves {Good = λ t. t ≡ w.tables} Preserves-statement).at w refl

write-OnOk : (r : Result Tables) (w : World) → OnOk (λ t. r ≡ ok t) (write r w)
unfolding write
write-OnOk (ok t) w = refl
write-OnOk (err e) w = tt

pub exec-OnOk : (f : Tables → Result Tables) (w : World) → OnOk (λ t. f w.tables ≡ ok t) (exec f w)
unfolding exec
exec-OnOk f w =
    OnOk-bind (λ t. t ≡ w.tables) _ statement _ w (statement-Same w)
      λ _ u p.
        subst (λ t. OnOk (λ t'. f t ≡ ok t') (write (f u.tables) u)) p (write-OnOk (f u.tables) u)

-- Where the action returns, its value and the tables behind it are related by `P`.
abbrev pub Returns : {A : Type 0} → (A → Tables → Type 0) → Result A × World → Type 0
Returns P (ok a, w) = P a w.tables
Returns P (err e, w) = Unit

Returns-continue :
    {A B : Type 0} (P : A → Tables → Type 0) (Q : B → Tables → Type 0) (r : Result A) (v : World)
    (f : A → Act B)
    → Returns P (r, v)
    → ((a : A) (u : World) → P a u.tables → Returns Q (f a u))
    → Returns Q (continue r f v)
Returns-continue P Q (ok a) v f p k = k a v p
Returns-continue P Q (err e) v f p k = tt

pub Returns-bind :
    {A B : Type 0} (P : A → Tables → Type 0) (Q : B → Tables → Type 0) (m : Act A) (f : A → Act B)
    (w : World)
    → Returns P (m w)
    → ((a : A) (u : World) → P a u.tables → Returns Q (f a u))
    → Returns Q ((m >>= f) w)
unfolding ◌>>=◌
Returns-bind P Q m f w p k = let (r, v) = m w in Returns-continue P Q r v f p k

pub OnOk-Returns :
    {A : Type 0} (Q : Tables → Type 0) (o : Result A × World) → Returns (λ _. Q) o → OnOk Q o
OnOk-Returns Q (ok a, w) p = p
OnOk-Returns Q (err e, w) p = tt

pub Returns-OnOk :
    {A : Type 0} (Q : Tables → Type 0) (o : Result A × World) → OnOk Q o → Returns (λ _. Q) o
Returns-OnOk Q (ok a, w) p = p
Returns-OnOk Q (err e, w) p = tt

-- A read returns what it reads of the tables, which it leaves alone.
pub select-Returns :
    {A : Type 0} (f : Tables → A) (w : World)
    → Returns (λ a t. (a ≡ f t) × (t ≡ w.tables)) (select f w)
unfolding select gets
select-Returns f w =
    Returns-bind (λ _ t. t ≡ w.tables) _ statement _ w
      (Returns-OnOk (λ t. t ≡ w.tables) (statement w) (statement-Same w)) (λ _ u p. (refl, p))

-- An action that leaves this never returns.
abbrev pub Never : Tables → Type 0
Never t = ⊥

anything : {A : Type 0} (o : Result A × World) → OnOk (λ _. Unit) o
anything (ok a, w) = tt
anything (err e, w) = tt

pub behind :
    {A B : Type 0} (m : Act A) (f : A → Act B)
    → ((a : A) (u : World) → OnOk Never (f a u))
    → (w : World) → OnOk Never ((m >>= f) w)
behind m f k w = OnOk-bind (λ _. Unit) Never m f w (anything (m w)) (λ a u _. k a u)

-- The value of an optional result.
pub some_or-Returns :
    {A : Type 0} (e : Error) (o : Option A) (w : World)
    → Returns (λ a t. (o ≡ some a) × (t ≡ w.tables)) (some_or e o w)
unfolding some_or
some_or-Returns e none w = tt
some_or-Returns e (some a) w = (refl, refl)

-- Behind a guard its test is false.
pub fail_if-Returns :
    (b : Bool) (e : Error) (w : World)
    → Returns (λ _ t. (b ≡ false) × (t ≡ w.tables)) (fail_if b e w)
unfolding fail_if
fail_if-Returns true e w = tt
fail_if-Returns false e w = (refl, refl)

pub Returns-weaken :
    {A : Type 0} (P Q : A → Tables → Type 0) (o : Result A × World)
    → Returns P o
    → ((a : A) (t : Tables) → P a t → Q a t)
    → Returns Q o
Returns-weaken P Q (ok a, w) h k = k a w.tables h
Returns-weaken P Q (err e, w) h k = tt

affected-Returns :
    (e : Error) (o : Option Tables) (w : World) → Returns (λ _ t. o ≡ some t) (affected e o w)
unfolding affected
affected-Returns e none w = tt
affected-Returns e (some t) w = refl

pub affect-Returns :
    (e : Error) (f : Tables → Option Tables) (w : World)
    → Returns (λ _ t. f w.tables ≡ some t) (affect e f w)
unfolding affect
affect-Returns e f w =
    Returns-bind (λ _ t. t ≡ w.tables) _ statement _ w
      (Returns-OnOk (λ t. t ≡ w.tables) (statement w) (statement-Same w))
      λ _ u p.
        subst (λ t. Returns (λ _ t'. f t ≡ some t') (affected e (f u.tables) u)) p
          (affected-Returns e (f u.tables) u)
