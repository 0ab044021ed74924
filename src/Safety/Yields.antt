-- ===== src/Safety/Yields.antt =====
-- What a handler of the services leaves behind, with what its answer says of it
-- (internal/api/grpc).
use fincore_ledger.Prelude.{◌≡◌, refl, sym, ap, Bool, true, false}
use fincore_ledger.Storage.Records.{Error}
use fincore_ledger.Storage.World.{
  World, Tables, Act, Result, ok, err, continue, gets, call, attempt,
}
use fincore_ledger.Storage.World
use fincore_ledger.Storage.Governance.{exec_alone, store_tables}
use fincore_ledger.Storage.Pages
use fincore_ledger.Api.Status.{
  Reply, answer, status, Rpc, Code, proceed, ◌>>=◌, refuse_if, reply_of, lift, always_internal,
}
use fincore_ledger.Safety.Rules.{Preserves, Preserves-call}

abbrev pub Yields :
    {A : Type 0} → (A → Tables → Type 0) → (Tables → Type 0) → Result (Reply A) × World → Type 0
Yields Q Good (ok (answer a), w) = Q a w.tables
Yields Q Good (ok (status c), w) = Good w.tables
Yields Q Good (err e, w) = Good w.tables

module _ (Good : Tables → Type 0) where
  Yields-continue :
      {A B : Type 0} (Q : A → Tables → Type 0) (R : B → Tables → Type 0) (r : Result (Reply A))
      (v : World) (f : A → Rpc B)
      → Yields Q Good (r, v)
      → ((a : A) (u : World) → Q a u.tables → Yields R Good (f a u))
      → Yields R Good (continue r (proceed f) v)
  unfolding proceed World.done
  Yields-continue Q R (ok (answer a)) v f p k = k a v p
  Yields-continue Q R (ok (status c)) v f p k = p
  Yields-continue Q R (err e) v f p k = p

  pub Yields-then :
      {A B : Type 0} (Q : A → Tables → Type 0) (R : B → Tables → Type 0) (m : Rpc A) (f : A → Rpc B)
      (w : World)
      → Yields Q Good (m w)
      → ((a : A) (u : World) → Q a u.tables → Yields R Good (f a u))
      → Yields R Good ((m >>= f) w)
  unfolding ◌>>=◌ World.◌>>=◌
  Yields-then Q R m f w p k = let (r, v) = m w in Yields-continue Q R r v f p k

  Yields-outcome :
      {A : Type 0} (o : Result (Reply A) × World) → Good o.1.tables → Yields (λ _. Good) Good o
  Yields-outcome (ok (answer a), w) g = g
  Yields-outcome (ok (status c), w) g = g
  Yields-outcome (err e, w) g = g

  pub Yields-kept :
      {A : Type 0} (m : Rpc A) (w : World)
      → Preserves Good m
      → Good w.tables
      → Yields (λ _. Good) Good (m w)
  Yields-kept m w p g = Yields-outcome (m w) (p.at w g)

  pub Yields-Good :
      {A : Type 0} (o : Result (Reply A) × World) → Yields (λ _. Good) Good o → Good o.1.tables
  Yields-Good (ok (answer a), w) g = g
  Yields-Good (ok (status c), w) g = g
  Yields-Good (err e, w) g = g

  pub Yields-refuse_if :
      (b : Bool) (c : Code) (w : World)
      → Good w.tables
      → Yields (λ _ t. Good t × (b ≡ false)) Good (refuse_if b c w)
  unfolding refuse_if World.done
  Yields-refuse_if true c w g = g
  Yields-refuse_if false c w g = (g, refl)

  read_outcome :
      {A : Type 0} (f : Tables → A) (r : Result (Unit {0})) (v : World)
      → Good v.tables
      → let (a, u) = continue r (λ _. gets (λ w. f w.tables)) v in
        Yields (λ a t. Good t × (a ≡ f t)) Good (reply_of always_internal a u)
  unfolding reply_of gets World.done
  read_outcome f (ok x) v g = (g, refl)
  read_outcome f (err e) v g = g

  pub Yields-read :
      {A : Type 0} (f : Tables → A) (w : World)
      → Good w.tables
      → Yields (λ a t. Good t × (a ≡ f t)) Good (lift always_internal (Pages.read f) w)
  unfolding lift attempt World.◌>>=◌ Pages.read
  Yields-read f w g =
      let (r, v) = call w in read_outcome f r v ((Preserves-call {Good = Good}).at w g)

pub Yields-weaken :
    {A : Type 0} (Q R : A → Tables → Type 0) (Good Well : Tables → Type 0)
    (o : Result (Reply A) × World)
    → Yields Q Good o
    → ((a : A) (t : Tables) → Q a t → R a t)
    → ((t : Tables) → Good t → Well t)
    → Yields R Well o
Yields-weaken Q R Good Well (ok (answer a), w) p j k = j a w.tables p
Yields-weaken Q R Good Well (ok (status c), w) p j k = k w.tables p
Yields-weaken Q R Good Well (err e, w) p j k = k w.tables p

stored_outcome :
    (g : Error → Code) (s : Result Tables) (r : Result Tables) (v : World) (t : Tables)
    → s ≡ r
    → v.tables ≡ t
    → let (a, u) = store_tables s v in Yields (λ _ u. r ≡ ok u) (λ u. u ≡ t) (reply_of g a u)
unfolding reply_of store_tables World.done
stored_outcome g (ok x) r v t e p = sym e
stored_outcome g (err x) r v t e p = p

alone_outcome :
    (g : Error → Code) (f : Tables → Result Tables) (r : Result (Unit {0})) (v : World) (t : Tables)
    → v.tables ≡ t
    → let (a, u) = continue r (λ _ w. store_tables (f w.tables) w) v in
      Yields (λ _ u. f t ≡ ok u) (λ u. u ≡ t) (reply_of g a u)
unfolding reply_of World.done
alone_outcome g f (ok x) v t p = stored_outcome g (f v.tables) (f t) v t (ap f p) p
alone_outcome g f (err e) v t p = p

-- A write of its own: the tables that it computes, or the old ones.
pub Yields-alone :
    (g : Error → Code) (f : Tables → Result Tables) (w : World)
    → Yields (λ _ u. f w.tables ≡ ok u) (λ u. u ≡ w.tables) (lift g (exec_alone f) w)
unfolding lift attempt World.◌>>=◌ exec_alone
Yields-alone g f w =
    let (r, v) = call w in
    alone_outcome g f r v w.tables ((Preserves-call {Good = λ t. t ≡ w.tables}).at w refl)
