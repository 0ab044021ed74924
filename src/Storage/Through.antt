-- ===== src/Storage/Through.antt =====
-- Actions where no call fails.
use fincore_ledger.Prelude.{◌≡◌, ap, []}
use fincore_ledger.Storage.World.{World, Act, ok, continue, take_fault, call, ◌>>=◌}

-- A call that no fault awaits goes through, and leaves the state alone.
pub call_through : (w : World) → w.faults ≡ [] → call w ≡ (ok tt, w)
unfolding call take_fault
call_through w e = ap (λ fs. take_fault fs w) e

-- What follows an action that returns goes on from its outcome.
pub bind_ok :
    {A B : Type 0} (m : Act A) (f : A → Act B) (w v : World) (a : A)
    → m w ≡ (ok a, v)
    → (m >>= f) w ≡ f a v
unfolding ◌>>=◌
bind_ok m f w v a e = ap (λ o. continue o.0 f o.1) e
