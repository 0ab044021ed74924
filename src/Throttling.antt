-- ===== src/Throttling.antt =====
-- How many requests the rate limiter lets through (internal/api/grpc/ratelimit/ratelimit.go).
use fincore_ledger.Prelude.{
  ℕ, ◌+◌, ◌-◌, ◌/◌, ◌≤◌, ◌≡◌, ◌≢◌, refl, ap, ByteString, codes, Bool, true, false, List, [], ◌∷◌,
  ◌&&◌, not, ◌==◌, leb, str_eq, str_eq→eq, if◌then◌else◌, arith,
}
use fincore_ledger.Api.Ratelimit.{
  Limiter, Arrival, Counters, limit_for, is_write_method, window_key, key_of, count_of, incr,
  counted, check, check_all,
}

-- How many of the requests with a key have been let through by their count.
unfoldable pub admitted : Limiter → ByteString → List (Arrival × Bool) → ℕ
admitted l k [] = 0
admitted l k ((a, allowed) ∷ rest) =
    let n = admitted l k rest in
    if allowed && (not a.counter_fails && str_eq (key_of l a) k) then n + 1 else n

abbrev pub class_of : Bool → ℕ → ℕ → ℕ × ByteString
class_of b x y = if b then (x, codes "w") else (y, codes "r")

-- The key of a request tells its limit.
class_limit :
    (b c : Bool) (x y : ℕ) (s t : ByteString) (u v : ℕ)
    → str_eq (window_key (class_of b x y).1 s u) (window_key (class_of c x y).1 t v) ≡ true
    → (class_of b x y).0 ≡ (class_of c x y).0
unfolding window_key str_eq
class_limit true true x y s t u v h = refl
class_limit false false x y s t u v h = refl
class_limit true false x y s t u v h = cc
class_limit false true x y s t u v h = cc

key-limit :
    (l : Limiter) (a b : Arrival)
    → str_eq (key_of l a) (key_of l b) ≡ true
    → (limit_for l a.method).0 ≡ (limit_for l b.method).0
unfolding key_of limit_for
key-limit l a b h =
    class_limit (is_write_method a.method) (is_write_method b.method) l.write_rps l.read_rps
      a.subject b.subject (a.time / 1000000000) (b.time / 1000000000) h

unlimited_step :
    (f same : Bool) (limit n rest m : ℕ)
    → rest ≤ n - m
    → (same ≡ true → limit ≡ n)
    → (limit == 0) ≡ true
    → n ≢ 0
    → (if true && (not f && same) then rest + 1 else rest) ≤ n - m
unlimited_step f true limit n rest m h p z k =
    let e = p refl in elim (k (zero_limit limit n e z)) [ ]
  where
    zero_limit : (limit n : ℕ) → limit ≡ n → (limit == 0) ≡ true → n ≡ 0
    zero_limit limit n e z = ground arith
unlimited_step true false limit n rest m h p z k = h
unlimited_step false false limit n rest m h p z k = h

counted_step :
    (same : Bool) (limit n rest m m' : ℕ)
    → rest ≤ n - (if same then m + 1 else m')
    → (same ≡ true → (limit ≡ n) × (m ≡ m'))
    → (if leb (m + 1) limit && (true && same) then rest + 1 else rest) ≤ n - m'
counted_step true limit n rest m m' h p = let (e, q) = p refl in ground arith
counted_step false limit n rest m m' h p = ground arith

module _ (l : Limiter) (k : ByteString) (n : ℕ) (some_limit : n ≢ 0)
    (same_limit : (a : Arrival) → str_eq (key_of l a) k ≡ true → (limit_for l a.method).0 ≡ n) where
  check_step :
      (a : Arrival) (cs : Counters) (rest : Counters → ℕ) (zero_limit fails : Bool)
      → ((cs : Counters) → rest cs ≤ n - count_of k cs)
      → ((limit_for l a.method).0 == 0) ≡ zero_limit
      → let (allowed, cs') : Bool × Counters =
          if zero_limit
          then (true, cs)
          else if fails
          then (true, cs)
          else counted (limit_for l a.method).0 (incr (key_of l a) cs) in
        (if allowed && (not fails && str_eq (key_of l a) k) then rest cs' + 1 else rest cs')
        ≤ n - count_of k cs
  unfolding counted incr count_of
  check_step a cs rest true f h z =
      unlimited_step f (str_eq (key_of l a) k) _ n (rest cs) (count_of k cs) (h cs) (same_limit a) z
        some_limit
  check_step a cs rest false true h z = h cs
  check_step a cs rest false false h z =
      counted_step (str_eq (key_of l a) k) _ n _ (count_of (key_of l a) cs) (count_of k cs)
        (h ((key_of l a, count_of (key_of l a) cs + 1) ∷ cs))
        (λ e. (same_limit a e, ap (λ k. count_of k cs) (str_eq→eq (key_of l a) k e)))

  admitted-bound :
      (rs : List Arrival) (cs : Counters) → admitted l k (check_all l rs cs) ≤ n - count_of k cs
  unfolding admitted check_all check
  admitted-bound [] cs = omega arith
  admitted-bound (a ∷ rs) cs =
      check_step a cs (λ cs. admitted l k (check_all l rs cs)) _ a.counter_fails (admitted-bound rs)
        refl

within : (x n m : ℕ) → x ≤ n - m → x ≤ n
within x n m h = omega arith

-- Whatever requests arrive, of those with the key of one of them, which are its caller's requests of
-- one class in one second, at most the limit of the class are let through while Redis answers, where
-- the class has a limit.
pub check_all-bound :
    (l : Limiter) (a : Arrival) (rs : List Arrival)
    → (limit_for l a.method).0 ≢ 0
    → admitted l (key_of l a) (check_all l rs []) ≤ (limit_for l a.method).0
unfolding count_of
check_all-bound l a rs h =
    within _ _ _
      (admitted-bound l (key_of l a) (limit_for l a.method).0 h (λ b. key-limit l b a) rs [])
