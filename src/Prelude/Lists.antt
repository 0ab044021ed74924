-- ===== src/Prelude/Lists.antt =====
-- Lists measured and searched with native numbers and Boolean tests, under the library's names.
use Prim.Native.Nat.{ℕ, zero, suc, ◌+◌}
use mathlib.Core.Path.{◌≡◌, refl, sym, ap, subst}
use mathlib.Core.Bool.{Bool, true, false, ◌||◌}
use mathlib.Core.List.{List, [], ◌∷◌, ◌++◌}
use mathlib.Core.Option.{Option, none, some}
use native.Mathlib.Omega.{arith}
use fincore_ledger.Prelude.Tests.{if◌then◌else◌}

module _ {ℓ} {A : Type ℓ} where
  abbrev pub length : List A → ℕ
  length [] = 0
  length (x ∷ xs) = suc (length xs)

  abbrev pub All {κ} : (A → Type κ) → List A → Type κ
  All P [] = Unit {κ}
  All P (x ∷ xs) = P x × All P xs

  -- The rows for which a test holds.
  abbrev pub filter : (A → Bool) → List A → List A
  filter p [] = []
  filter p (x ∷ xs) = if p x then x ∷ filter p xs else filter p xs

  abbrev pub any : (A → Bool) → List A → Bool
  any p [] = false
  any p (x ∷ xs) = p x || any p xs

  -- The first row for which a test holds.
  abbrev pub find? : (A → Bool) → List A → Option A
  find? p [] = none
  find? p (x ∷ xs) = if p x then some x else find? p xs

  -- Every row for which the test holds is rewritten.
  abbrev pub update_where : (A → Bool) → (A → A) → List A → List A
  update_where p f [] = []
  update_where p f (x ∷ xs) = (if p x then f x else x) ∷ update_where p f xs

  abbrev pub is_empty : List A → Bool
  is_empty [] = true
  is_empty (x ∷ xs) = false

  abbrev pub drop : ℕ → List A → List A
  drop zero xs = xs
  drop (suc n) [] = []
  drop (suc n) (x ∷ xs) = drop n xs

  abbrev pub take : ℕ → List A → List A
  take zero xs = []
  take (suc n) [] = []
  take (suc n) (x ∷ xs) = x ∷ take n xs

  abbrev pub get_elem? : List A → ℕ → Option A
  get_elem? [] i = none
  get_elem? (x ∷ xs) zero = some x
  get_elem? (x ∷ xs) (suc i) = get_elem? xs i

  pub length-append : (xs ys : List A) → length (xs ++ ys) ≡ length xs + length ys
  length-append [] ys = omega arith
  length-append (x ∷ xs) ys = omega (arith, length-append xs ys)

  pub All-append {κ} : (P : A → Type κ) (xs ys : List A) → All P xs → All P ys → All P (xs ++ ys)
  All-append P [] ys hx hy = hy
  All-append P (x ∷ xs) ys hx hy = (hx.0, All-append P xs ys hx.1 hy)

  pub append_nil : (xs : List A) → xs ++ [] ≡ xs
  append_nil [] = refl
  append_nil (x ∷ xs) = ap (λ ys. x ∷ ys) (append_nil xs)

  pub append_assoc : (xs ys zs : List A) → (xs ++ ys) ++ zs ≡ xs ++ (ys ++ zs)
  append_assoc [] ys zs = refl
  append_assoc (x ∷ xs) ys zs = ap (λ ys. x ∷ ys) (append_assoc xs ys zs)

  -- What the first row for which a test holds becomes, where rows are rewritten in ways that the test
  -- does not see.
  first_rewritten :
      (s : Bool) (x y b : A) (o o' : Option A) (g : A → A)
      → y ≡ g x
      → (if s then some x else o) ≡ some b
      → (o ≡ some b → o' ≡ some (g b))
      → (if s then some y else o') ≡ some (g b)
  first_rewritten true x y b o o' g e h k = cc
  first_rewritten false x y b o o' g e h k = k h

  test_kept :
      (p : A → Bool) (f : A → A) (t : Bool) (x : A) → p (f x) ≡ p x → p x ≡ p (if t then f x else x)
  test_kept p f true x h = sym h
  test_kept p f false x h = refl

  pub find?-update_where :
      (p q : A → Bool) (f : A → A) (xs : List A) (b : A)
      → ((x : A) → p (f x) ≡ p x)
      → find? p xs ≡ some b
      → find? p (update_where q f xs) ≡ some (if q b then f b else b)
  find?-update_where p q f [] b k h = cc
  find?-update_where p q f (x ∷ xs) b k h =
      subst
        (λ s.
          (if s then some (if q x then f x else x) else find? p (update_where q f xs))
          ≡ some (if q b then f b else b))
        (test_kept p f (q x) x (k x))
        (first_rewritten (p x) x _ b (find? p xs) _ (λ b. if q b then f b else b) refl h
          (find?-update_where p q f xs b k))

  found_passes :
      (p : A → Bool) (s : Bool) (x b : A) (o : Option A)
      → p x ≡ s
      → (if s then some x else o) ≡ some b
      → (o ≡ some b → p b ≡ true)
      → p b ≡ true
  found_passes p true x b o e h k = let same : x ≡ b = cc in subst (λ b. p b ≡ true) same e
  found_passes p false x b o e h k = k h

  pub find?-passes : (p : A → Bool) (xs : List A) (b : A) → find? p xs ≡ some b → p b ≡ true
  find?-passes p [] b h = cc
  find?-passes p (x ∷ xs) b h = found_passes p (p x) x b (find? p xs) refl h (find?-passes p xs b)
