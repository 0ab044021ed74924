-- ===== src/Batches/Overdue.antt =====
-- The overdue batches as time goes on (internal/storage/postgres/store_batches.go, ListOpenBatches):
-- those that come to be overdue later stand behind those that were so before.
use fincore_ledger.Prelude.{
  ℕ, ◌+◌, ◌≤◌, ◌≡◌, refl, ap, ◌∙◌, Bool, true, false, List, [], ◌∷◌, ◌++◌, ◌&&◌, All, filter, ltb,
  leb, if◌then◌else◌, arith,
}
use fincore_ledger.Storage.Records.{BatchRecord, Time}
use fincore_ledger.Batches.{default_max_age}
use fincore_ledger.Batches.Sweep.{is_open, is_overdue, insert_by_opening, sort_by_opening}

-- The overdue ones of these batches.
abbrev pub overdue_of : List BatchRecord → Time → List BatchRecord
overdue_of bs c = sort_by_opening (filter (is_overdue default_max_age c) bs)

-- Opened before, or not before, what is overdue at a time.
abbrev IsOld : Time → BatchRecord → Type 0
IsOld c b = ltb (b.opened_at + default_max_age) c ≡ true

abbrev IsYoung : Time → BatchRecord → Type 0
IsYoung c b = ltb (b.opened_at + default_max_age) c ≡ false

old_first : (x y c a : ℕ) → ltb (x + a) c ≡ true → ltb (y + a) c ≡ false → leb x y ≡ true
old_first x y c a h k = ground arith

young_last : (x y c a : ℕ) → ltb (x + a) c ≡ false → ltb (y + a) c ≡ true → leb x y ≡ false
young_last x y c a h k = ground arith

later_still : (x c d : ℕ) → c ≤ d → ltb x c ≡ true → ltb x d ≡ true
later_still x c d h k = ground arith

All-placed :
    (P : BatchRecord → Type 0) (s : Bool) (b x : BatchRecord) (xs ys : List BatchRecord)
    → P b
    → P x
    → All P xs
    → All P ys
    → All P (if s then b ∷ x ∷ xs else x ∷ ys)
All-placed P true b x xs ys p q h k = (p, (q, h))
All-placed P false b x xs ys p q h k = (q, k)

All-insert :
    (P : BatchRecord → Type 0) (b : BatchRecord) (xs : List BatchRecord)
    → P b
    → All P xs
    → All P (insert_by_opening b xs)
unfolding insert_by_opening
All-insert P b [] p h = (p, h)
All-insert P b (x ∷ xs) p (q, h) =
    All-placed P (leb b.opened_at x.opened_at) b x xs _ p q h (All-insert P b xs p h)

placed-append :
    (s : Bool) (b x : BatchRecord) (xs ys zs more : List BatchRecord)
    → zs ≡ ys ++ more
    → (if s then b ∷ x ∷ (xs ++ more) else x ∷ zs) ≡ (if s then b ∷ x ∷ xs else x ∷ ys) ++ more
placed-append true b x xs ys zs more e = refl
placed-append false b x xs ys zs more e = ap (λ zs. x ∷ zs) e

module _ (c : Time) where
  insert-front :
      (b : BatchRecord) (more : List BatchRecord)
      → IsOld c b
      → All (IsYoung c) more
      → insert_by_opening b more ≡ b ∷ more
  unfolding insert_by_opening
  insert-front b [] o h = refl
  insert-front b (x ∷ more) o (y, h) =
      ap (λ s. if s then b ∷ x ∷ more else x ∷ insert_by_opening b more)
        (old_first b.opened_at x.opened_at c default_max_age o y)

  insert-old :
      (b : BatchRecord) (xs more : List BatchRecord)
      → IsOld c b
      → All (IsYoung c) more
      → insert_by_opening b (xs ++ more) ≡ insert_by_opening b xs ++ more
  unfolding insert_by_opening
  insert-old b [] more o h = insert-front b more o h
  insert-old b (x ∷ xs) more o h =
      placed-append (leb b.opened_at x.opened_at) b x xs _ _ more (insert-old b xs more o h)

  insert-young :
      (b : BatchRecord) (xs more : List BatchRecord)
      → IsYoung c b
      → All (IsOld c) xs
      → insert_by_opening b (xs ++ more) ≡ xs ++ insert_by_opening b more
  unfolding insert_by_opening
  insert-young b [] more y h = refl
  insert-young b (x ∷ xs) more y (o, h) =
      ap (λ s. if s then b ∷ x ∷ (xs ++ more) else x ∷ insert_by_opening b (xs ++ more))
        (young_last b.opened_at x.opened_at c default_max_age y o)
      ∙ ap (λ zs. x ∷ zs) (insert-young b xs more y h)

  -- The second list is the first one with younger batches behind it.
  abbrev Grown : List BatchRecord → List BatchRecord → Type 0
  Grown xs ys =
      (more : List BatchRecord) × ((ys ≡ xs ++ more) × (All (IsOld c) xs × All (IsYoung c) more))

  Grown-step :
      (unclosed late later : Bool) (b : BatchRecord) (f g : List BatchRecord)
      → ltb (b.opened_at + default_max_age) c ≡ late
      → (late ≡ true → later ≡ true)
      → Grown (sort_by_opening f) (sort_by_opening g)
      → Grown
          (sort_by_opening (if unclosed && late then b ∷ f else f))
          (sort_by_opening (if unclosed && later then b ∷ g else g))
  unfolding sort_by_opening
  Grown-step false late later b f g e k h = h
  Grown-step true true false b f g e k h = let x = k refl in cc
  Grown-step true true true b f g e k (more, (p, (o, y))) = (
    more,
    (ap (insert_by_opening b) p ∙ insert-old b _ more e y, (All-insert (IsOld c) b _ e o, y)),
  )
  Grown-step true false true b f g e k (more, (p, (o, y))) = (
    insert_by_opening b more,
    (
      ap (insert_by_opening b) p ∙ insert-young b _ more e o,
      (o, All-insert (IsYoung c) b more e y),
    ),
  )
  Grown-step true false false b f g e k h = h

  overdue-Grown :
      (d : Time) (bs : List BatchRecord) → c ≤ d → Grown (overdue_of bs c) (overdue_of bs d)
  unfolding is_overdue sort_by_opening
  overdue-Grown d [] h = ([], (refl, (tt, tt)))
  overdue-Grown d (b ∷ bs) h =
      Grown-step (is_open b) (ltb (b.opened_at + default_max_age) c)
        (ltb (b.opened_at + default_max_age) d) b _ _ refl
        (later_still (b.opened_at + default_max_age) c d h) (overdue-Grown d bs h)

-- What is overdue later is what is overdue now and more behind it.
pub overdue-later :
    (c d : Time) (bs : List BatchRecord)
    → c ≤ d
    → (more : List BatchRecord) × (overdue_of bs d ≡ overdue_of bs c ++ more)
overdue-later c d bs h = let (more, (p, q)) = overdue-Grown c d bs h in (more, p)
