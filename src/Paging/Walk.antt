-- ===== src/Paging/Walk.antt =====
-- The pages that follow one another (internal/storage/postgres/store_log.go, ListLogEvents): the
-- token of a page is the key of the first row that the page leaves out, and the next page starts
-- behind that key.
use fincore_ledger.Prelude.{
  ℕ, zero, suc, ◌+◌, ◌<◌, ◌≡◌, ◌⊎◌, inl, inr, refl, sym, ap, subst, ◌∙◌, ByteString, Bool, true,
  false, none, some, List, [], ◌∷◌, ◌++◌, ◌&&◌, ◌||◌, ◌==◌, ltb, All, is_empty, length, filter,
  take, get_elem?, if◌then◌else◌, length-append, arith,
}
use fincore_ledger.Storage.Pages.{Page, precedes, past_text, query_page, cut_page, token_of}

asym_step :
    (a b c d : Bool) (x y : ℕ)
    → (a ≡ true → b ≡ false)
    → ltb x y || (x == y && a) ≡ true
    → ltb y x || (y == x && b) ≡ false
asym_step true b c d x y h k = let p = h refl in ground arith
asym_step false b c d x y h k = ground arith

precedes_asym : (s t : ByteString) → precedes s t ≡ true → precedes t s ≡ false
unfolding precedes
precedes_asym s [] h = cc
precedes_asym [] (d ∷ t) h = refl
precedes_asym (c ∷ s) (d ∷ t) h =
    asym_step (precedes s t) (precedes t s) true true c d (precedes_asym s t) h

irrefl_step : (a : Bool) (x : ℕ) → a ≡ false → ltb x x || (x == x && a) ≡ false
irrefl_step a x h = ground arith

pub precedes_irrefl : (s : ByteString) → precedes s s ≡ false
unfolding precedes
precedes_irrefl [] = refl
precedes_irrefl (c ∷ s) = irrefl_step (precedes s s) c (precedes_irrefl s)

module _ {A : Type 0} (key : A → ByteString) where
  -- The rows that the client gets, on fuel.
  unfoldable pub walk : ℕ → ℕ → ByteString → List A → List A
  walk zero n token xs = []
  walk (suc fuel) n token xs =
      let p = query_page key (past_text key) n token xs in
      let rest = walk fuel n p.next_token xs in
      if is_empty p.next_token then p.items else p.items ++ rest

  -- Each row precedes all later ones, and has a key.
  abbrev pub Ordered : List A → Type 0
  Ordered [] = Unit
  Ordered (x ∷ xs) =
      (All (λ y. precedes (key x) (key y) ≡ true) xs × (is_empty (key x) ≡ false)) × Ordered xs

-- A list without its elements number n + 1, 2n + 2 and so on; `k` of a block are still to come.
unfoldable pub skim_from : {A : Type 0} → ℕ → ℕ → List A → List A
skim_from n k [] = []
skim_from n (suc k) (x ∷ xs) = x ∷ skim_from n k xs
skim_from n zero (x ∷ xs) = skim_from n n xs

abbrev pub skim : {A : Type 0} → ℕ → List A → List A
skim n xs = skim_from n n xs

module _ {A : Type 0} where
  -- A block with nothing behind it, or with a row that the skimming leaves out.
  skim_block :
      (n k : ℕ) (xs : List A)
      → ((get_elem? (take (suc k) xs) k ≡ none) × (take k (take (suc k) xs) ≡ skim_from n k xs))
        ⊎ ((q : A) × (ys : List A) × ((get_elem? (take (suc k) xs) k ≡ some q)
              × ((xs ≡ take k (take (suc k) xs) ++ (q ∷ ys))
                  × (skim_from n k xs ≡ take k (take (suc k) xs) ++ skim n ys))))
  unfolding skim_from
  skim_block n zero [] = inl (refl, refl)
  skim_block n (suc k) [] = inl (refl, refl)
  skim_block n zero (x ∷ xs) = inr (x, xs, (refl, (refl, refl)))
  skim_block n (suc k) (x ∷ xs) = elim (skim_block n k xs) [
    | inl (e, p) ↦ inl (e, ap (λ ys. x ∷ ys) p)
    | inr (q, ys, (e, (p, r))) ↦ inr (q, ys, (e, (ap (λ ys. x ∷ ys) p, ap (λ ys. x ∷ ys) r)))
  ]

module _ {A : Type 0} (key : A → ByteString) where
  -- A page, and what follows it where there is a next one.
  abbrev pub joined : Page A → (ByteString → List A) → List A
  joined p rest = if is_empty p.next_token then p.items else p.items ++ rest p.next_token

  joined_last :
      (items ys : List A) (t : ByteString) (rest : ByteString → List A)
      → t ≡ []
      → items ≡ ys
      → joined (record { items = items; next_token = t }) rest ≡ ys
  joined_last items ys t rest e p =
      subst (λ t. (if is_empty t then items else items ++ rest t) ≡ ys) (sym e) p

  joined_more :
      (b : Bool) (items ys zs : List A)
      → b ≡ false
      → ys ≡ zs
      → (if b then items else items ++ ys) ≡ items ++ zs
  joined_more true items ys zs e p = cc
  joined_more false items ys zs e p = ap (λ ys. items ++ ys) p

  joined_next :
      (q : A) (items zs : List A) (rest : ByteString → List A) {t : ByteString}
      → t ≡ key q
      → is_empty (key q) ≡ false
      → rest (key q) ≡ zs
      → joined (record { items = items; next_token = t }) rest ≡ items ++ zs
  joined_next q items zs rest e h p =
      subst (λ t. (if is_empty t then items else items ++ rest t) ≡ items ++ zs) (sym e)
        (joined_more (is_empty (key q)) items (rest (key q)) zs h p)

  row_kept :
      (b : Bool) (y : A) (zs ys : List A) → b ≡ true → zs ≡ ys → (if b then y ∷ zs else zs) ≡ y ∷ ys
  row_kept true y zs ys e p = ap (λ ys. y ∷ ys) p
  row_kept false y zs ys e p = cc

  row_passed :
      (b : Bool) (y : A) (zs ys : List A) → b ≡ false → zs ≡ ys → (if b then y ∷ zs else zs) ≡ ys
  row_passed true y zs ys e p = cc
  row_passed false y zs ys e p = p

  joined-skim :
      (n : ℕ) (ys : List A) (rest : ByteString → List A)
      → ((q : A) (zs : List A)
          → ys ≡ take n (take (suc n) ys) ++ (q ∷ zs)
          → (is_empty (key q) ≡ false) × (rest (key q) ≡ skim n zs))
      → joined (cut_page key n (take (suc n) ys)) rest ≡ skim n ys
  unfolding cut_page token_of
  joined-skim n ys rest k = elim (skim_block n n ys) [
    | inl (e, p) ↦ joined_last _ _ _ rest (ap (token_of key) e) p
    | inr (q, zs, (e, (p, r))) ↦
        joined_next q _ _ rest (ap (token_of key) e) (k q zs p).0 (k q zs p).1 ∙ sym r
  ]

  filter-kept :
      (p : A) (ys : List A)
      → All (λ y. precedes (key p) (key y) ≡ true) ys
      → filter (past_text key (key p)) ys ≡ ys
  filter-kept p [] h = refl
  filter-kept p (y ∷ ys) h = row_kept _ y _ ys h.0 (filter-kept p ys h.1)

  All-middle : (P : A → Type 0) (pre : List A) (p : A) (ys : List A) → All P (pre ++ (p ∷ ys)) → P p
  All-middle P [] p ys h = h.0
  All-middle P (a ∷ pre) p ys h = All-middle P pre p ys h.1

  filter-past :
      (pre : List A) (p : A) (ys : List A)
      → Ordered key (pre ++ (p ∷ ys))
      → filter (past_text key (key p)) (pre ++ (p ∷ ys)) ≡ ys
  filter-past [] p ys h = row_passed _ p _ ys (precedes_irrefl (key p)) (filter-kept p ys h.0.0)
  filter-past (a ∷ pre) p ys h =
      row_passed _ a _ ys (precedes_asym (key a) (key p) (All-middle _ pre p ys h.0.0))
        (filter-past pre p ys h.1)

  pub Ordered-middle :
      (pre : List A) (p : A) (ys : List A)
      → Ordered key (pre ++ (p ∷ ys))
      → is_empty (key p) ≡ false
  Ordered-middle [] p ys h = h.0.1
  Ordered-middle (a ∷ pre) p ys h = Ordered-middle pre p ys h.1

  second : (b : Bool) (xs zs : List A) → b ≡ false → (if b then xs else zs) ≡ zs
  second true xs zs e = cc
  second false xs zs e = refl

  one_more : (n : ℕ) → n + 1 ≡ suc n
  one_more n = omega arith

  page_behind :
      (n : ℕ) (pre : List A) (p : A) (ys : List A)
      → Ordered key (pre ++ (p ∷ ys))
      → query_page key (past_text key) n (key p) (pre ++ (p ∷ ys))
        ≡ cut_page key n (take (suc n) ys)
  unfolding query_page
  page_behind n pre p ys h =
      ap (λ ys. cut_page key n (take (n + 1) ys))
        (second (is_empty (key p)) _ _ (Ordered-middle pre p ys h) ∙ filter-past pre p ys h)
      ∙ ap (λ m. cut_page key n (take m ys)) (one_more n)

  page_first :
      (n : ℕ) (xs : List A)
      → query_page key (past_text key) n [] xs ≡ cut_page key n (take (suc n) xs)
  unfolding query_page
  page_first n xs = ap (λ m. cut_page key n (take m xs)) (one_more n)

  shorter :
      (ys items : List A) (q : A) (zs : List A) (fuel : ℕ)
      → ys ≡ items ++ (q ∷ zs)
      → length ys < suc fuel
      → length zs < fuel
  shorter ys items q zs fuel e l =
      let same : length ys ≡ length items + length (q ∷ zs) =
        ap length e ∙ length-append items (q ∷ zs) in
      omega arith

  none_below : (m : ℕ) → m < 0 → ⊥
  none_below m l = omega arith

  regroup :
      (pre : List A) (p : A) (xs ys : List A) → pre ++ (p ∷ (xs ++ ys)) ≡ (pre ++ (p ∷ xs)) ++ ys
  regroup [] p xs ys = refl
  regroup (a ∷ pre) p xs ys = ap (λ ys. a ∷ ys) (regroup pre p xs ys)

  -- Behind a row, the pages give the rows that follow it, skimmed.
  pub walk-behind :
      (fuel n : ℕ) (pre : List A) (p : A) (ys : List A)
      → Ordered key (pre ++ (p ∷ ys))
      → length ys < fuel
      → walk key fuel n (key p) (pre ++ (p ∷ ys)) ≡ skim n ys
  unfolding walk
  walk-behind zero n pre p ys h l = elim (none_below (length ys) l) [ ]
  walk-behind (suc fuel) n pre p ys h l =
      let rest = λ (t : ByteString). walk key fuel n t (pre ++ (p ∷ ys)) in
      ap (λ page. joined page rest) (page_behind n pre p ys h)
      ∙ joined-skim n ys rest λ q zs e.
        let more = pre ++ (p ∷ take n (take (suc n) ys)) in
        let same : pre ++ (p ∷ ys) ≡ more ++ (q ∷ zs) =
          ap (λ ys. pre ++ (p ∷ ys)) e ∙ regroup pre p _ (q ∷ zs) in
        let ordered = subst (Ordered key) same h in
        (
          Ordered-middle more q zs ordered,
          ap (λ xs. walk key fuel n (key q) xs) same
              ∙ walk-behind fuel n more q zs ordered (shorter ys _ q zs fuel e l),
        )

  -- From the start, the pages give the rows, skimmed.
  pub walk-skim :
      (fuel n : ℕ) (xs : List A)
      → Ordered key xs
      → length xs < fuel
      → walk key fuel n [] xs ≡ skim n xs
  unfolding walk
  walk-skim zero n xs h l = elim (none_below (length xs) l) [ ]
  walk-skim (suc fuel) n xs h l =
      let rest = λ (t : ByteString). walk key fuel n t xs in
      ap (λ page. joined page rest) (page_first n xs)
      ∙ joined-skim n xs rest λ q zs e.
        let ordered = subst (Ordered key) e h in
        (
          Ordered-middle _ q zs ordered,
          ap (λ xs. walk key fuel n (key q) xs) e
              ∙ walk-behind fuel n _ q zs ordered (shorter xs _ q zs fuel e l),
        )
