-- ===== src/Sdk/Listing.antt =====
-- The loop of ListHolds (pkg/sdk/operations.go) over the pages of the server.
use fincore_ledger.Prelude.{
  append_nil, append_assoc, ℕ, zero, suc, ◌+◌, ◌<◌, ◌≡◌, refl, sym, ap, subst, ◌∙◌, ByteString,
  Bool, true, false, Option, none, some, List, [], ◌∷◌, ◌++◌, ◌||◌, All, filter, take, get_elem?,
  is_empty, length, str_eq, str_eq→eq, if◌then◌else◌,
}
use fincore_ledger.Storage.Records.{HoldRecord}
use fincore_ledger.Storage.World.{World, ok, done}
use fincore_ledger.Storage.Pages
use fincore_ledger.Storage.Pages.{
  Page, precedes, past_text, query_page, cut_page, token_of, order_by, by_text, hold_row,
  page_limit,
}
use fincore_ledger.Api.Status.{answer, Rpc, respond, ◌>>=◌}
use fincore_ledger.Api.Auth.{Context}
use fincore_ledger.Api.Service.{authorize_ledger}
use fincore_ledger.Api.Queries.{list_holds_rpc}
use fincore_ledger.Paging.Walk.{walk, walk-skim, Ordered, skim, precedes_irrefl}
use fincore_ledger.Paging.Export.{bind_through, read_through}

abbrev pub default_list_page_size : ℕ
default_list_page_size = 1000

-- The loop on fuel, with the holds so far. It ends on an empty token and on one that does not change.
unfoldable pub list_holds :
    Context → ByteString → ByteString → ℕ → ByteString → List HoldRecord → Rpc (List HoldRecord)
list_holds ctx l account zero token all = respond all
list_holds ctx l account (suc fuel) token all = do
  page ← list_holds_rpc ctx l account default_list_page_size token
  let more = all ++ page.items
  let rest = list_holds ctx l account fuel page.next_token more
  if is_empty page.next_token || str_eq page.next_token token then respond more else rest

module _ {A : Type 0} (P : A → Type 0) where
  abbrev OnSome : Option A → Type 0
  OnSome none = Unit
  OnSome (some a) = P a

  All-taken : (n : ℕ) (xs : List A) → All P xs → All P (take n xs)
  All-taken zero xs h = tt
  All-taken (suc n) [] h = tt
  All-taken (suc n) (x ∷ xs) (p, h) = (p, All-taken n xs h)

  elem_of : (n : ℕ) (xs : List A) → All P xs → OnSome (get_elem? xs n)
  elem_of n [] h = tt
  elem_of zero (x ∷ xs) (p, h) = p
  elem_of (suc n) (x ∷ xs) (p, h) = elem_of n xs h

module _ {A : Type 0} (p : A → Bool) where
  filter_step :
      (b : Bool) (x : A) (ys : List A)
      → p x ≡ b
      → All (λ y. p y ≡ true) ys
      → All (λ y. p y ≡ true) (if b then x ∷ ys else ys)
  filter_step true x ys e h = (e, h)
  filter_step false x ys e h = h

  All-filtered : (xs : List A) → All (λ y. p y ≡ true) (filter p xs)
  All-filtered [] = tt
  All-filtered (x ∷ xs) = filter_step (p x) x (filter p xs) refl (All-filtered xs)

-- The token of a page is not the one that was asked for, but for the empty one.
abbrev Advances : ByteString → ByteString → Type 0
Advances token next = is_empty next || str_eq next token ≡ is_empty next

not_equal : (b c : Bool) → (b ≡ true → c ≡ true) → c ≡ false → b ≡ false
not_equal true c h e = let p = h refl in cc
not_equal false c h e = refl

or_right : (a b : Bool) → b ≡ false → a || b ≡ a
or_right true b h = refl
or_right false b h = h

Advances-start : (next : ByteString) → Advances [] next
unfolding str_eq
Advances-start [] = refl
Advances-start (c ∷ s) = refl

module _ {A : Type 0} (key : A → ByteString) where
  Advances-past :
      (token : ByteString) (o : Option A)
      → OnSome (λ x. past_text key token x ≡ true) o
      → Advances token (token_of key o)
  unfolding token_of
  Advances-past token none h = refl
  Advances-past token (some x) h = or_right (is_empty (key x)) (str_eq (key x) token) (
      not_equal (str_eq (key x) token) (precedes token token)
        (λ e. subst (λ k. precedes token k ≡ true) (str_eq→eq (key x) token e) h)
        (precedes_irrefl token))

  query_page-Advances :
      (n : ℕ) (token : ByteString) (xs : List A)
      → Advances token (query_page key (past_text key) n token xs).next_token
  unfolding query_page cut_page
  query_page-Advances n [] xs = Advances-start (token_of key (get_elem? (take (n + 1) xs) n))
  query_page-Advances n (c ∷ s) xs =
      Advances-past (c ∷ s) _
        (elem_of _ n _ (All-taken _ (n + 1) _ (All-filtered (past_text key (c ∷ s)) xs)))

abbrev pub holds_of : ByteString → ByteString → World → List HoldRecord
holds_of l account w =
    order_by (by_text (λ h. h.hold_id)) (filter (hold_row l account) w.tables.holds)

stop_or_more :
    (a b : Bool) (all items more : List HoldRecord) (m : Rpc (List HoldRecord)) (w : World)
    → a ≡ b
    → m w ≡ (ok (answer ((all ++ items) ++ more)), w)
    → (if a then respond (all ++ items) else m) w
      ≡ (ok (answer (all ++ (if b then items else items ++ more))), w)
unfolding done
stop_or_more true true all items more m w h e = refl
stop_or_more false false all items more m w h e =
    e ∙ ap (λ es. (ok (answer es), w)) (append_assoc all items more)
stop_or_more true false all items more m w h e = cc
stop_or_more false true all items more m w h e = cc

module _ (ctx : Context) (l account : ByteString) (w : World) (quiet : w.faults ≡ [])
    (allowed : authorize_ledger ctx l w ≡ (ok (answer tt), w)) where
  page-read :
      (token : ByteString)
      → list_holds_rpc ctx l account default_list_page_size token w ≡ (
        ok (
            answer (
              query_page
                (λ h. h.hold_id)
                (past_text (λ h. h.hold_id))
                1000
                token
                (holds_of l account w))),
        w,
      )
  unfolding list_holds_rpc Pages.list_holds page_limit
  page-read token = bind_through (authorize_ledger ctx l) _ w tt allowed ∙ read_through _ w quiet

  list_holds-walk :
      (fuel : ℕ) (token : ByteString) (all : List HoldRecord)
      → list_holds ctx l account fuel token all w
        ≡ (ok (answer (all ++ walk (λ h. h.hold_id) fuel 1000 token (holds_of l account w))), w)
  unfolding list_holds walk done
  list_holds-walk zero token all = ap (λ es. (ok (answer es), w)) (sym (append_nil all))
  list_holds-walk (suc fuel) token all =
      let p : Page HoldRecord =
        query_page (λ h. h.hold_id) (past_text (λ h. h.hold_id)) 1000 token
          (holds_of l account w) in
      bind_through _ _ w p (page-read token)
      ∙ stop_or_more _ _ all p.items _ _ w
          (query_page-Advances (λ h. h.hold_id) 1000 token (holds_of l account w))
          (list_holds-walk fuel p.next_token (all ++ p.items))

  -- Where no call fails and the caller reaches the ledger, and the holds have identifiers that differ
  -- and are not empty, the client's list of them has them in the order of their identifiers without
  -- those at the places 1001, 2002, 3003 and so on; fuel for one page more than there are holds is
  -- enough.
  pub list_holds-skim :
      (fuel : ℕ)
      → Ordered (λ h. h.hold_id) (holds_of l account w)
      → length (holds_of l account w) < fuel
      → list_holds ctx l account fuel [] [] w ≡ (ok (answer (skim 1000 (holds_of l account w))), w)
  list_holds-skim fuel o h =
      list_holds-walk fuel [] []
      ∙ ap (λ es. (ok (answer es), w))
          (walk-skim (λ h. h.hold_id) fuel 1000 (holds_of l account w) o h)
