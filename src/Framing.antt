-- ===== src/Framing.antt =====
-- The framing of fields in front of a hash (internal/planner/operations_post.go `writeHashField`,
-- internal/log/merkle/merkle.go `writeField`).
use fincore_ledger.Prelude.{
  str_eq, append_assoc, ℕ, ◌+◌, ◌*◌, ◌<◌, ◌≡◌, refl, sym, ◌∙◌, ap, ByteString, Option, List, [],
  ◌∷◌, ◌++◌, length, All, arith, Bool, true, false, if◌then◌else◌,
}
use fincore_ledger.Batches.Merkle.{be32, write_field, leaf_preimage}
use fincore_ledger.Bigamount.{to_string}
use fincore_ledger.Storage.Records.{Time}
use fincore_ledger.Planner.Inputs.{Host, PostingInput}
use fincore_ledger.Planner.Validation.{deref}
use fincore_ledger.Planner.Hashing.{
  frame_fields, posting_fields, before, insert_key, sort_keys, entry_fields, time_field,
  post_fields, post_hash,
}

-- The number that four bytes stand for.
read32 : ByteString → ℕ
read32 (a ∷ b ∷ c ∷ d ∷ s) = a * 16777216 + b * 65536 + c * 256 + d
read32 s = 0

read32-be32 : (n : ℕ) (s : ByteString) → n < 4294967296 → read32 (be32 n ++ s) ≡ n
unfolding read32 be32
read32-be32 n s h = omega arith

rest_of : ByteString → ByteString
rest_of [] = []
rest_of (c ∷ s) = s

split_same : (x y s t : ByteString) → length x ≡ length y → x ++ s ≡ y ++ t → (x ≡ y) × (s ≡ t)
split_same [] [] s t h e = (refl, e)
split_same [] (d ∷ y) s t h e = absurd (omega arith)
split_same (c ∷ x) [] s t h e = absurd (omega arith)
split_same (c ∷ x) (d ∷ y) s t h e =
    let first : c ≡ d = cc in
    let others : x ++ s ≡ y ++ t = cc in
    let (p, q) = split_same x y s t (omega arith) others in (cc, q)

-- A length that four bytes can hold.
abbrev pub Fits : ByteString → Type 0
Fits f = length f < 4294967296

field_same :
    (x y s t : ByteString)
    → Fits x
    → Fits y
    → write_field x ++ s ≡ write_field y ++ t
    → (x ≡ y) × (s ≡ t)
unfolding write_field be32 rest_of
field_same x y s t hx hy e =
    let lengths : length x ≡ length y =
      sym (read32-be32 (length x) (x ++ s) hx) ∙ ap read32 e ∙ read32-be32 (length y) (y ++ t) hy in
    split_same x y s t lengths (ap (λ z. rest_of (rest_of (rest_of (rest_of z)))) e)

-- Lists of fields that fit are told apart by the bytes that are hashed.
pub frame_fields-injective :
    (fs gs : List ByteString)
    → All Fits fs
    → All Fits gs
    → frame_fields fs ≡ frame_fields gs
    → fs ≡ gs
unfolding frame_fields write_field be32
frame_fields-injective [] [] hf hg e = refl
frame_fields-injective [] (g ∷ gs) hf hg e = cc
frame_fields-injective (f ∷ fs) [] hf hg e = cc
frame_fields-injective (f ∷ fs) (g ∷ gs) hf hg e =
    let (p, q) = field_same f g (frame_fields fs) (frame_fields gs) hf.0 hg.0 e in
    let r = frame_fields-injective fs gs hf.1 hg.1 q in cc

-- The bytes that a leaf hash is given tell leaves apart, where their fields fit.
pub leaf_preimage-injective :
    (a b c d a' b' c' d' : ByteString)
    → All Fits (a ∷ b ∷ c ∷ d ∷ [])
    → All Fits (a' ∷ b' ∷ c' ∷ d' ∷ [])
    → leaf_preimage a b c d ≡ leaf_preimage a' b' c' d'
    → (a ≡ a') × (b ≡ b') × (c ≡ c') × (d ≡ d')
unfolding leaf_preimage rest_of
leaf_preimage-injective a b c d a' b' c' d' h k e =
    let (p, e1) = field_same a a' _ _ h.0 k.0 (ap rest_of e) in
    let (q, e2) = field_same b b' _ _ h.1.0 k.1.0 e1 in
    let (r, e3) = field_same c c' _ _ h.1.1.0 k.1.1.0 e2 in
    let (s, _) = field_same d d' [] [] h.1.1.1.0 k.1.1.1.0 (ap (λ z. z ++ []) e3) in (p, q, r, s)

posting_fields-append :
    (ps : List PostingInput) (q : PostingInput)
    → posting_fields (ps ++ (q ∷ []))
      ≡ posting_fields ps ++ (q.source ∷ q.destination ∷ to_string (deref q.amount) ∷ q.asset ∷ [])
unfolding posting_fields
posting_fields-append [] q = refl
posting_fields-append (p ∷ ps) q =
    ap (λ fs. p.source ∷ p.destination ∷ to_string (deref p.amount) ∷ p.asset ∷ fs)
      (posting_fields-append ps q)

two_entries :
    (b : Bool) (e f : ByteString × ByteString)
    → b ≡ true
    → entry_fields (if b then e ∷ f ∷ [] else f ∷ e ∷ []) ≡ e.0 ∷ e.1 ∷ f.0 ∷ f.1 ∷ []
unfolding entry_fields
two_entries true e f h = refl
two_entries false e f h = cc

-- The fields do not say where the postings end: where the source of a further posting sorts before
-- its amount's digits and is not the same, a post with that posting and no metadata has the hash of
-- the post without it whose metadata maps the source to the destination and the amount to the asset.
pub post_hash-collides :
    (host : Host) (ledger_id : ByteString) (ps : List PostingInput) (q : PostingInput)
    (reference : ByteString) (valid_time : Option Time)
    → before q.source (to_string (deref q.amount)) ≡ true
    → str_eq q.source (to_string (deref q.amount)) ≡ false
    → post_hash host ledger_id (ps ++ (q ∷ [])) reference [] valid_time
      ≡ post_hash host ledger_id ps reference
          ((q.source, q.destination) ∷ (to_string (deref q.amount), q.asset) ∷ [])
          valid_time
unfolding post_hash post_fields sort_keys insert_key entry_fields
post_hash-collides host l ps q r v h _ =
    let four = q.source ∷ q.destination ∷ to_string (deref q.amount) ∷ q.asset ∷ [] in
    let tail = time_field host v in
    let sorted : entry_fields
          (sort_keys ((q.source, q.destination) ∷ (to_string (deref q.amount), q.asset) ∷ []))
        ≡ four =
      two_entries _ (q.source, q.destination) (to_string (deref q.amount), q.asset) h in
    ap (λ fs. host.sha256 (frame_fields (l ∷ r ∷ fs)))
      (ap (λ fs. fs ++ tail) (posting_fields-append ps q)
        ∙ append_assoc (posting_fields ps) four tail
        ∙ ap (λ fs. posting_fields ps ++ (fs ++ tail)) (sym sorted))
