-- ===== src/Planner/Hashing.antt =====
-- The idempotency hashes (internal/planner/operations_post.go `writeHashField`,
-- `computeGenericIdempotencyHash`, `computeIdempotencyHash`).
use fincore_ledger.Prelude.{
  ByteString, Bool, true, false, Option, none, some, List, [], ◌∷◌, ◌++◌, ltb, ◌==◌, if◌then◌else◌,
}
use fincore_ledger.Bigamount.{to_string}
use fincore_ledger.Batches.Merkle.{write_field}
use fincore_ledger.Storage.Records.{Metadata, Time}
use fincore_ledger.Planner.Inputs.{Host, PostingInput}
use fincore_ledger.Planner.Validation.{deref}

-- The bytes that the hash is given: every field behind its length.
unfoldable pub frame_fields : List ByteString → ByteString
frame_fields [] = []
frame_fields (f ∷ fs) = write_field f ++ frame_fields fs

unfoldable pub generic_hash : Host → List ByteString → ByteString
generic_hash host fields = host.sha256 (frame_fields fields)

unfoldable pub posting_fields : List PostingInput → List ByteString
posting_fields [] = []
posting_fields (p ∷ ps) =
    p.source ∷ p.destination ∷ to_string (deref p.amount) ∷ p.asset ∷ posting_fields ps

-- `sort.Strings`, byte by byte.
unfoldable pub before : ByteString → ByteString → Bool
before [] t = true
before (c ∷ s) [] = false
before (c ∷ s) (d ∷ t) = if ltb c d then true else if c == d then before s t else false

unfoldable pub insert_key : ByteString × ByteString → Metadata → Metadata
insert_key e [] = e ∷ []
insert_key e (f ∷ m) = if before e.0 f.0 then e ∷ f ∷ m else f ∷ insert_key e m

unfoldable pub sort_keys : Metadata → Metadata
unfolding insert_key before
sort_keys [] = []
sort_keys (e ∷ m) = insert_key e (sort_keys m)

unfoldable pub entry_fields : Metadata → List ByteString
entry_fields [] = []
entry_fields ((k, v) ∷ m) = k ∷ v ∷ entry_fields m

abbrev pub time_field : Host → Option Time → List ByteString
time_field host none = []
time_field host (some t) = host.format_time t ∷ []

-- The fields of a post, in the order in which they are written.
unfoldable pub post_fields :
    Host → ByteString → List PostingInput → ByteString → Metadata → Option Time → List ByteString
unfolding posting_fields sort_keys entry_fields
post_fields host ledger_id postings reference metadata valid_time =
    ledger_id
    ∷ reference
    ∷ (posting_fields postings ++ (entry_fields (sort_keys metadata) ++ time_field host valid_time))

-- `computeIdempotencyHash`
unfoldable pub post_hash :
    Host → ByteString → List PostingInput → ByteString → Metadata → Option Time → ByteString
unfolding post_fields
post_hash host ledger_id postings reference metadata valid_time =
    host.sha256 (frame_fields (post_fields host ledger_id postings reference metadata valid_time))
