-- ===== src/Batches/Merkle.antt =====
-- Merkle roots over the leaf hashes of a batch (internal/log/merkle/merkle.go). SHA-256 is an
-- argument.
use fincore_ledger.Prelude.{
  ℕ, zero, suc, ◌/◌, ◌%◌, ◌^◌, ByteString, Bool, false, Option, none, some, List, [], ◌∷◌, ◌++◌,
  str_eq, length,
}

-- `binary.BigEndian.PutUint32(uint32(n))`
unfoldable pub be32 : ℕ → ByteString
be32 n = n / 2 ^ 24 % 256 ∷ n / 2 ^ 16 % 256 ∷ n / 2 ^ 8 % 256 ∷ n % 256 ∷ []

-- `writeField`: the length of the field and the field.
unfoldable pub write_field : ByteString → ByteString
unfolding be32
write_field data' = be32 (length data') ++ data'

unfoldable pub leaf_preimage : ByteString → ByteString → ByteString → ByteString → ByteString
unfolding write_field
leaf_preimage event_id system_time event_type payload =
    0x00
    ∷ (write_field event_id
        ++ (write_field system_time ++ (write_field event_type ++ write_field payload)))

module _ (sha256 : ByteString → ByteString) where
  unfoldable pub leaf_hash : ByteString → ByteString → ByteString → ByteString → ByteString
  leaf_hash event_id system_time event_type payload =
      sha256 (leaf_preimage event_id system_time event_type payload)

  unfoldable pub internal_hash : ByteString → ByteString → ByteString
  internal_hash left right = sha256 (0x01 ∷ (left ++ right))

  -- One round of the loop: the nodes in pairs, the last one with itself where it is left over.
  unfoldable pub next_level : List ByteString → List ByteString
  next_level [] = []
  next_level (left ∷ []) = internal_hash left left ∷ []
  next_level (left ∷ right ∷ rest) = internal_hash left right ∷ next_level rest

  -- `for len(level) > 1`, on fuel; what is left when the fuel is used up is `none`.
  unfoldable pub climb : ℕ → List ByteString → Option ByteString
  climb fuel [] = none
  climb fuel (root ∷ []) = some root
  climb zero (a ∷ b ∷ rest) = none
  climb (suc fuel) (a ∷ b ∷ rest) = climb fuel (next_level (a ∷ b ∷ rest))

  -- `ComputeRoot`: nil for no leaves. Each round halves the level, so the number of leaves is fuel
  -- enough.
  unfoldable pub compute_root : List ByteString → Option ByteString
  compute_root leaves = climb (length leaves) leaves

  unfoldable pub matches_root : Option ByteString → Option ByteString → Bool
  matches_root none expected = false
  matches_root (some r) none = false
  matches_root (some r) (some e) = str_eq r e

  -- `Verify`
  unfoldable pub verify : List ByteString → Option ByteString → Bool
  verify leaves expected = matches_root (compute_root leaves) expected
