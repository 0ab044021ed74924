-- ===== src/Batches/Roots.antt =====
-- What the root of a Merkle tree depends on (internal/log/merkle/merkle.go `ComputeRoot`).
use fincore_ledger.Prelude.{
  sym, ◌++◌, ℕ, zero, suc, ◌+◌, ◌≤◌, ◌≡◌, refl, ◌∙◌, ap, ByteString, some, List, [], ◌∷◌, length,
  arith,
}
use fincore_ledger.Batches.Merkle.{internal_hash, next_level, climb, compute_root}

-- An even number of leaves, in pairs.
unfoldable pub flatten : List (ByteString × ByteString) → List ByteString
flatten [] = []
flatten ((a, b) ∷ ps) = a ∷ b ∷ flatten ps

module _ (sha256 : ByteString → ByteString) where
  next-shorter :
      (a b : ByteString) (rest : List ByteString)
      → length (next_level sha256 (a ∷ b ∷ rest)) ≤ length rest + 1
  unfolding next_level
  next-shorter a b [] = omega arith
  next-shorter a b (c ∷ []) = omega arith
  next-shorter a b (c ∷ d ∷ rest) = let p = next-shorter c d rest in omega arith

  next-some :
      (a : ByteString) (rest : List ByteString)
      → (x : ByteString) × (xs : List ByteString) × (next_level sha256 (a ∷ rest) ≡ x ∷ xs)
  unfolding next_level
  next-some a [] = (_, _, refl)
  next-some a (b ∷ rest) = (_, _, refl)

  climb-root :
      (fuel : ℕ) (a : ByteString) (rest : List ByteString)
      → length rest ≤ fuel
      → (root : ByteString) × (climb sha256 fuel (a ∷ rest) ≡ some root)
  unfolding climb
  climb-root fuel a [] h = (a, refl)
  climb-root zero a (b ∷ rest) h = absurd (omega arith)
  climb-root (suc fuel) a (b ∷ rest) h =
      let (x, xs, e) = next-some a (b ∷ rest) in
      let shorter = next-shorter a b rest in
      let same = ap length e in
      let (root, p) = climb-root fuel x xs (omega arith) in (root, ap (climb sha256 fuel) e ∙ p)

  climb-same :
      (f g : ℕ) (a : ByteString) (rest : List ByteString)
      → length rest ≤ f
      → length rest ≤ g
      → climb sha256 f (a ∷ rest) ≡ climb sha256 g (a ∷ rest)
  unfolding climb
  climb-same f g a [] h k = refl
  climb-same zero g a (b ∷ rest) h k = absurd (omega arith)
  climb-same (suc f) zero a (b ∷ rest) h k = absurd (omega arith)
  climb-same (suc f) (suc g) a (b ∷ rest) h k =
      let (x, xs, e) = next-some a (b ∷ rest) in
      let shorter = next-shorter a b rest in
      let same = ap length e in
      ap (climb sha256 f) e
      ∙ climb-same f g x xs (omega arith) (omega arith)
      ∙ sym (ap (climb sha256 g) e)

  -- The root of more than one leaf is that of the level above.
  root-next :
      (a b : ByteString) (rest : List ByteString) (n : ℕ)
      → length rest + 1 ≤ n
      → compute_root sha256 (a ∷ b ∷ rest) ≡ climb sha256 n (next_level sha256 (a ∷ b ∷ rest))
  unfolding compute_root climb
  root-next a b rest n h =
      climb-same (length (a ∷ b ∷ rest)) (suc n) a (b ∷ rest) (omega arith) (omega arith)

  next-doubled :
      (ps : List (ByteString × ByteString)) (c : ByteString)
      → next_level sha256 (flatten ps ++ (c ∷ [])) ≡ next_level sha256 (flatten ps ++ (c ∷ c ∷ []))
  unfolding next_level flatten
  next-doubled [] c = refl
  next-doubled ((a, b) ∷ ps) c = ap (λ l. internal_hash sha256 a b ∷ l) (next-doubled ps c)

-- Every list of leaves but the empty one has a root: the rounds that the model allows are enough.
pub compute_root-total :
    (sha256 : ByteString → ByteString) (leaf : ByteString) (leaves : List ByteString)
    → (root : ByteString) × (compute_root sha256 (leaf ∷ leaves) ≡ some root)
unfolding compute_root
compute_root-total sha256 leaf leaves =
    climb-root sha256 (length (leaf ∷ leaves)) leaf leaves (omega arith)

-- The root does not tell an odd number of leaves, three or more, from the same leaves with the last
-- one twice.
pub compute_root-doubled :
    (sha256 : ByteString → ByteString) (a b : ByteString) (ps : List (ByteString × ByteString))
    (c : ByteString)
    → compute_root sha256 (flatten ((a, b) ∷ ps) ++ (c ∷ []))
      ≡ compute_root sha256 (flatten ((a, b) ∷ ps) ++ (c ∷ c ∷ []))
unfolding flatten
compute_root-doubled sha256 a b ps c =
    let one = flatten ps ++ (c ∷ []) in
    let two = flatten ps ++ (c ∷ c ∷ []) in
    let n = length one + length two + 1 in
    root-next sha256 a b one n (omega arith)
    ∙ ap (climb sha256 n) (next-doubled sha256 ((a, b) ∷ ps) c)
    ∙ sym (root-next sha256 a b two n (omega arith))
