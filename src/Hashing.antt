-- ===== src/Hashing.antt =====
-- Hashes: the `[u8; 32]` arrays of db/src/merkle_tree_32.rs and db/src/merkle_tree.rs, and SHA-256.
-- The `sha2` crate is a parameter: `digest` is what `Sha256::new()`, `update` on each part in turn and
-- `finalize()` return for the concatenated parts, and `size` says that this is 32 bytes.
use demo_vapp.Prelude.{
  ℕ, ◌≡◌, ◌≢◌, List, ◌++◌, arith, length, replicate, take, leb, if◌then◌else◌, take_all,
}

-- Bytes; a `[u8; 32]` is such a list of length 32.
abbrev pub Hash : Type 0
Hash = List ℕ

pub record Sha256 : Type 0 where
  pub digest : List ℕ → Hash
  pub size : (m : List ℕ) → length (digest m) ≡ 32

abbrev pub zero_hash : Hash
zero_hash = replicate 32 0

-- A BYTEA column read into a `[u8; 32]`.
unfoldable pub to_array : List ℕ → Hash
to_array v = if leb 32 (length v) then take 32 v else zero_hash

pub to_array_id : (v : Hash) → length v ≡ 32 → to_array v ≡ v
unfolding to_array
to_array_id v h = ground (arith, take_all 32 v h)

unfoldable pub hash_pair : Sha256 → Hash → Hash → Hash
hash_pair sha left right = sha.digest (left ++ right)

pub length-hash_pair : (sha : Sha256) (l r : Hash) → length (hash_pair sha l r) ≡ 32
unfolding hash_pair
length-hash_pair sha l r = sha.size (l ++ r)

-- Two different messages with one digest.
pub record Collision (sha : Sha256) : Type 0 where
  pub first : List ℕ
  pub second : List ℕ
  pub differ : first ≢ second
  pub same : sha.digest first ≡ sha.digest second
