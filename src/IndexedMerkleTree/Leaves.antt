-- ===== src/IndexedMerkleTree/Leaves.antt =====
-- `hash_nullifier_leaf` and `hash_low_nullifier_leaf` of db/src/merkle_tree.rs: what a leaf hash binds.
use demo_vapp.Prelude.{
  ℕ, zero, suc, ◌+◌, ◌*◌, ◌^◌, ◌<◌, ◌≡◌, ◌⊎◌, inl, inr, refl, sym, ap, ◌∙◌, arith, List, [], ◌∷◌,
  length, unwrap_or,
}
use demo_vapp.Hashing.{Sha256, Collision}
use demo_vapp.Paths.Fold.{digest-binds, append-injective}
use demo_vapp.Nullifiers.{Nullifier, LowNullifier}
use demo_vapp.IndexedMerkleTree.{be_bytes, hash_nullifier_leaf, hash_low_nullifier_leaf}

pub length-be_bytes : (k n : ℕ) → length (be_bytes k n) ≡ k
unfolding be_bytes
length-be_bytes zero n = refl
length-be_bytes (suc k) n = ap suc (length-be_bytes k n)

-- Eight bytes hold the number.
of_bytes : List ℕ → ℕ → ℕ
of_bytes [] acc = acc
of_bytes (b ∷ bs) acc = of_bytes bs (acc * 256 + b)

of_bytes-be_bytes : (n : ℕ) → n < 2 ^ 64 → of_bytes (be_bytes 8 n) 0 ≡ n
unfolding of_bytes be_bytes
of_bytes-be_bytes n h = omega arith

pub be_bytes-injective : (n m : ℕ) → n < 2 ^ 64 → m < 2 ^ 64 → be_bytes 8 n ≡ be_bytes 8 m → n ≡ m
be_bytes-injective n m hn hm e =
    sym (of_bytes-be_bytes n hn) ∙ ap (λ bs. of_bytes bs 0) e ∙ of_bytes-be_bytes m hm

module _ (sha : Sha256) (n : Nullifier) (l : LowNullifier) where
  -- A row and a low nullifier with one leaf hash agree in value, successor and index of the successor,
  -- where no index counts as index 0, or they are a SHA-256 collision. Their fields are below 2 ^ 64.
  pub leaf_hash-binds :
      n.value < 2 ^ 64
      → unwrap_or n.next_index 0 < 2 ^ 64
      → n.next_value < 2 ^ 64
      → l.value < 2 ^ 64
      → unwrap_or l.next_index 0 < 2 ^ 64
      → l.next_value < 2 ^ 64
      → hash_nullifier_leaf sha n ≡ hash_low_nullifier_leaf sha l
      → ((n.value ≡ l.value)
          × (unwrap_or n.next_index 0 ≡ unwrap_or l.next_index 0)
          × (n.next_value ≡ l.next_value))
        ⊎ Collision sha
  unfolding hash_nullifier_leaf hash_low_nullifier_leaf
  leaf_hash-binds hv hi hn kv ki kn e = elim (digest-binds sha _ _ e) [
    | inr c ↦ inr c
    | inl same ↦
        let first =
          append-injective (be_bytes 8 n.value) _ (be_bytes 8 l.value) _
            (length-be_bytes 8 n.value ∙ sym (length-be_bytes 8 l.value)) same in
        let second =
          append-injective (be_bytes 8 (unwrap_or n.next_index 0)) _
            (be_bytes 8 (unwrap_or l.next_index 0)) _
            (length-be_bytes 8 _ ∙ sym (length-be_bytes 8 _)) first.1 in
        inl (
          be_bytes-injective _ _ hv kv first.0,
          be_bytes-injective _ _ hi ki second.0,
          be_bytes-injective _ _ hn kn second.1,
        )
  ]
