-- ===== src/MerkleTree32/Proofs.antt =====
-- `generate_proof`, `verify` and `verify_with_leaf` of db/src/merkle_tree_32.rs.
use demo_vapp.Prelude.{
  ℕ, ◌^◌, ◌<◌, ◌≡◌, ◌⊎◌, refl, sym, ap, ◌∙◌, arith, length, ◌==◌, leb, true, false, [],
  bytes_eq_refl, bytes_eq_sound, ==_iff,
}
use mathlib.Core.Path.{ap₂}
use demo_vapp.Hashing.{Hash, Sha256, Collision}
use demo_vapp.Paths.{node, siblings, fold_proof}
use demo_vapp.Paths.Digest.{ancestor-root}
use demo_vapp.Paths.Fold.{length-siblings, fold_proof-siblings, AllHashes, fold_proof-binds}
use demo_vapp.Error.{ok}
use demo_vapp.Db.{Db}
use demo_vapp.MerkleTree32.{
  MerkleTree32, MerkleProof32, zero_at, generate_proof, get_node_hash, verify, verify_with_leaf,
}
use demo_vapp.MerkleTree32.ZeroHashes.{IsValid}
use demo_vapp.MerkleTree32.Update.{leaf_of}

abbrev pub proof_of : MerkleTree32 → Db → ℕ → MerkleProof32
proof_of tree db k = record {
  leaf_index = k;
  proof_hashes = siblings (zero_at tree) tree.height 0 k db.nodes;
  leaf_hash = leaf_of tree db k;
}

module _ (sha : Sha256) (tree : MerkleTree32) (db : Db) (k : ℕ) (valid : IsValid sha tree db) where
  -- In a well formed tree, for an index inside the capacity, a proof is generated, for stored and for
  -- empty leaves, and nothing changes.
  pub generate_proof-total :
      k < 2 ^ tree.height → generate_proof tree k db ≡ (ok (proof_of tree db k), db)
  unfolding generate_proof get_node_hash node
  generate_proof-total range =
      let inside : leb (2 ^ tree.height) k ≡ false = ground arith in rw inside

  folds :
      k < 2 ^ tree.height
      → fold_proof sha k (leaf_of tree db k) (siblings (zero_at tree) tree.height 0 k db.nodes)
        ≡ valid.state.root_hash
  folds range =
      fold_proof-siblings sha (zero_at tree) tree.height db.nodes valid.consistent tree.height 0 k _
        refl (omega arith)
      ∙ ap₂ (node (zero_at tree) db.nodes) (omega arith) (ancestor-root tree.height k range)
      ∙ sym valid.root

  -- In a well formed tree of 32 levels the proof that is generated for a leaf inside the capacity names its
  -- index and its hash (the zero hash for an empty leaf), and is accepted against the recorded root.
  pub verify-generate_proof :
      (p : MerkleProof32)
      → tree.height ≡ 32
      → k < 2 ^ tree.height
      → (generate_proof tree k db).0 ≡ ok p
      → (p.leaf_index ≡ k)
        × (p.leaf_hash ≡ node (zero_at tree) db.nodes 0 k)
        × (verify sha p valid.state.root_hash ≡ true)
  unfolding verify
  verify-generate_proof p height range e =
      let same : p ≡ proof_of tree db k = cc (ap (λ r. r.0) (generate_proof-total range)) in
      let full : (length (siblings (zero_at tree) tree.height 0 k db.nodes) == 32) ≡ true =
        (==_iff _ 32).1 (length-siblings (zero_at tree) tree.height 0 k db.nodes ∙ height) in
      (
        ap (λ (q : MerkleProof32). q.leaf_index) same,
        ap (λ (q : MerkleProof32). q.leaf_hash) same,
        rw (same, full, folds range) (bytes_eq_refl valid.state.root_hash),
      )

module _ (sha : Sha256) (p q : MerkleProof32) (root : Hash) where
  -- Two accepted proofs for one root and one leaf index, all of whose hashes have 32 bytes, show the
  -- same leaf, or a SHA-256 collision.
  pub verify-binds :
      p.leaf_index ≡ q.leaf_index
      → length p.leaf_hash ≡ 32
      → length q.leaf_hash ≡ 32
      → AllHashes p.proof_hashes
      → AllHashes q.proof_hashes
      → verify sha p root ≡ true
      → verify sha q root ≡ true
      → (p.leaf_hash ≡ q.leaf_hash) ⊎ Collision sha
  unfolding verify
  verify-binds same lp lq hp hq vp vq =
      fold_proof-binds sha p.leaf_index p.leaf_hash q.leaf_hash p.proof_hashes q.proof_hashes lp lq
        hp hq (ground arith)
        (bytes_eq_sound _ root (ground arith)
          ∙ sym (
              rw (← same) at (
                bytes_eq_sound (fold_proof sha q.leaf_index q.leaf_hash q.proof_hashes) root
                  (ground arith))))

-- `verify_with_leaf` has no length test: any root is accepted as the leaf of a proof with no siblings,
-- which `verify` refuses.
pub verify_with_leaf_empty :
    (sha : Sha256) (k : ℕ) (root leaf : Hash)
    → let p : MerkleProof32 = record { leaf_index = k; proof_hashes = []; leaf_hash = leaf } in
      (verify_with_leaf sha p root root ≡ true) × (verify sha p root ≡ false)
unfolding verify verify_with_leaf fold_proof
verify_with_leaf_empty sha k root leaf = (bytes_eq_refl root, refl)
