-- ===== src/MerkleTree32/ZeroHashes.antt =====
-- `compute_zero_hashes` and `initialize` of db/src/merkle_tree_32.rs: the hashes of empty subtrees, and
-- what it is for the stored tree to be well formed.
use demo_vapp.Prelude.{
  ℕ, zero, suc, ◌+◌, ◌≤◌, ◌<◌, ◌≡◌, refl, none, some, [], ◌∷◌, arith, length, get_or,
}
use native.Mathlib.Numerals.{add-one}
use demo_vapp.Hashing.{Hash, Sha256, zero_hash, hash_pair, length-hash_pair}
use demo_vapp.Nodes.{select_node}
use demo_vapp.Paths.{node}
use demo_vapp.Paths.Consistency.{IsConsistent}
use demo_vapp.Db.{Db, TreeState}
use demo_vapp.MerkleTree32.{
  MerkleTree32, zero_at, next_zero_hashes, compute_zero_hashes, initialize,
}

module _ (sha : Sha256) where
  next_zero_hashes-step :
      (n l : ℕ) (below : Hash)
      → l < n
      → get_or (below ∷ next_zero_hashes sha n below) (suc l) zero_hash
        ≡ hash_pair sha
            (get_or (below ∷ next_zero_hashes sha n below) l zero_hash)
            (get_or (below ∷ next_zero_hashes sha n below) l zero_hash)
  unfolding next_zero_hashes
  next_zero_hashes-step zero l below h = elim h [ ]
  next_zero_hashes-step (suc n) zero below h = refl
  next_zero_hashes-step (suc n) (suc l) below h =
      next_zero_hashes-step n l (hash_pair sha below below) (omega arith)

  length-next_zero_hashes :
      (n l : ℕ) (below : Hash)
      → l ≤ n
      → length below ≡ 32
      → length (get_or (below ∷ next_zero_hashes sha n below) l zero_hash) ≡ 32
  unfolding next_zero_hashes
  length-next_zero_hashes n zero below h size = size
  length-next_zero_hashes zero (suc l) below h size = absurd (omega arith)
  length-next_zero_hashes (suc n) (suc l) below h size =
      length-next_zero_hashes n l (hash_pair sha below below) (omega arith)
        (length-hash_pair sha below below)

  -- Below the height, the precomputed hash of each level is the hash of two empty subtrees of the
  -- level before.
  pub compute_zero_hashes-step :
      (height l : ℕ)
      → l < height
      → get_or (compute_zero_hashes sha height) (l + 1) zero_hash
        ≡ hash_pair sha
            (get_or (compute_zero_hashes sha height) l zero_hash)
            (get_or (compute_zero_hashes sha height) l zero_hash)
  unfolding compute_zero_hashes
  compute_zero_hashes-step height l h =
      rw add-one (next_zero_hashes-step height l (sha.digest zero_hash) h)

  -- What holds between operations: the right zero hashes, every parent the hash of its children, and
  -- the recorded root equal to the top node.
  pub record IsValid (tree : MerkleTree32) (db : Db) : Type 0 where
    pub zeros : tree.zero_hashes ≡ compute_zero_hashes sha tree.height
    pub consistent : IsConsistent sha (zero_at tree) tree.height db.nodes
    pub state : TreeState
    pub stored : db.tree_state ≡ some state
    pub root : state.root_hash ≡ node (zero_at tree) db.nodes tree.height 0
    pub root_size : length state.root_hash ≡ 32

  abbrev pub fresh : Db
  fresh = record { nodes = []; tree_state = none; nullifiers = []; next_id = 1 }

  -- A tree of any height with the computed zero hashes is well formed once it is initialised over
  -- empty tables.
  pub initialize-IsValid :
      (tree : MerkleTree32)
      → tree.zero_hashes ≡ compute_zero_hashes sha tree.height
      → IsValid tree (initialize tree fresh).1
  unfolding initialize
  initialize-IsValid tree zeros = record {
    zeros = zeros;
    consistent = record {
      at = λ m j below.
          unfold node select_node in rw zeros (compute_zero_hashes-step tree.height m below);
    };
    state = _;
    stored = refl;
    root = unfold node select_node in refl;
    root_size = rw zeros (
        unfold compute_zero_hashes in
        length-next_zero_hashes tree.height tree.height (sha.digest zero_hash) (omega arith)
          (sha.size zero_hash));
  }
