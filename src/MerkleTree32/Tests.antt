-- ===== src/MerkleTree32/Tests.antt =====
-- A tree of height 3 over empty tables, and the tree of 32 levels.
use demo_vapp.Prelude.{
  ℕ, ◌≡◌, ap, replicate, zero, suc, ◌^◌, ◌<◌, refl, true, arith, ◌==◌, if◌then◌else◌, bytes_eq_refl,
}
use mathlib.Core.Logic.{◌⊎◌}
use demo_vapp.Hashing.{Hash, Collision}
use demo_vapp.Paths.{fold_proof, node}
use demo_vapp.Paths.Fold.{AllHashes}
use demo_vapp.Paths.Digest.{digest}
use demo_vapp.Error.{ok}
use demo_vapp.Db.{Db}
use demo_vapp.Samples.{toy_sha, some_leaf}
use demo_vapp.MerkleTree32.{
  zero_at, MerkleTree32, MerkleProof32, compute_zero_hashes, new, initialize, update_leaf, verify,
}
use demo_vapp.MerkleTree32.ZeroHashes.{IsValid, fresh, initialize-IsValid}
use demo_vapp.MerkleTree32.Update.{leaf_of, update_leaf-digest}
use demo_vapp.MerkleTree32.Proofs.{
  proof_of, generate_proof-total, verify-generate_proof, verify-binds,
}

abbrev small : MerkleTree32
small = record { height = 3; zero_hashes = compute_zero_hashes toy_sha 3 }

abbrev small_db : Db
small_db = (initialize small (fresh toy_sha)).1

update_leaf-digest_example :
    (update_leaf toy_sha small 5 some_leaf small_db).0
    ≡ ok (digest toy_sha (λ j. if 5 == j then some_leaf else leaf_of small small_db j) 3 0)
update_leaf-digest_example =
    update_leaf-digest toy_sha small small_db 5 some_leaf (initialize-IsValid toy_sha small refl)
      (omega arith) refl

abbrev big : MerkleTree32
big = new toy_sha

abbrev big_db : Db
big_db = (initialize big (fresh toy_sha)).1

big_zeros : big.zero_hashes ≡ compute_zero_hashes toy_sha big.height
unfolding new
big_zeros = refl

big-IsValid : IsValid toy_sha big big_db
big-IsValid = initialize-IsValid toy_sha big big_zeros

big_height : big.height ≡ 32
unfolding new
big_height = refl

in_range : 5 < 2 ^ big.height
in_range = rw big_height (omega arith)

verify-generate_proof_example :
    ((proof_of big big_db 5).leaf_index ≡ 5)
    × ((proof_of big big_db 5).leaf_hash ≡ node (zero_at big) big_db.nodes 0 5)
    × (verify toy_sha (proof_of big big_db 5) big-IsValid.state.root_hash ≡ true)
verify-generate_proof_example =
    verify-generate_proof toy_sha big big_db 5 big-IsValid (proof_of big big_db 5) big_height
      in_range (ap (λ r. r.0) (generate_proof-total toy_sha big big_db 5 big-IsValid in_range))

AllHashes-replicate : (n : ℕ) → AllHashes (replicate n some_leaf)
AllHashes-replicate zero = tt
AllHashes-replicate (suc n) = (refl, AllHashes-replicate n)

abbrev constant : MerkleProof32
constant = record { leaf_index = 5; proof_hashes = replicate 32 some_leaf; leaf_hash = some_leaf }

abbrev constant_root : Hash
constant_root = fold_proof toy_sha 5 some_leaf (replicate 32 some_leaf)

constant-verify : verify toy_sha constant constant_root ≡ true
unfolding verify
constant-verify = bytes_eq_refl constant_root

verify-binds_example : (constant.leaf_hash ≡ constant.leaf_hash) ⊎ Collision toy_sha
verify-binds_example =
    verify-binds toy_sha constant constant constant_root refl refl refl (AllHashes-replicate 32)
      (AllHashes-replicate 32) constant-verify constant-verify
