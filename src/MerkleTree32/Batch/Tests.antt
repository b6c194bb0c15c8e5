-- ===== src/MerkleTree32/Batch/Tests.antt =====
-- Two updates of a tree of height 3 in one batch.
use demo_vapp.Prelude.{ℕ, ◌≡◌, refl, arith, [], ◌∷◌}
use demo_vapp.Hashing.{zero_hash}
use demo_vapp.Paths.Digest.{digest}
use demo_vapp.Error.{ok}
use demo_vapp.Db.{Db}
use demo_vapp.Samples.{toy_sha, some_leaf}
use demo_vapp.MerkleTree32.{MerkleTree32, compute_zero_hashes, initialize}
use demo_vapp.MerkleTree32.ZeroHashes.{IsValid, fresh, initialize-IsValid}
use demo_vapp.MerkleTree32.Update.{leaf_of}
use demo_vapp.MerkleTree32.Batch.{BatchUpdate, KeyOrder, batch_update, any_outside}
use demo_vapp.MerkleTree32.Batch.Result.{updated_leaves, batch_update-digest}

abbrev small : MerkleTree32
small = record { height = 3; zero_hashes = compute_zero_hashes toy_sha 3 }

abbrev small_db : Db
small_db = (initialize small (fresh toy_sha)).1

abbrev as_inserted : KeyOrder
as_inserted = record { keys = λ ks. ks; same = λ ks level index. refl }

abbrev at_2 : BatchUpdate
at_2 = record { leaf_index = 2; new_value = some_leaf }

abbrev at_5 : BatchUpdate
at_5 = record { leaf_index = 5; new_value = zero_hash }

batch_update-digest_example :
    ((batch_update toy_sha as_inserted small (at_2 ∷ at_5 ∷ []) small_db).0
      ≡ ok (digest toy_sha (updated_leaves (at_2 ∷ at_5 ∷ []) (leaf_of small small_db)) 3 0))
    × IsValid toy_sha small (batch_update toy_sha as_inserted small (at_2 ∷ at_5 ∷ []) small_db).1
    × ((j : ℕ)
        → leaf_of small (batch_update toy_sha as_inserted small (at_2 ∷ at_5 ∷ []) small_db).1 j
          ≡ updated_leaves (at_2 ∷ at_5 ∷ []) (leaf_of small small_db) j)
batch_update-digest_example =
    batch_update-digest toy_sha as_inserted small at_2 (at_5 ∷ []) small_db
      (initialize-IsValid toy_sha small refl) (omega arith) (unfold any_outside in refl)
      (refl, (refl, tt))

abbrev at_8 : BatchUpdate
at_8 = record { leaf_index = 8; new_value = some_leaf }
