-- ===== src/Samples.antt =====
-- Inputs for the examples: a digest of 32 bytes that counts, and small tables.
pub mod Chains
pub mod Queue
pub mod Services
use demo_vapp.Prelude.{ℕ, ◌+◌, ◌%◌, true, none, some, List, [], ◌∷◌, replicate, length-replicate}
use demo_vapp.Hashing.{Hash, Sha256, zero_hash}
use demo_vapp.Db.{Db, NullifierRow, TreeState}

abbrev sum_of : List ℕ → ℕ
sum_of [] = 1
sum_of (b ∷ bs) = (b + sum_of bs) % 256

abbrev pub toy_sha : Sha256
toy_sha = record {
  digest = λ m. replicate 32 (sum_of m);
  size = λ m. length-replicate 32 (sum_of m);
}

abbrev pub some_leaf : Hash
some_leaf = replicate 32 7

abbrev pub genesis_row : NullifierRow
genesis_row = record {
  id = 1;
  value = 0;
  next_index = none;
  next_value = some 0;
  tree_index = 0;
  is_active = true;
}

abbrev pub first_state : TreeState
first_state = record {
  root_hash = zero_hash;
  next_available_index = 1;
  tree_height = 32;
  total_nullifiers = 0;
}

-- The tables after the migration, and with the value 20 linked behind the genesis row.
abbrev pub genesis_db : Db
genesis_db = record {
  nodes = [];
  tree_state = some first_state;
  nullifiers = genesis_row ∷ [];
  next_id = 2;
}
