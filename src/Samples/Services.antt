-- ===== src/Samples/Services.antt =====
-- The service over the genesis row with 20 behind it, in the default configuration.
use demo_vapp.Prelude.{true, false, List, [], ◌∷◌, replicate}
use demo_vapp.Hashing.{Hash, zero_hash}
use demo_vapp.Samples.{some_leaf, genesis_db}
use demo_vapp.IndexedMerkleTree.{MerkleProof}
use demo_vapp.Samples.Chains.{two_db}
use demo_vapp.AdsService.{AdsConfig, StateCommitment, Ads, NonMembershipProof}

abbrev pub config : AdsConfig
config = record {
  settlement_contract = "0x0000000000000000000000000000000000000000";
  chain_id = 1;
  audit_enabled = true;
  metrics_enabled = true;
  cache_size_limit = 10000;
  batch_size_limit = 1000;
  gas_price = 20000000000;
}

abbrev pub roots : List StateCommitment → List Hash
roots [] = []
roots (c ∷ cs) = c.root_hash ∷ roots cs

abbrev pub service : Ads
service = record {
  db = two_db;
  state_cache = [];
  audit_events = [];
  operations_total = 0;
  insertions_total = 0;
  proofs_generated = 0;
}

-- The genesis row's leaf is stored.
abbrev pub stored_leaf : Ads
stored_leaf = record service {
  db = record genesis_db {
    nodes = record { tree_level = 0; node_index = 0; hash_value = some_leaf } ∷ [];
  };
}

abbrev pub leaf_proof : MerkleProof
leaf_proof = record {
  leaf_index = 0;
  leaf_hash = some_leaf;
  siblings = replicate 32 zero_hash;
  path_indices = replicate 32 false;
}

abbrev pub absence : NonMembershipProof
absence = record {
  queried_value = 20;
  low_nullifier = record { value = 0; next_value = 0; tree_index = 0; merkle_proof = leaf_proof };
  root_hash = zero_hash;
  range_proof = record { lower_bound = 0; upper_bound = 0; queried_value = 20; valid = true };
}
