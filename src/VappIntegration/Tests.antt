-- ===== src/VappIntegration/Tests.antt =====
-- Services that agree to everything, over the chains of the samples.
use demo_vapp.Prelude.{◌≡◌, refl, true, none, some, [], ◌∷◌}
use demo_vapp.Hashing.{to_array}
use demo_vapp.Nodes.{select_node}
use demo_vapp.Paths.{siblings, node}
use demo_vapp.Samples.{toy_sha}
use demo_vapp.Samples.Chains.{genesis-IsChain}
use demo_vapp.Samples.Services.{roots, service, stored_leaf, absence}
use demo_vapp.Nullifiers.{row_at, find_low_nullifier, find_low_row, highest}
use demo_vapp.IndexedMerkleTree.{generate_merkle_proof, path_indices, get_root}
use demo_vapp.AdsService.Queries.{prove_non_membership}
use demo_vapp.VappIntegration.{
  VappServices, VappConfig, Vapp, VappProofResponse, Environment, absent, completed,
  process_nullifier_insertion, verify_nullifier_absence, process_batch_insertions,
}
use demo_vapp.VappIntegration.Batches.{IsAccounted, process_batch_insertions-IsAccounted}
use demo_vapp.VappIntegration.Operations.{
  IsHandled, process_nullifier_insertion-IsHandled, verify_nullifier_absence-absent,
}

abbrev agreeing : VappServices
agreeing = record {
  validate_nullifier = λ n. some (record { is_valid = true; jurisdiction = "ANY" });
  generate_zk_proof = λ w. none;
  submit_state_commitment = λ c. none;
}

abbrev settings : VappConfig
settings = record {
  environment = Environment.development;
  settlement_enabled = true;
  compliance_checks_enabled = true;
  auto_proof_generation = true;
  batch_processing_enabled = true;
}

abbrev server : Vapp
server = record { ads = service; settlements = []; audits = []; notifications = [] }

process_nullifier_insertion-IsHandled_example :
    IsHandled toy_sha roots agreeing settings 30 server
      (process_nullifier_insertion toy_sha roots agreeing settings 30 server)
process_nullifier_insertion-IsHandled_example =
    process_nullifier_insertion-IsHandled toy_sha roots agreeing settings 30 server

process_batch_insertions-IsAccounted_example :
    IsAccounted toy_sha roots agreeing settings
      (30 ∷ 20 ∷ [])
      server
      (process_batch_insertions toy_sha roots agreeing settings (30 ∷ 20 ∷ []) server)
process_batch_insertions-IsAccounted_example =
    process_batch_insertions-IsAccounted toy_sha roots agreeing settings (30 ∷ 20 ∷ []) server

abbrev stored : Vapp
stored = record server { ads = stored_leaf }

abbrev confirmed_absence : VappProofResponse
confirmed_absence = record {
  proof_type = absent;
  membership_proof = none;
  non_membership_proof = some absence;
  zk_proof = none;
  verification_status = true;
}

abbrev afterwards : Vapp
afterwards = (verify_nullifier_absence toy_sha roots agreeing settings 20 stored).1

confirmed :
    verify_nullifier_absence toy_sha roots agreeing settings 20 stored
    ≡ (completed confirmed_absence, afterwards)
unfolding verify_nullifier_absence prove_non_membership find_low_nullifier find_low_row highest
    generate_merkle_proof select_node to_array siblings node path_indices get_root
confirmed = refl

verify_nullifier_absence-absent_example : row_at 20 stored.ads.db.nullifiers ≡ none
verify_nullifier_absence-absent_example =
    verify_nullifier_absence-absent toy_sha roots agreeing settings 20 stored afterwards
      confirmed_absence genesis-IsChain confirmed
