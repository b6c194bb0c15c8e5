-- ===== src/AdsService/Insertion.antt =====
-- An insertion through the service, and the proofs of what it inserted.
use demo_vapp.Prelude.{
  ℕ, inl, inr, ◌^◌, ◌≡◌, ◌∙◌, ◌<◌, refl, sym, ap, true, false, some, List, arith, Bool-cases,
  bytes_eq, is_some,
}
use demo_vapp.Hashing.{Hash, Sha256, to_array, to_array_id}
use demo_vapp.Paths.Recorded.{IsRecorded}
use demo_vapp.Error.{ok}
use demo_vapp.Db.{Db, NullifierRow, TreeState}
use demo_vapp.Nullifiers.{Nullifier, exists, find_low_row, low_of, is_empty_tree, get_by_value}
use demo_vapp.Nullifiers.Rows.{exists-row_at, absent-row_at}
use demo_vapp.Nullifiers.Chain.{IsChain, Fits, row_at-linked}
use demo_vapp.MerkleTreeDb.Atomic.{IsFree}
use demo_vapp.IndexedMerkleTree.{
  MerkleProof, tree_height, zero_node, generate_merkle_proof, verify_merkle_proof,
  verify_insertion_proof, get_root, hash_nullifier_leaf,
}
use demo_vapp.IndexedMerkleTree.Tree.{generate_merkle_proof-verifies}
use demo_vapp.IndexedMerkleTree.Insertion.{
  final_db, final_root, outcome_of, insert_nullifier-succeeds, entry-IsProvable, recorded_final,
  top, length-final_root, entry_leaf,
}
use demo_vapp.AdsService.{
  AdsConfig, done, StateCommitment, StateTransition, MembershipProof, Ads, insert, transition_of,
  after_insertion, get_nullifier_count, get_nullifier_count, record_audit_event, update_metrics,
}
use demo_vapp.AdsService.Queries.{prove_membership, verify_state_transition}

module _ (sha : Sha256) (order : List StateCommitment → List Hash) (config : AdsConfig) (x : ℕ)
    (a : Ads) (s : TreeState) (r : NullifierRow) (n : ℕ) (free : IsFree a.db s x)
    (fits : Fits a.db.nullifiers r.value x n r) (proper : is_empty_tree (low_of r) ≡ false)
    (chain : IsChain a.db.nullifiers) (search : find_low_row x a.db.nullifiers ≡ some r)
    (recorded : IsRecorded sha zero_node tree_height a.db.nodes)
    (low_range : r.tree_index < 2 ^ tree_height) where
  abbrev pub inserted : Db
  inserted = final_db sha x a.db s r n free fits

  abbrev pub root : Hash
  root = final_root sha x a.db s r n free fits

  -- Cache, audit events and counters do not touch the tables.
  after_insertion-db :
      (p q : MerkleProof) (b : Ads)
      → (after_insertion sha order config x
          (outcome_of sha x a.db s r n free fits proper chain search recorded low_range p q)
          b).db
        ≡ b.db
  unfolding record_audit_event update_metrics
  after_insertion-db p q b = elim (Bool-cases config.audit_enabled) [
    | inl on ↦ ground arith
    | inr off ↦ ground arith
  ]

  root_read : get_root inserted ≡ (ok root, inserted)
  unfolding get_root
  root_read =
      ap (λ h. (ok h, inserted)) (to_array_id root (length-final_root sha x a.db s r n free fits))

  abbrev pub entry_of : Nullifier
  entry_of = record {
    id = a.db.next_id;
    value = x;
    next_index = r.next_index;
    next_value = n;
    tree_index = s.next_available_index;
    is_active = true;
  }

  entry_read : get_by_value x inserted ≡ (ok (some entry_of), inserted)
  unfolding get_by_value
  entry_read = ground (
    arith,
    row_at-linked a.db.nullifiers r.value x n a.db.next_id s.next_available_index r.next_index r
        chain fits free.value x,
  )

  -- The Merkle proof of the new row's leaf.
  entry_proof :
      (q : MerkleProof) × (generate_merkle_proof s.next_available_index inserted ≡ (ok q, inserted))
      × (q.leaf_index ≡ s.next_available_index)
      × (q.leaf_hash ≡ hash_nullifier_leaf sha entry_of)
      × (verify_merkle_proof sha q root ≡ true)
  entry_proof =
      let made =
        generate_merkle_proof-verifies sha inserted s.next_available_index root
          (recorded_final sha x a.db s r n free fits proper chain search recorded low_range)
          (entry-IsProvable sha x a.db s r n free fits proper chain search recorded low_range)
          free.in_range (top sha x a.db s r n free fits proper chain search recorded low_range) in
      (
        made.0,
        made.1,
        made.2,
        made.3 ∙ entry_leaf sha x a.db s r n free fits proper chain search recorded low_range,
        made.4,
      )

  abbrev pub membership_of : MerkleProof → MembershipProof
  membership_of q = record {
    nullifier_value = x;
    merkle_proof = q;
    root_hash = root;
    tree_index = s.next_available_index;
  }

  proves :
      (b : Ads)
      → b.db ≡ inserted
      → (prove_membership config x b).0 ≡ done (membership_of entry_proof.0)
  unfolding prove_membership
  proves b e = ground (arith, e, entry_read, root_read, entry_proof.1)

  not_there : exists x a.db.nullifiers ≡ false
  not_there =
      exists-row_at x a.db.nullifiers ∙ ap is_some (absent-row_at x a.db.nullifiers free.value)

  pub inserts :
      (t : StateTransition) × (b : Ads) × (insert sha order config x a ≡ (done t, b))
      × (t.new_root ≡ root)
      × (b.db ≡ inserted)
      × (t.old_root ≡ to_array s.root_hash)
      × (t.nullifier_value ≡ x)
      × (verify_insertion_proof sha t.insertion_proof root ≡ true)
  unfolding insert
  inserts =
      let made =
        insert_nullifier-succeeds sha x a.db s r n free fits proper chain search recorded
          low_range in
      let result =
        outcome_of sha x a.db s r n free fits proper chain search recorded low_range made.0
          made.1 in
      let b = after_insertion sha order config x result (record a { db = inserted }) in
      (
        transition_of x result,
        b,
        ground (arith, not_there, made.2),
        refl,
        after_insertion-db made.0 made.1 (record a { db = inserted }),
        refl,
        refl,
        made.5,
      )

  -- Where the rows are a chain, every stored Merkle parent is the hash of its children, and the low
  -- nullifier that is found is not the genesis row and has a tree index below 2 ^ 32, inserting a free
  -- value succeeds, and its membership can be proved at once: the answer names the value, the tree index that
  -- was the next one and the new root, and its Merkle proof is of that index, shows the leaf hash of the value's
  -- new row, and is accepted against that root.
  pub insert-prove_membership :
      (t : StateTransition) × (b : Ads) × (m : MembershipProof) × (insert sha order config x a
        ≡ (done t, b))
      × ((prove_membership config x b).0 ≡ done m)
      × (m.nullifier_value ≡ x)
      × (m.tree_index ≡ s.next_available_index)
      × (m.merkle_proof.leaf_index ≡ s.next_available_index)
      × (m.merkle_proof.leaf_hash ≡ hash_nullifier_leaf sha entry_of)
      × (m.root_hash ≡ t.new_root)
      × (verify_merkle_proof sha m.merkle_proof m.root_hash ≡ true)
  insert-prove_membership = (
    inserts.0,
    inserts.1,
    membership_of entry_proof.0,
    inserts.2,
    proves inserts.1 inserts.4,
    refl,
    refl,
    entry_proof.2,
    entry_proof.3,
    sym inserts.3,
    entry_proof.4,
  )

  -- Where the rows are a chain, every stored Merkle parent is the hash of its children, the low
  -- nullifier that is found is not the genesis row and has a tree index below 2 ^ 32, and the new root
  -- differs from the one before, inserting a free value returns a transition that
  -- `verify_state_transition` accepts.
  pub insert-verify_state_transition :
      bytes_eq (to_array s.root_hash) root ≡ false
      → (t : StateTransition) × (b : Ads) × (insert sha order config x a ≡ (done t, b))
        × (verify_state_transition sha t b ≡ (done true, b))
  unfolding verify_state_transition
  insert-verify_state_transition changed = (
    inserts.0,
    inserts.1,
    inserts.2,
    ground (arith, changed, inserts.3, inserts.5, inserts.6, inserts.7, free.positive),
  )

  -- Where the rows are a chain, every stored Merkle parent is the hash of its children, and the low
  -- nullifier that is found is not the genesis row and has a tree index below 2 ^ 32, inserting a free
  -- value succeeds and leaves the count of nullifiers as it was, which commitments carry as their
  -- count and as the settlement's nonce.
  pub insert-get_nullifier_count :
      (t : StateTransition) × (b : Ads) × (insert sha order config x a ≡ (done t, b))
      × (get_nullifier_count b ≡ get_nullifier_count a)
  unfolding get_nullifier_count
  insert-get_nullifier_count =
      (inserts.0, inserts.1, inserts.2, ground (arith, inserts.4, free.state))
