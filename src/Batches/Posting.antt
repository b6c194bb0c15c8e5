-- ===== src/Batches/Posting.antt =====
-- Submission to the contract: `mark_batch_posted_to_contract` and `get_contract_submission_data` of
-- db/src/db.rs.
use demo_vapp.Prelude.{
  ℕ, ◌≡◌, refl, true, false, some, List, [], ◌∷◌, ◌==◌, if◌then◌else◌, pos, arith,
}
use demo_vapp.Hashing.{zero_hash}
use demo_vapp.Error.{ok, err, database, row_not_found}
use demo_vapp.Batches.{ProofBatch, AdsStateCommit, Store, find_batch}
use demo_vapp.Batches.Contract.{
  is_postable, update_batch, mark_batch_posted_to_contract, unposted, submission_for, commit_of,
  get_contract_submission_data,
}

abbrev posted : ProofBatch → ProofBatch
posted b = record b { posted_to_contract = true }

not_postable : (id : ℕ) (bs : List ProofBatch) → is_postable id (update_batch posted id bs) ≡ false
not_postable id [] = refl
not_postable id (b ∷ bs) = ground (arith, not_postable id bs)

abbrev pub without : ℕ → List ProofBatch → List ProofBatch
without id [] = []
without id (b ∷ bs) = if b.id == id then without id bs else b ∷ without id bs

unposted-update_batch :
    (id : ℕ) (bs : List ProofBatch)
    → unposted (update_batch posted id bs) ≡ without id (unposted bs)
unfolding unposted
unposted-update_batch id [] = refl
unposted-update_batch id (b ∷ bs) = ground (arith, unposted-update_batch id bs)

-- A batch that waits to be posted is marked once: the mark succeeds, takes it and nothing else off the
-- list of unposted batches, and a second mark is an error that changes nothing.
pub mark_batch_posted-once :
    (id : ℕ) (s : Store)
    → is_postable id s.batches ≡ true
    → let s' = (mark_batch_posted_to_contract id s).1 in
      ((mark_batch_posted_to_contract id s).0 ≡ ok tt)
      × (unposted s'.batches ≡ without id (unposted s.batches))
      × (mark_batch_posted_to_contract id s' ≡ (err (database row_not_found), s'))
unfolding mark_batch_posted_to_contract
mark_batch_posted-once id s waits =
    rw waits (refl, unposted-update_batch id s.batches, ground (arith, not_postable id s.batches))

-- The data for the contract of a batch that has a commit and starts at counter value 0 are returned,
-- with the genesis root as the previous root, whatever roots the batches before it have committed.
pub get_contract_submission_data-zero :
    (id : ℕ) (s : Store) (b : ProofBatch) (c : AdsStateCommit)
    → find_batch id s.batches ≡ some b
    → commit_of id s.commits ≡ some c
    → b.previous_counter_value ≡ pos 0
    → (get_contract_submission_data id s ≡ (ok (submission_for b s c), s))
      × ((submission_for b s c).public_data.prev_merkle_root ≡ zero_hash)
unfolding get_contract_submission_data
get_contract_submission_data-zero id s b c found committed start =
    (ground (arith, found, committed), ground (arith, start))
