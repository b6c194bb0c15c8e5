-- ===== src/Rest/Requests.antt =====
-- Requests to api/src/rest.rs that come one after the other.
use mathlib.Core.Option.{none-ne-some}
use Prim.Native.String.{String}
use demo_vapp.Prelude.{
  ℕ, ◌≡◌, ◌∙◌, refl, sym, inl, inr, Option, none, some, List, [], ◌∷◌, ◌==◌, ℤ, pos, arith,
  Bool-cases,
}
use demo_vapp.Hashing.{Hash, Sha256}
use demo_vapp.Error.{Result, ok, err}
use demo_vapp.Batches.{
  IncomingTransaction, AdsStateCommit, ProofBatch, ProofStatus, Store, find_batch, last_batch,
  get_current_counter_value, submit_transaction,
}
use demo_vapp.Batches.Contract.{update_batch, update_batch_proof, store_ads_state_commit}
use demo_vapp.Batches.Linked.{IsLinked}
use demo_vapp.Batches.Counter.{IsValid, submit_transaction-IsValid}
use demo_vapp.BatchProcessor.Phases.{with_proof}
use demo_vapp.AdsService.{AdsConfig, StateCommitment}
use demo_vapp.UnifiedBatchService.{
  World, Outcome, created, nothing_created, refused, create_batch_with_ads,
}
use demo_vapp.UnifiedBatchService.Creation.{commit-keeps, create_batch_with_ads-IsValid}
use demo_vapp.Rest.{
  ApiState, UpdateBatchProofRequest, submit_transaction_endpoint, create_batch_endpoint,
  update_batch_proof_endpoint, trigger_batch_endpoint, parse_status, validated_root, with_root,
  with_status, submitted_reply, created_reply, clamped_size, get_pending_transactions_endpoint,
  get_batch_processor_stats_endpoint, get_batches_endpoint, get_batch_endpoint,
  get_contract_data_endpoint, after_update, after_commit,
}

abbrev final_of : Option ProofBatch → ℤ
final_of none = pos 0
final_of (some b) = b.final_counter_value

value_is : (s : Store) → get_current_counter_value s ≡ final_of (last_batch s.batches)
unfolding get_current_counter_value
value_is s = elim (last_batch s.batches) [ none ↦ refl | some b ↦ refl ]

module _ (id : ℕ) (proof_id : String) (status : ProofStatus) where
  linked_still :
      (start : ℤ) (bs : List ProofBatch)
      → IsLinked start bs
      → IsLinked start (update_batch (with_proof proof_id status) id bs)
  linked_still start [] l = tt
  linked_still start (b ∷ bs) l = elim (Bool-cases (b.id == id)) [
    | inl here ↦ rw here (l.0, linked_still b.final_counter_value bs l.1)
    | inr other ↦ rw other (l.0, linked_still b.final_counter_value bs l.1)
  ]

  found_before :
      (i : ℕ) (bs : List ProofBatch) (b : ProofBatch)
      → find_batch i (update_batch (with_proof proof_id status) id bs) ≡ some b
      → (c : ProofBatch) × (find_batch i bs ≡ some c)
  found_before i [] b e = absurd (none-ne-some b e)
  found_before i (c ∷ bs) b e = elim (Bool-cases (c.id == i)) [
    | inl here ↦ (c, rw here refl)
    | inr other ↦
        let later = found_before i bs b (ground (arith, e, other)) in (later.0, rw other later.1)
  ]

  last_value :
      (bs : List ProofBatch)
      → final_of (last_batch (update_batch (with_proof proof_id status) id bs))
        ≡ final_of (last_batch bs)
  last_value [] = refl
  last_value (b ∷ []) = elim (Bool-cases (b.id == id)) [
    | inl here ↦ rw here refl
    | inr other ↦ rw other refl
  ]
  last_value (b ∷ c ∷ bs) = last_value (c ∷ bs)

  value_still :
      (s : Store)
      → get_current_counter_value (update_batch_proof id proof_id status s).1
        ≡ get_current_counter_value s
  unfolding update_batch_proof
  value_still s =
      value_is (update_batch_proof id proof_id status s).1
      ∙ (last_value s.batches ∙ sym (value_is s))

  updated-IsValid : (s : Store) → IsValid s → IsValid (update_batch_proof id proof_id status s).1
  unfolding update_batch_proof
  updated-IsValid s valid = record {
    distinct = valid.distinct;
    ids_below = valid.ids_below;
    batches_below = λ i b there.
        let before = found_before i s.batches b there in valid.batches_below i before.0 before.1;
    linked = linked_still (pos 0) s.batches valid.linked;
    counter = value_still s ∙ valid.counter;
  }

module _ (decode : String → Option (List ℕ)) where
  commit_reply-keeps :
      (batch_id : ℕ) (o : Result AdsStateCommit × Store) (a : ApiState)
      → IsValid o.1
      → IsValid (after_commit decode batch_id o a).1.world.store
  commit_reply-keeps batch_id (err e, s) a v = v
  commit_reply-keeps batch_id (ok c, s) a v = v

  update_reply-keeps :
      (batch_id : ℕ) (root : Option Hash) (o : Result (Unit {0}) × Store) (a : ApiState)
      → IsValid o.1
      → IsValid (after_update decode batch_id root o a).1.world.store
  update_reply-keeps batch_id root (err e, s) a v = v
  update_reply-keeps batch_id none (ok u, s) a v = v
  update_reply-keeps batch_id (some root) (ok u, s) a v =
      commit_reply-keeps batch_id (store_ads_state_commit batch_id root s) a
        (commit-keeps s v batch_id root)

  root-keeps :
      (batch_id : ℕ) (proof_id : String) (status : ProofStatus) (root : Option (Option Hash))
      (a : ApiState)
      → IsValid a.world.store
      → IsValid (with_root decode batch_id proof_id status root a).1.world.store
  root-keeps batch_id proof_id status none a v = v
  root-keeps batch_id proof_id status (some root) a v =
      update_reply-keeps batch_id root (update_batch_proof batch_id proof_id status a.world.store) a
        (updated-IsValid batch_id proof_id status a.world.store v)

  status-keeps :
      (batch_id : ℕ) (request : UpdateBatchProofRequest) (status : Option ProofStatus)
      (a : ApiState)
      → IsValid a.world.store
      → IsValid (with_status decode batch_id request status a).1.world.store
  status-keeps batch_id request none a v = v
  status-keeps batch_id request (some status) a v =
      root-keeps batch_id request.sindri_proof_id status
        (validated_root decode status request.merkle_root) a v

submit_reply-keeps :
    (o : Result IncomingTransaction × Store) (a : ApiState)
    → IsValid o.1
    → IsValid (submitted_reply o a).1.world.store
submit_reply-keeps (ok t, s) a v = v
submit_reply-keeps (err e, s) a v = v

create_reply-keeps :
    (o : Outcome × World) (a : ApiState)
    → IsValid o.1.store
    → IsValid (created_reply o a).1.world.store
create_reply-keeps (created r, w) a v = v
create_reply-keeps (nothing_created, w) a v = v
create_reply-keeps (refused e, w) a v = v

stats_world : (a : ApiState) → (get_batch_processor_stats_endpoint a).1.world ≡ a.world
unfolding get_batch_processor_stats_endpoint
stats_world a = ground arith

trigger_world : (a : ApiState) → (trigger_batch_endpoint a).1.world ≡ a.world
unfolding trigger_batch_endpoint
trigger_world a = ground arith

-- The requests that the router hands to the handlers.
pub data Request : Type 0 where
  submit : ℤ → Request
  create : Option ℤ → Request
  update : ℕ → UpdateBatchProofRequest → Request
  list_pending current_stats trigger : Request
  list_batches : Option ℕ → Request
  show_batch contract_data : ℕ → Request

module _ (sha : Sha256) (order : List StateCommitment → List Hash) (config : AdsConfig)
    (blake3 : List ℕ → Hash) (timestamp : ℕ → ℤ) (decode : String → Option (List ℕ)) where
  -- The state after a request.
  unfoldable pub serve : Request → ApiState → ApiState
  serve (submit amount) a = (submit_transaction_endpoint amount a).1
  serve (create batch_size) a =
      (create_batch_endpoint sha order config blake3 timestamp batch_size a).1
  serve (update batch_id request) a = (update_batch_proof_endpoint decode batch_id request a).1
  serve list_pending a = (get_pending_transactions_endpoint a).1
  serve current_stats a = (get_batch_processor_stats_endpoint a).1
  serve trigger a = (trigger_batch_endpoint a).1
  serve (list_batches limit) a = (get_batches_endpoint limit a).1
  serve (show_batch batch_id) a = (get_batch_endpoint batch_id a).1
  serve (contract_data batch_id) a = (get_contract_data_endpoint batch_id a).1

  abbrev pub serve_all : List Request → ApiState → ApiState
  serve_all [] a = a
  serve_all (r ∷ rs) a = serve_all rs (serve r a)

  serve-IsValid :
      (r : Request) (a : ApiState) → IsValid a.world.store → IsValid (serve r a).world.store
  unfolding serve submit_transaction_endpoint create_batch_endpoint update_batch_proof_endpoint
      get_pending_transactions_endpoint get_batches_endpoint get_batch_endpoint
      get_contract_data_endpoint
  serve-IsValid (submit amount) a v =
      submit_reply-keeps (submit_transaction amount a.world.store) a
        (submit_transaction-IsValid a.world.store v amount).0
  serve-IsValid (create batch_size) a v =
      create_reply-keeps
        (create_batch_with_ads sha order config blake3 timestamp a.config.max_batch_size
          (some (clamped_size batch_size a.config.max_batch_size)) a.world)
        a
        (create_batch_with_ads-IsValid sha order config blake3 timestamp a.config.max_batch_size
          (some (clamped_size batch_size a.config.max_batch_size)) a.world v)
  serve-IsValid (update batch_id request) a v =
      status-keeps decode batch_id request (parse_status request.status) a v
  serve-IsValid list_pending a v = v
  serve-IsValid current_stats a v = rw (stats_world a) v
  serve-IsValid trigger a v = rw (trigger_world a) v
  serve-IsValid (list_batches limit) a v = v
  serve-IsValid (show_batch batch_id) a v = v
  serve-IsValid (contract_data batch_id) a v = v

  -- Whatever requests come, in whatever order, also ones that are refused or fail, the queue and the batches stay valid.
  pub serve_all-IsValid :
      (rs : List Request) (a : ApiState)
      → IsValid a.world.store
      → IsValid (serve_all rs a).world.store
  serve_all-IsValid [] a v = v
  serve_all-IsValid (r ∷ rs) a v = serve_all-IsValid rs (serve r a) (serve-IsValid r a v)
