-- ===== src/BackgroundProcessor/Progress.antt =====
-- Where the processor of db/src/background_processor.rs stands: across restarts, and after a failure.
use demo_vapp.Prelude.{ℕ, ◌≡◌, ◌⊎◌, Bool, false, some, List}
use demo_vapp.Hashing.{Hash, Sha256}
use demo_vapp.Error.{Result}
use demo_vapp.Db.{Db}
use demo_vapp.BackgroundProcessor.{BackgroundProcessor}

-- The id in memory is the one in the table.
abbrev pub IsStored : BackgroundProcessor → Type 0
IsStored p = p.processor_state ≡ some p.last_processed_id

module _ (sha : Sha256) (blake3 : List ℕ → Hash) where
  -- What processing does to the ids: the table's stays, and the one in memory where nothing succeeds.
  record Advances (p : BackgroundProcessor) (r : ℕ × BackgroundProcessor) : Type 0 where
    same_table : r.1.processor_state ≡ p.processor_state
    same_config : r.1.config ≡ p.config
    idle : r.0 ≡ 0 → r.1.last_processed_id ≡ p.last_processed_id
    moved :
        (r.1.last_processed_id ≡ p.last_processed_id)
        ⊎ ((id : ℕ) × (r.1.last_processed_id ≡ some id))

  record AdvancesOnce (p : BackgroundProcessor) (r : Bool × BackgroundProcessor) : Type 0 where
    same_table : r.1.processor_state ≡ p.processor_state
    same_config : r.1.config ≡ p.config
    idle : r.0 ≡ false → r.1.last_processed_id ≡ p.last_processed_id
    moved :
        (r.1.last_processed_id ≡ p.last_processed_id)
        ⊎ ((id : ℕ) × (r.1.last_processed_id ≡ some id))

  -- In step with the table, in the same configuration.
  abbrev InStep : BackgroundProcessor → BackgroundProcessor → Type 0
  InStep p q = IsStored q × (q.config ≡ p.config)

  abbrev In : BackgroundProcessor → Result ℕ × BackgroundProcessor → Type 0
  In p r = InStep p r.1
