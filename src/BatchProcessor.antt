-- ===== src/BatchProcessor.antt =====
-- api/src/batch_processor.rs: the loop of the background processor, one step per event of its `select!`. A
-- moment is a number of milliseconds; an event has the moment at which its branch starts and the one at
-- which a batch that it makes is done. Submissions of other tasks are events of their own.
pub mod Monitor
pub mod Kinds
pub mod Triggers
pub mod Rate
pub mod Table
pub mod Phases
pub mod Calls
pub mod Cycle
pub mod Stuck
pub mod Posting
pub mod Requests
mod Tests
use demo_vapp.Prelude.{
  ℕ, suc, ◌+◌, ◌-◌, ◌/◌, Bool, true, false, Option, none, some, List, [], ◌∷◌, leb, length,
  if◌then◌else◌, ℤ,
}
use demo_vapp.Hashing.{Hash, Sha256}
use demo_vapp.Error.{ok, err}
use demo_vapp.Batches.{submit_transaction, get_pending_transactions}
use demo_vapp.AdsService.{AdsConfig, StateCommitment}
use demo_vapp.UnifiedBatchService.{
  World, Outcome, created, nothing_created, refused, create_batch_with_ads,
}

pub record BatchProcessorConfig : Type 0 where
  pub timer_interval_seconds : ℕ
  pub count_trigger_threshold : ℕ
  pub max_batch_size : ℕ
  pub enabled : Bool
  pub min_batch_interval_seconds : ℕ

abbrev pub default_config : BatchProcessorConfig
default_config = record {
  timer_interval_seconds = 60;
  count_trigger_threshold = 10;
  max_batch_size = 50;
  enabled = true;
  min_batch_interval_seconds = 5;
}

pub data BatchProcessorCommand : Type 0 where
  trigger_batch stop get_status : BatchProcessorCommand
  update_config : BatchProcessorConfig → BatchProcessorCommand

pub record BatchProcessorStats : Type 0 where
  pub total_batches_created : ℕ
  pub total_transactions_processed : ℕ
  pub last_batch_time : Option ℕ
  pub timer_triggers : ℕ
  pub count_triggers : ℕ
  pub manual_triggers : ℕ
  pub errors : ℕ

abbrev pub no_stats : BatchProcessorStats
no_stats = record {
  total_batches_created = 0;
  total_transactions_processed = 0;
  last_batch_time = none;
  timer_triggers = 0;
  count_triggers = 0;
  manual_triggers = 0;
  errors = 0;
}

-- The processor, the loop's `last_batch_time`, and what it works on.
pub record Processor : Type 0 where
  pub config : BatchProcessorConfig
  pub stats : BatchProcessorStats
  pub last_batch_time : ℕ
  pub stopped : Bool
  pub world : World

pub data Trigger : Type 0 where
  timer count manual : Trigger

pub data EventKind : Type 0 where
  ticked slept : EventKind
  received : BatchProcessorCommand → EventKind
  submitted : ℤ → EventKind

pub record Event : Type 0 where
  pub kind : EventKind
  pub now : ℕ
  pub after : ℕ

unfoldable pub should_process_batch : ℕ → Processor → Bool
should_process_batch now p =
    leb p.config.min_batch_interval_seconds ((now - p.last_batch_time) / 1000)

unfoldable pub update_stats : ℕ → ℕ → BatchProcessorStats → BatchProcessorStats
update_stats transaction_count time s = record s {
  total_batches_created = s.total_batches_created + 1;
  total_transactions_processed = s.total_transactions_processed + transaction_count;
  last_batch_time = some time;
}

abbrev pub increment : Trigger → BatchProcessorStats → BatchProcessorStats
increment timer s = record s { timer_triggers = s.timer_triggers + 1 }
increment count s = record s { count_triggers = s.count_triggers + 1 }
increment manual s = record s { manual_triggers = s.manual_triggers + 1 }

abbrev pub increment_errors : BatchProcessorStats → BatchProcessorStats
increment_errors s = record s { errors = s.errors + 1 }

-- A trigger's match on the result of process_batch, whose updates of the statistics come first.
unfoldable pub finish_trigger : Trigger → ℕ → Processor → Outcome × World → Processor
finish_trigger trigger after p (created r, w) = record p {
  stats = increment trigger (update_stats r.transaction_count after p.stats);
  last_batch_time = after;
  world = w;
}
finish_trigger trigger after p (nothing_created, w) = record p { world = w }
finish_trigger trigger after p (refused e, w) = record p {
  stats = increment_errors p.stats;
  world = w;
}

unfoldable pub check_count_trigger : Processor → Bool
check_count_trigger p = elim (get_pending_transactions p.world.store).0 [
  | ok transactions ↦ leb p.config.count_trigger_threshold (length transactions)
  | err e ↦ false
]

module _ (sha : Sha256) (order : List StateCommitment → List Hash) (config : AdsConfig)
    (blake3 : List ℕ → Hash) (timestamp : ℕ → ℤ) where
  unfoldable pub process_batch : Trigger → ℕ → Processor → Processor
  process_batch trigger after p =
      finish_trigger trigger after p (
        create_batch_with_ads sha order config blake3 timestamp p.config.max_batch_size none
          p.world)

  abbrev pub handle_command : BatchProcessorCommand → ℕ → Processor → Processor
  handle_command trigger_batch after p = process_batch manual after p
  handle_command stop after p = record p { stopped = true }
  handle_command (update_config c) after p = record p { config = c }
  handle_command get_status after p = p

  abbrev pub submit : ℤ → Processor → Processor
  submit amount p = record p {
    world = record p.world { store = (submit_transaction amount p.world.store).1 };
  }

  -- One branch of the `select!`.
  abbrev pub handle : EventKind → ℕ → ℕ → Processor → Processor
  handle ticked now after p = if should_process_batch now p then process_batch timer after p else p
  handle slept now after p =
      if should_process_batch now p
      then (if check_count_trigger p then process_batch count after p else p)
      else p
  handle (received c) now after p = handle_command c after p
  handle (submitted amount) now after p = submit amount p

  unfoldable pub step : Event → Processor → Processor
  step e p = handle e.kind e.now e.after p

  unfoldable pub run_loop : List Event → Processor → Processor
  run_loop [] p = p
  run_loop (e ∷ es) p = if p.stopped then p else run_loop es (step e p)

  unfoldable pub run : List Event → Processor → Processor
  run es p = if p.config.enabled then run_loop es p else p
