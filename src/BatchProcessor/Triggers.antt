-- ===== src/BatchProcessor/Triggers.antt =====
-- The loop of api/src/batch_processor.rs over any events: its counters, its rate, and the queue.
use demo_vapp.Prelude.{
  ℕ, ◌+◌, ◌≤◌, ◌≡◌, Bool, true, false, none, List, [], ◌∷◌, length, ℤ, arith, if◌then◌else◌,
}
use demo_vapp.Hashing.{Hash, Sha256}
use demo_vapp.Batches.{submit_transaction}
use demo_vapp.Batches.Counter.{IsValid, submit_transaction-IsValid}
use demo_vapp.AdsService.{AdsConfig, StateCommitment}
use demo_vapp.UnifiedBatchService.{
  World, Outcome, created, nothing_created, refused, create_batch_with_ads,
}
use demo_vapp.UnifiedBatchService.Growth.{Grows, create_batch_with_ads-Grows}
use demo_vapp.UnifiedBatchService.Creation.{create_batch_with_ads-IsValid}
use demo_vapp.BatchProcessor.Kinds.{pulls_in, run-Within}
use demo_vapp.BatchProcessor.{
  BatchProcessorConfig, trigger_batch, stop, get_status, update_config, Processor, Trigger, Event,
  EventKind, ticked, slept, received, submitted, should_process_batch, update_stats, finish_trigger,
  check_count_trigger, process_batch, handle, submit, step, run_loop, run,
}

-- The statistics against the table of batches, which had `before` rows at the start.
pub record AreCounted (before : ℕ) (p : Processor) : Type 0 where
  pub by_trigger :
      p.stats.total_batches_created
      ≡ p.stats.timer_triggers + p.stats.count_triggers + p.stats.manual_triggers
  pub at_least : before + p.stats.total_batches_created ≤ length p.world.store.batches
  pub at_most :
      length p.world.store.batches ≤ before + p.stats.total_batches_created + p.stats.errors

counts_trigger :
    (before : ℕ) (t : Trigger) (after : ℕ) (p : Processor) (o : Outcome × World)
    → AreCounted before p
    → Grows o.0 (length p.world.store.batches) (length o.1.store.batches)
    → AreCounted before (finish_trigger t after p o)
unfolding finish_trigger update_stats
counts_trigger before Trigger.timer after p (created r, w) c g = record {
  by_trigger = omega (arith, c.by_trigger);
  at_least = omega (arith, c.at_least);
  at_most = omega (arith, c.at_most);
}
counts_trigger before Trigger.count after p (created r, w) c g = record {
  by_trigger = omega (arith, c.by_trigger);
  at_least = omega (arith, c.at_least);
  at_most = omega (arith, c.at_most);
}
counts_trigger before Trigger.manual after p (created r, w) c g = record {
  by_trigger = omega (arith, c.by_trigger);
  at_least = omega (arith, c.at_least);
  at_most = omega (arith, c.at_most);
}
counts_trigger before t after p (nothing_created, w) c g = record {
  by_trigger = c.by_trigger;
  at_least = omega (arith, c.at_least);
  at_most = omega (arith, c.at_most);
}
counts_trigger before t after p (refused e, w) c g = record {
  by_trigger = c.by_trigger;
  at_least = omega (arith, c.at_least);
  at_most = omega (arith, c.at_most);
}

module _ (sha : Sha256) (order : List StateCommitment → List Hash) (config : AdsConfig)
    (blake3 : List ℕ → Hash) (timestamp : ℕ → ℤ) where
  counted_batch :
      (before : ℕ) (t : Trigger) (after : ℕ) (p : Processor)
      → AreCounted before p
      → AreCounted before (process_batch sha order config blake3 timestamp t after p)
  unfolding process_batch
  counted_batch before t after p c =
      counts_trigger before t after p
        (create_batch_with_ads sha order config blake3 timestamp p.config.max_batch_size none
          p.world)
        c
        (create_batch_with_ads-Grows sha order config blake3 timestamp p.config.max_batch_size none
          p.world)

  counted_submission :
      (before : ℕ) (amount : ℤ) (p : Processor)
      → AreCounted before p
      → AreCounted before (submit sha order config blake3 timestamp amount p)
  unfolding submit_transaction
  counted_submission before amount p c = record {
    by_trigger = c.by_trigger;
    at_least = c.at_least;
    at_most = c.at_most;
  }

  valid_trigger :
      (t : Trigger) (after : ℕ) (p : Processor) (o : Outcome × World)
      → IsValid o.1.store
      → IsValid (finish_trigger t after p o).world.store
  unfolding finish_trigger
  valid_trigger t after p (created r, w) v = v
  valid_trigger t after p (nothing_created, w) v = v
  valid_trigger t after p (refused e, w) v = v

  valid_batch :
      (t : Trigger) (after : ℕ) (p : Processor)
      → IsValid p.world.store
      → IsValid (process_batch sha order config blake3 timestamp t after p).world.store
  unfolding process_batch
  valid_batch t after p v =
      valid_trigger t after p
        (create_batch_with_ads sha order config blake3 timestamp p.config.max_batch_size none
          p.world)
        (create_batch_with_ads-IsValid sha order config blake3 timestamp p.config.max_batch_size
          none p.world v)

  -- What a trigger keeps, whatever makes it, is kept by the loop.
  module _ (P : Processor → Type 0)
      (keeps_batch : (t : Trigger) (after : ℕ) (p : Processor)
        → P p
        → P (process_batch sha order config blake3 timestamp t after p))
      (keeps_stop : (p : Processor) → P p → P (record p { stopped = true }))
      (keeps_config : (c : BatchProcessorConfig) (p : Processor)
        → P p
        → P (record p { config = c }))
      (keeps_submission : (amount : ℤ) (p : Processor)
        → P p
        → P (submit sha order config blake3 timestamp amount p)) where
    if_keeps : (b : Bool) (p q : Processor) → P p → P q → P (if b then p else q)
    if_keeps true p q hp hq = hp
    if_keeps false p q hp hq = hq

    handle_keeps :
        (k : EventKind) (now after : ℕ) (p : Processor)
        → P p
        → P (handle sha order config blake3 timestamp k now after p)
    handle_keeps ticked now after p h =
        if_keeps (should_process_batch now p)
          (process_batch sha order config blake3 timestamp Trigger.timer after p) p
          (keeps_batch Trigger.timer after p h) h
    handle_keeps slept now after p h =
        let q = process_batch sha order config blake3 timestamp Trigger.count after p in
        if_keeps (should_process_batch now p) (if check_count_trigger p then q else p) p
          (if_keeps (check_count_trigger p) q p (keeps_batch Trigger.count after p h) h) h
    handle_keeps (received trigger_batch) now after p h = keeps_batch Trigger.manual after p h
    handle_keeps (received stop) now after p h = keeps_stop p h
    handle_keeps (received get_status) now after p h = h
    handle_keeps (received (update_config c)) now after p h = keeps_config c p h
    handle_keeps (submitted amount) now after p h = keeps_submission amount p h

    loop_keeps :
        (es : List Event) (p : Processor)
        → P p
        → P (run_loop sha order config blake3 timestamp es p)
    unfolding run_loop step
    loop_keeps [] p h = h
    loop_keeps (e ∷ es) p h =
        let q = step sha order config blake3 timestamp e p in
        if_keeps p.stopped p (run_loop sha order config blake3 timestamp es q) h
          (loop_keeps es q (handle_keeps e.kind e.now e.after p h))

    run_keeps :
        (es : List Event) (p : Processor) → P p → P (run sha order config blake3 timestamp es p)
    unfolding run
    run_keeps es p h =
        if_keeps p.config.enabled (run_loop sha order config blake3 timestamp es p) p
          (loop_keeps es p h) h

  run_counted :
      (es : List Event) (before : ℕ) (p : Processor)
      → AreCounted before p
      → AreCounted before (run sha order config blake3 timestamp es p)
  run_counted es before =
      run_keeps (AreCounted before) (λ t after p c. counted_batch before t after p c)
        (λ p c. record { by_trigger = c.by_trigger; at_least = c.at_least; at_most = c.at_most })
        (λ b p c. record { by_trigger = c.by_trigger; at_least = c.at_least; at_most = c.at_most })
        (λ amount p c. counted_submission before amount p c) es

  -- After any events the number of batches in the statistics is the sum of the three triggers' numbers, and
  -- the table has grown by at least that number, and by at most that number and the number of errors. Each
  -- trigger's own number has grown by no more than the number of events that may pull it: ticks of the
  -- timer, sleeps for the count, and commands to trigger a batch.
  pub run-AreCounted :
      (es : List Event) (before : ℕ) (p : Processor)
      → AreCounted before p
      → let q = run sha order config blake3 timestamp es p in
        AreCounted before q
        × (q.stats.timer_triggers ≤ p.stats.timer_triggers + pulls_in Trigger.timer es)
        × (q.stats.count_triggers ≤ p.stats.count_triggers + pulls_in Trigger.count es)
        × (q.stats.manual_triggers ≤ p.stats.manual_triggers + pulls_in Trigger.manual es)
  run-AreCounted es before p counted = (
    run_counted es before p counted,
    run-Within sha order config blake3 timestamp Trigger.timer es p,
    run-Within sha order config blake3 timestamp Trigger.count es p,
    run-Within sha order config blake3 timestamp Trigger.manual es p,
  )

  -- Whatever events come, the queue and the batches stay valid.
  pub run-IsValid :
      (es : List Event) (p : Processor)
      → IsValid p.world.store
      → IsValid (run sha order config blake3 timestamp es p).world.store
  run-IsValid es =
      run_keeps (λ p. IsValid p.world.store) (λ t after p v. valid_batch t after p v) (λ p v. v)
        (λ b p v. v) (λ amount p v. (submit_transaction-IsValid p.world.store v amount).0) es
