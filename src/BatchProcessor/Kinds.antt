-- ===== src/BatchProcessor/Kinds.antt =====
-- The counters of api/src/batch_processor.rs against the events of each kind.
use demo_vapp.Prelude.{
  ℕ, ◌+◌, ◌≤◌, Bool, true, false, none, List, [], ◌∷◌, ℤ, arith, if◌then◌else◌, if_cases,
}
use demo_vapp.Hashing.{Hash, Sha256}
use demo_vapp.AdsService.{AdsConfig, StateCommitment}
use demo_vapp.UnifiedBatchService.{
  World, Outcome, created, nothing_created, refused, create_batch_with_ads,
}
use demo_vapp.BatchProcessor.{
  trigger_batch, stop, get_status, update_config, BatchProcessorStats, Processor, Trigger, Event,
  EventKind, ticked, slept, received, submitted, should_process_batch, update_stats, finish_trigger,
  check_count_trigger, process_batch, handle, step, run_loop, run,
}

abbrev pub counter_of : Trigger → BatchProcessorStats → ℕ
counter_of Trigger.timer s = s.timer_triggers
counter_of Trigger.count s = s.count_triggers
counter_of Trigger.manual s = s.manual_triggers

-- 1 where an event of that kind may pull the trigger.
abbrev pub pulls : Trigger → EventKind → ℕ
pulls Trigger.timer ticked = 1
pulls Trigger.count slept = 1
pulls Trigger.manual (received trigger_batch) = 1
pulls _ _ = 0

abbrev pub pulls_in : Trigger → List Event → ℕ
pulls_in t [] = 0
pulls_in t (e ∷ es) = pulls t e.kind + pulls_in t es

abbrev kind_of : Trigger → EventKind
kind_of Trigger.timer = ticked
kind_of Trigger.count = slept
kind_of Trigger.manual = received trigger_batch

abbrev Within : Trigger → ℕ → Processor → Processor → Type 0
Within t n p q = counter_of t q.stats ≤ counter_of t p.stats + n

finished-Within :
    (t u : Trigger) (after : ℕ) (p : Processor) (o : Outcome × World)
    → Within t (pulls t (kind_of u)) p (finish_trigger u after p o)
unfolding finish_trigger update_stats
finished-Within Trigger.timer Trigger.timer after p (created r, w) = omega arith
finished-Within Trigger.timer Trigger.count after p (created r, w) = omega arith
finished-Within Trigger.timer Trigger.manual after p (created r, w) = omega arith
finished-Within Trigger.count Trigger.timer after p (created r, w) = omega arith
finished-Within Trigger.count Trigger.count after p (created r, w) = omega arith
finished-Within Trigger.count Trigger.manual after p (created r, w) = omega arith
finished-Within Trigger.manual Trigger.timer after p (created r, w) = omega arith
finished-Within Trigger.manual Trigger.count after p (created r, w) = omega arith
finished-Within Trigger.manual Trigger.manual after p (created r, w) = omega arith
finished-Within Trigger.timer u after p (nothing_created, w) = omega arith
finished-Within Trigger.count u after p (nothing_created, w) = omega arith
finished-Within Trigger.manual u after p (nothing_created, w) = omega arith
finished-Within Trigger.timer u after p (refused e, w) = omega arith
finished-Within Trigger.count u after p (refused e, w) = omega arith
finished-Within Trigger.manual u after p (refused e, w) = omega arith

same-Within : (t : Trigger) (n : ℕ) (p : Processor) → Within t n p p
same-Within Trigger.timer n p = omega arith
same-Within Trigger.count n p = omega arith
same-Within Trigger.manual n p = omega arith

test-Within :
    (b : Bool) (t : Trigger) (n : ℕ) (p q : Processor)
    → Within t n p q
    → Within t n p (if b then q else p)
test-Within true t n p q h = h
test-Within false t n p q h = same-Within t n p

module _ (sha : Sha256) (order : List StateCommitment → List Hash) (config : AdsConfig)
    (blake3 : List ℕ → Hash) (timestamp : ℕ → ℤ) (t : Trigger) where
  abbrev outcome : Processor → Outcome × World
  outcome p =
      create_batch_with_ads sha order config blake3 timestamp p.config.max_batch_size none p.world

  handled-Within :
      (k : EventKind) (now after : ℕ) (p : Processor)
      → Within t (pulls t k) p (handle sha order config blake3 timestamp k now after p)
  unfolding process_batch
  handled-Within ticked now after p =
      test-Within (should_process_batch now p) t (pulls t ticked) p
        (finish_trigger Trigger.timer after p (outcome p))
        (finished-Within t Trigger.timer after p (outcome p))
  handled-Within slept now after p =
      let q = finish_trigger Trigger.count after p (outcome p) in
      test-Within (should_process_batch now p) t (pulls t slept) p
        (if check_count_trigger p then q else p)
        (test-Within (check_count_trigger p) t (pulls t slept) p q
          (finished-Within t Trigger.count after p (outcome p)))
  handled-Within (received trigger_batch) now after p =
      finished-Within t Trigger.manual after p (outcome p)
  handled-Within (received stop) now after p = same-Within t (pulls t (received stop)) p
  handled-Within (received get_status) now after p = same-Within t (pulls t (received get_status)) p
  handled-Within (received (update_config c)) now after p =
      same-Within t (pulls t (received (update_config c))) p
  handled-Within (submitted amount) now after p = same-Within t (pulls t (submitted amount)) p

  loop-Within :
      (es : List Event) (p : Processor)
      → Within t (pulls_in t es) p (run_loop sha order config blake3 timestamp es p)
  unfolding run_loop step
  loop-Within [] p = same-Within t 0 p
  loop-Within (e ∷ es) p =
      let q = step sha order config blake3 timestamp e p in
      let r = run_loop sha order config blake3 timestamp es q in
      if_cases (Within t (pulls_in t (e ∷ es)) p) p.stopped p r
        (λ over. same-Within t (pulls_in t (e ∷ es)) p)
        (λ on. omega (arith, handled-Within e.kind e.now e.after p, loop-Within es q))

  pub run-Within :
      (es : List Event) (p : Processor)
      → Within t (pulls_in t es) p (run sha order config blake3 timestamp es p)
  unfolding run
  run-Within es p =
      test-Within p.config.enabled t (pulls_in t es) p
        (run_loop sha order config blake3 timestamp es p) (loop-Within es p)
