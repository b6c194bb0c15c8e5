-- ===== src/BatchProcessor/Rate.antt =====
-- How often the timer and count triggers of api/src/batch_processor.rs succeed.
use demo_vapp.Prelude.{
  ℕ, ◌+◌, ◌*◌, ◌≤◌, ◌≡◌, refl, ap, Bool, true, false, none, List, [], ◌∷◌, ℤ, arith, if◌then◌else◌,
}
use demo_vapp.Hashing.{Hash, Sha256}
use demo_vapp.AdsService.{AdsConfig, StateCommitment}
use demo_vapp.UnifiedBatchService.{
  World, Outcome, created, nothing_created, refused, create_batch_with_ads,
}
use demo_vapp.BatchProcessor.{
  trigger_batch, stop, get_status, update_config, BatchProcessorStats, no_stats, Processor, Trigger,
  Event, EventKind, ticked, slept, received, submitted, should_process_batch, update_stats,
  finish_trigger, check_count_trigger, process_batch, handle, step, run_loop, run,
}

-- No command changes the minimal interval.
abbrev pub KeepsInterval : ℕ → EventKind → Type 0
KeepsInterval m (received (update_config c)) = c.min_batch_interval_seconds ≡ m
KeepsInterval m _ = Unit {0}

-- Time does not run backwards.
abbrev pub AreOrdered : ℕ → ℕ → List Event → Type 0
AreOrdered m t [] = Unit {0}
AreOrdered m t (e ∷ es) =
    (t ≤ e.now) × (e.now ≤ e.after) × KeepsInterval m e.kind × AreOrdered m e.after es

abbrev pub end_of : ℕ → List Event → ℕ
end_of t [] = t
end_of t (e ∷ es) = end_of e.after es

-- The counted timer and count triggers since `start` fit before the last batch that was made without an error.
pub record IsPaced (m start t : ℕ) (p : Processor) : Type 0 where
  pub interval : p.config.min_batch_interval_seconds ≡ m
  pub past : p.last_batch_time ≤ t
  pub spaced :
      start + (p.stats.timer_triggers + p.stats.count_triggers) * (1000 * m) ≤ p.last_batch_time

one_more :
    (start k q last now : ℕ) → start + k * q ≤ last → last + q ≤ now → start + (k + 1) * q ≤ now
one_more start k q last now h due = grind arith

due :
    (m now : ℕ) (p : Processor)
    → p.config.min_batch_interval_seconds ≡ m
    → p.last_batch_time ≤ now
    → should_process_batch now p ≡ true
    → p.last_batch_time + 1000 * m ≤ now
unfolding should_process_batch
due m now p same past ready = ground arith

later : (m start t t' : ℕ) (p : Processor) → t ≤ t' → IsPaced m start t p → IsPaced m start t' p
later m start t t' p on paced = record {
  interval = paced.interval;
  past = omega (arith, paced.past);
  spaced = paced.spaced;
}

manual-IsPaced :
    (m start t after : ℕ) (p : Processor) (o : Outcome × World)
    → t ≤ after
    → IsPaced m start t p
    → IsPaced m start after (finish_trigger Trigger.manual after p o)
unfolding finish_trigger update_stats
manual-IsPaced m start t after p (created r, w) on paced = record {
  interval = paced.interval;
  past = omega arith;
  spaced = omega (arith, paced.spaced, paced.past);
}
manual-IsPaced m start t after p (nothing_created, w) on paced = record {
  interval = paced.interval;
  past = omega (arith, paced.past);
  spaced = paced.spaced;
}
manual-IsPaced m start t after p (refused e, w) on paced = record {
  interval = paced.interval;
  past = omega (arith, paced.past);
  spaced = paced.spaced;
}

-- Of a batch that a trigger makes once the interval is over.
spaced_more :
    (m start now after a b k : ℕ) (p : Processor)
    → a + b ≡ k + 1
    → start + k * (1000 * m) ≤ p.last_batch_time
    → p.last_batch_time + 1000 * m ≤ now
    → now ≤ after
    → start + (a + b) * (1000 * m) ≤ after
spaced_more m start now after a b k p more h over on =
    let step_on = one_more start k (1000 * m) p.last_batch_time now h over in
    omega (arith, ap (λ n. start + n * (1000 * m)) more, step_on)

timer-IsPaced :
    (m start t now after : ℕ) (p : Processor) (o : Outcome × World)
    → t ≤ now
    → now ≤ after
    → p.last_batch_time + 1000 * m ≤ now
    → IsPaced m start t p
    → IsPaced m start after (finish_trigger Trigger.timer after p o)
unfolding finish_trigger update_stats
timer-IsPaced m start t now after p (created r, w) on rest over paced = record {
  interval = paced.interval;
  past = omega arith;
  spaced =
      spaced_more m start now after (p.stats.timer_triggers + 1) p.stats.count_triggers
        (p.stats.timer_triggers + p.stats.count_triggers) p (omega arith) paced.spaced over rest;
}
timer-IsPaced m start t now after p (nothing_created, w) on rest over paced = record {
  interval = paced.interval;
  past = omega (arith, paced.past);
  spaced = paced.spaced;
}
timer-IsPaced m start t now after p (refused e, w) on rest over paced = record {
  interval = paced.interval;
  past = omega (arith, paced.past);
  spaced = paced.spaced;
}

count-IsPaced :
    (m start t now after : ℕ) (p : Processor) (o : Outcome × World)
    → t ≤ now
    → now ≤ after
    → p.last_batch_time + 1000 * m ≤ now
    → IsPaced m start t p
    → IsPaced m start after (finish_trigger Trigger.count after p o)
unfolding finish_trigger update_stats
count-IsPaced m start t now after p (created r, w) on rest over paced = record {
  interval = paced.interval;
  past = omega arith;
  spaced =
      spaced_more m start now after p.stats.timer_triggers (p.stats.count_triggers + 1)
        (p.stats.timer_triggers + p.stats.count_triggers) p (omega arith) paced.spaced over rest;
}
count-IsPaced m start t now after p (nothing_created, w) on rest over paced = record {
  interval = paced.interval;
  past = omega (arith, paced.past);
  spaced = paced.spaced;
}
count-IsPaced m start t now after p (refused e, w) on rest over paced = record {
  interval = paced.interval;
  past = omega (arith, paced.past);
  spaced = paced.spaced;
}

module _ (sha : Sha256) (order : List StateCommitment → List Hash) (config : AdsConfig)
    (blake3 : List ℕ → Hash) (timestamp : ℕ → ℤ) (m start : ℕ) where
  abbrev outcome : Processor → Outcome × World
  outcome p =
      create_batch_with_ads sha order config blake3 timestamp p.config.max_batch_size none p.world

  abbrev P : ℕ → Processor → Type 0
  P = IsPaced m start

  test_paced :
      (b : Bool) (t : ℕ) (p q : Processor) → (b ≡ true → P t p) → P t q → P t (if b then p else q)
  test_paced true t p q hp hq = hp refl
  test_paced false t p q hp hq = hq

  handle_paced :
      (k : EventKind) (t now after : ℕ) (p : Processor)
      → t ≤ now
      → now ≤ after
      → KeepsInterval m k
      → P t p
      → P after (handle sha order config blake3 timestamp k now after p)
  unfolding process_batch
  handle_paced ticked t now after p on rest keeps paced =
      test_paced (should_process_batch now p) after
        (finish_trigger Trigger.timer after p (outcome p)) p
        (λ ready.
          timer-IsPaced m start t now after p (outcome p) on rest
            (due m now p paced.interval (omega (arith, paced.past)) ready) paced)
        (later m start t after p (omega arith) paced)
  handle_paced slept t now after p on rest keeps paced =
      let q = finish_trigger Trigger.count after p (outcome p) in
      let same = later m start t after p (omega arith) paced in
      test_paced (should_process_batch now p) after (if check_count_trigger p then q else p) p
        (λ ready.
          test_paced (check_count_trigger p) after q p
            (λ enough.
              count-IsPaced m start t now after p (outcome p) on rest
                (due m now p paced.interval (omega (arith, paced.past)) ready) paced)
            same)
        same
  handle_paced (received trigger_batch) t now after p on rest keeps paced =
      manual-IsPaced m start t after p (outcome p) (omega arith) paced
  handle_paced (received stop) t now after p on rest keeps paced = record {
    interval = paced.interval;
    past = omega (arith, paced.past);
    spaced = paced.spaced;
  }
  handle_paced (received get_status) t now after p on rest keeps paced =
      later m start t after p (omega arith) paced
  handle_paced (received (update_config c)) t now after p on rest keeps paced = record {
    interval = keeps;
    past = omega (arith, paced.past);
    spaced = paced.spaced;
  }
  handle_paced (submitted amount) t now after p on rest keeps paced = record {
    interval = paced.interval;
    past = omega (arith, paced.past);
    spaced = paced.spaced;
  }

  ends_later : (t : ℕ) (es : List Event) → AreOrdered m t es → t ≤ end_of t es
  ends_later t [] ordered = omega arith
  ends_later t (e ∷ es) ordered =
      omega (arith, ordered.0, ordered.1, ends_later e.after es ordered.3)

  loop_paced :
      (es : List Event) (t : ℕ) (p : Processor)
      → AreOrdered m t es
      → P t p
      → P (end_of t es) (run_loop sha order config blake3 timestamp es p)
  unfolding run_loop step
  loop_paced [] t p ordered paced = paced
  loop_paced (e ∷ es) t p ordered paced =
      let q = step sha order config blake3 timestamp e p in
      test_paced p.stopped (end_of t (e ∷ es)) p (run_loop sha order config blake3 timestamp es q)
        (λ over. later m start t (end_of t (e ∷ es)) p (ends_later t (e ∷ es) ordered) paced)
        (loop_paced es e.after q ordered.3
          (handle_paced e.kind t e.now e.after p ordered.0 ordered.1 ordered.2 paced))

  run_paced :
      (es : List Event) (t : ℕ) (p : Processor)
      → AreOrdered m t es
      → P t p
      → P (end_of t es) (run sha order config blake3 timestamp es p)
  unfolding run
  run_paced es t p ordered paced =
      test_paced p.config.enabled (end_of t es) (run_loop sha order config blake3 timestamp es p) p
        (λ on. loop_paced es t p ordered paced)
        (later m start t (end_of t es) p (ends_later t es ordered) paced)

  fresh_paced :
      (p : Processor)
      → p.stats ≡ no_stats
      → p.last_batch_time ≡ start
      → p.config.min_batch_interval_seconds ≡ m
      → P start p
  fresh_paced p fresh begun interval = record {
    interval = interval;
    past = omega arith;
    spaced = omega (
      arith,
      ap (λ (s : BatchProcessorStats). (s.timer_triggers + s.count_triggers) * (1000 * m)) fresh,
    );
  }

  -- A processor that starts at `start` with nothing counted, while no command changes the minimal interval, and time
  -- does not run backwards: the number of timer and count triggers that it has counted as successful, times the
  -- interval of `m` seconds, fits between the start and the last event.
  pub run-rate :
      (es : List Event) (p : Processor)
      → p.stats ≡ no_stats
      → p.last_batch_time ≡ start
      → p.config.min_batch_interval_seconds ≡ m
      → AreOrdered m start es
      → let q = run sha order config blake3 timestamp es p in
        start + (q.stats.timer_triggers + q.stats.count_triggers) * (1000 * m) ≤ end_of start es
  run-rate es p fresh begun interval ordered =
      let end = run_paced es start p ordered (fresh_paced p fresh begun interval) in
      omega (arith, end.past, end.spaced)
