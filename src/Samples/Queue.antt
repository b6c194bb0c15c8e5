-- ===== src/Samples/Queue.antt =====
-- A queue with nothing in it, and one with a transaction of 5.
use mathlib.Core.Option.{none-ne-some}
use mathlib.Core.Bool.{false≢true}
use demo_vapp.Prelude.{refl, none, [], ◌∷◌, pos}
use demo_vapp.Batches.{IncomingTransaction, Store, submit_transaction, get_current_counter_value}
use demo_vapp.Batches.Queue.{has_id, sum_included}
use demo_vapp.Batches.Counter.{IsValid, submit_transaction-IsValid}

abbrev pub empty : Store
empty = record {
  transactions = [];
  batches = [];
  commits = [];
  next_transaction = 1;
  next_batch = 1;
  next_commit = 1;
}

pub empty-IsValid : IsValid empty
unfolding has_id sum_included get_current_counter_value
empty-IsValid = record {
  distinct = tt;
  ids_below = λ i there. absurd (false≢true there);
  batches_below = λ i b there. absurd (none-ne-some b there);
  linked = tt;
  counter = refl;
}

abbrev pub first : IncomingTransaction
first = record { id = 1; amount = pos 5; included_in_batch_id = none }

abbrev pub queued : Store
queued = record empty { transactions = first ∷ []; next_transaction = 2 }

pub queued-IsValid : IsValid queued
unfolding submit_transaction
queued-IsValid = (submit_transaction-IsValid empty empty-IsValid (pos 5)).0
