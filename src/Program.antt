-- ===== src/Program.antt =====
-- The program in the zkVM: `addition` and `process_transactions` of lib/src/lib.rs, which
-- program/src/main.rs runs between reading its inputs and committing both balances.
use demo_vapp.Prelude.{
  ◌≡◌, ◌∙◌, sym, ap, true, List, [], ◌∷◌, ℤ, ◌+ℤ◌, +ℤ_assoc, +ℤ_zero, wrap_i32, wrap_i32_id,
  wrap_i32-+ℤ, is_i32,
}
use demo_vapp.Batches.{sum_amounts}
use demo_vapp.Batches.Queue.{Transactions, amounts}

-- `wrapping_add`
unfoldable pub addition : ℤ → ℤ → ℤ
addition a b = wrap_i32 (a +ℤ b)

unfoldable pub process_transactions : ℤ → List ℤ → ℤ
process_transactions balance [] = balance
process_transactions balance (transaction ∷ rest) =
    process_transactions (addition balance transaction) rest

-- Both public values.
unfoldable pub main : ℤ → List ℤ → ℤ × ℤ
main initial_balance transactions =
    (initial_balance, process_transactions initial_balance transactions)

pub wraps :
    (balance : ℤ) (ts : Transactions)
    → process_transactions (wrap_i32 balance) (amounts ts) ≡ wrap_i32 (balance +ℤ sum_amounts ts)
unfolding process_transactions addition sum_amounts
wraps balance [] = ap wrap_i32 (sym (+ℤ_zero balance))
wraps balance (t ∷ ts) =
    ap (λ b. process_transactions b (amounts ts)) (wrap_i32-+ℤ balance t.amount)
    ∙ wraps (balance +ℤ t.amount) ts
    ∙ ap wrap_i32 (+ℤ_assoc balance t.amount (sum_amounts ts))

-- From an i32 balance the program commits the sum that the batch records, reduced to an i32 by two's
-- complement: overflows on the way do not matter.
pub main-wraps :
    (balance : ℤ) (ts : Transactions)
    → is_i32 balance ≡ true
    → main balance (amounts ts) ≡ (balance, wrap_i32 (balance +ℤ sum_amounts ts))
unfolding main
main-wraps balance ts fits =
    ap (λ b. (balance, b))
      (ap (λ b. process_transactions b (amounts ts)) (sym (wrap_i32_id balance fits))
        ∙ wraps balance ts)

-- Where start and sum are i32 numbers, the program's final balance is the batch's final counter value.
pub main-batch :
    (balance : ℤ) (ts : Transactions)
    → is_i32 balance ≡ true
    → is_i32 (balance +ℤ sum_amounts ts) ≡ true
    → main balance (amounts ts) ≡ (balance, balance +ℤ sum_amounts ts)
main-batch balance ts fits final_fits =
    main-wraps balance ts fits ∙ ap (λ b. (balance, b)) (wrap_i32_id _ final_fits)
