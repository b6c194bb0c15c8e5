-- ===== src/Error.antt =====
-- Errors of the database layer: db/src/error.rs. Message texts are dropped; the numbers that an error
-- carries are kept. `SqlxError` has the cases of `sqlx::Error` that the repository tells apart.
pub mod Classes
mod Tests
use demo_vapp.Prelude.{ℕ, Bool, true, false}
use Prim.Native.String.{String}

pub data SqlxError : Type 0 where
  io pool_timed_out pool_closed row_not_found : SqlxError
  constraint_violation other : SqlxError

pub data DbError : Type 0 where
  database : SqlxError → DbError
  nullifier_exists insertion_failed : ℕ → DbError
  not_found : DbError
  invalid_hash_length : ℕ → DbError
  chain_validation_failed invalid_tree_parameter tree_full invalid_nullifier_value : DbError
  transaction_failed pool_error invalid_state migration_error config_error : DbError

unfoldable pub is_recoverable : DbError → Bool
is_recoverable (database SqlxError.io) = true
is_recoverable (database SqlxError.pool_timed_out) = true
is_recoverable (database SqlxError.pool_closed) = true
is_recoverable pool_error = true
is_recoverable transaction_failed = true
is_recoverable _ = false

unfoldable pub is_constraint_violation : DbError → Bool
is_constraint_violation (database SqlxError.constraint_violation) = true
is_constraint_violation (nullifier_exists _) = true
is_constraint_violation chain_validation_failed = true
is_constraint_violation _ = false

unfoldable pub error_code : DbError → String
error_code (database _) = "DB_ERROR"
error_code (nullifier_exists _) = "NULLIFIER_EXISTS"
error_code (insertion_failed _) = "INSERTION_FAILED"
error_code not_found = "NOT_FOUND"
error_code (invalid_hash_length _) = "INVALID_HASH_LENGTH"
error_code chain_validation_failed = "CHAIN_VALIDATION_FAILED"
error_code invalid_tree_parameter = "INVALID_TREE_PARAMETER"
error_code tree_full = "TREE_FULL"
error_code invalid_nullifier_value = "INVALID_NULLIFIER_VALUE"
error_code transaction_failed = "TRANSACTION_FAILED"
error_code pool_error = "POOL_ERROR"
error_code migration_error = "MIGRATION_ERROR"
error_code config_error = "CONFIG_ERROR"
error_code invalid_state = "INVALID_STATE"

pub data Result {ℓ} (A : Type ℓ) : Type ℓ where
  ok : A → Result A
  err : DbError → Result A
