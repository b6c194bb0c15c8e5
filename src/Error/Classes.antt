-- ===== src/Error/Classes.antt =====
-- How the error classes of db/src/error.rs relate.
use demo_vapp.Prelude.{◌≡◌, true, false, arith}
use demo_vapp.Error.{DbError, is_recoverable, is_constraint_violation}

-- No error is both: what a caller may retry never violates a constraint.
pub recoverable-not-constraint :
    (e : DbError) → is_recoverable e ≡ true → is_constraint_violation e ≡ false
unfolding is_recoverable is_constraint_violation
recoverable-not-constraint e h = ground arith
