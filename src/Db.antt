-- ===== src/Db.antt =====
-- The PostgreSQL state that db/src works on (db/migrations/012_restore_imt_schema.sql), and operations
-- that may fail. A statement outside a transaction that fails leaves what was written before it, so the
-- state comes back beside the error too; `transaction` drops it, as a rolled back `tx` does.
-- The clock columns are left out. `tree_state` has the one row `default`, since every caller passes
-- `None` for the tree's id.
use demo_vapp.Prelude.{ℕ, ◌≡◌, Option, none, some, List, Bool}
use demo_vapp.Hashing.{Hash}
use demo_vapp.Nodes.{Nodes}
use demo_vapp.Error.{DbError, Result, ok, err}

-- A row of `nullifiers`. The column `next_value` may be NULL.
pub record NullifierRow : Type 0 where
  pub id : ℕ
  pub value : ℕ
  pub next_index : Option ℕ
  pub next_value : Option ℕ
  pub tree_index : ℕ
  pub is_active : Bool

pub record TreeState : Type 0 where
  pub root_hash : Hash
  pub next_available_index : ℕ
  pub tree_height : ℕ
  pub total_nullifiers : ℕ

pub record Db : Type 0 where
  pub nodes : Nodes
  pub tree_state : Option TreeState
  pub nullifiers : List NullifierRow
  pub next_id : ℕ

abbrev pub M {ℓ} : Type ℓ → Type ℓ
M A = Db → Result A × Db

abbrev pub continue {ℓ κ} :
    {A : Type ℓ} {B : Type κ} → Result A → (A → Db → Result B × Db) → Db → Result B × Db
continue (ok a) f db = f a db
continue (err e) f db = (err e, db)

infixl 5 ◌>>=◌ ◌>>◌
abbrev pub ◌>>=◌ {ℓ κ} :
    {A : Type ℓ} {B : Type κ} → (Db → Result A × Db) → (A → Db → Result B × Db) → Db → Result B × Db
◌>>=◌ m f db = let (r, db') = m db in continue r f db'

abbrev pub ◌>>◌ {ℓ κ} :
    {A : Type ℓ} {B : Type κ} → (Db → Result A × Db) → (Db → Result B × Db) → Db → Result B × Db
m >> n = m >>= λ _. n

abbrev pub pure {ℓ} : {A : Type ℓ} → A → Db → Result A × Db
pure a db = (ok a, db)

abbrev pub raise {ℓ} : {A : Type ℓ} → DbError → Db → Result A × Db
raise e db = (err e, db)

abbrev pub ok_or {ℓ} : {A : Type ℓ} → Option A → DbError → Db → Result A × Db
ok_or none e db = (err e, db)
ok_or (some a) e db = (ok a, db)

abbrev pub rollback {ℓ} : {A : Type ℓ} → Db → Result A × Db → Result A × Db
rollback before (ok a, after) = (ok a, after)
rollback before (err e, after) = (err e, before)

-- `pool.begin()`, the body on `tx`, and `tx.commit()`; dropping `tx` on an error rolls back.
abbrev pub transaction {ℓ} : {A : Type ℓ} → (Db → Result A × Db) → Db → Result A × Db
transaction m db = rollback db (m db)

-- A step that succeeds hands its value and its state on.
pub bind_ok {ℓ κ} :
    {A : Type ℓ} {B : Type κ} (m : Db → Result A × Db) (f : A → Db → Result B × Db) (db : Db)
    {a : A} {db' : Db}
    → m db ≡ (ok a, db')
    → (m >>= f) db ≡ f a db'
bind_ok m f db e = rw e

-- A step that fails ends the block with its error and its state.
pub bind_err {ℓ κ} :
    {A : Type ℓ} {B : Type κ} (m : Db → Result A × Db) (f : A → Db → Result B × Db) (db : Db)
    {e : DbError} {db' : Db}
    → m db ≡ (err e, db')
    → (m >>= f) db ≡ (err e, db')
bind_err m f db e = rw e

pub transaction_ok {ℓ} :
    {A : Type ℓ} (m : Db → Result A × Db) (db : Db) {a : A} {db' : Db}
    → m db ≡ (ok a, db')
    → transaction m db ≡ (ok a, db')
transaction_ok m db e = rw e
