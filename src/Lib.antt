-- ===== src/Lib.antt =====
-- demo-vapp: a counter whose transactions are batched, proved in a zkVM and committed to Merkle trees.
--
-- Transactions queue in PostgreSQL. A batch takes the oldest of them, and records the counter before and
-- after. The zkVM program adds the same amounts. For each transaction a nullifier is inserted into an
-- indexed Merkle tree, and the root goes to a contract with the proof.
--
--   Batches          db/src/db.rs with db/migrations/009 to 011: the queue, `create_batch`, the counter;
--                    Batches/Contract: proofs' results, Merkle roots, data for the contract
--   Program          lib/src/lib.rs and program/src/main.rs: `addition`, `process_transactions`, `main`
--   Hashing          the `[u8; 32]` arrays and the `sha2` crate, which is the parameter `Sha256`
--   Nodes, Db        the tables `merkle_nodes`, `nullifiers` and `tree_state` of
--                    db/migrations/012_restore_imt_schema.sql, and operations on them that may fail
--   Error            db/src/error.rs
--   Paths            the walk from a leaf to the root that both trees make, and the ideal tree
--                    (Paths/Digest) whose nodes are computed from the leaves alone
--   MerkleTree32     db/src/merkle_tree_32.rs; MerkleTree32/Batch: `batch_update`
--   Nullifiers       `NullifierDb` of db/src/merkle_tree.rs; Nullifiers/Chain: the linked list of the rows
--   MerkleTreeDb     `MerkleNodeDb`, `TreeStateDb` and `MerkleTreeDb` of db/src/merkle_tree.rs, and
--                    `atomic_insert` and `validate_chain`, with the SQL functions behind them
--   IndexedMerkleTree  `IndexedMerkleTree` of db/src/merkle_tree.rs, the 7-step insertion
--   AdsService       db/src/ads_service.rs, the service over the indexed Merkle tree: cache, audit events, proofs
--   UnifiedBatchService  api/src/unified_batch_service.rs: one call that makes a batch of the
--                    queue, inserts its nullifiers and keeps the Merkle root
--   Proof            lib/src/proof.rs: programs, proof jobs, the loop that waits for a proof, verification
--   BatchProcessor   api/src/batch_processor.rs: the loop over its events; BatchProcessor/Monitor: the
--                    cycle that asks for proofs, in tasks that finish at any later time, and posts them
--   BackgroundProcessor  db/src/background_processor.rs: transactions by id, and the last id that is saved
--                    in a table which may be missing
--   VappIntegration  db/src/vapp_integration.rs: the application's service over AdsService
--   Middleware       api/src/middleware.rs: rate limits, validation and authentication of requests
--   Rest             api/src/rest.rs: the handlers of the requests; Rest/Requests: requests in sequence
--   Samples          inputs of the examples, which stand in the modules named Tests
--
-- A request of Rest or a trigger of BatchProcessor makes a batch through UnifiedBatchService, which writes the
-- tables of Batches and calls AdsService; the monitor's cycle asks Proof's service for proofs of those batches
-- and posts them. VappIntegration is a client of AdsService too, and BackgroundProcessor inserts
-- in the IndexedMerkleTree itself.
--
-- Operations keep the names of the source. An operation takes the state and returns a result, a value or
-- an error, with the state that it leaves; `transaction` drops the writes of a body that fails.
-- Hashes are lists of bytes. SHA-256 is any function with results of 32 bytes: where a theorem needs more, it
-- says that a collision would be at hand. The order of a `HashMap`'s keys is a parameter, `KeyOrder`.
--
-- Bounds. `MerkleTree32` has its height as a field, which `new` sets to 32; the theorems hold for any height
-- or name their condition. `IndexedMerkleTree` has 32 levels. Loops over levels recurse on the number of levels
-- left, so there is no fuel; the loops that poll recurse on the 60 attempts of the source, and an endless
-- loop of a task runs over a list of events. `wait_loop` alone has fuel: it sleeps 5 seconds a round, so one
-- more than a fifth of its timeout is enough, as Proof/Waiting has it. Tree
-- indices are below 2 ^ 32, as the table's CHECK has it. Values of nullifiers are naturals, as the CHECK refuses negative ones. Amounts and counters are signed integers; the zkVM's i32
-- wraps around, and a batch whose final value leaves the i64 range is an error.
--
-- Code that is not here is a parameter: the answers of the proving service, BLAKE3 and Keccak, the printing
-- of numbers, the decoding of hexadecimal text, the product of time and rate as a number of tokens, the value
-- that a pattern captures in a path.
--
-- Not modelled: failures of the connection, clock columns, texts of messages, gaps that rolled back statements
-- leave in sequences, the plain SELECTs and figures of the tables, the routes and the logging of the server,
-- the handler of the current state, GraphQL, the command line, the Ethereum client, the start of the server,
-- and the contracts.
pub mod Prelude
pub mod Hashing
pub mod Nodes
pub mod Paths
pub mod Samples
pub mod Error
pub mod Db
pub mod MerkleTree32
pub mod Nullifiers
pub mod MerkleTreeDb
pub mod IndexedMerkleTree
pub mod Batches
pub mod Program
pub mod Proof
pub mod UnifiedBatchService
pub mod BatchProcessor
pub mod VappIntegration
pub mod Rest
pub mod BackgroundProcessor
pub mod Middleware
pub mod AdsService
