-- ===== src/Samples/Chains.antt =====
-- The genesis row alone, and with 20 behind it: chains, and room for another value.
use mathlib.Core.Bool.{false≢true}
use demo_vapp.Prelude.{ℕ, ◌≡◌, inl, inr, refl, ap, false, none, some, arith, [], ◌==◌, Bool-cases}
use demo_vapp.Paths.Recorded.{IsRecorded, is_stored}
use demo_vapp.Nodes.{select_node}
use demo_vapp.Db.{Db, NullifierRow, TreeState}
use demo_vapp.Samples.{toy_sha, genesis_row, genesis_db, first_state}
use demo_vapp.Nullifiers.{
  row_at, value_taken, index_taken, find_low_row, highest, new_row, link, is_empty_tree, low_of,
}
use demo_vapp.Nullifiers.Chain.{IsChain, Next, Fits, linked, linked-IsChain}
use demo_vapp.MerkleTreeDb.Atomic.{IsFree}
use demo_vapp.IndexedMerkleTree.{tree_height, zero_node}

pub genesis_row_only :
    (v : ℕ) (r : NullifierRow)
    → row_at v genesis_db.nullifiers ≡ some r
    → (v ≡ 0) × (r ≡ genesis_row)
unfolding row_at
genesis_row_only v r e = elim (Bool-cases (0 == v)) [
  | inl here ↦ (ground arith, ground arith)
  | inr other ↦ absurd (ground arith)
]

pub genesis_next : (v : ℕ) → v ≡ 0 → Next genesis_db.nullifiers v 0
genesis_next v e = record {
  above = λ ne. absurd (ne refl);
  nearest = λ w s there. inl (omega (arith, (genesis_row_only w s there).0));
}

pub genesis-IsChain : IsChain genesis_db.nullifiers
unfolding value_taken
genesis-IsChain = record {
  distinct = (refl, tt);
  next = λ v r e.
      let only = genesis_row_only v r e in
      (0, ap (λ (t : NullifierRow). t.next_value) only.1, genesis_next v only.0);
}

pub genesis_fits : Fits genesis_db.nullifiers 0 20 0 genesis_row
unfolding row_at
genesis_fits = record { found = refl; names = refl; after = omega arith; before = inl refl }

pub genesis-IsFree : IsFree genesis_db first_state 20
unfolding value_taken index_taken
genesis-IsFree = record {
  state = refl;
  positive = omega arith;
  value = refl;
  index = refl;
  in_range = omega arith;
}

pub genesis_found : row_at 0 genesis_db.nullifiers ≡ some genesis_row
unfolding row_at
genesis_found = refl

pub twenty_absent : row_at 20 genesis_db.nullifiers ≡ none
unfolding row_at
twenty_absent = refl

pub twenty_not_taken : value_taken 20 genesis_db.nullifiers ≡ false
unfolding value_taken
twenty_not_taken = refl

abbrev pub second_state : TreeState
second_state = record first_state { next_available_index = 2; total_nullifiers = 1 }

abbrev pub row_20 : NullifierRow
row_20 = new_row 2 20 none (some 0) 1

abbrev pub two_db : Db
two_db = record genesis_db {
  nullifiers = linked 2 20 none 0 1 0 genesis_db.nullifiers;
  next_id = 3;
  tree_state = some second_state;
}

pub two-IsChain : IsChain two_db.nullifiers
two-IsChain =
    linked-IsChain genesis_db.nullifiers 0 20 0 2 1 none genesis_row genesis-IsChain genesis_fits
      twenty_not_taken

pub twenty_found : row_at 20 two_db.nullifiers ≡ some row_20
unfolding row_at link
twenty_found = refl

pub search_20 : find_low_row 20 two_db.nullifiers ≡ some row_20
unfolding find_low_row highest link
search_20 = refl

pub two-IsFree : IsFree two_db second_state 30
unfolding value_taken index_taken link
two-IsFree = record {
  state = refl;
  positive = omega arith;
  value = refl;
  index = refl;
  in_range = omega arith;
}

pub two_fits : Fits two_db.nullifiers 20 30 0 row_20
unfolding row_at link
two_fits = record { found = refl; names = refl; after = omega arith; before = inl refl }

pub search_30 : find_low_row 30 two_db.nullifiers ≡ some row_20
unfolding find_low_row highest link
search_30 = refl

pub empty-IsRecorded : IsRecorded toy_sha zero_node tree_height []
empty-IsRecorded = record {
  at = λ m j below there. absurd (false≢true (unfold is_stored select_node in there));
}

pub proper : is_empty_tree (low_of row_20) ≡ false
proper = refl
