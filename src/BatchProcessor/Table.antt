-- ===== src/BatchProcessor/Table.antt =====
-- Rows of the table of batches under an UPDATE by id, and rows that a SELECT leaves out.
use demo_vapp.Prelude.{
  ℕ, zero, suc, ◌≡◌, refl, inl, inr, Bool, false, ◌||◌, none, some, List, [], ◌∷◌, ◌==◌,
  if◌then◌else◌, take, arith, Bool-cases,
}
use demo_vapp.Batches.{ProofBatch, find_batch}
use demo_vapp.Batches.Contract.{update_batch}
use demo_vapp.BatchProcessor.Monitor.{selected}

abbrev pub Rows : Type 0
Rows = List ProofBatch

abbrev pub has_row : ℕ → Rows → Bool
has_row id [] = false
has_row id (b ∷ bs) = (b.id == id) || has_row id bs

abbrev pub AreDistinct : Rows → Type 0
AreDistinct [] = Unit {0}
AreDistinct (b ∷ bs) = (has_row b.id bs ≡ false) × AreDistinct bs

abbrev pub row_ids : Rows → List ℕ
row_ids [] = []
row_ids (b ∷ bs) = b.id ∷ row_ids bs

abbrev pub KeepsId : (ProofBatch → ProofBatch) → Type 0
KeepsId f = (b : ProofBatch) → (f b).id ≡ b.id

pub find-update_other :
    (f : ProofBatch → ProofBatch) (id j : ℕ) (bs : Rows)
    → KeepsId f
    → (id == j) ≡ false
    → find_batch j (update_batch f id bs) ≡ find_batch j bs
find-update_other f id j [] keeps other = refl
find-update_other f id j (b ∷ bs) keeps other =
    ground (arith, keeps b, find-update_other f id j bs keeps other)

pub find-update_same :
    (f : ProofBatch → ProofBatch) (id : ℕ) (bs : Rows) (b : ProofBatch)
    → KeepsId f
    → find_batch id bs ≡ some b
    → find_batch id (update_batch f id bs) ≡ some (f b)
find-update_same f id [] b keeps there = cc
find-update_same f id (c ∷ bs) b keeps there = elim (Bool-cases (c.id == id)) [
  | inl here ↦ ground (arith, keeps c)
  | inr other ↦ ground (arith, find-update_same f id bs b keeps)
]

pub has_row-update :
    (f : ProofBatch → ProofBatch) (id j : ℕ) (bs : Rows)
    → KeepsId f
    → has_row j (update_batch f id bs) ≡ has_row j bs
has_row-update f id j [] keeps = refl
has_row-update f id j (b ∷ bs) keeps = ground (arith, keeps b, has_row-update f id j bs keeps)

pub AreDistinct-update :
    (f : ProofBatch → ProofBatch) (id : ℕ) (bs : Rows)
    → KeepsId f
    → AreDistinct bs
    → AreDistinct (update_batch f id bs)
AreDistinct-update f id [] keeps d = tt
AreDistinct-update f id (b ∷ bs) keeps d = (
  ground (
    arith,
    keeps b,
    d.0,
    has_row-update f id b.id bs keeps,
    has_row-update f id (f b).id bs keeps,
  ),
  AreDistinct-update f id bs keeps d.1,
)

-- 1 where the row is marked as posted.
abbrev pub posted_mark : ℕ → Rows → ℕ
posted_mark j bs = elim (find_batch j bs) [
  | none ↦ 0
  | some b ↦ if b.posted_to_contract then 1 else 0
]

pub posted_mark-update :
    (f : ProofBatch → ProofBatch) (id j : ℕ) (bs : Rows)
    → KeepsId f
    → ((b : ProofBatch) → (f b).posted_to_contract ≡ b.posted_to_contract)
    → posted_mark j (update_batch f id bs) ≡ posted_mark j bs
posted_mark-update f id j [] keeps same = refl
posted_mark-update f id j (b ∷ bs) keeps same =
    ground (arith, keeps b, same b, posted_mark-update f id j bs keeps same)

has_row-take : (n j : ℕ) (bs : Rows) → has_row j bs ≡ false → has_row j (take n bs) ≡ false
has_row-take zero j bs h = refl
has_row-take (suc n) j [] h = refl
has_row-take (suc n) j (b ∷ bs) h = ground (arith, has_row-take n j bs)

pub AreDistinct-take : (n : ℕ) (bs : Rows) → AreDistinct bs → AreDistinct (take n bs)
AreDistinct-take zero bs d = tt
AreDistinct-take (suc n) [] d = tt
AreDistinct-take (suc n) (b ∷ bs) d = (has_row-take n b.id bs d.0, AreDistinct-take n bs d.1)

module _ (test : ProofBatch → Bool) where
  pub has_row-selected :
      (j : ℕ) (bs : Rows) → has_row j bs ≡ false → has_row j (selected test bs) ≡ false
  has_row-selected j [] h = refl
  has_row-selected j (b ∷ bs) h = ground (arith, has_row-selected j bs)

  AreDistinct-selected : (bs : Rows) → AreDistinct bs → AreDistinct (selected test bs)
  AreDistinct-selected [] d = tt
  AreDistinct-selected (b ∷ bs) d = elim (Bool-cases (test b)) [
    | inl good ↦ rw good (has_row-selected b.id bs d.0, AreDistinct-selected bs d.1)
    | inr bad ↦ rw bad (AreDistinct-selected bs d.1)
  ]

  pub chosen-AreDistinct :
      (n : ℕ) (bs : Rows) → AreDistinct bs → AreDistinct (take n (selected test bs))
  chosen-AreDistinct n bs d = AreDistinct-take n (selected test bs) (AreDistinct-selected bs d)

  left_out :
      (id : ℕ) (bs : Rows) (b : ProofBatch)
      → AreDistinct bs
      → find_batch id bs ≡ some b
      → test b ≡ false
      → has_row id (selected test bs) ≡ false
  left_out id [] b d there bad = refl
  left_out id (c ∷ bs) b d there bad = elim (Bool-cases (c.id == id)) [
    | inl here ↦ ground (arith, d.0, has_row-selected id bs)
    | inr other ↦ ground (arith, left_out id bs b d.1)
  ]

  -- A row that fails the test is not among those that the SELECT returns.
  pub not_chosen :
      (n id : ℕ) (bs : Rows) (b : ProofBatch)
      → AreDistinct bs
      → find_batch id bs ≡ some b
      → test b ≡ false
      → has_row id (take n (selected test bs)) ≡ false
  not_chosen n id bs b d there bad =
      has_row-take n id (selected test bs) (left_out id bs b d there bad)
