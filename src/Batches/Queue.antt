-- ===== src/Batches/Queue.antt =====
-- The queue of db/src/db.rs: what claiming the oldest open transactions does to it.
use demo_vapp.Prelude.{
  ℕ, zero, suc, ◌≡◌, ◌∙◌, refl, sym, ap, Bool, false, ◌||◌, List, [], ◌∷◌, ◌==◌, if◌then◌else◌, inl,
  inr, take, ℤ, pos, ◌+ℤ◌, +ℤ_assoc, +ℤ_comm, +ℤ_zero, arith, Bool-cases,
}
use demo_vapp.Batches.{
  IncomingTransaction, is_unbatched, unbatched, sum_amounts, ids_of, is_any, include_in,
}
use demo_vapp.Batches.Contract.{amounts_of}

abbrev pub Transactions : Type 0
Transactions = List IncomingTransaction

unfoldable pub has_id : Transactions → ℕ → Bool
has_id [] i = false
has_id (t ∷ ts) i = (t.id == i) || has_id ts i

abbrev pub AreDistinct : Transactions → Type 0
AreDistinct [] = Unit {0}
AreDistinct (t ∷ ts) = (has_id ts t.id ≡ false) × AreDistinct ts

abbrev pub drop : ℕ → Transactions → Transactions
drop zero ts = ts
drop (suc n) [] = []
drop (suc n) (t ∷ ts) = drop n ts

-- The amounts that are in some batch.
unfoldable pub sum_included : Transactions → ℤ
sum_included [] = pos 0
sum_included (t ∷ ts) = if is_unbatched t then sum_included ts else t.amount +ℤ sum_included ts

abbrev pub amounts : Transactions → List ℤ
amounts [] = []
amounts (t ∷ ts) = t.amount ∷ amounts ts

abbrev pub claimed : ℕ → Transactions → Transactions
claimed n ts = take n (unbatched ts)

is_any-take :
    (n : ℕ) (ts : Transactions) (i : ℕ)
    → is_any (ids_of ts) i ≡ false
    → is_any (ids_of (take n ts)) i ≡ false
is_any-take zero ts i h = refl
is_any-take (suc n) [] i h = refl
is_any-take (suc n) (t ∷ ts) i h = ground (arith, is_any-take n ts i)

is_any-unbatched :
    (ts : Transactions) (i : ℕ) → has_id ts i ≡ false → is_any (ids_of (unbatched ts)) i ≡ false
unfolding unbatched has_id
is_any-unbatched [] i h = refl
is_any-unbatched (t ∷ ts) i h = ground (arith, is_any-unbatched ts i)

is_any-claimed :
    (n : ℕ) (ts : Transactions) (i : ℕ)
    → has_id ts i ≡ false
    → is_any (ids_of (claimed n ts)) i ≡ false
is_any-claimed n ts i h = is_any-take n (unbatched ts) i (is_any-unbatched ts i h)

include_in-fresh :
    (batch i : ℕ) (ids : List ℕ) (ts : Transactions)
    → has_id ts i ≡ false
    → include_in batch (i ∷ ids) ts ≡ include_in batch ids ts
unfolding include_in has_id
include_in-fresh batch i ids [] h = refl
include_in-fresh batch i ids (t ∷ ts) h = ground (arith, include_in-fresh batch i ids ts)

pub has_id-include_in :
    (batch : ℕ) (ids : List ℕ) (ts : Transactions) (i : ℕ)
    → has_id (include_in batch ids ts) i ≡ has_id ts i
unfolding include_in has_id
has_id-include_in batch ids [] i = refl
has_id-include_in batch ids (t ∷ ts) i = ground (arith, has_id-include_in batch ids ts i)

pub AreDistinct-include_in :
    (batch : ℕ) (ids : List ℕ) (ts : Transactions)
    → AreDistinct ts
    → AreDistinct (include_in batch ids ts)
unfolding include_in
AreDistinct-include_in batch ids [] d = tt
AreDistinct-include_in batch ids (t ∷ ts) d = (
  has_id-include_in batch ids ts _ ∙ ground (arith, d.0),
  AreDistinct-include_in batch ids ts d.1,
)

include_in_none : (batch : ℕ) (ts : Transactions) → include_in batch [] ts ≡ ts
unfolding include_in
include_in_none batch [] = refl
include_in_none batch (t ∷ ts) = ap (◌∷◌ t) (include_in_none batch ts)

amounts_of-fresh :
    (i : ℕ) (ids : List ℕ) (ts : Transactions)
    → has_id ts i ≡ false
    → amounts_of (i ∷ ids) ts ≡ amounts_of ids ts
unfolding amounts_of has_id
amounts_of-fresh i ids [] h = refl
amounts_of-fresh i ids (t ∷ ts) h = ground (arith, amounts_of-fresh i ids ts)

amounts_of_none : (ts : Transactions) → amounts_of [] ts ≡ []
unfolding amounts_of
amounts_of_none [] = refl
amounts_of_none (t ∷ ts) = amounts_of_none ts

-- Where ids are distinct, claiming the `n` oldest pending transactions leaves the others pending, in
-- order: no transaction is taken twice, and none is lost.
pub unbatched-include_in :
    (batch n : ℕ) (ts : Transactions)
    → AreDistinct ts
    → unbatched (include_in batch (ids_of (claimed n ts)) ts) ≡ drop n (unbatched ts)
unfolding unbatched include_in
unbatched-include_in batch zero ts d = ap unbatched (include_in_none batch ts)
unbatched-include_in batch (suc n) [] d = refl
unbatched-include_in batch (suc n) (t ∷ ts) d = elim (Bool-cases (is_unbatched t)) [
  | inl waits ↦ ground (
    arith,
    waits,
    include_in-fresh batch t.id (ids_of (claimed n ts)) ts d.0,
    unbatched-include_in batch n ts d.1,
  )
  | inr taken ↦
      ground (
        arith,
        taken,
        is_any-claimed (suc n) ts t.id d.0,
        unbatched-include_in batch (suc n) ts d.1,
      )
]

swap_sum : (a b c : ℤ) → a +ℤ (b +ℤ c) ≡ b +ℤ (a +ℤ c)
swap_sum a b c = sym (+ℤ_assoc a b c) ∙ ap (λ d. d +ℤ c) (+ℤ_comm a b) ∙ +ℤ_assoc b a c

sum_included-zero : (a : ℤ) → pos 0 +ℤ a ≡ a
sum_included-zero a = +ℤ_comm (pos 0) a ∙ +ℤ_zero a

-- The amounts in batches grow by the amounts claimed.
pub sum_included-include_in :
    (batch n : ℕ) (ts : Transactions)
    → AreDistinct ts
    → sum_included (include_in batch (ids_of (claimed n ts)) ts)
      ≡ sum_amounts (claimed n ts) +ℤ sum_included ts
unfolding unbatched include_in sum_included sum_amounts
sum_included-include_in batch zero ts d =
    ap sum_included (include_in_none batch ts) ∙ sym (sum_included-zero (sum_included ts))
sum_included-include_in batch (suc n) [] d = sym (+ℤ_zero (pos 0))
sum_included-include_in batch (suc n) (t ∷ ts) d = elim (Bool-cases (is_unbatched t)) [
  | inl waits ↦ ground (
    arith,
    waits,
    include_in-fresh batch t.id (ids_of (claimed n ts)) ts d.0,
    sum_included-include_in batch n ts d.1,
    +ℤ_assoc t.amount (sum_amounts (claimed n ts)) (sum_included ts),
  )
  | inr taken ↦ ground (
    arith,
    taken,
    is_any-claimed (suc n) ts t.id d.0,
    sum_included-include_in batch (suc n) ts d.1,
    swap_sum t.amount (sum_amounts (claimed (suc n) ts)) (sum_included ts),
  )
]

-- The amounts that the contract's data shows for the claimed ids are those of the claimed rows.
pub amounts_of-claimed :
    (batch n : ℕ) (ts : Transactions)
    → AreDistinct ts
    → amounts_of (ids_of (claimed n ts)) (include_in batch (ids_of (claimed n ts)) ts)
      ≡ amounts (claimed n ts)
unfolding unbatched include_in amounts_of
amounts_of-claimed batch zero ts d = amounts_of_none (include_in batch [] ts)
amounts_of-claimed batch (suc n) [] d = refl
amounts_of-claimed batch (suc n) (t ∷ ts) d = elim (Bool-cases (is_unbatched t)) [
  | inl waits ↦ ground (
    arith,
    waits,
    include_in-fresh batch t.id (ids_of (claimed n ts)) ts d.0,
    amounts_of-fresh t.id (ids_of (claimed n ts)) (include_in batch (ids_of (claimed n ts)) ts)
        (has_id-include_in batch (ids_of (claimed n ts)) ts t.id ∙ d.0),
    amounts_of-claimed batch n ts d.1,
  )
  | inr taken ↦
      ground
        (arith, taken, is_any-claimed (suc n) ts t.id d.0, amounts_of-claimed batch (suc n) ts d.1)
]
