-- ===== src/Paths/Fold.antt =====
-- Proofs: the siblings on a path fold to the root, and a root binds the leaf.
use demo_vapp.Prelude.{
  ℕ, zero, suc, ◌+◌, ◌/◌, ◌≤◌, ◌≡◌, ◌⊎◌, inl, inr, refl, sym, ap, ◌∙◌, List, [], ◌∷◌, ◌++◌, arith,
  length, bytes_eq, bytes_eq_sound, bytes_eq_refl, Bool-cases,
}
use mathlib.Core.Path.{ap₂}
use mathlib.Core.Bool.{false≢true}
use demo_vapp.Hashing.{Hash, Sha256, hash_pair, Collision}
use demo_vapp.Nodes.{Nodes}
use demo_vapp.Paths.{node, parent_hash, sibling_index, siblings, fold_proof, is_right_child}
use demo_vapp.Paths.Consistency.{IsConsistent, parent_hash-children, length-parent_hash}
use demo_vapp.Paths.Digest.{ancestor}

pub length-siblings :
    (missing : ℕ → Hash) (n l i : ℕ) (ns : Nodes) → length (siblings missing n l i ns) ≡ n
unfolding siblings
length-siblings missing zero l i ns = refl
length-siblings missing (suc n) l i ns = ap suc (length-siblings missing n (l + 1) (i / 2) ns)

-- In a consistent table the proof of a node folds to its ancestor.
pub fold_proof-siblings :
    (sha : Sha256) (missing : ℕ → Hash) (height : ℕ) (ns : Nodes)
    → IsConsistent sha missing height ns
    → (n l i : ℕ) (current : Hash) → current ≡ node missing ns l i
    → l + n ≤ height
    → fold_proof sha i current (siblings missing n l i ns) ≡ node missing ns (l + n) (ancestor n i)
unfolding fold_proof siblings
fold_proof-siblings sha missing height ns c zero l i current e h =
    e ∙ ap (λ m. node missing ns m i) (omega arith)
fold_proof-siblings sha missing height ns c (suc n) l i current e h =
    fold_proof-siblings sha missing height ns c n (l + 1) (i / 2) _
      (ap (λ x. parent_hash sha i x (node missing ns l (sibling_index i))) e
        ∙ parent_hash-children sha missing l i ns
        ∙ sym (c.at l (i / 2) (omega arith)))
      (omega arith)
    ∙ ap (λ m. node missing ns m (ancestor n (i / 2))) (omega arith)

-- Every hash of a list is 32 bytes long.
abbrev pub AllHashes : List Hash → Type 0
AllHashes [] = Unit {0}
AllHashes (h ∷ hs) = (length h ≡ 32) × AllHashes hs

pub append-injective :
    (a b c d : List ℕ) → length a ≡ length c → (a ++ b) ≡ (c ++ d) → (a ≡ c) × (b ≡ d)
append-injective [] b [] d l e = (refl, e)
append-injective [] b (y ∷ c) d l e = absurd (omega arith)
append-injective (x ∷ a) b [] d l e = absurd (omega arith)
append-injective (x ∷ a) b (y ∷ c) d l e =
    let tails : (a ++ b) ≡ (c ++ d) = cc in
    let heads : x ≡ y = cc in
    let rest = append-injective a b c d (omega arith) tails in (ap₂ ◌∷◌ heads rest.0, rest.1)

module _ (sha : Sha256) where
  -- Equal digests come from equal messages, or are a collision.
  pub digest-binds : (m k : List ℕ) → sha.digest m ≡ sha.digest k → (m ≡ k) ⊎ Collision sha
  digest-binds m k e = elim (Bool-cases (bytes_eq m k)) [
    | inl same ↦ inl (bytes_eq_sound m k same)
    | inr different ↦ inr (record {
      first = m;
      second = k;
      differ = λ p. false≢true (sym different ∙ ap (bytes_eq m) (sym p) ∙ bytes_eq_refl m);
      same = e;
    })
  ]

  parent_hash-binds :
      (i : ℕ) (a s b t : Hash)
      → length a ≡ 32
      → length s ≡ 32
      → length b ≡ 32
      → length t ≡ 32
      → parent_hash sha i a s ≡ parent_hash sha i b t
      → (a ≡ b) ⊎ Collision sha
  unfolding parent_hash hash_pair
  parent_hash-binds i a s b t ha hs hb ht e = elim (Bool-cases (is_right_child i)) [
    | inl right ↦ elim (digest-binds (s ++ a) (t ++ b) (rw right at e)) [
      | inl m ↦ inl (append-injective s a t b (hs ∙ sym ht) m).1
      | inr c ↦ inr c
    ]
    | inr left ↦ elim (digest-binds (a ++ s) (b ++ t) (rw left at e)) [
      | inl m ↦ inl (append-injective a s b t (ha ∙ sym hb) m).0
      | inr c ↦ inr c
    ]
  ]

  -- Two proofs of one length for one index that fold to one root have the same leaf.
  pub fold_proof-binds :
      (i : ℕ) (a b : Hash) (ss ts : List Hash)
      → length a ≡ 32
      → length b ≡ 32
      → AllHashes ss
      → AllHashes ts
      → length ss ≡ length ts
      → fold_proof sha i a ss ≡ fold_proof sha i b ts
      → (a ≡ b) ⊎ Collision sha
  unfolding fold_proof
  fold_proof-binds i a b [] [] ha hb hs ht n e = inl e
  fold_proof-binds i a b [] (t ∷ ts) ha hb hs ht n e = absurd (omega arith)
  fold_proof-binds i a b (s ∷ ss) [] ha hb hs ht n e = absurd (omega arith)
  fold_proof-binds i a b (s ∷ ss) (t ∷ ts) ha hb hs ht n e =
      let above =
        fold_proof-binds (i / 2) (parent_hash sha i a s) (parent_hash sha i b t) ss ts
          (length-parent_hash sha (λ _. a) i a s) (length-parent_hash sha (λ _. a) i b t) hs.1 ht.1
          (omega arith) e in
      elim above [ inl same ↦ parent_hash-binds i a s b t ha hs.0 hb ht.0 same | inr c ↦ inr c ]
