-- ===== src/Paths/Digest.antt =====
-- The ideal tree: the hash of a subtree, computed from the leaves alone.
use demo_vapp.Prelude.{ℕ, zero, suc, ◌+◌, ◌*◌, ◌/◌, ◌^◌, ◌≤◌, ◌<◌, ◌≡◌, refl, ap, ◌∙◌, arith}
use mathlib.Core.Path.{ap₂}
use native.Mathlib.Nat.{pow-suc}
use demo_vapp.Hashing.{Hash, Sha256, hash_pair}
use demo_vapp.Nodes.{Nodes}
use demo_vapp.Paths.{node}
use demo_vapp.Paths.Consistency.{IsConsistent}

unfoldable pub digest : Sha256 → (ℕ → Hash) → ℕ → ℕ → Hash
digest sha leaf zero i = leaf i
digest sha leaf (suc n) i =
    hash_pair sha (digest sha leaf n (2 * i)) (digest sha leaf n (2 * i + 1))

-- The index of the ancestor `n` levels up.
abbrev pub ancestor : ℕ → ℕ → ℕ
ancestor zero i = i
ancestor (suc n) i = ancestor n (i / 2)

pub ancestor-root : (n i : ℕ) → i < 2 ^ n → ancestor n i ≡ 0
ancestor-root zero i h = omega arith
ancestor-root (suc n) i h = ancestor-root n (i / 2) (omega (arith, pow-suc 2 n))

-- In a consistent table each node is the hash of the leaves below it.
pub node-eq-digest :
    (sha : Sha256) (missing : ℕ → Hash) (height : ℕ) (ns : Nodes)
    → IsConsistent sha missing height ns
    → (l i : ℕ) → l ≤ height
    → node missing ns l i ≡ digest sha (node missing ns 0) l i
unfolding digest
node-eq-digest sha missing height ns c zero i h = refl
node-eq-digest sha missing height ns c (suc l) i h =
    ap (λ m. node missing ns m i) (omega arith)
    ∙ c.at l i h
    ∙ ap₂ (hash_pair sha) (node-eq-digest sha missing height ns c l (2 * i) (omega arith))
        (node-eq-digest sha missing height ns c l (2 * i + 1) (omega arith))

-- The root depends on the leaves of its own range only.
pub digest-cong :
    (sha : Sha256) (f g : ℕ → Hash) (n i : ℕ)
    → ((j : ℕ) → f j ≡ g j)
    → digest sha f n i ≡ digest sha g n i
unfolding digest
digest-cong sha f g zero i h = h i
digest-cong sha f g (suc n) i h =
    ap₂ (hash_pair sha) (digest-cong sha f g n (2 * i) h) (digest-cong sha f g n (2 * i + 1) h)
