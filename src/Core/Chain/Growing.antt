-- ===== src/Core/Chain/Growing.antt =====
-- A chain of linked blocks, and one block more.
use chainlang.Prelude.{
  ℕ, ◌<◌, ◌≡◌, ◌≢◌, ◌⊎◌, inl, inr, ap, ◌∙◌, subst, true, false, List, [], ◌∷◌, Bytes, All, arith,
  bytes_eq, ==_cases, Bool-cases,
}
use chainlang.Crypto.Primitives.{Primitives, Collision}
use chainlang.Crypto.Hash.{is_zero, hash_bytes}
use chainlang.Core.Types.{Block, validate_block, block_payload, block_hash}
use chainlang.Core.Types.Binding.{EncodesFaithfully, validate_block_binding, validate_block-hash}
use chainlang.Core.Files.{Disk, Json}
use chainlang.Core.Chain.{read_block}
use chainlang.Core.Chain.Appending.{IsBytes}
use chainlang.Core.Chain.Walking.{IsBranch}

-- Something that SHA-256 is not known to have: a collision, or an input whose digest is the zero hash.
pub data Weakness (p : Primitives) : Type 0 where
  collides : Collision p → Weakness p
  vanishes : (x : Bytes) → is_zero (p.sha256 x) ≡ true → Weakness p

-- A digest is a list of bytes.
abbrev pub HasByteDigests : Primitives → Type 0
HasByteDigests p = (x : Bytes) → IsBytes (p.sha256 x)

module _ (p : Primitives) where
  -- `ValidateBlock` passes, and the hash consists of bytes.
  pub record IsStamped (b : Block) : Type 0 where
    pub valid : validate_block p b ≡ true
    pub bytes : IsBytes b.hash

  digest_of :
      (b : Block)
      → validate_block p b ≡ true
      → p.sha256 (p.marshal_block (block_payload p b)) ≡ b.hash
  unfolding block_hash hash_bytes
  digest_of b valid = validate_block-hash p b valid

  pub IsStamped-valid : HasByteDigests p → (b : Block) → validate_block p b ≡ true → IsStamped b
  IsStamped-valid digests b valid = record {
    valid = valid;
    bytes = subst IsBytes (digest_of b valid) (digests (p.marshal_block (block_payload p b)));
  }

  -- The hash of a valid block is not zero.
  pub nonzero_hash : (b : Block) → validate_block p b ≡ true → (is_zero b.hash ≡ false) ⊎ Weakness p
  nonzero_hash b valid = elim (Bool-cases (is_zero b.hash)) [
    | inr e ↦ inl e
    | inl e ↦
        inr (vanishes (p.marshal_block (block_payload p b)) (ap is_zero (digest_of b valid) ∙ e))
  ]

  module _ (faithful : EncodesFaithfully p) (b : Block) (valid : validate_block p b ≡ true) where
    differs :
        (c : Block)
        → validate_block p c ≡ true
        → c.height < b.height
        → (c.hash ≢ b.hash) ⊎ Weakness p
    differs c valid_c lower = elim (==_cases c.hash b.hash) [
      | inr (_, other) ↦ inl other
      | inl (_, same) ↦ elim (validate_block_binding p faithful c b valid_c valid same) [
        | inr collision ↦ inr (collides collision)
        | inl contents ↦ let heights = contents.height in absurd (omega arith)
      ]
    ]

    -- A valid block above all blocks of a list has a hash of its own.
    pub all_differ :
        (cs : List Block)
        → All IsStamped cs
        → All (λ (c : Block). c.height < b.height) cs
        → All (λ (c : Block). c.hash ≢ b.hash) cs ⊎ Weakness p
    all_differ [] stamped lower = inl tt
    all_differ (c ∷ cs) stamped lower = elim (differs c stamped.0.valid lower.0) [
      | inr weak ↦ inr weak
      | inl other ↦ elim (all_differ cs stamped.1 lower.1) [
        | inr weak ↦ inr weak
        | inl others ↦ inl (other, others)
      ]
    ]

module _ (json : Json) where
  -- A branch has the heights up to its first block's.
  pub branch_heights :
      (d : Disk) (b : Block) (bs : List Block) (h : ℕ)
      → IsBranch json d (b ∷ bs)
      → b.height < h
      → All (λ (c : Block). c.height < h) (b ∷ bs)
  branch_heights d b [] h branch below = (below, tt)
  branch_heights d b (c ∷ bs) h branch below =
      let step = branch.1 in (below, branch_heights d c bs h branch.4 (omega arith))

  -- What reads the same is a branch on another disk.
  pub IsBranch-disk :
      (d e : Disk) (bs : List Block)
      → All (λ (c : Block). read_block json e c.hash ≡ read_block json d c.hash) bs
      → IsBranch json d bs
      → IsBranch json e bs
  IsBranch-disk d e [] same branch = tt
  IsBranch-disk d e (b ∷ []) same branch = (same.0 ∙ branch.0, branch.1, branch.2)
  IsBranch-disk d e (b ∷ c ∷ bs) same branch =
      (same.0 ∙ branch.0, branch.1, branch.2, branch.3, IsBranch-disk d e (c ∷ bs) same.1 branch.4)
