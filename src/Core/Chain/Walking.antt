-- ===== src/Core/Chain/Walking.antt =====
-- `GetBlocksFrom`: on a chain of linked blocks, the walk ends and the blocks come in order.
use chainlang.Prelude.{
  ◌||◌, ap₂, if◌then◌else◌, ℕ, zero, suc, ◌-◌, ◌≤◌, ◌<◌, ◌≡◌, refl, ap, sym, ◌∙◌, true, false, Bool,
  inl, inr, Option, some, List, [], ◌∷◌, map, Bytes, arith, length, take, drop, length-reverse, ltb,
  nat_beq, Bool-cases, All,
}
use mathlib.Core.List.{reverse}
use chainlang.Prelude.Ends.{
  reverse-take, drop_all, take-nil, reverse-last, All-take, All-drop, All-reverse, map-reverse,
  map-take,
}
use chainlang.Go.Word.{ℤ, positive_or}
use chainlang.Crypto.Hash.{is_zero}
use chainlang.Core.Types.{Block}
use chainlang.Core.Files.{Disk, Json}
use chainlang.Core.Chain.{
  held_by_readers, Chain, Outcome, returned, ◌and_then◌, rlock_of, runlock, read_block, push_hash,
  walk_block, walk, load_all, lowest_first, load_walked, get_blocks_from,
}

abbrev pub IsReadable : Json → Disk → Block → Type 0
IsReadable json d b = read_block json d b.hash ≡ some b

-- The blocks from a tip down to genesis, each readable under its hash and linked to the next.
abbrev pub IsBranch : Json → Disk → List Block → Type 0
IsBranch json d [] = Unit
IsBranch json d (b ∷ []) = IsReadable json d b × (b.height ≡ 0) × (is_zero b.previous_hash ≡ true)
IsBranch json d (b ∷ b' ∷ bs) =
    IsReadable json d b
    × (b.height ≡ suc b'.height)
    × (b.previous_hash ≡ b'.hash)
    × (is_zero b.previous_hash ≡ false)
    × IsBranch json d (b' ∷ bs)

abbrev hashes_of : List Block → List Bytes
hashes_of bs = map (λ (b : Block). b.hash) bs

module _ (json : Json) (d : Disk) where
  pub height-branch :
      (b : Block) (bs : List Block) → IsBranch json d (b ∷ bs) → b.height ≡ length bs
  height-branch b [] h = h.1
  height-branch b (b' ∷ bs) h = let below = height-branch b' bs h.4 in let step = h.1 in omega arith

  pub branch-IsReadable : (bs : List Block) → IsBranch json d bs → All (IsReadable json d) bs
  branch-IsReadable [] h = tt
  branch-IsReadable (b ∷ []) h = (h.0, tt)
  branch-IsReadable (b ∷ b' ∷ bs) h = (h.0, branch-IsReadable (b' ∷ bs) h.4)

  walk_found :
      (from fuel : ℕ) (h : Bytes) {b : Block}
      → read_block json d h ≡ some b
      → walk json d from (suc fuel) h ≡ walk_block from h (some b) (walk json d from fuel)
  unfolding walk
  walk_found from fuel h e = ap (λ o. walk_block from h o (walk json d from fuel)) e

  walk_last :
      (from : ℕ) (b : Block) (next : Bytes → Outcome (Option (List Bytes)))
      → from ≡ b.height
      → walk_block from b.hash (some b) next ≡ returned (some (b.hash ∷ []))
  walk_last from b next e = ground arith

  walk_on :
      (from : ℕ) (b : Block) (next : Bytes → Outcome (Option (List Bytes)))
      → from < b.height
      → is_zero b.previous_hash ≡ false
      → walk_block from b.hash (some b) next ≡ push_hash b.hash (next b.previous_hash)
  walk_on from b next e z = ground arith

  -- The walk from the tip with as much fuel as the branch is long.
  walk-branch :
      (from fuel : ℕ) (b : Block) (bs : List Block)
      → IsBranch json d (b ∷ bs)
      → from ≤ b.height
      → length bs ≤ fuel
      → walk json d from (suc fuel) b.hash
        ≡ returned (some (hashes_of (take (suc b.height - from) (b ∷ bs))))
  walk-branch from fuel b [] h le enough =
      let low = h.1 in
      let one : suc b.height - from ≡ 1 = omega arith in
      walk_found from fuel b.hash h.0
      ∙ walk_last from b (walk json d from fuel) (omega arith)
      ∙ ap (λ n. returned (some (hashes_of (take n (b ∷ []))))) (sym one)
  walk-branch from zero b (b' ∷ bs) h le enough = absurd (omega arith)
  walk-branch from (suc fuel) b (b' ∷ bs) h le enough = elim (Bool-cases (nat_beq b.height from)) [
    | inl at ↦
        let one : suc b.height - from ≡ 1 = ground arith in
        walk_found from (suc fuel) b.hash h.0
        ∙ walk_last from b (walk json d from (suc fuel)) (ground arith)
        ∙ ap (λ n. returned (some (hashes_of (take n (b ∷ b' ∷ bs))))) (sym one)
    | inr above ↦
        let step = h.1 in
        let lower : from ≤ b'.height = ground arith in
        let more : suc b.height - from ≡ suc (suc b'.height - from) = omega arith in
        walk_found from (suc fuel) b.hash h.0
        ∙ walk_on from b (walk json d from (suc fuel)) (omega arith) h.3
        ∙ ap (λ x. push_hash b.hash (walk json d from (suc fuel) x)) h.2
        ∙ ap (push_hash b.hash) (walk-branch from fuel b' bs h.4 lower (omega arith))
        ∙ ap (λ n. returned (some (hashes_of (take n (b ∷ b' ∷ bs))))) (sym more)
  ]

  load_all-IsReadable :
      (bs : List Block) → All (IsReadable json d) bs → load_all json d (hashes_of bs) ≡ some bs
  unfolding load_all
  load_all-IsReadable [] h = refl
  load_all-IsReadable (b ∷ bs) h = rw (h.0, load_all-IsReadable bs h.1)

  -- The hashes that are kept of the walk, in the order in which their blocks are loaded.
  lowest_first-hashes :
      (max : ℕ) (bs : List Block)
      → lowest_first max (hashes_of bs) ≡ hashes_of (take max (reverse bs))
  lowest_first-hashes max bs =
      let hash = λ (b : Block). b.hash in
      reverse-last max (hashes_of bs)
      ∙ ap (take max) (sym (map-reverse hash bs))
      ∙ sym (map-take hash max (reverse bs))

  load-branch :
      (from max : ℕ) (b : Block) (bs : List Block)
      → IsBranch json d (b ∷ bs)
      → from ≤ b.height
      → load_all json d (lowest_first max (hashes_of (take (suc b.height - from) (b ∷ bs))))
        ≡ some (take max (drop from (reverse (b ∷ bs))))
  load-branch from max b bs h le =
      let tall = height-branch b bs h in
      let below : length (b ∷ bs) - (suc b.height - from) ≡ from = omega arith in
      let part = take (suc b.height - from) (b ∷ bs) in
      let kept = take max (drop from (reverse (b ∷ bs))) in
      let same : take max (reverse part) ≡ kept =
        ap (take max) (
          reverse-take (suc b.height - from) (b ∷ bs)
          ∙ ap (λ n. drop n (reverse (b ∷ bs))) below) in
      let readable = branch-IsReadable (b ∷ bs) h in
      ap (load_all json d) (lowest_first-hashes max part ∙ ap hashes_of same)
      ∙ load_all-IsReadable kept (
          All-take (IsReadable json d) max (drop from (reverse (b ∷ bs))) (
            All-drop (IsReadable json d) from (reverse (b ∷ bs))
              (All-reverse (IsReadable json d) (b ∷ bs) readable)))

  walked-branch :
      (from max fuel : ℕ) (c : Chain) (b : Block) (bs : List Block)
      → c.disk ≡ d
      → IsBranch json d (b ∷ bs)
      → from ≤ b.height
      → length bs ≤ fuel
      → load_walked json c max (walk json d from (suc fuel) b.hash)
        ≡ returned (c, some (take max (drop from (reverse (b ∷ bs)))))
  walked-branch from max fuel c b bs same h le enough =
      ap (load_walked json c max) (walk-branch from fuel b bs h le enough)
      ∙ ap
          (λ (disk : Disk). returned (
            c,
            load_all json disk (lowest_first max (hashes_of (take (suc b.height - from) (b ∷ bs)))),
          ))
          same
      ∙ ap (λ l. returned (c, l)) (load-branch from max b bs h le)

-- With a free lock and a chain of readable, linked blocks from a non-zero tip down to genesis, and
-- as many steps of fuel as there are blocks, `GetBlocksFrom` ends and returns the blocks from the
-- given height on, in ascending order, at most `max` of them (10,000 if `max` is not positive).
pub get_blocks_from-branch :
    (json : Json) (fuel : ℕ) (c : Chain) (from : ℕ) (max : ℤ) (b : Block) (bs : List Block)
    → c.mu ≡ held_by_readers 0
    → c.last_hash ≡ b.hash
    → c.height ≡ b.height
    → is_zero b.hash ≡ false
    → IsBranch json c.disk (b ∷ bs)
    → length bs ≤ fuel
    → get_blocks_from json (suc fuel) c from max
      ≡ returned (
        record c { mu = held_by_readers 0 },
        some (take (positive_or 10_000 max) (drop from (reverse (b ∷ bs)))),
      )
unfolding get_blocks_from
get_blocks_from-branch json fuel c from max b bs free tip height nonzero h enough =
    let limit = positive_or 10_000 max in
    let idle : Chain = record c { mu = held_by_readers 0 } in
    let walked : Outcome (Option (List Bytes)) = walk json c.disk from (suc fuel) c.last_hash in
    let choose : Bool → Outcome (Chain × Option (List Block)) =
      λ guard. if guard then returned (idle, some []) else load_walked json idle limit walked in
    let stops : is_zero c.last_hash ≡ false = ap is_zero tip ∙ nonzero in
    let start : get_blocks_from json (suc fuel) c from max
        ≡ choose (is_zero c.last_hash || ltb c.height from) =
      ap
        (λ m. rlock_of m c and_then λ held.
          if is_zero held.last_hash || ltb held.height from
          then returned (runlock held, some [])
          else load_walked json (runlock held) limit
              (walk json held.disk from (suc fuel) held.last_hash))
        free in
    let tall = height-branch json c.disk b bs h in
    elim (Bool-cases (ltb c.height from)) [
      | inl over ↦
          let size = length-reverse (b ∷ bs) in
          let nothing = drop_all from (reverse (b ∷ bs)) (ground arith) in
          start
          ∙ ap choose (ap₂ ◌||◌ stops over)
          ∙ ap (λ l. returned (idle, some l)) (sym (ap (take limit) nothing ∙ take-nil limit))
      | inr within ↦
          start
          ∙ ap choose (ap₂ ◌||◌ stops within)
          ∙ ap (λ tip_hash. load_walked json idle limit (walk json c.disk from (suc fuel) tip_hash))
              tip
          ∙ walked-branch json c.disk from limit fuel idle b bs refl h (ground arith) enough
    ]
