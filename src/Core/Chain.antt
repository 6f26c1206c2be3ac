-- ===== src/Core/Chain.antt =====
-- core/chain.go: blocks in files, the tip, and the lock. One goroutine runs at a time here: a lock that
-- it cannot take is a call that does not return.
pub mod Storing
pub mod Appending
pub mod Walking
pub mod Growing
pub mod Reliable
pub mod Keeping
pub mod Loading
pub mod Restarting
pub mod Free
use chainlang.Prelude.{
  ℕ, zero, suc, ◌-◌, Bool, true, false, Option, none, some, List, [], ◌∷◌, ◌++◌, Bytes, ◌||◌, ltb,
  nat_beq, length, drop, if◌then◌else◌, is_some,
}
use mathlib.Core.List.{reverse}
use chainlang.Config.{ChainConfig}
use chainlang.Go.Word.{ℤ, positive_or}
use chainlang.Crypto.Hash.{hash_hex, is_zero}
use chainlang.Core.Types.{Block}
use chainlang.Core.Files.{meta_path, block_path, Disk, Os, Json}

-- sync.RWMutex
pub data Mutex : Type 0 where
  held_by_readers : ℕ → Mutex
  held_by_writer : Mutex

pub record Chain : Type 0 where
  pub mu : Mutex
  pub disk : Disk
  pub cfg : ChainConfig
  pub height : ℕ
  pub last_hash : Bytes

-- A call returns, or it never does.
pub data Outcome {ℓ} (A : Type ℓ) : Type ℓ where
  returned : A → Outcome A
  blocked : Outcome A

infixl 5 ◌and_then◌
abbrev pub ◌and_then◌ {ℓ κ} : {A : Type ℓ} {B : Type κ} → Outcome A → (A → Outcome B) → Outcome B
(returned a) and_then next = next a
blocked and_then next = blocked

abbrev pub rlock_of : Mutex → Chain → Outcome Chain
rlock_of (held_by_readers n) c = returned (record c { mu = held_by_readers (suc n) })
rlock_of held_by_writer c = blocked

abbrev pub rlock : Chain → Outcome Chain
rlock c = rlock_of c.mu c

abbrev runlock_of : Mutex → Mutex
runlock_of (held_by_readers zero) = held_by_readers 0
runlock_of (held_by_readers (suc n)) = held_by_readers n
runlock_of held_by_writer = held_by_writer

abbrev pub runlock : Chain → Chain
runlock c = record c { mu = runlock_of c.mu }

abbrev pub lock_of : Mutex → Chain → Outcome Chain
lock_of (held_by_readers zero) c = returned (record c { mu = held_by_writer })
lock_of (held_by_readers (suc n)) c = blocked
lock_of held_by_writer c = blocked

abbrev pub lock : Chain → Outcome Chain
lock c = lock_of c.mu c

abbrev pub unlock : Chain → Chain
unlock c = record c { mu = held_by_readers 0 }

-- ".json" and ".tmp."
abbrev pub block_name : Bytes → Bytes
block_name h = hash_hex h ++ b'.' ∷ b'j' ∷ b's' ∷ b'o' ∷ b'n' ∷ []

abbrev pub temp_name : Bytes → Bytes
temp_name h = b'.' ∷ b't' ∷ b'm' ∷ b'p' ∷ b'.' ∷ block_name h

-- The end of a write: the disk that it left, and whether it succeeded.
abbrev pub wrote : Chain → Disk × Bool → Chain × Bool
wrote c (d, good) = (record c { disk = d }, good)

abbrev pub write_meta : Os → Chain → Option Bytes → Chain × Bool
write_meta os c none = (c, false)
write_meta os c (some data_bytes) = wrote c (os.write_file c.disk meta_path data_bytes)

unfoldable pub save : Json → Os → Chain → Outcome (Chain × Bool)
save json os c = rlock c and_then λ held.
    let saved = write_meta os held (json.marshal_meta held.height held.last_hash) in
    returned (runlock saved.0, saved.1)

abbrev pub renamed : Os → Chain → Block → Disk × Bool → Chain × Bool
renamed os c b (d, true) = (record c { disk = d }, true)
renamed os c b (d, false) =
    (record c { disk = os.remove_file d (block_path (temp_name b.hash)) }, false)

abbrev pub written_temp : Os → Chain → Block → Disk × Bool → Chain × Bool
written_temp os c b (d, false) = (record c { disk = d }, false)
written_temp os c b (d, true) =
    renamed os c b (os.rename d (block_path (temp_name b.hash)) (block_path (block_name b.hash)))

abbrev pub store_bytes : Os → Chain → Block → Option Bytes → Chain × Bool
store_bytes os c b none = (c, false)
store_bytes os c b (some data_bytes) =
    written_temp os c b (os.write_file c.disk (block_path (temp_name b.hash)) data_bytes)

abbrev pub at_tip : Chain → Block → Chain
at_tip c b = record c { height = b.height; last_hash = b.hash }

abbrev pub stored : Json → Os → Block → Chain × Bool → Outcome (Chain × Bool)
stored json os b (c, false) = returned (unlock c, false)
stored json os b (c, true) = save json os (unlock (at_tip c b))

unfoldable pub append_block : Json → Os → Chain → Block → Outcome (Chain × Bool)
unfolding save
append_block json os c b =
    lock c and_then λ held. stored json os b (store_bytes os held b (json.marshal_file b))

abbrev pub parse_block : Json → Option Bytes → Option Block
parse_block json none = none
parse_block json (some data_bytes) = json.unmarshal_file data_bytes

-- What `GetBlock` reads while it holds the lock; `none` is an error.
unfoldable pub read_block : Json → Disk → Bytes → Option Block
read_block json d h = parse_block json (d (block_path (block_name h)))

unfoldable pub get_block : Json → Chain → Bytes → Outcome (Chain × Option Block)
unfolding read_block
get_block json c h = rlock c and_then λ held. returned (runlock held, read_block json held.disk h)

unfoldable pub has_block : Json → Chain → Bytes → Outcome (Chain × Bool)
unfolding get_block
has_block json c h = get_block json c h and_then λ r. returned (r.0, is_some r.1)

abbrev pub found_block : Chain × Option Block → Outcome (Chain × Option (Option Block))
found_block (c, none) = returned (c, none)
found_block (c, some b) = returned (c, some (some b))

-- `some none` is a nil block with no error.
unfoldable pub last_block : Json → Chain → Outcome (Chain × Option (Option Block))
unfolding get_block
last_block json c = rlock c and_then λ held.
    let free = runlock held in
    if is_zero held.last_hash
    then returned (free, some none)
    else get_block json free held.last_hash and_then found_block

abbrev pub push_hash : Bytes → Outcome (Option (List Bytes)) → Outcome (Option (List Bytes))
push_hash h blocked = blocked
push_hash h (returned none) = returned none
push_hash h (returned (some hs)) = returned (some (h ∷ hs))

abbrev pub walk_block :
    ℕ
    → Bytes
    → Option Block
    → (Bytes → Outcome (Option (List Bytes)))
    → Outcome (Option (List Bytes))
walk_block from h none next = returned none
walk_block from h (some b) next =
    if ltb b.height from
    then returned (some [])
    else if nat_beq b.height from || is_zero b.previous_hash
    then returned (some (h ∷ []))
    else push_hash h (next b.previous_hash)

-- The walk from the tip to `from`: the hashes, the highest first. Without fuel it has not ended.
unfoldable pub walk : Json → Disk → ℕ → ℕ → Bytes → Outcome (Option (List Bytes))
unfolding read_block
walk json d from zero h = blocked
walk json d from (suc fuel) h = walk_block from h (read_block json d h) (walk json d from fuel)

abbrev pub load_first : Option Block → Option (List Block) → Option (List Block)
load_first none rest = none
load_first (some b) none = none
load_first (some b) (some bs) = some (b ∷ bs)

unfoldable pub load_all : Json → Disk → List Bytes → Option (List Block)
unfolding read_block
load_all json d [] = some []
load_all json d (h ∷ hs) = load_first (read_block json d h) (load_all json d hs)

-- The lowest `max` hashes of the walk, the lowest first.
abbrev pub lowest_first : ℕ → List Bytes → List Bytes
lowest_first max hashes =
    reverse (if ltb max (length hashes) then drop (length hashes - max) hashes else hashes)

abbrev pub load_walked :
    Json → Chain → ℕ → Outcome (Option (List Bytes)) → Outcome (Chain × Option (List Block))
load_walked json c max blocked = blocked
load_walked json c max (returned none) = returned (c, none)
load_walked json c max (returned (some hashes)) =
    returned (c, load_all json c.disk (lowest_first max hashes))

-- Each `GetBlock` of the two loops takes the read lock and gives it back; it can, since the lock was
-- free for the first read.
unfoldable pub get_blocks_from : Json → ℕ → Chain → ℕ → ℤ → Outcome (Chain × Option (List Block))
unfolding walk load_all
get_blocks_from json fuel c from max = rlock c and_then λ held.
    let free = runlock held in
    if is_zero held.last_hash || ltb held.height from
    then returned (free, some [])
    else load_walked json free (positive_or 10_000 max)
        (walk json free.disk from fuel held.last_hash)

-- The deferred `Unlock` runs after `Save`.
unfoldable pub set_tip : Json → Os → Chain → Block → Outcome (Chain × Bool)
unfolding save
set_tip json os c b = lock c and_then (λ held. save json os (at_tip held b)) and_then λ saved.
    returned (unlock saved.0, saved.1)

abbrev pub write_bytes : Os → Chain → Block → Option Bytes → Chain × Bool
write_bytes os c b none = (c, false)
write_bytes os c b (some data_bytes) =
    wrote c (os.write_file c.disk (block_path (block_name b.hash)) data_bytes)

unfoldable pub write_block : Json → Os → Chain → Block → Outcome (Chain × Bool)
write_block json os c b = lock c and_then λ held.
    let done = write_bytes os held b (json.marshal_indent b) in returned (unlock done.0, done.1)

unfoldable pub blocks_from_genesis_to_tip : Json → ℕ → Chain → Outcome (Chain × Option (List Block))
unfolding get_blocks_from
blocks_from_genesis_to_tip json fuel c = get_blocks_from json fuel c 0 (ℤ.pos 0)
