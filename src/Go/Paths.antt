-- ===== src/Go/Paths.antt =====
-- `filepath.Ext`: the suffix of a name from its last dot on, or nothing.
use chainlang.Prelude.{[], ◌∷◌, Bytes, nat_beq, if◌then◌else◌}

abbrev keep_ext : Bytes → Bytes → Bytes
keep_ext [] name = name
keep_ext (c ∷ cs) name = c ∷ cs

unfoldable pub ext : Bytes → Bytes
ext [] = []
ext (c ∷ cs) = let rest = ext cs in keep_ext rest (if nat_beq c b'.' then c ∷ cs else [])
