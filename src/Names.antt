-- ===== src/Names.antt =====
-- src/L3_utils.c and the tables of names of src/abis_rsl.h and src/L3_0408.h.
pub mod Format
pub mod Rsl
pub mod Layer3
pub mod Info
pub mod Lookup
use Prim.Native.String.{String}
use soft_bts.Base.{ℕ, Option, none, some, List, [], ◌∷◌, ◌==◌, if◌then◌else◌}
use soft_bts.Base.Outcome.{Outcome, ok, fault}
use Format.{Table, Entry, entry}

-- The loop of `get_name` from an entry on; NULL is `none`. A table without an end is left.
unfoldable pub get_name : Table → ℕ → Outcome (Option String)
get_name [] code = fault
get_name (entry c none ∷ rest) code = ok none
get_name (entry c (some msg) ∷ rest) code = if c == code then ok (some msg) else get_name rest code
