-- ===== src/Names/Format.antt =====
-- `name_t` of src/L3_utils.h.
use Prim.Native.String.{String}
use soft_bts.Base.{ℕ, Option, List}

-- A code and its name; `none` is the NULL of the entry that ends a table.
pub data Entry : Type 0 where
  entry : ℕ → Option String → Entry

abbrev pub Table : Type 0
Table = List Entry
