-- ===== src/Text.antt =====
-- src/logger.c: `hexdump` and `print_bits`, which write the dumps of the messages, and
-- `str_replace_char`.
pub mod Hex
pub mod Binary
pub mod Replace
use Prim.Native.Nat.{bit_and}
use soft_bts.Base.{ℕ, zero, suc, ◌+◌, ◌/◌, ◌%◌, List, [], ◌∷◌, ◌++◌, ◌==◌, ltb, if◌then◌else◌}
use soft_bts.Base.Outcome.{Outcome, ok, fault, looping, ◌>>=◌}

-- One digit of the conversion `%02x`.
abbrev pub hex_digit : ℕ → ℕ
hex_digit n = if ltb n 10 then 48 + n else 87 + n

-- `static unsigned char hexbuf[1024]`
abbrev pub hexbuf_size : ℕ
hexbuf_size = 1024

-- The loop with `phb` at offset `pos`: two digits and a blank for each byte, and the NUL at the
-- end, each of which must fall into the array. The result is the text without its NUL.
dump_from : ℕ → List ℕ → Outcome (List ℕ)
dump_from pos [] = if ltb pos hexbuf_size then ok [] else fault
dump_from pos (b ∷ bs) =
    let rest = dump_from (pos + 3) bs in
    if ltb (pos + 2) hexbuf_size
    then (rest >>= λ text. ok (hex_digit (b / 16) ∷ hex_digit (b % 16) ∷ 32 ∷ text))
    else fault

unfoldable pub hexdump : List ℕ → Outcome (List ℕ)
unfolding dump_from
hexdump buf = dump_from 0 buf

-- `while (mask)`, with `mask = mask >> 1` at the end of the body.
print_from : ℕ → ℕ → ℕ → Outcome (List ℕ)
print_from zero mask ch = if mask == 0 then ok [] else looping
print_from (suc fuel) mask ch =
    let rest = print_from fuel (mask / 2) ch in
    let digit = if bit_and mask ch == 0 then b'0' else b'1' in
    if mask == 0 then ok [] else (rest >>= λ text. ok (digit ∷ text))

unfoldable pub print_bits : ℕ → Outcome (List ℕ)
unfolding print_from
print_bits ch = print_from 8 0x80 ch

-- What `strchr` finds: nothing, the NUL at the end of the text where that is looked for, or the first
-- occurrence of a character, by what stands before and behind it.
pub data Match : Type 0 where
  missing terminator : Match
  inside : List ℕ → List ℕ → Match

found_behind : ℕ → Match → Match
found_behind c missing = missing
found_behind c terminator = terminator
found_behind c (inside before behind) = inside (c ∷ before) behind

unfoldable pub strchr : List ℕ → ℕ → Match
unfolding found_behind
strchr [] old = if old == 0 then terminator else missing
strchr (c ∷ str) old =
    let later = strchr str old in if c == old then inside [] str else found_behind c later

-- The NUL is written over. A search for NUL finds the same place again if it was replaced by itself,
-- and runs out of the array if not.
overrun : ℕ → Outcome (List ℕ)
overrun new = if new == 0 then looping else fault

-- `while ((match = strchr(match, old))) *match = new;`: the next search begins at the character
-- that was put in.
unfoldable pub str_replace_char : ℕ → List ℕ → ℕ → ℕ → Outcome (List ℕ)
unfolding strchr overrun
str_replace_char zero str old new = elim (strchr str old) [
  | missing ↦ ok str
  | terminator ↦ overrun new
  | inside before behind ↦ looping
]
str_replace_char (suc fuel) str old new = elim (strchr str old) [
  | missing ↦ ok str
  | terminator ↦ overrun new
  | inside before behind ↦
      str_replace_char fuel (new ∷ behind) old new >>= λ rest. ok (before ++ rest)
]
