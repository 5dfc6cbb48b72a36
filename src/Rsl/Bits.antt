-- ===== src/Rsl/Bits.antt =====
-- `is_bit_set` and `is_bit_H` of src/abis_rsl.c: bits counted from the left.
use Prim.Native.Nat.{bit_and, bit_xor}
use mathlib.Core.Path.{ap, ap₂, sym, ◌∙◌, subst₂}
use mathlib.Core.Bool.{xor}
use soft_bts.Base.{
  ℕ, ◌+◌, ◌-◌, ◌*◌, ◌/◌, ◌%◌, ◌^◌, ◌<◌, ◌≡◌, refl, Bool, true, false, ◌==◌, not, arith, ==_iff,
  all_below, all_below_sound,
}

-- `0x80 >> (offset & 0x07)`
abbrev pub bit_mask : ℕ → ℕ
bit_mask offset = 0x80 / 2 ^ bit_and offset 0x07

unfoldable pub is_bit_set : ℕ → ℕ → Bool
is_bit_set ch offset = not (bit_and ch (bit_mask offset) == 0)

-- A bit is H where it differs from the padding byte 0x2b.
unfoldable pub is_bit_h : ℕ → ℕ → Bool
is_bit_h ch offset =
    not (bit_xor (bit_and ch (bit_mask offset)) (bit_and 0x2b (bit_mask offset)) == 0)

-- The bit of a byte that has the weight 2 ^ (7 - offset).
abbrev pub bit_from_left : ℕ → ℕ → Bool
bit_from_left ch offset = ch / 2 ^ (7 - offset % 8) % 2 == 1

abbrev same : Bool → Bool → Bool
same true b = b
same false b = not b

same_eq : (a b : Bool) → same a b ≡ true → a ≡ b
same_eq true true h = refl
same_eq true false h = cc
same_eq false true h = cc
same_eq false false h = refl

-- One number for a byte and an offset below 8.
abbrev pairs : (ℕ → ℕ → Bool) → Bool
pairs p = all_below 2048 (λ k. p (k / 8) (k % 8))

pairs_sound :
    (p : ℕ → ℕ → Bool) (ch offset : ℕ) → pairs p ≡ true → ch < 256 → offset < 8 → p ch offset ≡ true
pairs_sound p ch offset all lt lo =
    subst₂ (λ c o. p c o ≡ true) hi low
      (all_below_sound 2048 (λ k. p (k / 8) (k % 8)) (ch * 8 + offset) all (omega arith))
  where
    hi : (ch * 8 + offset) / 8 ≡ ch
    hi = omega arith

    low : (ch * 8 + offset) % 8 ≡ offset
    low = omega arith

mask_table : all_below 256 (λ o. bit_and o 7 == o % 8) ≡ true
unfolding all_below
mask_table = refl

and_seven : (offset : ℕ) → offset < 256 → bit_and offset 7 ≡ offset % 8
and_seven offset lt =
    (==_iff _ _).0 (all_below_sound 256 (λ o. bit_and o 7 == o % 8) offset mask_table lt)

set_table : pairs (λ ch o. same (is_bit_set ch o) (bit_from_left ch o)) ≡ true
unfolding all_below is_bit_set
set_table = refl

h_table : pairs (λ ch o. same (is_bit_h ch o) (xor (is_bit_set ch o) (is_bit_set 0x2b o))) ≡ true
unfolding all_below is_bit_set is_bit_h xor
h_table = refl

-- Only the offset modulo 8 counts.
is_bit_set-mod : (ch offset : ℕ) → offset < 256 → is_bit_set ch offset ≡ is_bit_set ch (offset % 8)
unfolding is_bit_set
is_bit_set-mod ch offset lt =
    ap (λ m. not (bit_and ch (0x80 / 2 ^ m) == 0))
      (and_seven offset lt ∙ sym (and_seven (offset % 8) (omega arith) ∙ mod_mod))
  where
    mod_mod : offset % 8 % 8 ≡ offset % 8
    mod_mod = omega arith

is_bit_h-mod : (ch offset : ℕ) → offset < 256 → is_bit_h ch offset ≡ is_bit_h ch (offset % 8)
unfolding is_bit_h
is_bit_h-mod ch offset lt =
    ap (λ m. not (bit_xor (bit_and ch (0x80 / 2 ^ m)) (bit_and 0x2b (0x80 / 2 ^ m)) == 0))
      (and_seven offset lt ∙ sym (and_seven (offset % 8) (omega arith) ∙ mod_mod))
  where
    mod_mod : offset % 8 % 8 ≡ offset % 8
    mod_mod = omega arith

-- `is_bit_set` tests the bit that is `offset % 8` places from the left.
pub is_bit_set_lem :
    (ch offset : ℕ) → ch < 256 → offset < 256 → is_bit_set ch offset ≡ bit_from_left ch offset
is_bit_set_lem ch offset lt lo =
    is_bit_set-mod ch offset lo
    ∙ same_eq _ _ (
        pairs_sound (λ ch o. same (is_bit_set ch o) (bit_from_left ch o)) ch (offset % 8) set_table
          lt (omega arith))
    ∙ ap (λ m. ch / 2 ^ (7 - m) % 2 == 1) mod_mod
  where
    mod_mod : offset % 8 % 8 ≡ offset % 8
    mod_mod = omega arith

-- `is_bit_H` tells whether a byte and the padding byte 0x2b differ in that bit.
pub is_bit_h_lem :
    (ch offset : ℕ)
    → ch < 256
    → offset < 256
    → is_bit_h ch offset ≡ xor (is_bit_set ch offset) (is_bit_set 0x2b offset)
is_bit_h_lem ch offset lt lo =
    is_bit_h-mod ch offset lo
    ∙ same_eq _ _ (
        pairs_sound (λ ch o. same (is_bit_h ch o) (xor (is_bit_set ch o) (is_bit_set 0x2b o))) ch
          (offset % 8) h_table lt (omega arith))
    ∙ sym (ap₂ xor (is_bit_set-mod ch offset lo) (is_bit_set-mod 0x2b offset lo))
