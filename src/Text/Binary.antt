-- ===== src/Text/Binary.antt =====
-- What `print_bits` writes.
use soft_bts.Base.{
  ℕ, ◌+◌, ◌*◌, ◌-◌, ◌<◌, ◌≡◌, refl, Bool, true, false, ◌==◌, ◌&&◌, List, [], ◌∷◌, length, all_below,
  all_below_sound, arith,
}
use soft_bts.Base.Outcome.{Outcome, ok, fault, looping}
use soft_bts.Text.{print_bits}

-- The number that binary digits stand for, behind those that were read before.
abbrev pub binary : ℕ → List ℕ → ℕ
binary n [] = n
binary n (d ∷ ds) = binary (2 * n + (d - 48)) ds

abbrev tells : ℕ → Outcome (List ℕ) → Bool
tells ch (ok text) = (length text == 8) && (binary 0 text == ch)
tells ch _ = false

print_bits_table : all_below 256 (λ ch. tells ch (print_bits ch)) ≡ true
unfolding all_below print_bits
print_bits_table = refl

tells-ok :
    (ch : ℕ) (r : Outcome (List ℕ))
    → tells ch r ≡ true
    → (text : List ℕ) × (r ≡ ok text) × (length text ≡ 8) × (binary 0 text ≡ ch)
tells-ok ch (ok text) h = (text, refl, ground arith, ground arith)
tells-ok ch fault h = cc
tells-ok ch looping h = cc

-- The loop comes to an end for every byte, and writes the eight binary digits of its value.
pub print_bits-binary :
    (ch : ℕ)
    → ch < 256
    → (text : List ℕ) × (print_bits ch ≡ ok text) × (length text ≡ 8) × (binary 0 text ≡ ch)
print_bits-binary ch h =
    tells-ok ch (print_bits ch)
      (all_below_sound 256 (λ n. tells n (print_bits n)) ch print_bits_table h)
