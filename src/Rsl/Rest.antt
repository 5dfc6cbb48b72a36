-- ===== src/Rsl/Rest.antt =====
-- `rest_octets_si3` of src/abis_rsl.c: the optional parts at the end of System Information 3.
use soft_bts.Base.{ℕ, ◌+◌, ◌-◌, ◌*◌, ◌/◌, ◌%◌, Bool, if◌then◌else◌}
use soft_bts.Base.Outcome.{Outcome, ok, fault}
use soft_bts.Buffer.{Buffer}
use soft_bts.Rsl.Bits.{is_bit_h}

-- The bit positions of the parts: power offset, second indicator, classmark control, scheduling.
pub record Positions : Type 0 where
  pub poi : ℕ
  pub sii : ℕ
  pub csi : ℕ
  pub sci : ℕ

-- `octet = x/8; bit = x - 8*octet + 1;` and the test of that bit. `at` is where `si3` points to.
abbrev pub h_at : Buffer → ℕ → ℕ → Bool
h_at b at x = is_bit_h (b (at + x / 8)) (x - 8 * (x / 8) + 1)

-- The first test is at octet 0 and bit 0.
unfoldable pub positions : Buffer → ℕ → Positions
positions b at =
    let poi : ℕ = if is_bit_h (b at) 0 then 16 else 1 in
    let sii = if h_at b at poi then poi + 3 else poi + 1 in
    let csi = sii + 1 in record { poi = poi; sii = sii; csi = csi; sci = csi + 1 }

-- `sel->present` is the highest bit of the little-endian 16-bit structure.
abbrev pub present : Buffer → ℕ → ℕ
present b at = b (at + 1) / 128 % 2

-- Whether the selection parameters are printed as present: the bit field is tested at offset 4.
unfoldable pub selection_shown : Buffer → ℕ → Bool
selection_shown b at = is_bit_h (present b at) 4

-- The variables `octets` and `poii` are not set. Only if `octets` happens to hold 1 is `poii` made
-- to point to something before it is followed.
unfoldable pub rest_octets_si3 : Bool → Buffer → ℕ → Outcome (Positions × Bool)
unfolding positions selection_shown
rest_octets_si3 octets_is_one b at =
    if octets_is_one then ok (positions b at, selection_shown b at) else fault
