-- ===== src/Rsl/Safety.antt =====
-- What `rsl_msg` of src/abis_rsl.c never does, and when it does what C leaves undefined.
use soft_bts.Base.{ℕ, ◌<◌, ◌≡◌, refl, ◌≢◌, ◌⊎◌, ◌↔◌, ◌/◌, ◌%◌, inl, inr, Bool, true, false, arith}
use soft_bts.Base.Outcome.{Outcome, ok, fault, looping}
use soft_bts.Buffer.{Buffer}
use soft_bts.Rsl.{Report, rsl_msg, unsupported, bcch_info, mg_cch}
use soft_bts.Rsl.Bits.{is_bit_h}
use soft_bts.Rsl.Rest.{positions, present, selection_shown, rest_octets_si3}

-- The branch for an unsupported discriminator is dead: a single bit is 0 or 1.
pub rsl_msg-ne-unsupported : (luck : Bool) (b : Buffer) → rsl_msg luck b ≢ ok unsupported
unfolding rsl_msg rest_octets_si3
rsl_msg-ne-unsupported luck b = ground arith

-- The bit positions of the parts of the rest octets lie in the four octets, one after the other.
pub positions_bounds :
    (b : Buffer) (at : ℕ)
    → let p = positions b at in (p.poi < p.sii) × (p.sii < p.csi) × (p.csi < p.sci) × (p.sci < 32)
unfolding positions
positions_bounds b at = ground arith

-- The selection parameters are taken for present whatever the message holds: the one-bit field is
-- tested in a place where it is always 0, and there the padding byte has a 1.
pub selection_shown_always : (b : Buffer) (at : ℕ) → selection_shown b at ≡ true
unfolding selection_shown is_bit_h
selection_shown_always b at = elim (one_bit (present b at) (omega arith)) [
  | inl e ↦ rw (e, is_bit_h)
  | inr e ↦ rw (e, is_bit_h)
]
  where
    one_bit : (n : ℕ) → n < 2 → (n ≡ 0) ⊎ (n ≡ 1)
    one_bit n h = omega arith

-- System Information 3 leads to a use of pointers that were never set, unless the variable
-- `octets` holds 1 by chance.
pub rsl_msg-si3 : (b : Buffer) → b 3 ≡ 12 → b 4 ≡ bcch_info → b 8 ≡ 3 → rsl_msg false b ≡ fault
unfolding rsl_msg rest_octets_si3
rsl_msg-si3 b h c t = ground arith

-- A message of the group for common channels that carries information for the broadcast channel.
abbrev pub IsBroadcast : Buffer → Type 0
IsBroadcast b = (b 3 % 2 ≡ 0) × (b 3 / 2 % 128 ≡ mg_cch) × (b 4 ≡ bcch_info)

-- What `rsl_msg` must not be given: information whose announced length leads out of the buffer, or
-- System Information 3 while the variable `octets`, which is not set, does not hold 1.
abbrev pub IsHarmful : Bool → Buffer → Type 0
IsHarmful luck b = IsBroadcast b × ((244 < b 10) ⊎ ((b 8 ≡ 3) × (luck ≡ false)))

-- `rsl_msg` leaves the buffer or follows a pointer that was never set just for broadcast information
-- that announces more than 244 bytes, and for System Information 3 unless the variable `octets`
-- holds 1 by chance; every other message is handled.
pub rsl_msg-fault : (luck : Bool) (b : Buffer) → (rsl_msg luck b ≡ fault) ↔ IsHarmful luck b
unfolding rsl_msg rest_octets_si3
rsl_msg-fault luck b = (λ e. ground arith, λ h. ground arith)

pub rsl_msg-ne-looping : (luck : Bool) (b : Buffer) → rsl_msg luck b ≢ looping
unfolding rsl_msg rest_octets_si3
rsl_msg-ne-looping luck b = ground arith

value_of : (r : Outcome Report) → r ≢ fault → r ≢ looping → (report : Report) × (r ≡ ok report)
value_of (ok report) safe ends = (report, refl)
value_of fault safe ends = absurd (safe refl)
value_of looping safe ends = absurd (ends refl)

-- Every other message comes to a report.
pub rsl_msg-handled :
    (luck : Bool) (b : Buffer)
    → ¬ IsHarmful luck b
    → (report : Report) × (rsl_msg luck b ≡ ok report)
rsl_msg-handled luck b harmless =
    value_of (rsl_msg luck b) (λ e. harmless ((rsl_msg-fault luck b).0 e))
      (rsl_msg-ne-looping luck b)
