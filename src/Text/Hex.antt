-- ===== src/Text/Hex.antt =====
-- When `hexdump` stays in its array, and that the dump tells the bytes.
use soft_bts.Base.{
  ℕ, ◌+◌, ◌*◌, ◌-◌, ◌/◌, ◌%◌, ◌≤◌, ◌<◌, ◌≡◌, refl, ap, List, [], ◌∷◌, length, All, ltb,
  if◌then◌else◌, arith, lt→ltb, Bool-cases, inl, inr,
}
use soft_bts.Base.Outcome.{ok, fault, >>=-eq-ok}
use soft_bts.Text.{hex_digit, hexdump, dump_from}

abbrev pub value : ℕ → ℕ
value c = if ltb c 58 then c - 48 else c - 87

-- What a reader makes of a dump: a byte of each two digits and blank.
abbrev pub unhex : List ℕ → List ℕ
unhex (hi ∷ lo ∷ blank ∷ rest) = (value hi * 16 + value lo) ∷ unhex rest
unhex _ = []

value-hex_digit : (n : ℕ) → n < 16 → value (hex_digit n) ≡ n
value-hex_digit n h = ground arith

dump_from-fits :
    (pos : ℕ) (bs : List ℕ)
    → All (λ b. b < 256) bs
    → pos + 3 * length bs < 1024
    → (text : List ℕ) × (dump_from pos bs ≡ ok text) × (unhex text ≡ bs)
unfolding dump_from
dump_from-fits pos [] h fits = ([], rw (lt→ltb pos 1024 (omega arith)), refl)
dump_from-fits pos (b ∷ bs) h fits =
    let (text, e, r) = dump_from-fits (pos + 3) bs h.1 (omega arith) in
    (
      hex_digit (b / 16) ∷ hex_digit (b % 16) ∷ 32 ∷ text,
      rw (lt→ltb (pos + 2) 1024 (omega arith), e),
      rw (value-hex_digit (b / 16) (omega (arith, h.0)), value-hex_digit (b % 16) (omega arith), r)
          (ap (λ x. x ∷ bs) (omega arith)),
    )

dump_from-past : (pos : ℕ) (bs : List ℕ) → 1024 ≤ pos + 3 * length bs → dump_from pos bs ≡ fault
unfolding dump_from
dump_from-past pos [] past = ground arith
dump_from-past pos (b ∷ bs) past = rw (dump_from-past (pos + 3) bs (omega arith)) (ground arith)

length-dump_from :
    (pos : ℕ) (bs : List ℕ) {text : List ℕ}
    → dump_from pos bs ≡ ok text
    → length text ≡ 3 * length bs
unfolding dump_from
length-dump_from pos [] {text} h = ground arith
length-dump_from pos (b ∷ bs) {text} h = elim (Bool-cases (ltb (pos + 2) 1024)) [
  | inl e ↦
      let (rest, er, k) = >>=-eq-ok (dump_from (pos + 3) bs) _ (rw e at h) in
      let same : hex_digit (b / 16) ∷ hex_digit (b % 16) ∷ 32 ∷ rest ≡ text = cc in
      omega (arith, length-dump_from (pos + 3) bs er, ap length same)
  | inr e ↦ cc (rw e at h)
]

pub length-hexdump :
    (bs : List ℕ) {text : List ℕ} → hexdump bs ≡ ok text → length text ≡ 3 * length bs
unfolding hexdump
length-hexdump bs h = length-dump_from 0 bs h

-- Of up to 341 bytes `hexdump` makes a text that tells them; of more, it writes past the end of
-- its array.
pub hexdump-unhex :
    (bs : List ℕ)
    → All (λ b. b < 256) bs
    → (length bs ≤ 341 → (text : List ℕ) × (hexdump bs ≡ ok text) × (unhex text ≡ bs))
      × (341 < length bs → hexdump bs ≡ fault)
unfolding hexdump
hexdump-unhex bs h =
    (λ le. dump_from-fits 0 bs h (omega arith), λ gt. dump_from-past 0 bs (omega arith))
