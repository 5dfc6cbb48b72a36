-- ===== src/Oml/Attributes.antt =====
-- `bts_get_attr` of src/bts_nm.c: the walk over the attributes of a Set BTS Attributes message.
-- The walk keeps a `u_int8_t` of bytes left, which wraps, and a pointer that nothing bounds.
pub mod Walk
pub mod Cgi
pub mod Decided
use soft_bts.Base.{ℕ, zero, suc, ◌+◌, ◌-◌, ◌%◌, true, false, ◌==◌, ltb, if◌then◌else◌}
use soft_bts.Base.Outcome.{Outcome, ok, fault, looping, ◌>>=◌}
use soft_bts.Buffer.{Buffer, buffer_length}
use soft_bts.Nm.{Attr, att_code}
use soft_bts.Nm.Layout.{
  sizeof, offset, interf_bound, intave_param, t200, max_timing_adv, ccch_load_treshold,
  ccch_load_ind_period, racch_busy_threshold, racch_load_averaging_slots, bts_air_timer, ny1,
  bcch_arcfn, conn_fail_criteria, bsic, starting_time, om_hdr, om_hdr_at, data_at,
}

-- How the walk steps over an attribute: by the size of its structure, by the length that stands
-- in it, by ten bytes without looking at what follows, or not at all.
pub data Shape : Type 0 where
  fixed : ℕ → Shape
  tlv : Shape
  cgi : Shape
  unknown : Shape

unfoldable pub shape : ℕ → Shape
shape a =
    if a == att_code Attr.interf_bound
    then fixed (sizeof interf_bound)
    else if a == att_code Attr.intave_param
    then fixed (sizeof intave_param)
    else if a == att_code Attr.conn_fail_crit
    then tlv
    else if a == att_code Attr.t200
    then fixed (sizeof t200)
    else if a == att_code Attr.max_ta
    then fixed (sizeof max_timing_adv)
    else if a == att_code Attr.overl_period
    then tlv
    else if a == att_code Attr.ccch_l_t
    then fixed (sizeof ccch_load_treshold)
    else if a == att_code Attr.ccch_l_i_p
    then fixed (sizeof ccch_load_ind_period)
    else if a == att_code Attr.rach_b_thresh
    then fixed (sizeof racch_busy_threshold)
    else if a == att_code Attr.ldavg_slots
    then fixed (sizeof racch_load_averaging_slots)
    else if a == att_code Attr.bts_air_timer
    then fixed (sizeof bts_air_timer)
    else if a == att_code Attr.ny1
    then fixed (sizeof ny1)
    else if a == att_code Attr.bcch_arfcn
    then fixed (sizeof bcch_arcfn)
    else if a == att_code Attr.bsic
    then fixed (sizeof bsic)
    else if a == att_code Attr.start_time
    then fixed (sizeof starting_time)
    else if a == 0x99
    then cgi
    else unknown

-- The local variables of the loop; `pos` is the offset of `patr` in the message.
pub record Cursor : Type 0 where
  pub length : ℕ
  pub pos : ℕ
  pub atribute : ℕ

-- Subtraction on `u_int8_t`, of a number below 512.
abbrev pub sub8 : ℕ → ℕ → ℕ
sub8 a b = (a + 512 - b) % 256

-- `length = length - size; patr = patr + size; atribute = *patr;`
unfoldable pub advance : Buffer → ℕ → Cursor → Outcome Cursor
advance b size c =
    if ltb (c.pos + size) buffer_length
    then ok
        (record { length = sub8 c.length size; pos = c.pos + size; atribute = b (c.pos + size) })
    else fault

-- `atribute_length` is a `u_int8_t`, so of the 16-bit length, which `overload_period` has at the same
-- place, the low byte is kept. It is the second one.
unfoldable pub advance_tlv : Buffer → Cursor → Outcome Cursor
unfolding advance
advance_tlv b c =
    let low = offset conn_fail_criteria 1 + 1 in
    if ltb (c.pos + low) buffer_length then advance b (3 + b (c.pos + low) % 256) c else fault

-- The case of NM_ATT_SOFTBTS_CGI does not load the next attribute.
unfoldable pub skip_cgi : Cursor → Cursor
skip_cgi c = record c { length = sub8 c.length 10; pos = c.pos + 10 }

-- The body of the loop. `default` changes nothing.
unfoldable pub attr_step : Buffer → Cursor → Outcome Cursor
unfolding advance advance_tlv skip_cgi
attr_step b c = elim (shape c.atribute) [
  | fixed size ↦ advance b size c
  | tlv ↦ advance_tlv b c
  | cgi ↦ ok (skip_cgi c)
  | unknown ↦ ok c
]

-- `while (length != 0)`
unfoldable pub attr_loop : ℕ → Buffer → Cursor → Outcome Cursor
attr_loop zero b c = if c.length == 0 then ok c else looping
attr_loop (suc fuel) b c = elim (c.length == 0) [
  | true ↦ ok c
  | false ↦ attr_step b c >>= attr_loop fuel b
]

-- `om_hdr->length`, and the attributes from `fom_hdr->data` on.
unfoldable pub bts_get_attr : ℕ → Buffer → Outcome Cursor
bts_get_attr fuel b = attr_loop fuel b (record {
  length = sub8 (b (om_hdr_at + offset om_hdr 3)) 5;
  pos = data_at;
  atribute = b data_at;
})
