-- ===== src/Rsl.antt =====
-- src/abis_rsl.c: the messages of the Radio Signalling Link. They change no state: what a message
-- comes to is the information that the program prints of it.
pub mod Bits
pub mod Info
pub mod Shown
pub mod Rest
pub mod Layout
pub mod Placed
pub mod Cells
pub mod Safety
use soft_bts.Base.{ℕ, ◌+◌, ◌/◌, ◌%◌, Bool, ◌==◌, ltb, if◌then◌else◌}
use soft_bts.Base.Outcome.{Outcome, ok, fault, ◌>>=◌}
use soft_bts.Buffer.{Buffer, buffer_length}
use Info.{sys_info1, sys_info2, sys_info3}
use Shown.{Shown1, Shown2, Shown3, shown1, shown2, shown3}
use Rest.{rest_octets_si3}

-- What a message of the link comes to.
pub data Report : Type 0 where
  transparent trx ignored unsupported : Report
  si1 : Shown1 → Report
  si2 : Shown2 → Report
  si3 : Shown3 → Report

-- `enum message_group`
abbrev pub mg_cch : ℕ
mg_cch = 0x06

abbrev pub mg_trx : ℕ
mg_trx = 0x08

-- BCCH_INFO of `enum message_type_cch`
abbrev pub bcch_info : ℕ
bcch_info = 0x11

-- `hdr` is at offset 3, `cch` at 4, `sys_info` at 7, `bcch` at 9 and its `L3_msg` at 11.
-- `hexdump` reads the message from there on, as far as `bcch->length` says.
unfoldable pub rsl_mg_cch : Bool → Buffer → Outcome Report
rsl_mg_cch octets_is_one b =
    if b 4 == bcch_info
    then (if ltb buffer_length (11 + b 10)
        then fault
        else if b 8 == 1
        then ok (si1 (shown1 (sys_info1 b 11)))
        else if b 8 == 2
        then ok (si2 (shown2 (sys_info2 b 11)))
        else if b 8 == 3
        then (rest_octets_si3 octets_is_one b 30 >>= λ _. ok (si3 (shown3 (sys_info3 b 11))))
        else ok ignored)
    else ok ignored

-- `discr_T` is the lowest bit of the discriminator, and the group is the seven others.
unfoldable pub rsl_msg : Bool → Buffer → Outcome Report
unfolding rsl_mg_cch
rsl_msg octets_is_one b =
    let discr_t = b 3 % 2 in
    let group = b 3 / 2 % 128 in
    if discr_t == 1
    then ok transparent
    else if discr_t == 0
    then (if group == mg_cch
        then rsl_mg_cch octets_is_one b
        else if group == mg_trx
        then ok trx
        else ok ignored)
    else ok unsupported
