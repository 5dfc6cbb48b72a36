-- ===== src/Oml.antt =====
-- src/bts_nm.c: `oml_msg`, the messages of the Organisation and Maintenance Link. A handler of a
-- request composes its replies in the buffer that holds the request, and the tests that follow a
-- reply read the changed buffer; so each handler is a function on the whole state.
pub mod Request
pub mod Attributes
pub mod Activate
pub mod Opstart
pub mod Admin
pub mod Refines
pub mod Framed
pub mod Session
pub mod Faults
pub mod Wrong
pub mod Connect
pub mod Ignored
use soft_bts.Base.{ℕ, Bool, true, false, List, [], ◌∷◌, ◌==◌, if◌then◌else◌}
use soft_bts.Base.Outcome.{Outcome, ok, fault, looping, ◌>>=◌}
use soft_bts.Nm.{
  ObjClass, obj_code, AvailState, avail_code, MsgType, msg_code, Attr, att_code, IpaMsg, ipa_code,
  proto_softbts, proto_rsl,
}
use soft_bts.Bts.{Bts, Net, send}
use soft_bts.Bts.Report.{mdisc_manuf, placement_only, state_changed_event_report}
use Request.{type_is, mdisc, none_nr}
use Activate.{on_sw_act_req_ack, on_activate_sw}
use Opstart.{on_opstart}
use Admin.{on_set_bts_attr, on_set_chan_attr, on_set_radio_attr, on_chg_adm_state}

-- The first `switch`. A type without a case is left to the second one.
unfoldable pub dispatch : ℕ → ℕ → Bts → Outcome Bts
dispatch fuel sd s =
    if type_is s MsgType.sw_act_req_ack
    then ok (on_sw_act_req_ack s)
    else if type_is s MsgType.activate_sw
    then ok (on_activate_sw sd s)
    else if type_is s MsgType.opstart
    then on_opstart sd s
    else if type_is s MsgType.set_bts_attr
    then on_set_bts_attr fuel sd s
    else if type_is s MsgType.set_chan_attr
    then ok (on_set_chan_attr sd s)
    else if type_is s MsgType.set_radio_attr
    then ok (on_set_radio_attr sd s)
    else if type_is s MsgType.chg_adm_state
    then on_chg_adm_state sd s
    else ok s

-- The manufacturer's identifier, "com.ipaccess".
abbrev pub manuf_id : List ℕ
manuf_id = b'c' ∷ b'o' ∷ b'm' ∷ b'.' ∷ b'i' ∷ b'p' ∷ b'a' ∷ b'c' ∷ b'c' ∷ b'e' ∷ b's' ∷ b's' ∷ []

-- NM_MT_SOFTBTS_RSL_CONNECT_ACK with the port 3003 of the signalling link.
abbrev pub init_rsl_link : List ℕ
init_rsl_link =
    0
    ∷ 25
    ∷ 0xff
    ∷ mdisc_manuf
    ∷ placement_only
    ∷ 0x00
    ∷ 8
    ∷ 12
    ∷ b'c'
    ∷ b'o'
    ∷ b'm'
    ∷ b'.'
    ∷ b'i'
    ∷ b'p'
    ∷ b'a'
    ∷ b'c'
    ∷ b'c'
    ∷ b'e'
    ∷ b's'
    ∷ b's'
    ∷ 0xe1
    ∷ obj_code ObjClass.baseb_transc
    ∷ 0x00
    ∷ 0x00
    ∷ obj_code ObjClass.null
    ∷ 0x81
    ∷ 0x0B
    ∷ 0xBB
    ∷ []

abbrev pub id_ack : List ℕ
id_ack = 0 ∷ 1 ∷ proto_softbts ∷ ipa_code IpaMsg.id_ack ∷ []

abbrev pub null_msg : List ℕ
null_msg = 0 ∷ 1 ∷ proto_rsl ∷ ipa_code IpaMsg.id_ack ∷ []

-- ABIS_OM_MDISC_MANUF: the signalling link is set up; a failure of the first `send` ends it.
unfoldable pub connect_rsl : Net → ℕ → Bts → Bts
unfolding state_changed_event_report
connect_rsl net sd s =
    let s1 = send sd init_rsl_link s in
    if net s.log sd init_rsl_link
    then (let s2 =
          state_changed_event_report sd (obj_code ObjClass.baseb_transc) 0x00 0x00 none_nr
            s1.baseb_transc_opstate (avail_code AvailState.ok) s1.baseb_transc_admin_state s1 in
        let s3 =
          state_changed_event_report sd (obj_code ObjClass.radio_carrier) 0x00 0x00 none_nr
            s2.radio_carrier_opstate (avail_code AvailState.ok) s2.radio_carrier_admin_state s2 in
        let s4 = send s3.rsl_fd id_ack s3 in send s4.rsl_fd null_msg s4)
    else s1

-- The second `switch`, on the message discriminator as the first one left it.
unfoldable pub manufacturer : Net → ℕ → Bts → Bts
manufacturer net sd s = if mdisc s == mdisc_manuf then connect_rsl net sd s else s

unfoldable pub oml_msg : Net → ℕ → ℕ → Bts → Outcome Bts
unfolding dispatch manufacturer
oml_msg net fuel sd s = do s1 ← dispatch fuel sd s; ok (manufacturer net sd s1)
