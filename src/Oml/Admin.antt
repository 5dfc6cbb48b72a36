-- ===== src/Oml/Admin.antt =====
-- src/bts_nm.c: the attributes and the administrative states that the BSC sets.
use soft_bts.Base.{ℕ, ◌+◌, ltb, if◌then◌else◌}
use soft_bts.Base.Outcome.{Outcome, ok, fault, ◌>>=◌}
use soft_bts.Nm.{ObjClass, obj_code, MsgType, msg_code}
use soft_bts.Nm.Layout.{offset, admin_state, data_at}
use soft_bts.Bts.{Bts}
use soft_bts.Bts.Report.{bts_set_attr_ack, chg_adm_state_ack}
use soft_bts.Oml.Request.{class_is, ts_nr, none_nr, channels, update}
use soft_bts.Oml.Attributes.{bts_get_attr}

-- NM_MT_SET_BTS_ATTR, for any object class. The attributes are walked over and not kept.
unfoldable pub on_set_bts_attr : ℕ → ℕ → Bts → Outcome Bts
unfolding bts_set_attr_ack
on_set_bts_attr fuel sd s = do
  _ ← bts_get_attr fuel s.buf
  let s1 = bts_set_attr_ack sd (obj_code ObjClass.bts) 0x00 none_nr none_nr s
  ok (record s1 { sw_bts = msg_code MsgType.set_bts_attr_ack })

-- NM_MT_SET_CHAN_ATTR and NM_MT_SET_RADIO_ATTR: `chan_get_attr` and `radio_get_attr` read the
-- first attribute's code and do no more.
unfoldable pub on_set_chan_attr : ℕ → Bts → Bts
unfolding bts_set_attr_ack
on_set_chan_attr sd s = bts_set_attr_ack sd (obj_code ObjClass.channel) 0x00 0x00 (ts_nr s) s

unfoldable pub on_set_radio_attr : ℕ → Bts → Bts
unfolding bts_set_attr_ack
on_set_radio_attr sd s = bts_set_attr_ack sd (obj_code ObjClass.radio_carrier) 0x00 0x00 none_nr s

-- `admin->state`: the attribute's code before it is not looked at.
abbrev pub bts_get_admin_state : Bts → ℕ
bts_get_admin_state s = s.buf (data_at + offset admin_state 1)

-- NM_MT_CHG_ADM_STATE. A site manager is not among the classes.
unfoldable pub on_chg_adm_state : ℕ → Bts → Outcome Bts
unfolding chg_adm_state_ack
on_chg_adm_state sd s =
    if class_is s ObjClass.bts
    then ok (
        chg_adm_state_ack sd (obj_code ObjClass.bts) 0x00 none_nr none_nr
          (record s { bts_admin_state = bts_get_admin_state s }))
    else if class_is s ObjClass.baseb_transc
    then ok (
        chg_adm_state_ack sd (obj_code ObjClass.baseb_transc) 0x00 0x00 none_nr
          (record s { baseb_transc_admin_state = bts_get_admin_state s }))
    else if class_is s ObjClass.radio_carrier
    then ok (
        chg_adm_state_ack sd (obj_code ObjClass.radio_carrier) 0x00 0x00 none_nr
          (record s { radio_carrier_admin_state = bts_get_admin_state s }))
    else if class_is s ObjClass.channel
    then (if ltb (ts_nr s) channels
        then ok (
            chg_adm_state_ack sd (obj_code ObjClass.channel) 0x00 0x00 (ts_nr s) (record s {
              channel_admin_state = update s.channel_admin_state (ts_nr s) (bts_get_admin_state s);
            }))
        else fault)
    else ok s
