-- ===== src/Oml/Activate.antt =====
-- src/bts_nm.c: the software activation of the objects.
use soft_bts.Base.{ℕ, ◌==◌, if◌then◌else◌, for_range}
use soft_bts.Nm.{
  ObjClass, obj_code, AdmState, adm_code, AvailState, avail_code, OpState, op_code, MsgType,
  msg_code,
}
use soft_bts.Bts.{Bts}
use soft_bts.Bts.Report.{
  sw_activated_report, sw_activate_ack, sw_activate_request, state_changed_event_report,
}
use soft_bts.Oml.Request.{class_is, ts_nr, none_nr, channels}

-- NM_MT_SW_ACT_REQ_ACK
unfoldable pub on_sw_act_req_ack : Bts → Bts
on_sw_act_req_ack s =
    let s1 =
      if class_is s ObjClass.site_manager
      then record s { sw_site_manager = msg_code MsgType.sw_act_req_ack }
      else s in
    if class_is s1 ObjClass.bts then record s1 { sw_bts = msg_code MsgType.sw_act_req_ack } else s1

-- The blocks of NM_MT_ACTIVATE_SW, one for each object class.
unfoldable pub activate_site_manager : ℕ → Bts → Bts
unfolding sw_activate_ack state_changed_event_report
activate_site_manager sd s =
    let s1 = record s { sw_site_manager = msg_code MsgType.activate_sw } in
    let s2 = sw_activate_ack sd (obj_code ObjClass.site_manager) none_nr none_nr none_nr s1 in
    state_changed_event_report sd (obj_code ObjClass.site_manager) none_nr none_nr none_nr
      (op_code OpState.enabled) (avail_code AvailState.ok) (adm_code AdmState.locked) s2

unfoldable pub activate_bts : ℕ → Bts → Bts
unfolding sw_activate_ack state_changed_event_report
activate_bts sd s =
    let s1 = sw_activate_ack sd (obj_code ObjClass.bts) 0x00 none_nr none_nr s in
    state_changed_event_report sd (obj_code ObjClass.bts) 0x00 none_nr none_nr
      (op_code OpState.disabled) (avail_code AvailState.dependency) (adm_code AdmState.locked) s1

unfoldable pub activate_baseb_transc : ℕ → Bts → Bts
unfolding sw_activate_ack sw_activate_request
activate_baseb_transc sd s =
    let s1 = sw_activate_ack sd (obj_code ObjClass.baseb_transc) 0x00 0x00 none_nr s in
    sw_activate_request sd (obj_code ObjClass.radio_carrier) 0x00 0x00 none_nr s1

unfoldable pub activate_radio_carrier : ℕ → Bts → Bts
unfolding sw_activate_ack sw_activate_request
activate_radio_carrier sd s =
    let s1 = sw_activate_ack sd (obj_code ObjClass.radio_carrier) 0x00 0x00 none_nr s in
    for_range channels 0x00
      (λ channel. sw_activate_request sd (obj_code ObjClass.channel) 0x00 0x00 channel) s1

unfoldable pub activate_channel : ℕ → Bts → Bts
unfolding sw_activate_ack state_changed_event_report sw_activated_report
activate_channel sd s =
    let s1 = sw_activate_ack sd (obj_code ObjClass.channel) 0x00 0x00 (ts_nr s) s in
    let s2 =
      state_changed_event_report sd (obj_code ObjClass.channel) 0x00 0x00 (ts_nr s1)
        (op_code OpState.disabled) (avail_code AvailState.dependency) (adm_code AdmState.locked)
        s1 in
    if ts_nr s2 == 0x07
    then for_range channels 0x00
        (λ channel. sw_activated_report sd (obj_code ObjClass.channel) 0x00 0x00 channel) s2
    else s2

-- NM_MT_ACTIVATE_SW. The first two blocks do not break, and the tests read the buffer anew.
unfoldable pub on_activate_sw : ℕ → Bts → Bts
unfolding activate_site_manager activate_bts activate_baseb_transc activate_radio_carrier
    activate_channel
on_activate_sw sd s =
    let s1 = if class_is s ObjClass.site_manager then activate_site_manager sd s else s in
    let s2 = if class_is s1 ObjClass.bts then activate_bts sd s1 else s1 in
    if class_is s2 ObjClass.baseb_transc
    then activate_baseb_transc sd s2
    else if class_is s2 ObjClass.radio_carrier
    then activate_radio_carrier sd s2
    else if class_is s2 ObjClass.channel
    then activate_channel sd s2
    else s2
