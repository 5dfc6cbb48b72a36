-- ===== src/Oml/Opstart.antt =====
-- src/bts_nm.c: NM_MT_OPSTART, by which the BSC takes an object into operation.
use soft_bts.Base.{ℕ, ◌==◌, ltb, if◌then◌else◌, for_range}
use soft_bts.Base.Outcome.{Outcome, ok, fault}
use soft_bts.Nm.{ObjClass, obj_code, AdmState, adm_code, AvailState, avail_code, OpState, op_code}
use soft_bts.Bts.{Bts}
use soft_bts.Bts.Report.{
  sw_activated_report, opstart_ack, sw_activate_request, state_changed_event_report,
}
use soft_bts.Oml.Request.{class_is, ts_nr, none_nr, channels, update}

unfoldable pub opstart_site_manager : ℕ → Bts → Bts
unfolding opstart_ack sw_activated_report sw_activate_request
opstart_site_manager sd s =
    let s1 = record s {
      manager_opstate = op_code OpState.enabled;
      manager_admin_state = adm_code AdmState.unlocked;
    } in
    let s2 = opstart_ack sd (obj_code ObjClass.site_manager) none_nr none_nr none_nr s1 in
    let s3 = sw_activated_report sd (obj_code ObjClass.site_manager) none_nr none_nr none_nr s2 in
    sw_activate_request sd (obj_code ObjClass.bts) 0x00 none_nr none_nr s3

unfoldable pub opstart_bts : ℕ → Bts → Bts
unfolding opstart_ack sw_activated_report sw_activate_request
opstart_bts sd s =
    let s1 = record s { bts_opstate = op_code OpState.enabled } in
    let s2 = opstart_ack sd (obj_code ObjClass.bts) 0x00 none_nr none_nr s1 in
    let s3 = sw_activated_report sd (obj_code ObjClass.bts) 0x00 none_nr none_nr s2 in
    sw_activate_request sd (obj_code ObjClass.baseb_transc) 0x00 0x00 none_nr s3

unfoldable pub opstart_baseb_transc : ℕ → Bts → Bts
unfolding opstart_ack
opstart_baseb_transc sd s =
    opstart_ack sd (obj_code ObjClass.baseb_transc) 0x00 0x00 none_nr
      (record s { baseb_transc_opstate = op_code OpState.enabled })

unfoldable pub opstart_radio_carrier : ℕ → Bts → Bts
unfolding opstart_ack
opstart_radio_carrier sd s =
    opstart_ack sd (obj_code ObjClass.radio_carrier) 0x00 0x00 none_nr
      (record s { radio_carrier_opstate = op_code OpState.enabled })

-- What follows the start of the last channel: reports of the whole site.
unfoldable pub report_site : ℕ → Bts → Bts
unfolding sw_activated_report state_changed_event_report
report_site sd s =
    let s1 = sw_activated_report sd (obj_code ObjClass.radio_carrier) 0x00 0x00 none_nr s in
    let s2 =
      state_changed_event_report sd (obj_code ObjClass.site_manager) none_nr none_nr none_nr
        s1.manager_opstate (avail_code AvailState.ok) s1.manager_admin_state s1 in
    let s3 =
      state_changed_event_report sd (obj_code ObjClass.bts) 0x00 none_nr none_nr s2.bts_opstate
        (avail_code AvailState.ok) s2.bts_admin_state s2 in
    let s4 =
      for_range channels 0x00
        (λ channel t.
          state_changed_event_report sd (obj_code ObjClass.channel) 0x00 0x00 channel
            (t.channel_opstate channel) (avail_code AvailState.ok) (t.channel_admin_state channel)
            t)
        s3 in
    sw_activated_report sd (obj_code ObjClass.baseb_transc) 0x00 0x00 none_nr s4

-- `channel_opstate[ts_nr]` is written for any `ts_nr` that the request holds, though the array
-- has eight elements.
unfoldable pub opstart_channel : ℕ → Bts → Outcome Bts
unfolding opstart_ack report_site
opstart_channel sd s =
    if ltb (ts_nr s) channels
    then (let s1 = record s {
      channel_opstate = update s.channel_opstate (ts_nr s) (op_code OpState.enabled);
    } in
        let s2 = opstart_ack sd (obj_code ObjClass.channel) 0x00 0x00 (ts_nr s1) s1 in
        ok (if ts_nr s2 == 0x07 then report_site sd s2 else s2))
    else fault

-- NM_MT_OPSTART: each block breaks.
unfoldable pub on_opstart : ℕ → Bts → Outcome Bts
unfolding opstart_site_manager opstart_bts opstart_baseb_transc opstart_radio_carrier
    opstart_channel
on_opstart sd s =
    if class_is s ObjClass.site_manager
    then ok (opstart_site_manager sd s)
    else if class_is s ObjClass.bts
    then ok (opstart_bts sd s)
    else if class_is s ObjClass.baseb_transc
    then ok (opstart_baseb_transc sd s)
    else if class_is s ObjClass.radio_carrier
    then ok (opstart_radio_carrier sd s)
    else if class_is s ObjClass.channel
    then opstart_channel sd s
    else ok s
