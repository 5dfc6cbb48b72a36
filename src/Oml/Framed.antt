-- ===== src/Oml/Framed.antt =====
-- The lengths of the frames that the O&M handlers send.
use soft_bts.Base.{ℕ, ◌≡◌, refl, Bool, true, false, if◌then◌else◌, ltb, ◌==◌, arith}
use soft_bts.Base.Outcome.{Outcome, ok, fault, looping, ◌>>=◌}
use soft_bts.Nm.{ObjClass, obj_code, OpState, op_code, MsgType}
use mathlib.Core.Path.{subst}
use soft_bts.Bts.{Bts, Net}
use soft_bts.Bts.Log.{AllFramed}
use soft_bts.Oml.{oml_msg, dispatch, manufacturer, connect_rsl, init_rsl_link}
use soft_bts.Oml.Attributes.{Cursor, bts_get_attr}
use soft_bts.Bts.Report.{mdisc_manuf, bts_set_attr_ack, opstart_ack}
use soft_bts.Oml.Request.{ts_nr, class_is, type_is, mdisc, channels, update}
use soft_bts.Oml.Activate.{
  on_sw_act_req_ack, on_activate_sw, activate_site_manager, activate_bts, activate_baseb_transc,
  activate_radio_carrier, activate_channel,
}
use soft_bts.Oml.Opstart.{
  on_opstart, opstart_site_manager, opstart_bts, opstart_baseb_transc, opstart_radio_carrier,
  opstart_channel, report_site,
}
use soft_bts.Oml.Admin.{on_set_bts_attr, on_set_chan_attr, on_set_radio_attr, on_chg_adm_state}

pub if-AllFramed :
    (b : Bool) (s t : Bts) → AllFramed s → AllFramed t → AllFramed (if b then s else t)
if-AllFramed true s t hs ht = hs
if-AllFramed false s t hs ht = ht

-- Of one handler all frames are computed, and with them their lengths.
module _ (sd : ℕ) (s : Bts) (h : AllFramed s) where
  activate_site_manager-AllFramed : AllFramed (activate_site_manager sd s)
  unfolding activate_site_manager
  activate_site_manager-AllFramed = assumption refl

  activate_bts-AllFramed : AllFramed (activate_bts sd s)
  unfolding activate_bts
  activate_bts-AllFramed = assumption refl

  activate_baseb_transc-AllFramed : AllFramed (activate_baseb_transc sd s)
  unfolding activate_baseb_transc
  activate_baseb_transc-AllFramed = assumption refl

  activate_radio_carrier-AllFramed : AllFramed (activate_radio_carrier sd s)
  unfolding activate_radio_carrier
  activate_radio_carrier-AllFramed = assumption refl

  activate_channel-AllFramed : AllFramed (activate_channel sd s)
  unfolding activate_channel
  activate_channel-AllFramed = if-AllFramed (ts_nr s == 7) _ _ (assumption refl) (assumption refl)

  opstart_site_manager-AllFramed : AllFramed (opstart_site_manager sd s)
  unfolding opstart_site_manager
  opstart_site_manager-AllFramed = assumption refl

  opstart_bts-AllFramed : AllFramed (opstart_bts sd s)
  unfolding opstart_bts
  opstart_bts-AllFramed = assumption refl

  opstart_baseb_transc-AllFramed : AllFramed (opstart_baseb_transc sd s)
  unfolding opstart_baseb_transc
  opstart_baseb_transc-AllFramed = assumption refl

  opstart_radio_carrier-AllFramed : AllFramed (opstart_radio_carrier sd s)
  unfolding opstart_radio_carrier
  opstart_radio_carrier-AllFramed = assumption refl

  report_site-AllFramed : AllFramed (report_site sd s)
  unfolding report_site
  report_site-AllFramed = assumption refl

  on_sw_act_req_ack-AllFramed : AllFramed (on_sw_act_req_ack s)
  unfolding on_sw_act_req_ack
  on_sw_act_req_ack-AllFramed = ground arith

  on_set_chan_attr-AllFramed : AllFramed (on_set_chan_attr sd s)
  unfolding on_set_chan_attr
  on_set_chan_attr-AllFramed = assumption refl

  on_set_radio_attr-AllFramed : AllFramed (on_set_radio_attr sd s)
  unfolding on_set_radio_attr
  on_set_radio_attr-AllFramed = assumption refl

  connect_rsl-AllFramed : (net : Net) → AllFramed (connect_rsl net sd s)
  unfolding connect_rsl
  connect_rsl-AllFramed net =
      if-AllFramed (net s.log sd init_rsl_link) _ _ (assumption refl) (assumption refl)

  manufacturer-AllFramed : (net : Net) → AllFramed (manufacturer net sd s)
  unfolding manufacturer
  manufacturer-AllFramed net =
      if-AllFramed (mdisc s == mdisc_manuf) _ _ (connect_rsl-AllFramed net) h

on_activate_sw-AllFramed : (sd : ℕ) (s : Bts) → AllFramed s → AllFramed (on_activate_sw sd s)
unfolding on_activate_sw
on_activate_sw-AllFramed sd s h =
    let s1 = if class_is s ObjClass.site_manager then activate_site_manager sd s else s in
    let h1 : AllFramed s1 =
      if-AllFramed (class_is s ObjClass.site_manager) _ _ (activate_site_manager-AllFramed sd s h)
        h in
    let s2 = if class_is s1 ObjClass.bts then activate_bts sd s1 else s1 in
    let h2 : AllFramed s2 =
      if-AllFramed (class_is s1 ObjClass.bts) _ _ (activate_bts-AllFramed sd s1 h1) h1 in
    if-AllFramed (class_is s2 ObjClass.baseb_transc) _ _ (activate_baseb_transc-AllFramed sd s2 h2)
      (if-AllFramed (class_is s2 ObjClass.radio_carrier) _ _
        (activate_radio_carrier-AllFramed sd s2 h2)
        (if-AllFramed (class_is s2 ObjClass.channel) _ _ (activate_channel-AllFramed sd s2 h2) h2))

-- The frames of a handler that may fail, where it does not.
abbrev pub OkFramed : Outcome Bts → Type 0
OkFramed (ok s) = AllFramed s
OkFramed _ = Unit {0}

pub if-OkFramed :
    (b : Bool) (r q : Outcome Bts) → OkFramed r → OkFramed q → OkFramed (if b then r else q)
if-OkFramed true r q hr hq = hr
if-OkFramed false r q hr hq = hq

opstart_channel-OkFramed : (sd : ℕ) (s : Bts) → AllFramed s → OkFramed (opstart_channel sd s)
unfolding opstart_channel
opstart_channel-OkFramed sd s h =
    let started = opstart_ack sd (obj_code ObjClass.channel) 0 0 (ts_nr s) (record s {
      channel_opstate = update s.channel_opstate (ts_nr s) (op_code OpState.enabled);
    }) in
    if-OkFramed (ltb (ts_nr s) channels) _ _
      (if-AllFramed (ts_nr s == 7) _ _ (report_site-AllFramed sd started (refl, h))
        (assumption refl))
      tt

on_opstart-OkFramed : (sd : ℕ) (s : Bts) → AllFramed s → OkFramed (on_opstart sd s)
unfolding on_opstart
on_opstart-OkFramed sd s h =
    if-OkFramed (class_is s ObjClass.site_manager) _ _ (opstart_site_manager-AllFramed sd s h) (
      if-OkFramed (class_is s ObjClass.bts) _ _ (opstart_bts-AllFramed sd s h) (
        if-OkFramed (class_is s ObjClass.baseb_transc) _ _ (opstart_baseb_transc-AllFramed sd s h) (
          if-OkFramed (class_is s ObjClass.radio_carrier) _ _
            (opstart_radio_carrier-AllFramed sd s h)
            (if-OkFramed (class_is s ObjClass.channel) _ _ (opstart_channel-OkFramed sd s h) h))))

on_chg_adm_state-OkFramed : (sd : ℕ) (s : Bts) → AllFramed s → OkFramed (on_chg_adm_state sd s)
unfolding on_chg_adm_state
on_chg_adm_state-OkFramed sd s h = if-OkFramed (class_is s ObjClass.bts) _ _ (assumption refl) (
    if-OkFramed (class_is s ObjClass.baseb_transc) _ _ (assumption refl) (
      if-OkFramed (class_is s ObjClass.radio_carrier) _ _ (assumption refl) (
        if-OkFramed (class_is s ObjClass.channel) _ _
          (if-OkFramed (ltb (ts_nr s) channels) _ _ (assumption refl) tt) h)))

on_set_bts_attr-OkFramed :
    (fuel sd : ℕ) (s : Bts) → AllFramed s → OkFramed (on_set_bts_attr fuel sd s)
unfolding on_set_bts_attr
on_set_bts_attr-OkFramed fuel sd s h = walked (bts_get_attr fuel s.buf)
  where
    walked :
        (r : Outcome Cursor)
        → OkFramed (r >>= λ _. ok (record (bts_set_attr_ack sd 1 0 255 255 s) { sw_bts = 66 }))
    walked (ok c) = assumption refl
    walked fault = tt
    walked looping = tt

dispatch-OkFramed : (fuel sd : ℕ) (s : Bts) → AllFramed s → OkFramed (dispatch fuel sd s)
unfolding dispatch
dispatch-OkFramed fuel sd s h =
    if-OkFramed (type_is s MsgType.sw_act_req_ack) _ _ (on_sw_act_req_ack-AllFramed sd s h) (
      if-OkFramed (type_is s MsgType.activate_sw) _ _ (on_activate_sw-AllFramed sd s h) (
        if-OkFramed (type_is s MsgType.opstart) _ _ (on_opstart-OkFramed sd s h) (
          if-OkFramed (type_is s MsgType.set_bts_attr) _ _ (on_set_bts_attr-OkFramed fuel sd s h) (
            if-OkFramed (type_is s MsgType.set_chan_attr) _ _ (on_set_chan_attr-AllFramed sd s h) (
              if-OkFramed (type_is s MsgType.set_radio_attr) _ _
                (on_set_radio_attr-AllFramed sd s h)
                (if-OkFramed (type_is s MsgType.chg_adm_state) _ _
                  (on_chg_adm_state-OkFramed sd s h) h))))))

manufacturer-OkFramed :
    (net : Net) (sd : ℕ) (r : Outcome Bts)
    → OkFramed r
    → OkFramed (r >>= λ s. ok (manufacturer net sd s))
manufacturer-OkFramed net sd (ok s) h = manufacturer-AllFramed sd s h net
manufacturer-OkFramed net sd fault h = tt
manufacturer-OkFramed net sd looping h = tt

pub oml_msg-OkFramed :
    (net : Net) (fuel sd : ℕ) (s : Bts) → AllFramed s → OkFramed (oml_msg net fuel sd s)
unfolding oml_msg
oml_msg-OkFramed net fuel sd s h =
    manufacturer-OkFramed net sd (dispatch fuel sd s) (dispatch-OkFramed fuel sd s h)

-- Whatever the buffer holds, where `oml_msg` returns, every frame that it has sent is as long as
-- its headers say, if those sent before are.
pub oml_msg-AllFramed :
    (net : Net) (fuel sd : ℕ) (s : Bts) {s' : Bts}
    → AllFramed s
    → oml_msg net fuel sd s ≡ ok s'
    → AllFramed s'
oml_msg-AllFramed net fuel sd s h e = subst OkFramed e (oml_msg-OkFramed net fuel sd s h)
