-- ===== src/Nm.antt =====
-- src/bts_nm.h and src/bts_init.h: the codes of the protocol, one data type for each enumeration
-- with the byte that a constructor stands for.
pub mod Layout
use soft_bts.Base.{ℕ}

-- `enum abis_nm_obj_class`
pub data ObjClass : Type 0 where
  site_manager bts radio_carrier channel baseb_transc null : ObjClass

abbrev pub obj_code : ObjClass → ℕ
obj_code site_manager = 0x00
obj_code bts = 0x01
obj_code radio_carrier = 0x02
obj_code channel = 0x03
obj_code baseb_transc = 0x04
obj_code null = 0xff

-- `enum abis_nm_adm_state`
pub data AdmState : Type 0 where
  locked unlocked shutdown null : AdmState

abbrev pub adm_code : AdmState → ℕ
adm_code locked = 0x01
adm_code unlocked = 0x02
adm_code shutdown = 0x03
adm_code null = 0xff

-- `enum abis_nm_avail_state`
pub data AvailState : Type 0 where
  in_test failed power_off off_line dependency degraded not_installed ok : AvailState

abbrev pub avail_code : AvailState → ℕ
avail_code in_test = 0x00
avail_code failed = 0x01
avail_code power_off = 0x02
avail_code off_line = 0x03
avail_code dependency = 0x05
avail_code degraded = 0x06
avail_code not_installed = 0x07
avail_code ok = 0xff

-- `enum abis_nm_op_state`
pub data OpState : Type 0 where
  disabled enabled null : OpState

abbrev pub op_code : OpState → ℕ
op_code disabled = 0x01
op_code enabled = 0x02
op_code null = 0xff

-- `enum abis_nm_msgtype`
pub data MsgType : Type 0 where
  load_init load_init_ack load_init_nack load_seg load_seg_ack load_abort : MsgType
  load_end load_end_ack load_end_nack sw_act_req sw_act_req_ack sw_act_req_nack : MsgType
  activate_sw activate_sw_ack activate_sw_nack sw_activated_rep set_bts_attr : MsgType
  set_bts_attr_ack set_bts_attr_nack set_radio_attr set_radio_attr_ack : MsgType
  set_radio_attr_nack set_chan_attr set_chan_attr_ack set_chan_attr_nack : MsgType
  statechg_event_rep failure_event_rep stop_event_rep stop_event_rep_ack : MsgType
  stop_event_rep_nack rest_event_rep rest_event_rep_ack rest_event_rep_nack : MsgType
  chg_adm_state chg_adm_state_ack chg_adm_state_nack chg_adm_state_req : MsgType
  chg_adm_state_req_ack chg_adm_state_req_nack rep_outst_alarms : MsgType
  rep_outst_alarms_ack rep_outst_alarms_nack changeover changeover_ack : MsgType
  changeover_nack opstart opstart_ack opstart_nack reinit reinit_ack : MsgType
  reinit_nack set_site_out set_site_out_ack set_site_out_nack chg_hw_conf : MsgType
  chg_hw_conf_ack chg_hw_conf_nack : MsgType

abbrev pub msg_code : MsgType → ℕ
msg_code load_init = 0x01
msg_code load_init_ack = 0x02
msg_code load_init_nack = 0x03
msg_code load_seg = 0x04
msg_code load_seg_ack = 0x05
msg_code load_abort = 0x06
msg_code load_end = 0x07
msg_code load_end_ack = 0x08
msg_code load_end_nack = 0x09
msg_code sw_act_req = 0x0a
msg_code sw_act_req_ack = 0x0b
msg_code sw_act_req_nack = 0x0c
msg_code activate_sw = 0x0d
msg_code activate_sw_ack = 0x0e
msg_code activate_sw_nack = 0x0f
msg_code sw_activated_rep = 0x10
msg_code set_bts_attr = 0x41
msg_code set_bts_attr_ack = 0x42
msg_code set_bts_attr_nack = 0x43
msg_code set_radio_attr = 0x44
msg_code set_radio_attr_ack = 0x45
msg_code set_radio_attr_nack = 0x46
msg_code set_chan_attr = 0x47
msg_code set_chan_attr_ack = 0x48
msg_code set_chan_attr_nack = 0x49
msg_code statechg_event_rep = 0x61
msg_code failure_event_rep = 0x62
msg_code stop_event_rep = 0x63
msg_code stop_event_rep_ack = 0x64
msg_code stop_event_rep_nack = 0x65
msg_code rest_event_rep = 0x66
msg_code rest_event_rep_ack = 0x67
msg_code rest_event_rep_nack = 0x68
msg_code chg_adm_state = 0x69
msg_code chg_adm_state_ack = 0x6a
msg_code chg_adm_state_nack = 0x6b
msg_code chg_adm_state_req = 0x6c
msg_code chg_adm_state_req_ack = 0x6d
msg_code chg_adm_state_req_nack = 0x6e
msg_code rep_outst_alarms = 0x93
msg_code rep_outst_alarms_ack = 0x94
msg_code rep_outst_alarms_nack = 0x95
msg_code changeover = 0x71
msg_code changeover_ack = 0x72
msg_code changeover_nack = 0x73
msg_code opstart = 0x74
msg_code opstart_ack = 0x75
msg_code opstart_nack = 0x76
msg_code reinit = 0x77
msg_code reinit_ack = 0x78
msg_code reinit_nack = 0x79
msg_code set_site_out = 0x7a
msg_code set_site_out_ack = 0x7b
msg_code set_site_out_nack = 0x7c
msg_code chg_hw_conf = 0x90
msg_code chg_hw_conf_ack = 0x91
msg_code chg_hw_conf_nack = 0x92

-- `enum abis_nm_attr`
pub data Attr : Type 0 where
  abis_channel add_info add_text adm_state arfcn_list auton_report avail_status : Attr
  bcch_arfcn bsic bts_air_timer ccch_l_i_p ccch_l_t chan_comb conn_fail_crit : Attr
  dest event_type file_id file_version gsm_time hsn hw_config hw_desc : Attr
  intave_param interf_bound list_req_attr maio manuf_state manuf_thresh : Attr
  manuf_id max_ta mdrop_link mdrop_next nack_causes ny1 oper_state overl_period : Attr
  phys_conf power_class power_thresh prob_cause rach_b_thresh ldavg_slots : Attr
  rad_subc rf_maxpowr_r site_inputs site_outputs source spec_prob start_time : Attr
  t200 tei test_dur test_no test_report vswr_thresh window_size tsc sw_config : Attr
  sw_descr severity get_ari hw_conf_chg outst_alarm file_data meas_res : Attr
  meas_type : Attr

abbrev pub att_code : Attr → ℕ
att_code abis_channel = 0x01
att_code add_info = 0x02
att_code add_text = 0x03
att_code adm_state = 0x04
att_code arfcn_list = 0x05
att_code auton_report = 0x06
att_code avail_status = 0x07
att_code bcch_arfcn = 0x08
att_code bsic = 0x09
att_code bts_air_timer = 0x0a
att_code ccch_l_i_p = 0x0b
att_code ccch_l_t = 0x0c
att_code chan_comb = 0x0d
att_code conn_fail_crit = 0x0e
att_code dest = 0x0f
att_code event_type = 0x11
att_code file_id = 0x12
att_code file_version = 0x13
att_code gsm_time = 0x14
att_code hsn = 0x15
att_code hw_config = 0x16
att_code hw_desc = 0x17
att_code intave_param = 0x18
att_code interf_bound = 0x19
att_code list_req_attr = 0x1a
att_code maio = 0x1b
att_code manuf_state = 0x1c
att_code manuf_thresh = 0x1d
att_code manuf_id = 0x1e
att_code max_ta = 0x1f
att_code mdrop_link = 0x20
att_code mdrop_next = 0x21
att_code nack_causes = 0x22
att_code ny1 = 0x23
att_code oper_state = 0x24
att_code overl_period = 0x25
att_code phys_conf = 0x26
att_code power_class = 0x27
att_code power_thresh = 0x28
att_code prob_cause = 0x29
att_code rach_b_thresh = 0x2a
att_code ldavg_slots = 0x2b
att_code rad_subc = 0x2c
att_code rf_maxpowr_r = 0x2d
att_code site_inputs = 0x2e
att_code site_outputs = 0x2f
att_code source = 0x30
att_code spec_prob = 0x31
att_code start_time = 0x32
att_code t200 = 0x33
att_code tei = 0x34
att_code test_dur = 0x35
att_code test_no = 0x36
att_code test_report = 0x37
att_code vswr_thresh = 0x38
att_code window_size = 0x39
att_code tsc = 0x40
att_code sw_config = 0x41
att_code sw_descr = 0x42
att_code severity = 0x43
att_code get_ari = 0x44
att_code hw_conf_chg = 0x45
att_code outst_alarm = 0x46
att_code file_data = 0x47
att_code meas_res = 0x48
att_code meas_type = 0x49

-- The protocols that share the link, of src/bts_init.h.
abbrev pub proto_softbts : ℕ
proto_softbts = 0xfe

abbrev pub proto_rsl : ℕ
proto_rsl = 0x00

abbrev pub proto_oml : ℕ
proto_oml = 0xff

-- `enum softbts_msg_type`
pub data IpaMsg : Type 0 where
  ping pong id_get id_resp id_ack : IpaMsg

abbrev pub ipa_code : IpaMsg → ℕ
ipa_code ping = 0x00
ipa_code pong = 0x01
ipa_code id_get = 0x04
ipa_code id_resp = 0x05
ipa_code id_ack = 0x06

-- `enum softbts_id_tags`
pub data IdTag : Type 0 where
  sernr unitname location1 location2 equipvers swversion ipaddr macaddr unit : IdTag

abbrev pub tag_code : IdTag → ℕ
tag_code sernr = 0x00
tag_code unitname = 0x01
tag_code location1 = 0x02
tag_code location2 = 0x03
tag_code equipvers = 0x04
tag_code swversion = 0x05
tag_code ipaddr = 0x06
tag_code macaddr = 0x07
tag_code unit = 0x08
