-- ===== src/Bts/Report.antt =====
-- The messages that src/bts_nm.c composes in the buffer that the request came in, and sends.
use soft_bts.Base.{ℕ, ◌+◌, List, [], ◌∷◌}
use soft_bts.Buffer.{Buffer, store, store16, load16, store_list, htons}
use soft_bts.Nm.{proto_oml, MsgType, msg_code, Attr, att_code}
use soft_bts.Nm.Layout.{
  sizeof, offset, msg_head, om_hdr, fom_hdr, obj_inst, om_hdr_at, fom_hdr_at, obj_inst_at, data_at,
  sw_config, file_id, file_ver, oper_state, avail_status, admin_state,
}
use soft_bts.Bts.{Bts, send_buffer}

-- ABIS_OM_MDISC_FOM, ABIS_OM_MDISC_MANUF and ABIS_OM_PLACEMENT_ONLY of src/bts_nm.h
abbrev pub mdisc_fom : ℕ
mdisc_fom = 0x80

abbrev pub mdisc_manuf : ℕ
mdisc_manuf = 0x10

abbrev pub placement_only : ℕ
placement_only = 0x80

-- The three headers `msg_head_t`, `om_hdr_t` and `fom_hdr_t`, as each composer fills them in.
-- `len` is the 16-bit number that is assigned to `head->len`.
put_headers : ℕ → ℕ → MsgType → ℕ → ℕ → ℕ → ℕ → Buffer → Buffer
put_headers len om_len mt obj_class bts_nr trx_nr ts_nr b =
    let b1 = store16 0 len b in
    let b2 = store (offset msg_head 1) proto_oml b1 in
    let b3 = store om_hdr_at mdisc_fom b2 in
    let b4 = store (om_hdr_at + offset om_hdr 1) placement_only b3 in
    let b5 = store (om_hdr_at + offset om_hdr 2) 0x00 b4 in
    let b6 = store (om_hdr_at + offset om_hdr 3) om_len b5 in
    let b7 = store fom_hdr_at (msg_code mt) b6 in
    let b8 = store (fom_hdr_at + offset fom_hdr 1) obj_class b7 in
    let b9 = store obj_inst_at bts_nr b8 in
    let b10 = store (obj_inst_at + offset obj_inst 1) trx_nr b9 in
    store (obj_inst_at + offset obj_inst 2) ts_nr b10

-- A message of headers only, which the five functions below send with their own type.
send_headers : ℕ → MsgType → ℕ → ℕ → ℕ → ℕ → Bts → Bts
unfolding put_headers
send_headers sd mt obj_class bts_nr trx_nr ts_nr s =
    send_buffer sd
      (record s { buf = put_headers 0x0900 0x05 mt obj_class bts_nr trx_nr ts_nr s.buf })

unfoldable pub sw_activated_report : ℕ → ℕ → ℕ → ℕ → ℕ → Bts → Bts
unfolding send_headers
sw_activated_report sd = send_headers sd MsgType.sw_activated_rep

unfoldable pub opstart_ack : ℕ → ℕ → ℕ → ℕ → ℕ → Bts → Bts
unfolding send_headers
opstart_ack sd = send_headers sd MsgType.opstart_ack

unfoldable pub sw_activate_ack : ℕ → ℕ → ℕ → ℕ → ℕ → Bts → Bts
unfolding send_headers
sw_activate_ack sd = send_headers sd MsgType.activate_sw_ack

unfoldable pub bts_set_attr_ack : ℕ → ℕ → ℕ → ℕ → ℕ → Bts → Bts
unfolding send_headers
bts_set_attr_ack sd = send_headers sd MsgType.set_bts_attr_ack

unfoldable pub chg_adm_state_ack : ℕ → ℕ → ℕ → ℕ → ℕ → Bts → Bts
unfolding send_headers
chg_adm_state_ack sd = send_headers sd MsgType.chg_adm_state_ack

-- SW_FILE_ID and SW_FILE_VER, with the null byte that `strcpy` copies.
abbrev sw_file_id : List ℕ
sw_file_id = b'1' ∷ b'2' ∷ b'0' ∷ b'a' ∷ b'0' ∷ b'0' ∷ b'2' ∷ b'0' ∷ 0 ∷ []

abbrev sw_file_ver : List ℕ
sw_file_ver = b'v' ∷ b'2' ∷ b'0' ∷ b'9' ∷ b'b' ∷ b'2' ∷ b'4' ∷ b'd' ∷ b'3' ∷ 0 ∷ []

-- `sw_descr`'s code is `sw_config->data[0]`. The lengths are stored in host order first:
-- `file_id->len` gives the place of `file_ver`.
unfoldable pub sw_activate_request : ℕ → ℕ → ℕ → ℕ → ℕ → Bts → Bts
unfolding put_headers
sw_activate_request sd obj_class bts_nr trx_nr ts_nr s =
    let b0 = put_headers 0x2500 0x21 MsgType.sw_act_req obj_class bts_nr trx_nr ts_nr s.buf in
    let cfg_len = data_at + offset sw_config 1 in
    let id = data_at + sizeof sw_config + 1 in
    let id_len = id + offset file_id 1 in
    let b1 = store16 cfg_len 0x0019 (store data_at (att_code Attr.sw_config) b0) in
    let b2 = store (data_at + sizeof sw_config) (att_code Attr.sw_descr) b1 in
    let b3 = store16 id_len 8 (store id (att_code Attr.file_id) b2) in
    let b4 = store_list (id + sizeof file_id) sw_file_id b3 in
    let ver = id + sizeof file_id + load16 b4 id_len in
    let ver_len = ver + offset file_ver 1 in
    let b5 = store16 ver_len 10 (store ver (att_code Attr.file_version) b4) in
    let b6 = store_list (ver + sizeof file_ver) sw_file_ver b5 in
    let b7 = store16 id_len (htons (load16 b6 id_len)) b6 in
    let b8 = store16 ver_len (htons (load16 b7 ver_len)) b7 in
    let b9 = store16 cfg_len (htons (load16 b8 cfg_len)) b8 in
    send_buffer sd (record s { buf = b9 })

-- `oper_state`, `avail_status` and `admin_state` lie one behind the other.
unfoldable pub state_changed_event_report : ℕ → ℕ → ℕ → ℕ → ℕ → ℕ → ℕ → ℕ → Bts → Bts
unfolding put_headers
state_changed_event_report sd obj_class bts_nr trx_nr ts_nr op_state av_status adm_state s =
    let b0 =
      put_headers 0x1100 0x0d MsgType.statechg_event_rep obj_class bts_nr trx_nr ts_nr s.buf in
    let avail = data_at + sizeof oper_state in
    let admin = avail + sizeof avail_status in
    let b1 =
      store (data_at + offset oper_state 1) op_state
        (store data_at (att_code Attr.oper_state) b0) in
    let b2 =
      store16 (avail + offset avail_status 1) 0x0100
        (store avail (att_code Attr.avail_status) b1) in
    let b3 = store (avail + offset avail_status 2) av_status b2 in
    let b4 =
      store (admin + offset admin_state 1) adm_state (store admin (att_code Attr.adm_state) b3) in
    send_buffer sd (record s { buf = b4 })
