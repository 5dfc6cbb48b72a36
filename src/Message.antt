-- ===== src/Message.antt =====
-- The O&M messages as 3GPP TS 12.21 lays them out, without the buffer and the constants of
-- src/bts_nm.c: every length is counted from what follows it, and big-endian.
use soft_bts.Base.{ℕ, ◌/◌, ◌%◌, List, [], ◌∷◌, ◌++◌, length}
use soft_bts.Nm.{
  ObjClass, obj_code, AvailState, avail_code, MsgType, msg_code, Attr, att_code, proto_oml,
}

-- The managed objects of the one-carrier station, with the number of a channel.
pub data Object : Type 0 where
  manager station transceiver carrier : Object
  channel : ℕ → Object

-- The object class and the instance (section 9.3); 0xff where a number does not apply.
abbrev pub instance_of : Object → List ℕ
instance_of manager = obj_code ObjClass.site_manager ∷ 0xff ∷ 0xff ∷ 0xff ∷ []
instance_of station = obj_code ObjClass.bts ∷ 0 ∷ 0xff ∷ 0xff ∷ []
instance_of transceiver = obj_code ObjClass.baseb_transc ∷ 0 ∷ 0 ∷ 0xff ∷ []
instance_of carrier = obj_code ObjClass.radio_carrier ∷ 0 ∷ 0 ∷ 0xff ∷ []
instance_of (channel ts) = obj_code ObjClass.channel ∷ 0 ∷ 0 ∷ ts ∷ []

abbrev pub be16 : ℕ → List ℕ
be16 n = n / 256 ∷ n % 256 ∷ []

-- Attributes with a value, and with a length and a value.
abbrev pub tv : Attr → ℕ → List ℕ
tv a v = att_code a ∷ v ∷ []

abbrev pub tlv : Attr → List ℕ → List ℕ
tlv a v = att_code a ∷ (be16 (length v) ++ v)

-- A formatted O&M message in one segment, behind the three bytes of the IP link.
abbrev pub formatted : MsgType → Object → List ℕ → List ℕ
formatted mt o payload =
    let body = msg_code mt ∷ (instance_of o ++ payload) in
    let om = 0x80 ∷ 0x80 ∷ 0 ∷ length body ∷ body in be16 (length om) ++ (proto_oml ∷ om)

-- What the station says to the controller.
pub data Message : Type 0 where
  opstart_ack activate_ack attr_ack adm_ack activated request_activation : Object → Message
  state_report : Object → ℕ → AvailState → ℕ → Message

abbrev file_id : List ℕ
file_id = b'1' ∷ b'2' ∷ b'0' ∷ b'a' ∷ b'0' ∷ b'0' ∷ b'2' ∷ b'0' ∷ []

abbrev file_version : List ℕ
file_version = b'v' ∷ b'2' ∷ b'0' ∷ b'9' ∷ b'b' ∷ b'2' ∷ b'4' ∷ b'd' ∷ b'3' ∷ 0 ∷ []

abbrev pub software : List ℕ
software =
    tlv Attr.sw_config
      (att_code Attr.sw_descr ∷ (tlv Attr.file_id file_id ++ tlv Attr.file_version file_version))

abbrev pub encode : Message → List ℕ
encode (opstart_ack o) = formatted MsgType.opstart_ack o []
encode (activate_ack o) = formatted MsgType.activate_sw_ack o []
encode (attr_ack o) = formatted MsgType.set_bts_attr_ack o []
encode (adm_ack o) = formatted MsgType.chg_adm_state_ack o []
encode (activated o) = formatted MsgType.sw_activated_rep o []
encode (request_activation o) = formatted MsgType.sw_act_req o software
encode (state_report o op av adm) =
    formatted MsgType.statechg_event_rep o (
      tv Attr.oper_state op
      ++ (tlv Attr.avail_status (avail_code av ∷ []) ++ tv Attr.adm_state adm))

-- What the controller asks of the station.
pub data Request : Type 0 where
  confirm activate start : Object → Request
  configure_station configure_carrier : Request
  configure_channel : ℕ → Request
  administer : Object → ℕ → Request

abbrev pub request_type : Request → MsgType
request_type (confirm o) = MsgType.sw_act_req_ack
request_type (activate o) = MsgType.activate_sw
request_type (start o) = MsgType.opstart
request_type configure_station = MsgType.set_bts_attr
request_type configure_carrier = MsgType.set_radio_attr
request_type (configure_channel ts) = MsgType.set_chan_attr
request_type (administer o adm) = MsgType.chg_adm_state

abbrev pub subject : Request → Object
subject (confirm o) = o
subject (activate o) = o
subject (start o) = o
subject configure_station = station
subject configure_carrier = carrier
subject (configure_channel ts) = channel ts
subject (administer o adm) = o
