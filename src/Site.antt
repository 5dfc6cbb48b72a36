-- ===== src/Site.antt =====
-- What the O&M part of src/bts_nm.c promises: the states of the managed objects, and the messages
-- that answer each request. There is no buffer here.
pub mod History
pub mod Dialogue
pub mod Started
pub mod Ruled
use soft_bts.Base.{ℕ, Bool, List, [], ◌∷◌, ◌++◌, ◌==◌, if◌then◌else◌}
use soft_bts.Nm.{AdmState, adm_code, AvailState, OpState, op_code, MsgType, msg_code}
use soft_bts.Message.{
  Object, manager, station, transceiver, carrier, channel, Message, opstart_ack, activate_ack,
  attr_ack, adm_ack, activated, request_activation, state_report, Request, confirm, activate, start,
  configure_station, configure_carrier, configure_channel, administer,
}

-- How far the objects have come: their administrative and their operational states. No request changes
-- the signalling link, given by its descriptor, nor whether the station has introduced itself.
pub record Site : Type 0 where
  pub sw_manager : ℕ
  pub sw_station : ℕ
  pub manager_adm : ℕ
  pub manager_op : ℕ
  pub station_adm : ℕ
  pub station_op : ℕ
  pub transceiver_adm : ℕ
  pub transceiver_op : ℕ
  pub carrier_adm : ℕ
  pub carrier_op : ℕ
  pub channel_adm : ℕ → ℕ
  pub channel_op : ℕ → ℕ
  pub signalling : ℕ
  pub known : Bool

abbrev pub enabled : ℕ
enabled = op_code OpState.enabled

abbrev pub disabled : ℕ
disabled = op_code OpState.disabled

abbrev pub locked : ℕ
locked = adm_code AdmState.locked

abbrev pub put : (ℕ → ℕ) → ℕ → ℕ → ℕ → ℕ
put f i v j = if j == i then v else f j

-- The operational state of an object.
abbrev pub op : Site → Object → ℕ
op s manager = s.manager_op
op s station = s.station_op
op s transceiver = s.transceiver_op
op s carrier = s.carrier_op
op s (channel ts) = s.channel_op ts

-- A message for each of the eight channels.
abbrev pub all_channels : (ℕ → Message) → List Message
all_channels f = f 0 ∷ f 1 ∷ f 2 ∷ f 3 ∷ f 4 ∷ f 5 ∷ f 6 ∷ f 7 ∷ []

-- The report of the site that the start of the last channel calls for.
abbrev pub overview : Site → List Message
overview s =
    activated carrier
    ∷ state_report manager s.manager_op AvailState.ok s.manager_adm
    ∷ state_report station s.station_op AvailState.ok s.station_adm
    ∷ (all_channels (λ i. state_report (channel i) (s.channel_op i) AvailState.ok (s.channel_adm i))
        ++ (activated transceiver ∷ []))

-- The site after a request.
unfoldable pub next : Request → Site → Site
next (confirm manager) s = record s { sw_manager = msg_code MsgType.sw_act_req_ack }
next (confirm station) s = record s { sw_station = msg_code MsgType.sw_act_req_ack }
next (confirm transceiver) s = s
next (confirm carrier) s = s
next (confirm (channel ts)) s = s
next (activate manager) s = record s { sw_manager = msg_code MsgType.activate_sw }
next (activate station) s = s
next (activate transceiver) s = s
next (activate carrier) s = s
next (activate (channel ts)) s = s
next (start manager) s = record s { manager_op = enabled; manager_adm = adm_code AdmState.unlocked }
next (start station) s = record s { station_op = enabled }
next (start transceiver) s = record s { transceiver_op = enabled }
next (start carrier) s = record s { carrier_op = enabled }
next (start (channel ts)) s = record s { channel_op = put s.channel_op ts enabled }
next configure_station s = record s { sw_station = msg_code MsgType.set_bts_attr_ack }
next configure_carrier s = s
next (configure_channel ts) s = s
next (administer manager adm) s = s
next (administer station adm) s = record s { station_adm = adm }
next (administer transceiver adm) s = record s { transceiver_adm = adm }
next (administer carrier adm) s = record s { carrier_adm = adm }
next (administer (channel ts) adm) s = record s { channel_adm = put s.channel_adm ts adm }

-- The messages that answer a request, in order; `s` is the site after it.
unfoldable pub answer : Request → Site → List Message
answer (confirm o) s = []
answer (activate manager) s =
    activate_ack manager ∷ state_report manager enabled AvailState.ok locked ∷ []
answer (activate station) s =
    activate_ack station ∷ state_report station disabled AvailState.dependency locked ∷ []
answer (activate transceiver) s = activate_ack transceiver ∷ request_activation carrier ∷ []
answer (activate carrier) s =
    activate_ack carrier ∷ all_channels (λ i. request_activation (channel i))
answer (activate (channel ts)) s =
    activate_ack (channel ts)
    ∷ state_report (channel ts) disabled AvailState.dependency locked
    ∷ (if ts == 7 then all_channels (λ i. activated (channel i)) else [])
answer (start manager) s = opstart_ack manager ∷ activated manager ∷ request_activation station ∷ []
answer (start station) s =
    opstart_ack station ∷ activated station ∷ request_activation transceiver ∷ []
answer (start transceiver) s = opstart_ack transceiver ∷ []
answer (start carrier) s = opstart_ack carrier ∷ []
answer (start (channel ts)) s = opstart_ack (channel ts) ∷ (if ts == 7 then overview s else [])
answer configure_station s = attr_ack station ∷ []
answer configure_carrier s = attr_ack carrier ∷ []
answer (configure_channel ts) s = attr_ack (channel ts) ∷ []
answer (administer manager adm) s = []
answer (administer station adm) s = adm_ack station ∷ []
answer (administer transceiver adm) s = adm_ack transceiver ∷ []
answer (administer carrier adm) s = adm_ack carrier ∷ []
answer (administer (channel ts) adm) s = adm_ack (channel ts) ∷ []
