-- ===== src/Link.antt =====
-- src/bts_nm.c: `receive_msg`, which takes one message from a socket, and `softbts_msg`, the
-- messages by which the controller identifies the station.
pub mod Receive
pub mod Identify
pub mod Converse
pub mod Whole
pub mod Said
pub mod Wrong
pub mod Framed
use soft_bts.Base.{
  ℕ, ◌+◌, Bool, true, false, Option, none, some, List, [], ◌∷◌, ◌==◌, ltb, if◌then◌else◌, for_range,
  length, ◌&&◌,
}
use soft_bts.Base.Outcome.{Outcome, ok, fault, ◌>>=◌}
use soft_bts.Buffer.{Buffer, buffer_length, load16, htons, store_list}
use soft_bts.Nm.{
  ObjClass, obj_code, AdmState, adm_code, AvailState, avail_code, OpState, op_code, MsgType,
  msg_code, IpaMsg, ipa_code, IdTag, tag_code, proto_softbts, proto_oml, proto_rsl,
}
use soft_bts.Bts.{Bts, Net, Event, killed, send}
use soft_bts.Bts.Report.{state_changed_event_report, sw_activate_request}
use soft_bts.Oml.{oml_msg}
use soft_bts.Rsl.{rsl_msg}
use soft_bts.Oml.Request.{none_nr, channels}

abbrev pub pong : List ℕ
pong = 0 ∷ 1 ∷ proto_softbts ∷ ipa_code IpaMsg.pong ∷ []

-- The unit's identity, "1800/0/0".
abbrev pub id_resp : List ℕ
id_resp =
    0
    ∷ 12
    ∷ proto_softbts
    ∷ ipa_code IpaMsg.id_resp
    ∷ 0x09
    ∷ tag_code IdTag.unit
    ∷ 0x08
    ∷ b'1'
    ∷ b'8'
    ∷ b'0'
    ∷ b'0'
    ∷ b'/'
    ∷ b'0'
    ∷ b'/'
    ∷ b'0'
    ∷ []

-- `kill_background()`, as far as the handlers see it: it is called.
abbrev pub kill_background : Bts → Bts
kill_background s = record s { log = killed ∷ s.log }

report_initial : ℕ → ℕ → ℕ → ℕ → ℕ → Bts → Bts
unfolding state_changed_event_report
report_initial sd obj_class bts_nr trx_nr ts_nr =
    state_changed_event_report sd obj_class bts_nr trx_nr ts_nr (op_code OpState.disabled)
      (avail_code AvailState.not_installed) (adm_code AdmState.locked)

unfoldable pub initial_state_report : ℕ → Bts → Bts
unfolding report_initial
initial_state_report sd s =
    let s1 = report_initial sd (obj_code ObjClass.site_manager) none_nr none_nr none_nr s in
    let s2 = report_initial sd (obj_code ObjClass.bts) 0x00 none_nr none_nr s1 in
    let s3 = report_initial sd (obj_code ObjClass.baseb_transc) 0x00 0x00 none_nr s2 in
    let s4 =
      for_range channels 0x00
        (λ channel. report_initial sd (obj_code ObjClass.channel) 0x00 0x00 channel) s3 in
    report_initial sd (obj_code ObjClass.radio_carrier) 0x00 0x00 none_nr s4

-- What the first identity request starts, and no later one.
unfoldable pub introduce : ℕ → Bts → Bts
unfolding initial_state_report sw_activate_request
introduce sd s =
    let s1 = record (initial_state_report sd s) { bts_id_resp = true } in
    let s2 = sw_activate_request sd (obj_code ObjClass.site_manager) none_nr none_nr none_nr s1 in
    record s2 { sw_site_manager = msg_code MsgType.sw_act_req }

-- What the stack happens to hold in variables that are read without having been set: whether `rc`
-- of `softbts_msg` is below 0, and whether `octets` of `rest_octets_si3` is 1.
pub record Stack : Type 0 where
  pub rc_negative : Bool
  pub octets_is_one : Bool

-- In the case of MSG_PING the variable `rc` is tested without having been set.
unfoldable pub softbts_msg : Net → Stack → ℕ → Bts → Bts
unfolding introduce
softbts_msg net stack sd s =
    if s.buf 3 == ipa_code IpaMsg.ping
    then (let s1 = send sd pong s in if stack.rc_negative then kill_background s1 else s1)
    else if s.buf 3 == ipa_code IpaMsg.id_get
    then (let s1 = send sd id_resp s in
        let s2 = if net s.log sd id_resp then s1 else kill_background s1 in
        if s2.bts_id_resp then s2 else introduce sd s2)
    else s

-- What `recv` gives: -1, or the bytes that it has written, which are at most as many as asked for.
pub data Received : Type 0 where
  failed : Received
  got : List ℕ → Received

abbrev pub received_bytes : Received → List ℕ
received_bytes failed = []
received_bytes (got bs) = bs

-- The result of `recv` as a number, where there is one.
abbrev pub rc : Received → Option ℕ
rc failed = none
rc (got bs) = some (length bs)

-- `ret == 0` and `rc == 0`
abbrev pub is_zero : Option ℕ → Bool
is_zero none = false
is_zero (some n) = n == 0

-- `if( (ret == 0 ) & (rc == 0))`, the test for a closed socket, and what the two branches return.
abbrev pub result : Option ℕ → Option ℕ → Option ℕ
result ret rc = if is_zero ret && is_zero rc then some 0 else rc

-- A socket: what the two calls of `recv` give, the second at the length that is asked for.
pub record Socket : Type 0 where
  pub header : Received
  pub body : ℕ → Received

-- What the calls that the socket answers write into the buffer. The first asks for 3 bytes, the
-- second for as many as the header says, whatever the buffer holds.
unfoldable pub read_message : Socket → Bts → Outcome (ℕ × Received × Bts)
read_message sock s =
    let b1 = store_list 0 (received_bytes sock.header) s.buf in
    let len = htons (load16 b1 0) in
    let body = sock.body len in
    if ltb buffer_length (3 + length (received_bytes body))
    then fault
    else ok (len, body, record s { buf = store_list 3 (received_bytes body) b1 })

-- The `switch` on the protocol. `hexdump(msg, len+3)` reads as many bytes of the message as the
-- header says.
unfoldable pub deliver : Net → Stack → ℕ → ℕ → ℕ → Bts → Outcome Bts
deliver net stack fuel sd len s =
    let proto = s.buf 2 in
    let known =
      if proto == proto_softbts
      then true
      else if proto == proto_oml
      then true
      else proto == proto_rsl in
    if known && ltb buffer_length (len + 3)
    then fault
    else if proto == proto_softbts
    then ok (softbts_msg net stack sd s)
    else if proto == proto_oml
    then oml_msg net fuel sd s
    else if proto == proto_rsl
    then (rsl_msg stack.octets_is_one s.buf >>= λ _. ok s)
    else ok s

unfoldable pub receive_msg : Net → Stack → ℕ → ℕ → Socket → Bts → Outcome (Option ℕ × Bts)
unfolding read_message deliver
receive_msg net stack fuel sd sock s = do
  (len, body, s1) ← read_message sock s
  s2 ← deliver net stack fuel sd len s1
  ok (result (rc sock.header) (rc body), s2)
