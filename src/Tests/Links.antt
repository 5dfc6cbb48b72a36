-- ===== src/Tests/Links.antt =====
-- Messages from the socket.
use soft_bts.Base.{ℕ, Option, ◌↔◌, ◌≡◌, refl, true, some, [], ◌∷◌, inl, inr, arith}
use soft_bts.Base.Outcome.{ok, fault}
use soft_bts.Buffer.{Buffer}
use soft_bts.Nm.{proto_oml, MsgType, msg_code}
use soft_bts.Bts.{Bts, sent, killed}
use soft_bts.Bts.Log.{transmit, AllFramed}
use soft_bts.Message.{manager, start}
use soft_bts.Oml.Refines.{view, Holds}
use soft_bts.Link.{Socket, got, failed, rc, receive_msg, deliver, softbts_msg, id_resp, pong}
use soft_bts.Link.Whole.{Gives, filled, seen}
use soft_bts.Link.Said.{receive_msg-heard}
use soft_bts.Site.Dialogue.{asks, heard}
use soft_bts.Link.Framed.{receive_msg-AllFramed}
use soft_bts.Link.Receive.{receive_msg-result}
use soft_bts.Link.Wrong.{IsWrong, receive_msg-fault}
use soft_bts.Link.Identify.{introduction, softbts_msg-first}
use soft_bts.Link.Converse.{frames, reply, replies, converse, converse-introduces}
use soft_bts.Tests.{good_net, zeros, stack, fresh, with_bytes, start_site}

abbrev pub start_socket : Socket
start_socket = record { header = got (0 ∷ 9 ∷ proto_oml ∷ []); body = λ n. got start_site }

abbrev pub start_given : Gives start_socket proto_oml start_site
start_given = record {
  hi = 0;
  lo = 9;
  hi_byte = omega arith;
  lo_byte = omega arith;
  counts = refl;
  fits = omega arith;
  head = refl;
  rest = refl;
}

start-Holds : Holds 1 (start manager) (filled 0 9 proto_oml start_site zeros)
start-Holds = record { formatted = refl; typed = refl; classed = refl; slot = tt; wants = tt }

receive_msg-heard_example :
    let (v, log) = heard good_net 4 (asks (start manager)) (view fresh) [] in
    seen (receive_msg good_net stack 1 4 start_socket fresh) ≡ ok (some 9, v, log)
receive_msg-heard_example =
    receive_msg-heard good_net stack 1 4 start_socket fresh (asks (start manager)) start_site
      start_given start-Holds

-- The body of a ping, and of an unknown protocol.
abbrev ping_socket : Socket
ping_socket = record { header = got (0 ∷ 1 ∷ 0xfe ∷ []); body = λ n. got (0 ∷ []) }

abbrev after_ping : Bts
after_ping = record fresh {
  buf = (with_bytes (0 ∷ 1 ∷ 0xfe ∷ 0 ∷ [])).buf;
  log = killed ∷ sent 4 pong ∷ [];
}

ping_run : receive_msg good_net stack 1 4 ping_socket fresh ≡ ok (some 1, after_ping)
unfolding receive_msg deliver softbts_msg
ping_run = refl

receive_msg-AllFramed_example : AllFramed after_ping
receive_msg-AllFramed_example =
    receive_msg-AllFramed good_net stack 1 4 ping_socket fresh tt ping_run

receive_msg-result_example :
    let one : Option ℕ = some 1 in
    (one ≡ rc (got (0 ∷ []))) × ((one ≡ some 0) ↔ (got (0 ∷ []) ≡ got []))
receive_msg-result_example =
    receive_msg-result good_net stack 1 4 ping_socket fresh (some 1) after_ping ping_run

abbrev long_socket : Socket
long_socket = record { header = got (1 ∷ 0 ∷ proto_oml ∷ []); body = λ n. failed }

receive_msg-fault_example :
    (receive_msg good_net stack 1 4 long_socket fresh ≡ fault)
    ↔ IsWrong 1 stack long_socket fresh.buf
receive_msg-fault_example = receive_msg-fault good_net stack 1 4 long_socket fresh

long-IsWrong : IsWrong 1 stack long_socket fresh.buf
long-IsWrong = inr (inl (inr (inl refl), omega arith))

abbrev pinged : Bts
pinged = with_bytes (0 ∷ 1 ∷ 0xfe ∷ 0 ∷ [])

abbrev unknown_message : Buffer
unknown_message = (with_bytes (0 ∷ 1 ∷ 0xfe ∷ 9 ∷ [])).buf

abbrev asked : Bts
asked = with_bytes (0 ∷ 1 ∷ 0xfe ∷ 4 ∷ [])

softbts_msg-first_example :
    let s' = softbts_msg good_net stack 4 asked in
    (s'.log ≡ transmit 4 introduction (sent 4 id_resp ∷ []))
    × (s'.bts_id_resp ≡ true)
    × (s'.sw_site_manager ≡ msg_code MsgType.sw_act_req)
softbts_msg-first_example = softbts_msg-first good_net stack 4 asked refl refl

-- A ping, the request for the identity, a message of no kind, and the request once more.
converse-introduces_example :
    frames
      (converse good_net stack 4
        (pinged.buf ∷ asked.buf ∷ unknown_message ∷ asked.buf ∷ [])
        fresh).log
    ≡ sent 4 id_resp ∷ transmit 4 introduction (sent 4 id_resp ∷ sent 4 pong ∷ [])
unfolding frames reply replies
converse-introduces_example =
    converse-introduces good_net stack 4 (pinged.buf ∷ []) (unknown_message ∷ asked.buf ∷ [])
      asked.buf fresh refl (omega arith, tt) refl
