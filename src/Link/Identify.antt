-- ===== src/Link/Identify.antt =====
-- `softbts_msg` of src/bts_nm.c: how the station introduces itself.
use soft_bts.Base.{
  ℕ, ◌≡◌, refl, true, false, List, [], ◌∷◌, if◌then◌else◌, arith, Bool-cases, inl, inr,
}
use soft_bts.Nm.{AdmState, adm_code, AvailState, OpState, op_code, MsgType, msg_code}
use soft_bts.Message.{
  Object, manager, station, transceiver, carrier, channel, Message, request_activation,
  state_report,
}
use soft_bts.Bts.{Bts, Net, sent, killed}
use soft_bts.Bts.Log.{transmit}
use soft_bts.Site.{Site}
use soft_bts.Oml.Refines.{view}
use soft_bts.Link.{Stack, softbts_msg, introduce, id_resp, pong}

-- An object that is disabled, not installed and locked.
abbrev absent : Object → Message
absent o =
    state_report o (op_code OpState.disabled) AvailState.not_installed (adm_code AdmState.locked)

-- The station introduces itself by the state of each of its twelve objects, and asks for the
-- activation of the site manager.
abbrev pub introduction : List Message
introduction =
    absent manager
    ∷ absent station
    ∷ absent transceiver
    ∷ absent (channel 0)
    ∷ absent (channel 1)
    ∷ absent (channel 2)
    ∷ absent (channel 3)
    ∷ absent (channel 4)
    ∷ absent (channel 5)
    ∷ absent (channel 6)
    ∷ absent (channel 7)
    ∷ absent carrier
    ∷ request_activation manager
    ∷ []

pub introduce_lem :
    (sd : ℕ) (s : Bts)
    → ((introduce sd s).log ≡ transmit sd introduction s.log)
      × ((introduce sd s).bts_id_resp ≡ true)
      × ((introduce sd s).sw_site_manager ≡ msg_code MsgType.sw_act_req)
unfolding introduce
introduce_lem sd s = (refl, refl, refl)

-- What the introduction changes of the site: the station waits for the site manager, and is known.
abbrev pub introduced : Site → Site
introduced v = record v { sw_manager = msg_code MsgType.sw_act_req; known = true }

pub view-introduce : (sd : ℕ) (s : Bts) → view (introduce sd s) ≡ introduced (view s)
unfolding introduce
view-introduce sd s = refl

module _ (net : Net) (stack : Stack) (sd : ℕ) (s : Bts) where
  -- The first identity request is answered by the identity and the introduction, in this order;
  -- a failure of the first `send` has `kill_background` called between them.
  pub softbts_msg-first :
      s.buf 3 ≡ 4
      → s.bts_id_resp ≡ false
      → let s' = softbts_msg net stack sd s in
        (s'.log
          ≡ transmit sd introduction (
              if net s.log sd id_resp
              then sent sd id_resp ∷ s.log
              else killed ∷ sent sd id_resp ∷ s.log))
        × (s'.bts_id_resp ≡ true)
        × (s'.sw_site_manager ≡ msg_code MsgType.sw_act_req)
  unfolding softbts_msg
  softbts_msg-first e new = elim (Bool-cases (net s.log sd id_resp)) [
    | inl good ↦ rw (e, softbts_msg, good, new) (refl, refl, refl)
    | inr bad ↦ rw (e, softbts_msg, bad, new) (refl, refl, refl)
  ]

  -- Where the answer could be sent, no other state changes.
  pub view-softbts_msg :
      s.buf 3 ≡ 4
      → s.bts_id_resp ≡ false
      → net s.log sd id_resp ≡ true
      → view (softbts_msg net stack sd s) ≡ introduced (view s)
  unfolding softbts_msg
  view-softbts_msg e new good =
      rw (e, softbts_msg, good, new)
        (view-introduce sd (record s { log = sent sd id_resp ∷ s.log }))

  -- A later one, whose answer could be sent, is answered by the identity alone, and no state
  -- changes.
  pub softbts_msg-later :
      s.buf 3 ≡ 4
      → s.bts_id_resp ≡ true
      → net s.log sd id_resp ≡ true
      → softbts_msg net stack sd s ≡ record s { log = sent sd id_resp ∷ s.log }
  unfolding softbts_msg
  softbts_msg-later e old good = rw (e, softbts_msg, good, old)

  -- Whether a ping ends the program does not depend on the success of the answer, but on what the
  -- variable `rc` happens to hold.
  pub softbts_msg-ping :
      s.buf 3 ≡ 0
      → (softbts_msg net stack sd s).log
        ≡ (if stack.rc_negative then killed ∷ sent sd pong ∷ s.log else sent sd pong ∷ s.log)
  unfolding softbts_msg
  softbts_msg-ping e = rw (e, softbts_msg) (ground arith)
