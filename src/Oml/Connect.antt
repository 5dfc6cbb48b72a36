-- ===== src/Oml/Connect.antt =====
-- The manufacturer's message, by which the controller has the signalling link set up.
use soft_bts.Base.{ℕ, ◌≡◌, List, [], ◌∷◌, if◌then◌else◌, Bool-cases, inl, inr}
use soft_bts.Base.Outcome.{ok}
use soft_bts.Nm.{AvailState}
use soft_bts.Message.{Message, transceiver, carrier, state_report}
use soft_bts.Site.{Site}
use soft_bts.Bts.{Bts, Net, sent}
use soft_bts.Bts.Log.{transmit}
use soft_bts.Oml.{oml_msg, dispatch, manufacturer, connect_rsl, init_rsl_link, id_ack, null_msg}
use soft_bts.Oml.Refines.{view, observe}

-- The states of the transceiver and of the carrier.
abbrev pub radio_reports : Site → List Message
radio_reports v =
    state_report transceiver v.transceiver_op AvailState.ok v.transceiver_adm
    ∷ state_report carrier v.carrier_op AvailState.ok v.carrier_adm
    ∷ []

-- A manufacturer's message (of discriminator 0x10, with the identifier's length 12 behind it)
-- changes no state. It is answered by the port of the signalling link; if that could be sent, the
-- states of transceiver and carrier follow on the same link, and two acknowledgements on the
-- signalling link.
pub oml_msg-connects :
    (net : Net) (fuel sd : ℕ) (s : Bts)
    → s.buf 3 ≡ 0x10
    → s.buf 7 ≡ 12
    → let log' = sent sd init_rsl_link ∷ s.log in
      observe (oml_msg net fuel sd s)
      ≡ ok (
        view s,
        (if net s.log sd init_rsl_link
            then sent s.rsl_fd null_msg
              ∷ sent s.rsl_fd id_ack
              ∷ transmit sd (radio_reports (view s)) log'
            else log'),
      )
unfolding oml_msg connect_rsl
oml_msg-connects net fuel sd s md mt = elim (Bool-cases (net s.log sd init_rsl_link)) [
  | inl good ↦ rw (mt, oml_msg, dispatch, md, manufacturer, good, connect_rsl)
  | inr bad ↦ rw (mt, oml_msg, dispatch, md, manufacturer, bad, connect_rsl)
]
