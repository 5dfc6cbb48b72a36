-- ===== src/Site/Dialogue.antt =====
-- The specification of the links: what is said on them, and what the station answers.
use soft_bts.Base.{ℕ, Bool, List, [], ◌∷◌, if◌then◌else◌}
use soft_bts.Message.{Request}
use soft_bts.Site
use soft_bts.Site.{Site}
use soft_bts.Bts.{Net, Event, sent, killed}
use soft_bts.Bts.Log.{transmit}
use soft_bts.Oml.{init_rsl_link, id_ack, null_msg}
use soft_bts.Oml.Connect.{radio_reports}
use soft_bts.Link.{id_resp, pong}
use soft_bts.Link.Identify.{introduction, introduced}

-- What is said: an O&M request, the manufacturer's message that has the signalling link
-- set up, a ping, the request for the identity, or a message that calls for no answer. Whether a ping
-- has the station end itself is up to a variable that is not set, which the ping is given with.
pub data Said : Type 0 where
  asks : Request → Said
  connects : Said
  pings : Bool → Said
  identifies : Said
  silent : Said

-- The answer to the request for the identity, which may fail.
abbrev pub identity : Net → ℕ → List Event → List Event
identity net sd log =
    if net log sd id_resp then sent sd id_resp ∷ log else killed ∷ sent sd id_resp ∷ log

-- The site and the log, newest first, after one message.
unfoldable pub heard : Net → ℕ → Said → Site → List Event → Site × List Event
heard net sd (asks r) v log = (Site.next r v, transmit sd (Site.answer r (Site.next r v)) log)
heard net sd connects v log = (
  v,
  (if net log sd init_rsl_link
      then sent v.signalling null_msg
        ∷ sent v.signalling id_ack
        ∷ transmit sd (radio_reports v) (sent sd init_rsl_link ∷ log)
      else sent sd init_rsl_link ∷ log),
)
heard net sd (pings ends) v log =
    (v, (if ends then killed ∷ sent sd pong ∷ log else sent sd pong ∷ log))
heard net sd identifies v log =
    let answered = identity net sd log in
    if v.known then (v, answered) else (introduced v, transmit sd introduction answered)
heard net sd silent v log = (v, log)

-- A link: that of the controller's requests, the signalling link, or that of a transceiver.
pub data Line : Type 0 where
  controller signalling : Line
  transceiver : ℕ → Line

-- Its descriptor. The program takes the same messages on every link.
abbrev pub fd_of : ℕ → Line → Site → ℕ
fd_of oml_fd controller v = oml_fd
fd_of oml_fd signalling v = v.signalling
fd_of oml_fd (transceiver sd) v = sd

pub data Spoken : Type 0 where
  on : Line → Said → Spoken

unfoldable pub dialogue : Net → ℕ → List Spoken → Site → List Event → Site × List Event
dialogue net oml_fd [] v log = (v, log)
dialogue net oml_fd (on line m ∷ ms) v log =
    let (v1, log1) = heard net (fd_of oml_fd line v) m v log in dialogue net oml_fd ms v1 log1
