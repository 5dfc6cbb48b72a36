-- ===== src/Loop/Session.antt =====
-- The loop of src/softbts.c while the controller and the transceivers send messages over their links,
-- and transceivers connect.
use soft_bts.Base.{ℕ, ◌<◌, ◌≡◌, refl, sym, ap, ◌∙◌, some, List, [], ◌∷◌, map, length}
use mathlib.Core.Path.{subst}
use soft_bts.Base.Outcome.{ok, ◌>>=◌}
use soft_bts.Buffer.{Buffer}
use soft_bts.Nm.{proto_rsl}
use soft_bts.Rsl.Safety.{IsHarmful}
use soft_bts.Site.{Site}
use soft_bts.Site.Dialogue.{
  Said, Line, controller, signalling, transceiver, fd_of, Spoken, on, heard, dialogue,
}
use soft_bts.Bts.{Net, Event}
use soft_bts.Oml.Refines.{view}
use soft_bts.Link.{Stack, Socket}
use soft_bts.Link.Whole.{Gives, filled, receive_msg-rsl}
use soft_bts.Link.Said.{proto_of, Means, receive_msg-returns}
use soft_bts.Trx.{Answers, accept_connection}
use soft_bts.Trx.Table.{Fd, find_index}
use soft_bts.Trx.Capacity.{seats, fds-accept_connection}
use soft_bts.Trx.Told.{trx_cb-heard, trx_cb-informed}
use soft_bts.Loop.{Ready, oml, rsl, trx, caller, World, connection, react, run}

-- A message that comes whole from the socket, and is the same whatever the buffer holds before.
pub record Delivery (fuel : ℕ) : Type 0 where
  pub stack : Stack
  pub sock : Socket
  pub body : List ℕ
  pub said : Said
  pub some_bytes : 0 < length body
  pub gives : Gives sock (proto_of said) body
  pub means : (b : Buffer) → Means fuel stack said (filled gives.hi gives.lo (proto_of said) body b)

-- Information of the signalling protocol that comes whole and that `rsl_msg` can handle.
pub record Information : Type 0 where
  pub stack : Stack
  pub sock : Socket
  pub body : List ℕ
  pub some_bytes : 0 < length body
  pub gives : Gives sock proto_rsl body
  pub harmless :
      (b : Buffer) → ¬ IsHarmful stack.octets_is_one (filled gives.hi gives.lo proto_rsl body b)

pub data Turn (fuel : ℕ) : Type 0 where
  delivers : Line → Delivery fuel → Turn fuel
  informs : Line → Information → Turn fuel
  calls : Answers → Turn fuel

abbrev pub ready_on : Line → Stack → Socket → Ready
ready_on controller stack sock = oml stack sock
ready_on signalling stack sock = rsl stack sock
ready_on (transceiver sd) stack sock = trx sd stack sock

abbrev pub ready : {fuel : ℕ} → Turn fuel → Ready
ready (delivers line d) = ready_on line d.stack d.sock
ready (informs line m) = ready_on line m.stack m.sock
ready (calls answers) = caller answers

-- The descriptor of a transceiver is in the table.
abbrev pub IsListed : Line → List Fd → Type 0
IsListed (transceiver sd) fds = (i : ℕ) × (find_index (some sd) fds ≡ some i)
IsListed _ fds = Unit {0}

-- The transceivers that have something to say are connected when they do: `select` reports those
-- descriptors only that are registered.
abbrev pub AllListed : {fuel : ℕ} → List (Turn fuel) → List Fd → Type 0
AllListed [] fds = Unit {0}
AllListed (delivers line d ∷ turns) fds = IsListed line fds × AllListed turns fds
AllListed (informs line m ∷ turns) fds = IsListed line fds × AllListed turns fds
AllListed (calls answers ∷ turns) fds = AllListed turns (seats answers fds)

-- What is said, and on which link.
abbrev pub sayings : {fuel : ℕ} → List (Turn fuel) → List Spoken
sayings [] = []
sayings (delivers line d ∷ turns) = on line d.said ∷ sayings turns
sayings (_ ∷ turns) = sayings turns

-- The world after a message, with the site and the log that the message leads to: the table has the
-- connections of before.
record Follows (w w1 : World) (site : Site) (log : List Event) : Type 0 where
  seen : view w1.bts ≡ site
  logged : w1.bts.log ≡ log
  kept : w1.table.fds ≡ w.table.fds
  same_fd : w1.oml_fd ≡ w.oml_fd

module _ (net : Net) (fuel : ℕ) where
  abbrev Reacts : Ready → World → Site → List Event → Type 0
  Reacts r w site log = (w1 : World) × (react net fuel r w ≡ ok w1) × Follows w w1 site log

  connection-heard :
      (fd : ℕ) (d : Delivery fuel) (w : World)
      → let (v, log) = heard net fd d.said (view w.bts) w.bts.log in
        (w1 : World) × (connection net fuel fd d.stack d.sock w ≡ ok w1) × Follows w w1 v log
  unfolding connection
  connection-heard fd d w =
      let (r, e, n, v, l) =
        receive_msg-returns net d.stack fuel fd d.sock w.bts d.said d.body d.gives
          (d.means w.bts.buf) in
      (
        record w { bts = r.1 },
        ap (λ o. o >>= λ r. ok (record w { bts = r.1 })) e,
        record { seen = v; logged = l; kept = refl; same_fd = refl },
      )

  react-heard :
      (line : Line) (d : Delivery fuel) (w : World)
      → IsListed line w.table.fds
      → let (v, log) = heard net (fd_of w.oml_fd line (view w.bts)) d.said (view w.bts) w.bts.log in
        Reacts (ready_on line d.stack d.sock) w v log
  unfolding react
  react-heard controller d w listed = connection-heard w.oml_fd d w
  react-heard signalling d w listed = connection-heard w.bts.rsl_fd d w
  react-heard (transceiver sd) d w (i, found) =
      let (r, e, v, l, kept) =
        trx_cb-heard net d.stack fuel d.sock sd i w.bts w.table found d.body d.some_bytes d.said
          d.gives (d.means w.table.msg_trx) in
      (
        record w { bts = r.0; table = r.1 },
        ap (λ o. o >>= λ r. ok (record w { bts = r.0; table = r.1 })) e,
        record { seen = v; logged = l; kept = kept; same_fd = refl },
      )

  connection-informed :
      (fd : ℕ) (m : Information) (w : World)
      → (w1 : World) × (connection net fuel fd m.stack m.sock w ≡ ok w1)
        × Follows w w1 (view w.bts) w.bts.log
  unfolding connection
  connection-informed fd m w = (
    record w {
      bts = record w.bts { buf = filled m.gives.hi m.gives.lo proto_rsl m.body w.bts.buf };
    },
    ap (λ o. o >>= λ r. ok (record w { bts = r.1 }))
        (receive_msg-rsl net m.stack fuel fd m.sock w.bts m.body m.gives (m.harmless w.bts.buf)),
    record { seen = refl; logged = refl; kept = refl; same_fd = refl },
  )

  react-informed :
      (line : Line) (m : Information) (w : World)
      → IsListed line w.table.fds
      → Reacts (ready_on line m.stack m.sock) w (view w.bts) w.bts.log
  unfolding react
  react-informed controller m w listed = connection-informed w.oml_fd m w
  react-informed signalling m w listed = connection-informed w.bts.rsl_fd m w
  react-informed (transceiver sd) m w (i, found) = (
    record w {
      table = record w.table {
        msg_trx = filled m.gives.hi m.gives.lo proto_rsl m.body w.table.msg_trx;
      };
    },
    ap (λ o. o >>= λ r. ok (record w { bts = r.0; table = r.1 }))
        (trx_cb-informed net m.stack fuel m.sock sd i w.bts w.table found m.body m.some_bytes
          m.gives (m.harmless w.table.msg_trx)),
    record { seen = refl; logged = refl; kept = refl; same_fd = refl },
  )

  -- A turn comes to no fault, and leaves the transceivers of the later turns connected.
  pub react_turn :
      (t : Turn fuel) (ts : List (Turn fuel)) (w : World)
      → AllListed (t ∷ ts) w.table.fds
      → (w1 : World) × (react net fuel (ready t) w ≡ ok w1) × AllListed ts w1.table.fds
  unfolding react
  react_turn (calls answers) ts w listed = (
    record w { table = (accept_connection answers w.table).1 },
    refl,
    subst (AllListed ts) (sym (fds-accept_connection answers w.table)) listed,
  )
  react_turn (informs line m) ts w listed =
      let (w1, e, f) = react-informed line m w listed.0 in
      (w1, e, subst (AllListed ts) (sym f.kept) listed.1)
  react_turn (delivers line d) ts w listed =
      let (w1, e, f) = react-heard line d w listed.0 in
      (w1, e, subst (AllListed ts) (sym f.kept) listed.1)

  -- A run that ends as the specification says.
  abbrev Refines : List (Turn fuel) → List Ready → World → ℕ → Site → List Event → Type 0
  Refines turns rs w fd v log =
      (w' : World) × (run net fuel rs w ≡ ok w')
      × ((view w'.bts, w'.bts.log) ≡ dialogue net fd (sayings turns) v log)

  follow :
      (turns : List (Turn fuel)) (r : Ready) (w : World) (v : Site) (log : List Event)
      → (reacts : Reacts r w v log)
      → Refines turns
          (map ready turns)
          reacts.0
          reacts.0.oml_fd
          (view reacts.0.bts)
          reacts.0.bts.log
      → Refines turns (r ∷ map ready turns) w w.oml_fd v log
  unfolding run
  follow turns r w v log (w1, e, f) (w', rest, same) = (
    w',
    ap (λ o. o >>= run net fuel (map ready turns)) e ∙ rest,
    same ∙ rw (f.seen, f.logged, f.same_fd) refl,
  )

  -- Messages of the two protocols that the station answers and information of the signalling protocol,
  -- which arrive whole on any of its links (on a transceiver's while it is in the table), and
  -- transceivers that connect, in any order: the loop comes to no fault, the site goes through the
  -- specified states, and the handlers make the specified calls of `send` and `kill_background` and no
  -- other, whichever link a message comes from.
  pub run_refines :
      (turns : List (Turn fuel)) (w : World)
      → AllListed turns w.table.fds
      → (w' : World) × (run net fuel (map ready turns) w ≡ ok w')
        × ((view w'.bts, w'.bts.log) ≡ dialogue net w.oml_fd (sayings turns) (view w.bts) w.bts.log)
  unfolding run react dialogue
  run_refines [] w listed = (w, refl, refl)
  run_refines (calls answers ∷ turns) w listed =
      run_refines turns (record w { table = (accept_connection answers w.table).1 })
        (subst (AllListed turns) (sym (fds-accept_connection answers w.table)) listed)
  run_refines (informs line m ∷ turns) w listed =
      let reacts = react-informed line m w listed.0 in
      follow turns (ready_on line m.stack m.sock) w (view w.bts) w.bts.log reacts
        (run_refines turns reacts.0 (subst (AllListed turns) (sym reacts.2.kept) listed.1))
  run_refines (delivers line d ∷ turns) w listed =
      let (v, log) = heard net (fd_of w.oml_fd line (view w.bts)) d.said (view w.bts) w.bts.log in
      let reacts = react-heard line d w listed.0 in
      follow turns (ready_on line d.stack d.sock) w v log reacts
        (run_refines turns reacts.0 (subst (AllListed turns) (sym reacts.2.kept) listed.1))
