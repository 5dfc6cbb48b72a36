-- ===== src/Loop/Safety.antt =====
-- What holds in every state that the loop comes to.
use soft_bts.Base.{ℕ, ◌≡◌, ◌∙◌, List, [], ◌∷◌, length}
use soft_bts.Base.Outcome.{ok, >>=-eq-ok}
use mathlib.Core.Path.{subst}
use soft_bts.Bts.{Net}
use soft_bts.Bts.Log.{AllFramed}
use soft_bts.Link.{Stack, Socket, receive_msg}
use soft_bts.Link.Framed.{receive_msg-AllFramed}
use soft_bts.Trx.{accept_connection, trx_cb}
use soft_bts.Trx.Accept.{length-accept_connection}
use soft_bts.Trx.Close.{trx_cb-AllFramed}
use soft_bts.Loop.{Ready, oml, rsl, trx, caller, World, connection, react, run}

-- Every frame sent so far is as long as it says, and the table has its four entries.
pub record IsSafe (w : World) : Type 0 where
  pub framed : AllFramed w.bts
  pub entries : length w.table.fds ≡ 4

module _ (net : Net) (fuel : ℕ) where
  connection-IsSafe :
      (fd : ℕ) (stack : Stack) (sock : Socket) (w : World) {w' : World}
      → IsSafe w
      → connection net fuel fd stack sock w ≡ ok w'
      → IsSafe w'
  unfolding connection
  connection-IsSafe fd stack sock w {w'} h e =
      let (m, em, k) = >>=-eq-ok (receive_msg net stack fuel fd sock w.bts) _ e in
      let framed : AllFramed m.1 = receive_msg-AllFramed net stack fuel fd sock w.bts h.framed em in
      let same : record w { bts = m.1 } ≡ w' = cc in
      subst IsSafe same (record { framed = framed; entries = h.entries })

  trx-IsSafe :
      (sd : ℕ) (stack : Stack) (sock : Socket) (w : World) {w' : World}
      → IsSafe w
      → react net fuel (trx sd stack sock) w ≡ ok w'
      → IsSafe w'
  unfolding react
  trx-IsSafe sd stack sock w {w'} h e =
      let (m, em, k) = >>=-eq-ok (trx_cb net stack fuel sock sd w.bts w.table) _ e in
      let kept = trx_cb-AllFramed net stack fuel sock sd w.bts w.table h.framed em in
      let same : record w { bts = m.0; table = m.1 } ≡ w' = cc in
      subst IsSafe same (record { framed = kept.0; entries = kept.1 ∙ h.entries })

  react-IsSafe :
      (r : Ready) (w : World) {w' : World} → IsSafe w → react net fuel r w ≡ ok w' → IsSafe w'
  unfolding react
  react-IsSafe (oml stack sock) w h e = connection-IsSafe w.oml_fd stack sock w h e
  react-IsSafe (rsl stack sock) w h e = connection-IsSafe w.bts.rsl_fd stack sock w h e
  react-IsSafe (trx sd stack sock) w h e = trx-IsSafe sd stack sock w h e
  react-IsSafe (caller ans) w {w'} h e =
      let same : record w { table = (accept_connection ans w.table).1 } ≡ w' = cc in
      subst IsSafe same
        (record { framed = h.framed; entries = length-accept_connection ans w.table ∙ h.entries })

  -- In whatever order the links and the callers become ready, and whatever they send: in the state
  -- that the loop has come to, every frame sent is as long as its header says, an O&M message in it is
  -- a formatted one or a manufacturer's one and as long as its own header says (in the manufacturer's,
  -- behind the manufacturer's name), and the table of the transceivers has four entries, if this was so
  -- at the start.
  pub run-IsSafe :
      (rs : List Ready) (w : World) {w' : World} → IsSafe w → run net fuel rs w ≡ ok w' → IsSafe w'
  unfolding run
  run-IsSafe [] w {w'} h e = let same : w ≡ w' = cc in subst IsSafe same h
  run-IsSafe (r ∷ rs) w h e =
      let (w1, e1, k) = >>=-eq-ok (react net fuel r w) _ e in
      run-IsSafe rs w1 (react-IsSafe r w h e1) k
