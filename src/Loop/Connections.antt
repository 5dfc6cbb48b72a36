-- ===== src/Loop/Connections.antt =====
-- The connections of the transceivers over a run of the loop: the table of src/trx_init.c as a
-- collection of at most four descriptors, in which no entry has a place.
use soft_bts.Base.{ℕ, ◌≤◌, ◌≡◌, refl, sym, ap, ◌∙◌, List, [], ◌∷◌, length, arith}
use mathlib.Core.Path.{subst}
use soft_bts.Base.Outcome.{ok, >>=-eq-ok}
use soft_bts.Bts.{Net}
use soft_bts.Link.{Stack, Socket, receive_msg}
use soft_bts.Trx.{Trx, accept_connection, trx_cb}
use soft_bts.Trx.Accept.{length-accept_connection}
use soft_bts.Trx.Close.{trx_cb-left}
use soft_bts.Trx.Connections.{
  Connections, connections, size, admit, Heard, connections-accept_connection, connections-trx_cb,
  size-connections,
}
use soft_bts.Loop.{Ready, oml, rsl, trx, caller, World, connection, react, run}

-- The specification of one round: the links do not touch the connections, a caller is let in where
-- there is room, and a transceiver leaves where `recv` gives no bytes at the length that the header of
-- its message announces.
abbrev pub Becomes : Ready → Connections → Connections → Type 0
Becomes (oml stack sock) c c' = c' ≡ c
Becomes (rsl stack sock) c c' = c' ≡ c
Becomes (caller ans) c c' = c' ≡ admit ans.accepted c
Becomes (trx sd stack sock) c c' = Heard sock sd c c'

abbrev pub History : List Ready → Connections → Connections → Type 0
History [] c c' = c' ≡ c
History (r ∷ rs) c c' = (d : Connections) × Becomes r c d × History rs d c'

-- The table has its four entries, and what it stands for.
abbrev Stands : Ready → Trx → Trx → Type 0
Stands r t t' = (length t'.fds ≡ 4) × Becomes r (connections t) (connections t')

module _ (net : Net) (fuel : ℕ) where
  connection-table :
      (fd : ℕ) (stack : Stack) (sock : Socket) (w : World) {w' : World}
      → connection net fuel fd stack sock w ≡ ok w'
      → w'.table ≡ w.table
  unfolding connection
  connection-table fd stack sock w {w'} e =
      let (m, em, k) = >>=-eq-ok (receive_msg net stack fuel fd sock w.bts) _ e in
      let same : record w { bts = m.1 } ≡ w' = cc in ap (λ v. v.table) (sym same)

  react-Stands :
      (r : Ready) (w : World) {w' : World}
      → length w.table.fds ≡ 4
      → react net fuel r w ≡ ok w'
      → Stands r w.table w'.table
  unfolding react
  react-Stands (oml stack sock) w four e =
      let same = connection-table w.oml_fd stack sock w e in
      (ap (λ t. length t.fds) same ∙ four, ap connections same)
  react-Stands (rsl stack sock) w four e =
      let same = connection-table w.bts.rsl_fd stack sock w e in
      (ap (λ t. length t.fds) same ∙ four, ap connections same)
  react-Stands (trx sd stack sock) w {w'} four e =
      let (m, em, k) = >>=-eq-ok (trx_cb net stack fuel sock sd w.bts w.table) _ e in
      let same : record w { bts = m.0; table = m.1 } ≡ w' = cc in
      let kept = (trx_cb-left net stack fuel sock sd w.bts w.table em).4 in
      let heard = connections-trx_cb net stack fuel sock sd w.bts w.table em in
      subst (λ v. Stands (trx sd stack sock) w.table v.table) same (kept ∙ four, heard)
  react-Stands (caller ans) w {w'} four e =
      let same : record w { table = (accept_connection ans w.table).1 } ≡ w' = cc in
      subst (λ v. Stands (caller ans) w.table v.table) same
        (
          length-accept_connection ans w.table ∙ four,
          connections-accept_connection ans w.table four,
        )

  -- In whatever order links, transceivers and callers become ready, and whatever they send: where the
  -- loop has come to a state from a table of four entries, the connections, taken without an order,
  -- have gone through the states of the specification, and there are at most four. A caller is let in
  -- where there are fewer than four, a transceiver leaves just if `recv` gives no bytes at the length
  -- that the header of its message announces (which is pinned where the header arrives whole), and
  -- nothing else changes them.
  pub run-History :
      (rs : List Ready) (w : World) {w' : World}
      → length w.table.fds ≡ 4
      → run net fuel rs w ≡ ok w'
      → History rs (connections w.table) (connections w'.table) × (size (connections w'.table) ≤ 4)
  unfolding run
  run-History [] w {w'} four e =
      let same : w ≡ w' = cc in
      let bound = size-connections w.table in
      subst
        (λ v.
          History [] (connections w.table) (connections v.table) × (size (connections v.table) ≤ 4))
        same (refl, omega arith)
  run-History (r ∷ rs) w four e =
      let (w1, e1, k) = >>=-eq-ok (react net fuel r w) _ e in
      let (kept, becomes) = react-Stands r w four e1 in
      let (rest, bound) = run-History rs w1 kept k in ((connections w1.table, becomes, rest), bound)
