-- ===== src/Loop.antt =====
-- The loop of src/softbts.c around `socket_select_main`, with the callbacks of src/bts_init.c and
-- src/trx_init.c. Which descriptor is ready next is up to the system, so a run is given by the
-- sequence of what becomes ready. All links share the state of the station; the links to the
-- controller share the buffer `msg`, and the transceivers have one of their own.
pub mod Safety
pub mod Session
pub mod Closed
pub mod Connections
use soft_bts.Base.{ℕ, List, [], ◌∷◌}
use soft_bts.Base.Outcome.{Outcome, ok, ◌>>=◌}
use soft_bts.Bts.{Bts, Net}
use soft_bts.Link.{Stack, Socket, receive_msg}
use soft_bts.Trx.{Trx, Answers, accept_connection, trx_cb}

pub data Ready : Type 0 where
  oml rsl : Stack → Socket → Ready
  trx : ℕ → Stack → Socket → Ready
  caller : Answers → Ready

pub record World : Type 0 where
  pub bts : Bts
  pub table : Trx
  pub oml_fd : ℕ

-- `oml_connection` and `rsl_connection`, registered for reading: the result of `receive_msg` is
-- not looked at.
unfoldable pub connection : Net → ℕ → ℕ → Stack → Socket → World → Outcome World
connection net fuel fd stack sock w = do
  (rc, s) ← receive_msg net stack fuel fd sock w.bts
  ok (record w { bts = s })

unfoldable pub react : Net → ℕ → Ready → World → Outcome World
unfolding connection
react net fuel (oml stack sock) w = connection net fuel w.oml_fd stack sock w
react net fuel (rsl stack sock) w = connection net fuel w.bts.rsl_fd stack sock w
react net fuel (trx sd stack sock) w = do
  (s, t) ← trx_cb net stack fuel sock sd w.bts w.table
  ok (record w { bts = s; table = t })
react net fuel (caller ans) w = ok (record w { table = (accept_connection ans w.table).1 })

-- `while (1)`, for as long as something becomes ready.
unfoldable pub run : Net → ℕ → List Ready → World → Outcome World
unfolding react
run net fuel [] w = ok w
run net fuel (r ∷ rs) w = react net fuel r w >>= run net fuel rs
