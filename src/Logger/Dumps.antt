-- ===== src/Logger/Dumps.antt =====
-- The dumps that `receive_msg` of src/bts_nm.c gives to `debug`, such as `"OML RX: %s\n"`.
use soft_bts.Base.{ℕ, ◌≤◌, ◌<◌, ◌≡◌, List, [], ◌∷◌, ◌++◌, length, length-append, All, arith}
use soft_bts.Base.Outcome.{ok}
use soft_bts.Text.{hexdump}
use soft_bts.Text.Hex.{unhex, hexdump-unhex, length-hexdump}
use soft_bts.Logger.{Log, Calls, debug}
use soft_bts.Logger.Entries.{debugs, entry, debug-Adds}

-- The line of a message with its dump.
abbrev pub dump_line : List ℕ → List ℕ → List ℕ
dump_line label dump = label ++ (dump ++ (10 ∷ []))

-- A message of up to 255 bytes, behind a label of up to 12, is dumped without leaving either array,
-- and the line that is added to the log file tells its bytes.
pub debug-hexdump :
    (calls : Calls) (dtype : ℕ) (label bs : List ℕ) (log : Log)
    → All (λ b. b < 256) bs
    → length bs ≤ 255
    → length label ≤ 12
    → (dump : List ℕ) × (hexdump bs ≡ ok dump)
      × (unhex dump ≡ bs)
      × ((log' : Log) × (debug calls dtype (dump_line label dump) log ≡ ok log')
          × (log'.file ≡ log.file ++ entry (debugs calls dtype (dump_line label dump))))
debug-hexdump calls dtype label bs log bytes le short =
    let (dump, e, r) = (hexdump-unhex bs bytes).0 (omega arith) in
    (
      dump,
      e,
      r,
      debug-Adds calls dtype (dump_line label dump) log (
          omega (
            arith,
            length-append label (dump ++ (10 ∷ [])),
            length-append dump (10 ∷ []),
            length-hexdump bs e,
          )),
    )
