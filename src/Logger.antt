-- ===== src/Logger.antt =====
-- `logger` and `debug` of src/logger.c: what they write to the log file and to the console.
pub mod Entries
pub mod Dumps
use soft_bts.Base.{ℕ, ◌+◌, Bool, ltb, if◌then◌else◌, List, [], ◌∷◌, ◌++◌, length}
use soft_bts.Base.Outcome.{Outcome, ok, fault, ◌>>=◌}
use soft_bts.Daemon.Decimal.{decimal}
use soft_bts.Glib.{Glib}
use soft_bts.Text.{str_replace_char}

-- The log file, to which both append, and the standard output.
pub record Log : Type 0 where
  pub file : List ℕ
  pub stdout : List ℕ

-- What the system answers: whether `fopen` succeeds, and the text of `asctime`, of 26 bytes with its
-- NUL. `console` tells whether `runtime.console` is `stdout`.
pub record Calls : Type 0 where
  pub opens : Bool
  pub asctime : List ℕ
  pub console : Bool

-- `char msg[1024]`
abbrev pub msg_size : ℕ
msg_size = 1024

-- "Unable to open logfile\n"
abbrev pub unable : List ℕ
unable =
    b'U' ∷ b'n' ∷ b'a' ∷ b'b' ∷ b'l' ∷ b'e' ∷ 32 ∷ b't' ∷ b'o' ∷ 32 ∷ b'o' ∷ b'p' ∷ b'e' ∷ b'n' ∷ 32
    ∷ b'l' ∷ b'o' ∷ b'g' ∷ b'f' ∷ b'i' ∷ b'l' ∷ b'e' ∷ 10 ∷ []

-- The escape sequences "\033[31;%dm" and "\033[1;31;%dm"
abbrev pub colour : ℕ → List ℕ
colour level = 27 ∷ b'[' ∷ b'3' ∷ b'1' ∷ b';' ∷ (decimal (30 + level) ++ b'm' ∷ [])

abbrev pub bright_colour : ℕ → List ℕ
bright_colour dtype =
    27 ∷ b'[' ∷ b'1' ∷ b';' ∷ b'3' ∷ b'1' ∷ b';' ∷ (decimal (30 + dtype) ++ b'm' ∷ [])

-- `bts_str_time`: 25 rounds are enough for the text of `asctime`.
unfoldable pub bts_str_time : List ℕ → Outcome (List ℕ)
bts_str_time asctime = str_replace_char 25 asctime 10 32

-- `vsprintf(msg, format, args)` of a text.
unfoldable pub format_msg : List ℕ → Outcome (List ℕ)
format_msg text = if ltb (length text) msg_size then ok text else fault

-- `fprintf(runtime.console, "%s\n", …)`
abbrev pub echo : Bool → List ℕ → List ℕ
echo console text = if console then text ++ 10 ∷ [] else []

-- `text` is what the format and its arguments make.
unfoldable pub logger : Glib → Calls → ℕ → List ℕ → List ℕ → List ℕ → List ℕ → Log → Outcome Log
unfolding bts_str_time format_msg
logger g calls level s1 s2 s3 text log =
    if calls.opens
    then (do
      time ← bts_str_time calls.asctime
      let pmsg =
          g.strjoin [] (time ∷ (32 ∷ []) ∷ s1 ∷ (58 ∷ []) ∷ s2 ∷ (58 ∷ []) ∷ s3 ∷ (32 ∷ []) ∷ [])
      msg ← format_msg text
      ok (record log {
        file = log.file ++ (colour level ++ (pmsg ++ msg));
        stdout = log.stdout ++ echo calls.console pmsg;
      }))
    else ok (record log { stdout = log.stdout ++ unable })

-- `pmsg` is `msg` here.
unfoldable pub debug : Calls → ℕ → List ℕ → Log → Outcome Log
unfolding format_msg
debug calls dtype text log =
    if calls.opens
    then (do
      msg ← format_msg text
      ok (record log {
        file = log.file ++ (bright_colour dtype ++ msg);
        stdout = log.stdout ++ (bright_colour dtype ++ (msg ++ echo calls.console msg));
      }))
    else ok (record log { stdout = log.stdout ++ unable })
