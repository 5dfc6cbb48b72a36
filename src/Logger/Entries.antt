-- ===== src/Logger/Entries.antt =====
-- What any sequence of calls of `logger` and `debug` leaves in the log file.
use soft_bts.Base.{
  ℕ, ◌≤◌, ◌<◌, ◌≡◌, refl, ap, sym, ◌∙◌, if◌then◌else◌, List, [], ◌∷◌, ◌++◌, length, All, Bool-cases,
  inl, inr, arith, lt→ltb,
}
use mathlib.Core.List.{append-nil, append_assoc}
use soft_bts.Base.Outcome.{Outcome, ok, ◌>>=◌}
use soft_bts.Glib.{Glib, IsLawful}
use soft_bts.Logger.{
  Log, Calls, unable, echo, colour, bright_colour, bts_str_time, format_msg, logger, debug,
}
use soft_bts.Text.Replace.{replaced, str_replace_char-replaced}

pub data Call : Type 0 where
  logs : Calls → ℕ → List ℕ → List ℕ → List ℕ → List ℕ → Call
  debugs : Calls → ℕ → List ℕ → Call

-- The calls one after the other.
pub write_all : Glib → List Call → Log → Outcome Log
write_all g [] log = ok log
write_all g (logs calls level s1 s2 s3 text ∷ rest) log =
    logger g calls level s1 s2 s3 text log >>= write_all g rest
write_all g (debugs calls dtype text ∷ rest) log = debug calls dtype text log >>= write_all g rest

-- Where the call is made, behind the time with its line end made a blank.
abbrev pub stamp : List ℕ → List ℕ → List ℕ → List ℕ → List ℕ
stamp asctime s1 s2 s3 =
    replaced 10 32 asctime ++ (32 ∷ (s1 ++ (58 ∷ (s2 ++ (58 ∷ (s3 ++ (32 ∷ [])))))))

-- What a call adds to the log file: nothing where the file cannot be opened.
abbrev pub entry : Call → List ℕ
entry (logs calls level s1 s2 s3 text) =
    if calls.opens then colour level ++ (stamp calls.asctime s1 s2 s3 ++ text) else []
entry (debugs calls dtype text) = if calls.opens then bright_colour dtype ++ text else []

abbrev pub entries : List Call → List ℕ
entries [] = []
entries (c ∷ cs) = entry c ++ entries cs

-- The text fits `msg`, and the time is one of `asctime`.
abbrev pub Fits : Call → Type 0
Fits (logs calls level s1 s2 s3 text) = (length text < 1024) × (length calls.asctime ≤ 25)
Fits (debugs calls dtype text) = length text < 1024

-- A call that returns, with what it has added to the file.
abbrev Adds : Log → List ℕ → Outcome Log → Type 0
Adds log text r = (log' : Log) × (r ≡ ok log') × (log'.file ≡ log.file ++ text)

bts_str_time_lem :
    (asctime : List ℕ) → length asctime ≤ 25 → bts_str_time asctime ≡ ok (replaced 10 32 asctime)
unfolding bts_str_time
bts_str_time_lem asctime le =
    str_replace_char-replaced 25 asctime 10 32 (omega arith) (omega arith) le

format_msg_lem : (text : List ℕ) → length text < 1024 → format_msg text ≡ ok text
unfolding format_msg
format_msg_lem text lt = rw (lt→ltb (length text) 1024 lt)

logger-Adds :
    (g : Glib) (calls : Calls) (level : ℕ) (s1 s2 s3 text : List ℕ) (log : Log)
    → IsLawful g
    → Fits (logs calls level s1 s2 s3 text)
    → Adds log (entry (logs calls level s1 s2 s3 text)) (logger g calls level s1 s2 s3 text log)
unfolding logger
logger-Adds g calls level s1 s2 s3 text log lawful (lt, le) = elim (Bool-cases calls.opens) [
  | inl e ↦ (
    record {
      file = log.file ++ (colour level ++ (stamp calls.asctime s1 s2 s3 ++ text));
      stdout = log.stdout ++ echo calls.console (stamp calls.asctime s1 s2 s3);
    },
    rw (e, bts_str_time_lem calls.asctime le, ◌>>=◌, format_msg_lem text lt, lawful.joins),
    rw e,
  )
  | inr e ↦ (record log { stdout = log.stdout ++ unable }, rw e, rw (e, append-nil))
]

pub debug-Adds :
    (calls : Calls) (dtype : ℕ) (text : List ℕ) (log : Log)
    → length text < 1024
    → Adds log (entry (debugs calls dtype text)) (debug calls dtype text log)
unfolding debug
debug-Adds calls dtype text log lt = elim (Bool-cases calls.opens) [
  | inl e ↦ (
    record {
      file = log.file ++ (bright_colour dtype ++ text);
      stdout = log.stdout ++ (bright_colour dtype ++ (text ++ echo calls.console text));
    },
    rw (e, format_msg_lem text lt, ◌>>=◌),
    rw e,
  )
  | inr e ↦ (record log { stdout = log.stdout ++ unable }, rw e, rw (e, append-nil))
]

-- What a call adds comes before what the later ones add.
Adds-bind :
    (log : Log) (text more : List ℕ) (r : Outcome Log) (k : Log → Outcome Log)
    → Adds log text r
    → ((log1 : Log) → Adds log1 more (k log1))
    → Adds log (text ++ more) (r >>= k)
Adds-bind log text more r k (log1, e, added) rest =
    let (log2, e2, added2) = rest log1 in
    (
      log2,
      ap (λ o. o >>= k) e ∙ e2,
      added2 ∙ ap (λ t. t ++ more) added ∙ append_assoc log.file text more,
    )

-- Calls of `logger` and `debug` whose texts fit into `msg`, with times of at most 25 bytes and glib's
-- functions as documented, all return, in any sequence, and behind what the log file held it then
-- holds an entry for each of them that could open it, in their order.
pub write_all-entries :
    (g : Glib) (cs : List Call) (log : Log)
    → IsLawful g
    → All Fits cs
    → (log' : Log) × (write_all g cs log ≡ ok log') × (log'.file ≡ log.file ++ entries cs)
unfolding write_all
write_all-entries g [] log lawful h = (log, refl, sym (append-nil log.file))
write_all-entries g (logs calls level s1 s2 s3 text ∷ cs) log lawful h =
    Adds-bind log _ (entries cs) _ (write_all g cs)
      (logger-Adds g calls level s1 s2 s3 text log lawful h.0)
      (λ log1. write_all-entries g cs log1 lawful h.1)
write_all-entries g (debugs calls dtype text ∷ cs) log lawful h =
    Adds-bind log _ (entries cs) _ (write_all g cs) (debug-Adds calls dtype text log h.0)
      (λ log1. write_all-entries g cs log1 lawful h.1)
