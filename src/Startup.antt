-- ===== src/Startup.antt =====
-- `main` of src/softbts.c up to its loop: the options, the names of the directories, and the sockets
-- of src/bts_init.c and src/trx_init.c.
pub mod Options
pub mod Begins
pub mod Refused
use soft_bts.Base.{
  ℕ, zero, suc, Bool, true, false, ltb, ◌==◌, if◌then◌else◌, Option, none, some, List, [], ◌∷◌,
  length,
}
use soft_bts.Base.Outcome.{Outcome, ok, fault, ◌>>=◌}
use soft_bts.Glib.{Glib}
use soft_bts.Globals.{Directory, unset, Build, Memory, set_globals}
use soft_bts.Daemon.{Os, Host, Fate, exits, returns, daemonize, kill_background, die}

-- What `getopt_long` gives, one after the other, for the short options `:sq?hVc:a:` and the long
-- ones: the options with a case of their own. `help` is the question mark too, and so an option
-- that is in neither list, as `-v` is. `others` is what `default` takes: debug, loglevel and quiet,
-- and a missing argument.
pub data Opt : Type 0 where
  stop help version verbose others : Opt
  config address : List ℕ → Opt

-- Where the reading of options comes to: an `exit`, with `kill_background` called before or not, or
-- the end of the options with what `bsc` holds.
pub data Reading : Type 0 where
  quits : Bool → Reading
  read : List ℕ → Reading

-- `char bsc[40]`; `strcpy` needs room for the NUL too.
abbrev pub bsc_size : ℕ
bsc_size = 40

-- The loop. `cfg` is NULL, so `strcpy(cfg, optarg)` has no place to write to.
unfoldable pub read_options : List Opt → List ℕ → Outcome Reading
read_options [] bsc = ok (read bsc)
read_options (stop ∷ opts) bsc = ok (quits true)
read_options (help ∷ opts) bsc = ok (quits false)
read_options (version ∷ opts) bsc = ok (quits false)
read_options (verbose ∷ opts) bsc = read_options opts bsc
read_options (others ∷ opts) bsc = read_options opts bsc
read_options (config text ∷ opts) bsc = fault
read_options (address text ∷ opts) bsc =
    let rest = read_options opts text in if ltb (length text) bsc_size then rest else fault

-- `handle_options`. Where `bsc` is empty at the end the help is printed, and 0 returned as well.
unfoldable pub handle_options : Bool → List Opt → Outcome Reading
unfolding read_options
handle_options no_arguments opts = if no_arguments then ok (quits false) else read_options opts []

-- What the system answers to `socket_init`.
pub record Connects : Type 0 where
  pub socket : Option ℕ
  pub connect : Bool
  pub register : Bool

-- `kill_background`, whose result is not looked at. A process that sends the signal to itself is in
-- `signal_handler`, which exits, before `kill` returns.
pub kill : Bool → ℕ → Os → Outcome (Fate × Os)
kill removes p os = kill_background removes p os >>= λ r.
    ok (if r.1.told p then (exits 0, die p r.1) else (returns, r.1))

-- `kill` in the cases of an error, and what follows it.
pub unless : Bool → Bool → ℕ → Os → Outcome (Fate × Os)
unfolding kill
unless fine removes p os = if fine then ok (returns, os) else kill removes p os

-- `socket_init`, with the descriptor where it returns. Where `kill_background` returns, a refused
-- connection and a registration that fails are gone on from.
unfoldable pub socket_init : Connects → Bool → ℕ → Os → Outcome (Fate × Option ℕ × Os)
unfolding unless
socket_init answers removes p os = elim answers.socket [
  | none ↦ ok (exits 1, none, die p os)
  | some fd ↦ do
    (fate, os1) ← unless answers.connect removes p os
    elim fate [
      | exits status ↦ ok (exits status, some fd, os1)
      | returns ↦ do (fate2, os2) ← unless answers.register removes p os1; ok (fate2, some fd, os2)
    ]
]

-- What `trx_socket_init` has done: whether it listens, and the descriptors left open.
pub record Listener : Type 0 where
  pub fd : Option ℕ
  pub registered : Bool
  pub open_fds : List ℕ

pub record Binds : Type 0 where
  pub socket : Option ℕ
  pub bind : Bool
  pub listen : Bool

-- The descriptor is closed where `bind` fails, and not where `listen` does.
unfoldable pub trx_socket_init : Binds → Listener
trx_socket_init answers = elim answers.socket [
  | none ↦ record { fd = none; registered = false; open_fds = [] }
  | some sd ↦
      if answers.bind
      then (if answers.listen
          then record { fd = some sd; registered = true; open_fds = sd ∷ [] }
          else record { fd = none; registered = false; open_fds = sd ∷ [] })
      else record { fd = none; registered = false; open_fds = [] }
]

-- Where `main` comes to: an `exit`, or the loop with the descriptors of both links.
pub data Started : Type 0 where
  stopped : Os → Started
  looping_with : Option ℕ → Option ℕ → Listener → Os → Started

pub record System : Type 0 where
  pub host : Host
  pub pid : ℕ
  pub removes : Bool
  pub oml : Connects
  pub rsl : Connects
  pub trx : Binds
  pub glib : Glib
  pub build : Build
  pub memory : Memory

-- Both links, and the socket for the transceivers.
pub open_links : System → Os → Outcome Started
open_links sys os = do
  (fate, oml, os1) ← socket_init sys.oml sys.removes sys.pid os
  elim fate [
    | exits status ↦ ok (stopped os1)
    | returns ↦ do
      (fate2, rsl, os2) ← socket_init sys.rsl sys.removes sys.pid os1
      elim fate2 [
        | exits status ↦ ok (stopped os2)
        | returns ↦ ok (looping_with oml rsl (trx_socket_init sys.trx) os2)
      ]
  ]

become_daemon : System → Os → Outcome Started
unfolding open_links
become_daemon sys os =
    let (fate, os1) = daemonize sys.host sys.pid os in
    elim fate [ exits status ↦ ok (stopped os1) | returns ↦ open_links sys os1 ]

-- The names of the directories, as `main` asks for them, or `kill_background` where it is called
-- before. Every later call of `set_globals` leaves them as they are (Globals/Lasting).
name_directories : System → Outcome Directory
name_directories sys = set_globals sys.glib sys.build sys.memory unset

-- `main` before its loop.
unfoldable pub start_up : System → Bool → List Opt → Os → Outcome Started
unfolding become_daemon kill name_directories
start_up sys no_arguments opts os = do
  reading ← handle_options no_arguments opts
  elim reading [
    | quits true ↦
        name_directories sys >>= λ _. kill sys.removes sys.pid os >>= λ r. ok (stopped r.1)
    | quits false ↦ ok (stopped os)
    | read bsc ↦ name_directories sys >>= λ _. become_daemon sys os
  ]
