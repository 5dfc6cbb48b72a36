-- ===== src/Tests/Startups.antt =====
-- Starting the station.
use soft_bts.Base.{
  ◌≤◌, ◌≡◌, refl, true, false, ◌==◌, if◌then◌else◌, none, some, List, [], ◌∷◌, ◌++◌, ℕ, arith,
}
use soft_bts.Base.Outcome.{ok, fault}
use soft_bts.Globals.Lasting.{granted}
use soft_bts.Tests.Logs.{glib, plain}
use soft_bts.Daemon.{Os}
use soft_bts.Daemon.Decimal.{decimal}
use soft_bts.Daemon.Kept.{idle}
use soft_bts.Daemon.Roundtrip.{good_host}
use soft_bts.Startup.{
  Opt, stop, help, version, verbose, config, address, quits, read, handle_options, System, stopped,
  looping_with, trx_socket_init, start_up,
}
use soft_bts.Startup.Options.{handle_options-decides}
use soft_bts.Startup.Refused.{Begins, start_up-refused, start_up-stale}

-- "10.0.0.1"
abbrev controller : List ℕ
controller = 49 ∷ 48 ∷ 46 ∷ 48 ∷ 46 ∷ 48 ∷ 46 ∷ 49 ∷ []

abbrev ten : List ℕ
ten = 48 ∷ 48 ∷ 48 ∷ 48 ∷ 48 ∷ 48 ∷ 48 ∷ 48 ∷ 48 ∷ 48 ∷ []

abbrev pub opts : List Opt
opts = verbose ∷ address controller ∷ []

abbrev too_long : List ℕ
too_long = ten ++ ten ++ ten ++ ten

handle_options-decides_example :
    (handle_options false opts ≡ ok (read controller))
    × (handle_options false (opts ++ stop ∷ help ∷ []) ≡ ok (quits true))
    × (handle_options false (opts ++ help ∷ help ∷ []) ≡ ok (quits false))
    × (handle_options false (opts ++ version ∷ help ∷ []) ≡ ok (quits false))
    × (handle_options false (opts ++ config too_long ∷ help ∷ []) ≡ fault)
    × (handle_options false (opts ++ address too_long ∷ help ∷ []) ≡ fault)
handle_options-decides_example =
    handle_options-decides opts (help ∷ []) too_long (tt, (omega arith, tt)) (omega arith)

-- Both connections are refused.
abbrev pub system : System
system = record {
  host = good_host 1234;
  pid = 1234;
  removes = true;
  oml = record { socket = some 4; connect = false; register = true };
  rsl = record { socket = some 9; connect = false; register = true };
  trx = record { socket = some 5; bind = true; listen = true };
  glib = glib;
  build = plain;
  memory = granted;
}

idle-Begins : Begins system opts idle 4
idle-Begins = record {
  harmless = (tt, (omega arith, tt));
  memory = refl;
  host = refl;
  removes = refl;
  pos = omega arith;
  fits = omega arith;
  free = refl;
  socket = refl;
  refuses = refl;
}

start_up-refused_example :
    (os' : Os) × (start_up system false opts idle ≡ ok (stopped os'))
    × (os'.file ≡ none)
    × (os'.running 1234 ≡ false)
    × ((q : ℕ) → os'.told q ≡ (if q == 1234 then false else false))
start_up-refused_example = start_up-refused system opts idle 4 idle-Begins (omega arith)

-- An earlier daemon, 99999, has left its lock file.
abbrev left : Os
left = record idle { file = some (record { content = 57 ∷ 57 ∷ 57 ∷ 57 ∷ 57 ∷ []; holder = none }) }

left-Begins : Begins system opts left 4
left-Begins = record {
  harmless = (tt, (omega arith, tt));
  memory = refl;
  host = refl;
  removes = refl;
  pos = omega arith;
  fits = omega arith;
  free = refl;
  socket = refl;
  refuses = refl;
}

digit : (48 ≤ 57) × (57 ≤ 57)
digit = (omega arith, omega arith)

start_up-stale_example :
    (os' : Os) × (start_up system false opts left
      ≡ ok (looping_with (some 4) (some 9) (trx_socket_init system.trx) os'))
    × (os'.file ≡ none)
    × (os'.running 1234 ≡ true)
unfolding decimal
start_up-stale_example =
    start_up-stale system opts left 4 left-Begins 9 refl (omega arith)
      (digit, (digit, (digit, (digit, (digit, tt))))) (omega arith)
