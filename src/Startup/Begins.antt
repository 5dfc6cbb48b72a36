-- ===== src/Startup/Begins.antt =====
-- `main` of src/softbts.c from its options to the opening of the links.
use soft_bts.Base.{ℕ, ◌≡◌, ap, ◌∙◌, Bool, true, false, some, none, List, All}
use soft_bts.Base.Outcome.{ok, ◌>>=◌}
use soft_bts.Globals.{Directory, unset, set_globals}
use soft_bts.Globals.Lasting.{granted, set_globals-granted}
use soft_bts.Daemon.{Os, returns, opened, daemonize}
use soft_bts.Daemon.Roundtrip.{good_host, started, daemonize_lem}
use soft_bts.Startup.{
  Opt, Connects, System, looping_with, socket_init, open_links, trx_socket_init, become_daemon,
  start_up, name_directories,
}
use soft_bts.Startup.Options.{IsHarmless, handle_options-goes_on}

name_directories-granted :
    (sys : System) → sys.memory ≡ granted → (d : Directory) × (name_directories sys ≡ ok d)
unfolding name_directories
name_directories-granted sys memory =
    let (d, e) = set_globals-granted sys.glib sys.build in
    (d, ap (λ m. set_globals sys.glib sys.build m unset) memory ∙ e)

-- Options that are gone on after, and a system that has memory and on which `daemonize` comes through.
pub start_up_lem :
    (sys : System) (opts : List Opt) (os : Os)
    → All IsHarmless opts
    → sys.memory ≡ granted
    → sys.host ≡ good_host sys.pid
    → (opened os.file).holder ≡ none
    → start_up sys false opts os ≡ open_links sys (started sys.pid os)
unfolding start_up become_daemon
start_up_lem sys opts os harmless memory host free = rw (
  handle_options-goes_on opts harmless,
  ◌>>=◌,
  (name_directories-granted sys memory).1,
  become_daemon,
  began,
  begun,
)
  where
    began : daemonize sys.host sys.pid os ≡ (returns, started sys.pid os)
    began = ap (λ host. daemonize host sys.pid os) host ∙ daemonize_lem sys.pid os free

    begun : (daemonize sys.host sys.pid os).1 ≡ started sys.pid os
    begun = ap (λ r. r.1) began

socket_init-connects :
    (answers : Connects) (removes : Bool) (p fd : ℕ) (os : Os)
    → answers ≡ record { socket = some fd; connect = true; register = true }
    → socket_init answers removes p os ≡ ok (returns, some fd, os)
unfolding socket_init
socket_init-connects answers removes p fd os e = ap (λ a. socket_init a removes p os) e

-- Where both links connect too, the loop is come to with their sockets, and the daemon runs.
pub start_up-connects :
    (sys : System) (opts : List Opt) (os : Os) (oml_fd rsl_fd : ℕ)
    → All IsHarmless opts
    → sys.memory ≡ granted
    → sys.host ≡ good_host sys.pid
    → (opened os.file).holder ≡ none
    → sys.oml ≡ record { socket = some oml_fd; connect = true; register = true }
    → sys.rsl ≡ record { socket = some rsl_fd; connect = true; register = true }
    → start_up sys false opts os
      ≡ ok (looping_with (some oml_fd) (some rsl_fd) (trx_socket_init sys.trx) (started sys.pid os))
unfolding open_links
start_up-connects sys opts os oml_fd rsl_fd harmless memory host free oml rsl =
    start_up_lem sys opts os harmless memory host free
    ∙ rw (
      open_links,
      socket_init-connects sys.oml sys.removes sys.pid oml_fd (started sys.pid os) oml,
      ◌>>=◌,
      socket_init-connects sys.rsl sys.removes sys.pid rsl_fd (started sys.pid os) rsl,
    )
