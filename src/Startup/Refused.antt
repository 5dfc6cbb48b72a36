-- ===== src/Startup/Refused.antt =====
-- `main` of src/softbts.c where the controller refuses the connection.
use soft_bts.Base.{
  ℕ, ◌^◌, ◌<◌, ◌≤◌, ◌≡◌, refl, ap, ◌∙◌, Bool, true, false, ◌==◌, if◌then◌else◌, none, some, List,
  length, All, arith, ==_iff,
}
use soft_bts.Base.Outcome.{ok, ◌>>=◌}
use soft_bts.Globals.Lasting.{granted}
use soft_bts.Daemon.{Os, exits, returns, opened, overwrite, kill_background, die}
use soft_bts.Daemon.Effects.{kill_background-none}
use soft_bts.Daemon.Decimal.{decimal, IsDigits, value}
use soft_bts.Daemon.Roundtrip.{
  good_host, started, daemonize_lem, daemonize-kill_background, daemonize-stale,
}
use soft_bts.Startup.{
  Opt, Connects, System, stopped, looping_with, kill, unless, socket_init, open_links, start_up,
  trx_socket_init,
}
use soft_bts.Startup.Begins.{start_up_lem}
use soft_bts.Startup.Options.{IsHarmless}

module _ (removes : Bool) (p : ℕ) (os : Os) {n : ℕ} {os1 : Os} where
  kill_self :
      kill_background removes p os ≡ ok (n, os1)
      → os1.told p ≡ true
      → kill removes p os ≡ ok (exits 0, die p os1)
  unfolding kill
  kill_self e told = rw (e, ◌>>=◌, told)

  kill_other :
      kill_background removes p os ≡ ok (n, os1)
      → os1.told p ≡ false
      → kill removes p os ≡ ok (returns, os1)
  unfolding kill
  kill_other e told = rw (e, ◌>>=◌, told)

die-file : (p : ℕ) (os : Os) → os.file ≡ none → (die p os).file ≡ none
unfolding die
die-file p os gone = rw gone

die-running : (p : ℕ) (os : Os) → (die p os).running p ≡ false
unfolding die
die-running p os = rw ((==_iff p p).1 refl)

die-told :
    (p q : ℕ) (os : Os) (f : ℕ → Bool)
    → os.told q ≡ (if q == p then true else f q)
    → (die p os).told q ≡ (if q == p then false else f q)
unfolding die
die-told p q os f e = ground arith

-- Without a lock file, an error is gone on from.
unless-none :
    (fine removes : Bool) (p : ℕ) (os : Os)
    → os.file ≡ none
    → os.told p ≡ false
    → unless fine removes p os ≡ ok (returns, os)
unfolding unless
unless-none true removes p os gone untold = refl
unless-none false removes p os gone untold =
    kill_other removes p os (kill_background-none removes p os gone) untold

unless-refused :
    (fine removes : Bool) (p : ℕ) (os : Os) {os1 : Os}
    → fine ≡ false
    → kill removes p os ≡ ok (returns, os1)
    → unless fine removes p os ≡ ok (returns, os1)
unfolding unless
unless-refused fine removes p os refused k = rw (refused, k)

module _ (answers : Connects) (removes : Bool) (p fd : ℕ) (os : Os) {os1 : Os} where
  socket_init-exits :
      answers.socket ≡ some fd
      → answers.connect ≡ false
      → kill removes p os ≡ ok (exits 0, os1)
      → socket_init answers removes p os ≡ ok (exits 0, some fd, os1)
  unfolding socket_init unless
  socket_init-exits e refused k = rw (e, refused, k, ◌>>=◌)

  socket_init-returns :
      answers.socket ≡ some fd
      → unless answers.connect removes p os ≡ ok (returns, os1)
      → unless answers.register removes p os1 ≡ ok (returns, os1)
      → socket_init answers removes p os ≡ ok (returns, some fd, os1)
  unfolding socket_init
  socket_init-returns e c r = rw (e, c, ◌>>=◌, r)

-- A daemon that has started over no lock file, or over one that nobody holds and that is not longer
-- than its process id, ends itself by `kill_background`, and no other process.
pub kill-started :
    (p : ℕ) (os : Os)
    → 0 < p
    → p < 10 ^ 9
    → (opened os.file).holder ≡ none
    → length (opened os.file).content ≤ length (decimal p)
    → (os' : Os) × (kill true p (started p os) ≡ ok (exits 0, os'))
      × (os'.file ≡ none)
      × (os'.running p ≡ false)
      × ((q : ℕ) → os'.told q ≡ (if q == p then false else os.told q))
kill-started p os pos fits free short =
    let (ready, (os2, killed, gone, told)) = daemonize-kill_background p p os pos fits free short in
    let killed1 : kill_background true p (started p os) ≡ ok (0, os2) =
      rw (daemonize_lem p os free) at killed in
    let mine : os2.told p ≡ true = told p ∙ ground (arith, (==_iff p p).1 refl) in
    (
      die p os2,
      kill_self true p (started p os) killed1 mine,
      die-file p os2 gone,
      die-running p os2,
      λ q. die-told p q os2 os.told (told q),
    )

-- The daemon on a system whose other calls succeed, over a lock file that nobody holds.
pub record Begins (sys : System) (opts : List Opt) (os : Os) (oml_fd : ℕ) : Type 0 where
  pub harmless : All IsHarmless opts
  pub memory : sys.memory ≡ granted
  pub host : sys.host ≡ good_host sys.pid
  pub removes : sys.removes ≡ true
  pub pos : 0 < sys.pid
  pub fits : sys.pid < 10 ^ 9
  pub free : (opened os.file).holder ≡ none
  pub socket : sys.oml.socket ≡ some oml_fd
  pub refuses : sys.oml.connect ≡ false

module _ (sys : System) (opts : List Opt) (os : Os) (oml_fd : ℕ)
    (b : Begins sys opts os oml_fd) where
  links_open : start_up sys false opts os ≡ open_links sys (started sys.pid os)
  links_open = start_up_lem sys opts os b.harmless b.memory b.host b.free

  -- Where the controller refuses the O&M connection, the daemon ends itself: the process exits,
  -- the lock file is gone, and no other process is told to end. This is so for options that are
  -- gone on after, on a system where the calls of `malloc`, `daemonize` and `remove` succeed and the socket
  -- is given, and over a lock file that nobody holds and that is not longer than the process id,
  -- which has at most nine digits.
  pub start_up-refused :
      length (opened os.file).content ≤ length (decimal sys.pid)
      → (os' : Os) × (start_up sys false opts os ≡ ok (stopped os'))
        × (os'.file ≡ none)
        × (os'.running sys.pid ≡ false)
        × ((q : ℕ) → os'.told q ≡ (if q == sys.pid then false else os.told q))
  unfolding open_links
  start_up-refused short =
      let (os', ends, gone, stopped_running, told) =
        kill-started sys.pid os b.pos b.fits b.free short in
      let ended : kill sys.removes sys.pid (started sys.pid os) ≡ ok (exits 0, os') =
        ap (λ r. kill r sys.pid (started sys.pid os)) b.removes ∙ ends in
      let links =
        socket_init-exits sys.oml sys.removes sys.pid oml_fd (started sys.pid os) b.socket b.refuses
          ended in
      (os', links_open ∙ rw (open_links, links, ◌>>=◌), gone, stopped_running, told)

  -- Where the controller refuses the O&M connection over a lock file that nobody holds and that
  -- still tells a process id of more digits, the daemon does not end itself: it goes on to its
  -- loop with sockets that are not connected, without a lock file. This is so for options that are
  -- gone on after, on a system where the calls of `malloc`, `daemonize` and `remove` succeed, where
  -- both sockets are given, and where the number read fits an int.
  pub start_up-stale :
      (rsl_fd : ℕ)
      → sys.rsl.socket ≡ some rsl_fd
      → length (decimal sys.pid) < length (opened os.file).content
      → IsDigits (opened os.file).content
      → value 0 (overwrite (decimal sys.pid) (opened os.file).content) < 2 ^ 31
      → (os' : Os) × (start_up sys false opts os
          ≡ ok (looping_with (some oml_fd) (some rsl_fd) (trx_socket_init sys.trx) os'))
        × (os'.file ≡ none)
        × (os'.running sys.pid ≡ true)
  unfolding open_links
  start_up-stale rsl_fd socket long old number =
      let (ready, (os2, killed, runs, untold, gone, second)) =
        daemonize-stale sys.pid sys.pid os b.pos b.fits b.free long old number in
      let killed1 : kill_background true sys.pid (started sys.pid os) ≡ ok (0, os2) =
        rw (daemonize_lem sys.pid os b.free) at killed in
      let on : kill sys.removes sys.pid (started sys.pid os) ≡ ok (returns, os2) =
        ap (λ r. kill r sys.pid (started sys.pid os)) b.removes
        ∙ kill_other true sys.pid (started sys.pid os) killed1 untold in
      let calm : (fine : Bool) → unless fine sys.removes sys.pid os2 ≡ ok (returns, os2) =
        λ fine. unless-none fine sys.removes sys.pid os2 gone untold in
      let oml =
        socket_init-returns sys.oml sys.removes sys.pid oml_fd (started sys.pid os) b.socket
          (unless-refused sys.oml.connect sys.removes sys.pid (started sys.pid os) b.refuses on)
          (calm sys.oml.register) in
      let rsl =
        socket_init-returns sys.rsl sys.removes sys.pid rsl_fd os2 socket (calm sys.rsl.connect)
          (calm sys.rsl.register) in
      (os2, links_open ∙ rw (open_links, oml, ◌>>=◌, rsl), gone, runs)
