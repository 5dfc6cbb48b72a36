-- ===== src/Daemon.antt =====
-- src/softbts.c: the lock file that keeps a second daemon from starting, and that tells
-- `kill_background` which process to end.
pub mod Decimal
pub mod Roundtrip
pub mod Effects
pub mod Kept
pub mod Exclusive
use soft_bts.Base.{
  ℕ, zero, suc, ◌+◌, ◌-◌, ◌*◌, ◌/◌, ◌%◌, Bool, true, false, ◌==◌, ltb, leb, ◌&&◌, ◌||◌,
  if◌then◌else◌, Option, none, some, List, [], ◌∷◌, ◌++◌, length,
}
use soft_bts.Base.Outcome.{Outcome, ok, fault, ◌>>=◌}
use Decimal.{decimal, scan_pid}

-- The file that the name of the lock file stands for: what it holds, and the process that has it
-- locked.
pub record LockFile : Type 0 where
  pub content : List ℕ
  pub holder : Option ℕ

-- The system around: the lock file if there is one, the daemons that run, and those that were sent
-- a SIGTERM that they have not yet acted on.
pub record Os : Type 0 where
  pub file : Option LockFile
  pub running : ℕ → Bool
  pub told : ℕ → Bool

abbrev pub update : (ℕ → Bool) → ℕ → Bool → ℕ → Bool
update f p v q = if q == p then v else f q

-- What `fork` returns: -1, the child's process id, or 0.
pub data Forked : Type 0 where
  failed parent child : Forked

-- What the system answers to the calls of `daemonize`. `written` is the result of `write`.
pub record Host : Type 0 where
  pub fork : Forked
  pub setsid : Bool
  pub fork2 : Forked
  pub chdir : Bool
  pub opens : Bool
  pub written : ℕ

-- `exit` with a status, or the return to `main`.
pub data Fate : Type 0 where
  exits : ℕ → Fate
  returns : Fate

-- `open(lockfile, O_RDWR | O_CREAT)`, which does not truncate.
abbrev pub opened : Option LockFile → LockFile
opened none = record { content = []; holder = none }
opened (some f) = f

-- `lockf(fd, F_TLOCK, 0)` succeeds unless another process has the lock.
abbrev pub can_lock : ℕ → Option ℕ → Bool
can_lock p none = true
can_lock p (some q) = q == p

abbrev pub take : ℕ → List ℕ → List ℕ
take zero bs = []
take (suc n) [] = []
take (suc n) (b ∷ bs) = b ∷ take n bs

-- `write` at the start of a file: what it is shorter than stays.
abbrev pub overwrite : List ℕ → List ℕ → List ℕ
overwrite [] old = old
overwrite (b ∷ bs) [] = b ∷ bs
overwrite (b ∷ bs) (o ∷ old) = b ∷ overwrite bs old

-- The part behind `open`: lock the file and record the process id in it. `char str[10]` has room for
-- an id of nine digits.
record_pid : ℕ → ℕ → LockFile → Os → Fate × Os
record_pid written p f os =
    if can_lock p f.holder
    then (
      returns,
      record os {
        file =
            some (record {
              content = overwrite (take written (decimal p)) f.content;
              holder = some p;
            });
        running = update os.running p true;
        told = update os.told p false;
      },
    )
    else (exits 0, record os { file = some f })

-- The part before: how far the process and its descendants come, with the status of the `exit` that
-- ends them short of the lock file. The parents exit with success.
detach : Forked → Bool → Forked → Bool → Bool → Option ℕ
detach failed setsid fork2 chdir opens = some 1
detach parent setsid fork2 chdir opens = some 0
detach child false fork2 chdir opens = some 0
detach child true failed chdir opens = some 1
detach child true parent chdir opens = some 0
detach child true child false opens = some 1
detach child true child true false = some 1
detach child true child true true = none

-- `daemonize`, as the process that calls it or its descendant sees it; `p` is what `getpid`
-- returns at the end.
unfoldable pub daemonize : Host → ℕ → Os → Fate × Os
unfolding detach record_pid
daemonize host p os = elim (detach host.fork host.setsid host.fork2 host.chdir host.opens) [
  | some status ↦ (exits status, os)
  | none ↦ record_pid host.written p (opened os.file) os
]

-- `lockf(fd, F_ULOCK, 0)` and `fclose` give up the locks of the process that calls them.
abbrev pub release : ℕ → Option ℕ → Option ℕ
release caller none = none
release caller (some q) = if q == caller then none else some q

abbrev pub unlock : ℕ → LockFile → LockFile
unlock caller f = record f { holder = release caller f.holder }

-- `kill(pid, SIGTERM)` reaches a daemon that runs.
abbrev pub signal : ℕ → Os → Os
signal pid os = if os.running pid then record os { told = update os.told pid true } else os

-- The part behind `fopen`, with the number that `fscanf` has read, or the 0 of before.
pub end_recorded : Bool → ℕ → ℕ → LockFile → Os → Os
end_recorded removes caller pid f os =
    let after = record os { file = some (unlock caller f) } in
    if ltb 0 pid then signal pid (if removes then record os { file = none } else after) else after

-- `kill_background`: 1 where the file cannot be opened, and 0. `removes` is whether `remove`
-- succeeds.
kill_opened : Bool → ℕ → Option LockFile → Os → Outcome (ℕ × Os)
unfolding end_recorded
kill_opened removes caller none os = ok (1, os)
kill_opened removes caller (some f) os =
    scan_pid f.content >>= λ pid. ok (0, end_recorded removes caller pid f os)

unfoldable pub kill_background : Bool → ℕ → Os → Outcome (ℕ × Os)
unfolding kill_opened
kill_background removes caller os = kill_opened removes caller os.file os

-- The end of a process: by `signal_handler`, which exits on SIGTERM, or otherwise. Its locks are
-- released; the lock file stays.
unfoldable pub die : ℕ → Os → Os
die p os = record os {
  file = elim os.file [ none ↦ none | some f ↦ some (unlock p f) ];
  running = update os.running p false;
  told = update os.told p false;
}
