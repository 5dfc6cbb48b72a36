-- ===== src/Daemon/Roundtrip.antt =====
-- Which process `kill_background` of src/softbts.c ends: what `daemonize` has recorded, over a
-- lock file that was there before.
use soft_bts.Base.{
  ℕ, ◌+◌, ◌*◌, ◌-◌, ◌^◌, ◌<◌, ◌≤◌, ◌≡◌, refl, ap, ◌∙◌, true, false, ◌==◌, if◌then◌else◌, none, some,
  List, [], ◌∷◌, ◌++◌, length, arith, lt→ltb, ==_iff,
}
use soft_bts.Base.Outcome.{ok}
use soft_bts.Daemon.{
  LockFile, Os, Host, child, returns, opened, take, overwrite, signal, daemonize, kill_background,
}
use soft_bts.Daemon.Decimal.{
  decimal, scan_pid, IsDigits, IsDigits-append, value, value-append, value-le, value-decimal,
  decimal-IsDigits, scan_pid-value, scan_pid-decimal,
}

-- A system on which each call succeeds, and `write` writes all it is given.
abbrev pub good_host : ℕ → Host
good_host p = record {
  fork = child;
  setsid = true;
  fork2 = child;
  chdir = true;
  opens = true;
  written = length (decimal p);
}

pub take-length : (bs : List ℕ) → take (length bs) bs ≡ bs
take-length [] = refl
take-length (b ∷ bs) = ap (λ t. b ∷ t) (take-length bs)

pub overwrite-long : (bs old : List ℕ) → length old ≤ length bs → overwrite bs old ≡ bs
overwrite-long [] [] h = refl
overwrite-long [] (o ∷ old) h = absurd (omega arith)
overwrite-long (b ∷ bs) [] h = refl
overwrite-long (b ∷ bs) (o ∷ old) h = ap (λ t. b ∷ t) (overwrite-long bs old (omega arith))

-- What was longer sticks out behind.
overwrite-short :
    (bs old : List ℕ)
    → length bs < length old
    → IsDigits old
    → (c : ℕ) × (rest : List ℕ) × (overwrite bs old ≡ bs ++ (c ∷ rest)) × IsDigits (c ∷ rest)
overwrite-short [] [] h d = absurd (omega arith)
overwrite-short [] (o ∷ old) h d = (o, old, refl, d)
overwrite-short (b ∷ bs) [] h d = absurd (omega arith)
overwrite-short (b ∷ bs) (o ∷ old) h d =
    let (c, rest, e, r) = overwrite-short bs old (omega arith) d.1 in
    (c, rest, ap (λ t. b ∷ t) e, r)

-- The system behind a `daemonize` that returned.
abbrev pub started : ℕ → Os → Os
started p os = record {
  file =
      some (record { content = overwrite (decimal p) (opened os.file).content; holder = some p });
  running = λ q. if q == p then true else os.running q;
  told = λ q. if q == p then false else os.told q;
}

pub daemonize_lem :
    (p : ℕ) (os : Os)
    → (opened os.file).holder ≡ none
    → daemonize (good_host p) p os ≡ (returns, started p os)
unfolding daemonize
daemonize_lem p os h = rw (take-length (decimal p), h)

-- `kill_background` of another process, and a file with a number in it.
pub kill_background_lem :
    (caller pid : ℕ) (f : LockFile) (os : Os)
    → os.file ≡ some f
    → scan_pid f.content ≡ ok pid
    → 0 < pid
    → kill_background true caller os ≡ ok (0, signal pid (record os { file = none }))
unfolding kill_background
kill_background_lem caller pid f os e s pos = rw (e, kill_background, s, lt→ltb 0 pid pos)

pub signal-file : (pid : ℕ) (os : Os) → (signal pid os).file ≡ os.file
signal-file pid os = ground arith

pub signal-running : (pid q : ℕ) (os : Os) → (signal pid os).running q ≡ os.running q
signal-running pid q os = ground arith

pub signal-told :
    (pid q : ℕ) (os : Os)
    → (signal pid os).told q
      ≡ (if q == pid then (if os.running pid then true else os.told q) else os.told q)
signal-told pid q os = ground arith

module _ (caller p : ℕ) (os : Os) (pos : 0 < p) (fits : p < 10 ^ 9) where
  int : p < 2 ^ 31
  int = omega (arith, fits)

  -- On a system where each call succeeds, a daemon with a process id of at most nine digits that
  -- has started over no lock file, or over one that nobody holds and that is no longer than its
  -- own process id, is the one that `kill_background` ends, and no other; the lock file is gone
  -- then.
  pub daemonize-kill_background :
      (opened os.file).holder ≡ none
      → length (opened os.file).content ≤ length (decimal p)
      → let os1 = (daemonize (good_host p) p os).1 in
        ((daemonize (good_host p) p os).0 ≡ returns)
        × ((os2 : Os) × (kill_background true caller os1 ≡ ok (0, os2))
            × (os2.file ≡ none)
            × ((q : ℕ) → os2.told q ≡ (if q == p then true else os.told q)))
  daemonize-kill_background free short =
      rw (daemonize_lem p os free) (refl, (_, killed, signal-file p gone, ended))
    where
      recorded : LockFile
      recorded = record {
        content = overwrite (decimal p) (opened os.file).content;
        holder = some p;
      }

      gone : Os
      gone = record (started p os) { file = none }

      number : scan_pid recorded.content ≡ ok p
      number =
          rw (overwrite-long (decimal p) (opened os.file).content short) (scan_pid-decimal p int)

      killed :
          kill_background true caller (started p os)
          ≡ ok (0, signal p (record (started p os) { file = none }))
      killed = kill_background_lem caller p recorded (started p os) refl number pos

      ended :
          (q : ℕ)
          → (signal p (record (started p os) { file = none })).told q
            ≡ (if q == p then true else os.told q)
      ended q =
          signal-told p q (record (started p os) { file = none })
          ∙ ground (arith, (==_iff p p).1 refl)

  -- On a system where each call succeeds, over a lock file that nobody holds, but that still tells
  -- a process id of more digits, so that the number read fits an int, `kill_background` reads a
  -- number larger than the daemon's process id: it removes the lock file, the daemon goes on
  -- untold, and a second one can start.
  pub daemonize-stale :
      (opened os.file).holder ≡ none
      → length (decimal p) < length (opened os.file).content
      → IsDigits (opened os.file).content
      → value 0 (overwrite (decimal p) (opened os.file).content) < 2 ^ 31
      → let os1 = (daemonize (good_host p) p os).1 in
        ((daemonize (good_host p) p os).0 ≡ returns)
        × ((os2 : Os) × (kill_background true caller os1 ≡ ok (0, os2))
            × (os2.running p ≡ true)
            × (os2.told p ≡ false)
            × (os2.file ≡ none)
            × ((q : ℕ) → (daemonize (good_host q) q os2).0 ≡ returns))
  daemonize-stale free long old number =
      rw (daemonize_lem p os free)
        (refl, (os2, killed, goes_on, untold, signal-file wrong gone, second))
    where
      recorded : LockFile
      recorded = record {
        content = overwrite (decimal p) (opened os.file).content;
        holder = some p;
      }

      gone : Os
      gone = record (started p os) { file = none }

      wrong : ℕ
      wrong = value 0 recorded.content

      sticks : (p < wrong) × (scan_pid recorded.content ≡ ok wrong)
      sticks =
          let (c, rest, e, d) = overwrite-short (decimal p) (opened os.file).content long old in
          let all = IsDigits-append (decimal p) (c ∷ rest) (decimal-IsDigits p) d in
          let larger : p < value 0 (decimal p ++ (c ∷ rest)) = omega (
            arith,
            value-append 0 (decimal p) (c ∷ rest),
            value-decimal p int,
            value-le (10 * value 0 (decimal p) + (c - 48)) rest,
          ) in
          rw e (larger, scan_pid-value (decimal p ++ (c ∷ rest)) all (rw e at number))

      os2 : Os
      os2 = signal wrong gone

      killed : kill_background true caller (started p os) ≡ ok (0, os2)
      killed =
          kill_background_lem caller wrong recorded (started p os) refl sticks.1
            (omega (arith, sticks.0))

      goes_on : os2.running p ≡ true
      goes_on = signal-running wrong p gone ∙ ground (arith, (==_iff p p).1 refl)

      untold : os2.told p ≡ false
      untold = signal-told wrong p gone ∙ ground (arith, sticks.0, (==_iff p p).1 refl)

      second : (q : ℕ) → (daemonize (good_host q) q os2).0 ≡ returns
      second q = ap (λ r. r.0) (daemonize_lem q os2 (rw (signal-file wrong gone)))
