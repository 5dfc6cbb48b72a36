-- ===== src/Daemon/Effects.antt =====
-- What each operation on the lock file changes.
use soft_bts.Base.{
  ℕ, ◌<◌, ◌≡◌, ◌≢◌, inl, inr, refl, sym, Bool, true, false, ◌==◌, Option, none, some, arith, ==_iff,
  Bool-cases, Option-cases,
}
use mathlib.Core.Path.{subst}
use soft_bts.Base.Outcome.{ok}
use soft_bts.Daemon.{
  LockFile, Os, Host, detach, record_pid, end_recorded, kill_opened, opened, can_lock, take,
  release, overwrite, unlock, update, daemonize, kill_background,
}
use soft_bts.Daemon.Decimal.{decimal}

-- What `daemonize` can do to the system: nothing, at most leave the file as it is for want of the
-- lock, or take the lock and record the process.
pub data Effect (host : Host) (p : ℕ) (os os' : Os) : Type 0 where
  nothing : os' ≡ os → Effect host p os os'
  refused :
      can_lock p (opened os.file).holder ≡ false
      → os' ≡ record os { file = some (opened os.file) }
      → Effect host p os os'
  taken :
      can_lock p (opened os.file).holder ≡ true
      → os' ≡ record os {
        file = some (record {
          content = overwrite (take host.written (decimal p)) (opened os.file).content;
          holder = some p;
        });
        running = update os.running p true;
        told = update os.told p false;
      }
      → Effect host p os os'

taken-or-refused :
    (host : Host) (p : ℕ) (os : Os)
    → Effect host p os (record_pid host.written p (opened os.file) os).1
unfolding record_pid
taken-or-refused host p os = elim (Bool-cases (can_lock p (opened os.file).holder)) [
  | inl free ↦ taken free (rw free)
  | inr busy ↦ refused busy (rw busy)
]

pub daemonize-Effect : (host : Host) (p : ℕ) (os : Os) → Effect host p os (daemonize host p os).1
unfolding daemonize
daemonize-Effect host p os =
    elim (Option-cases (detach host.fork host.setsid host.fork2 host.chdir host.opens)) [
      | inl through ↦ rw (through, daemonize) (taken-or-refused host p os)
      | inr (status, out) ↦ nothing (rw (out, daemonize))
    ]

module _ (removes : Bool) (caller pid q : ℕ) (f : LockFile) (os : Os) where
  pub end_recorded-running : (end_recorded removes caller pid f os).running q ≡ os.running q
  unfolding end_recorded
  end_recorded-running = ground arith

  -- Who has not been told behind it was not told before, and is not the process that the file tells.
  pub end_recorded-told :
      (end_recorded removes caller pid f os).told q ≡ false
      → (os.told q ≡ false) × (0 < pid → pid ≡ q → os.running q ≢ true)
  unfolding end_recorded
  end_recorded-told h = (ground arith, λ pos e r. ground (arith, (==_iff q pid).1 (sym e)))

  pub end_recorded-file :
      (f' : LockFile) → (end_recorded removes caller pid f os).file ≡ some f' → f' ≡ unlock caller f
  unfolding end_recorded
  end_recorded-file f' h = ground arith

pub release-some :
    (caller q : ℕ) (holder : Option ℕ)
    → release caller holder ≡ some q
    → (holder ≡ some q) × ((q == caller) ≡ false)
release-some caller q none h = cc
release-some caller q (some p) h = elim (Bool-cases (p == caller)) [
  | inl hit ↦ cc (rw hit at h)
  | inr miss ↦ let e : some p ≡ some q = rw miss at h in (e, ground arith)
]

pub kill_background-none :
    (removes : Bool) (caller : ℕ) (os : Os)
    → os.file ≡ none
    → kill_background removes caller os ≡ ok (1, os)
unfolding kill_background kill_opened
kill_background-none removes caller os e =
    subst (λ file. kill_opened removes caller file os ≡ ok (1, os)) (sym e) refl
