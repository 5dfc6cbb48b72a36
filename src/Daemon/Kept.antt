-- ===== src/Daemon/Kept.antt =====
-- The lock file of src/softbts.c: what starts, stops and ends of processes do, and what a start keeps.
use soft_bts.Base.{
  ℕ, ◌^◌, ◌<◌, ◌≤◌, ◌≡◌, ◌≢◌, inl, inr, refl, sym, ap, ◌∙◌, Bool, true, false, ◌==◌, none, some,
  length, arith, ==_iff, Bool-cases, Option-cases,
}
use mathlib.Core.Path.{subst}
use soft_bts.Base.Outcome.{ok}
use soft_bts.Daemon.{
  LockFile, Os, Host, Fate, opened, can_lock, update, daemonize, kill_background, die,
}
use soft_bts.Daemon.Decimal.{decimal}
use soft_bts.Daemon.Effects.{Effect, nothing, refused, taken}
use soft_bts.Daemon.Roundtrip.{take-length, overwrite-long}

-- What happens to the daemons, by processes whose ids all have the same number of digits, so that
-- a new one covers an old one. A `write` of so few bytes to a file is complete.
pub data Step (width : ℕ) (os os' : Os) : Type 0 where
  start :
      (host : Host) (p : ℕ) (fate : Fate)
      → host.written ≡ length (decimal p)
      → length (decimal p) ≡ width
      → 0 < p
      → p < 10 ^ 9
      → daemonize host p os ≡ (fate, os')
      → Step width os os'
  stop :
      (removes : Bool) (caller n : ℕ)
      → kill_background removes caller os ≡ ok (n, os')
      → Step width os os'
  finish : (p : ℕ) → die p os ≡ os' → Step width os os'

-- A system without daemons and without a lock file.
abbrev pub idle : Os
idle = record { file = none; running = λ p. false; told = λ p. false }

pub data Reach (width : ℕ) : Os → Type 0 where
  here : Reach width idle
  next : {os os' : Os} → Reach width os → Step width os os' → Reach width os'

-- The holder's process id is what the file tells, and whoever runs and was not told to end is the
-- holder.
pub record IsKept (width : ℕ) (os : Os) : Type 0 where
  pub short : (f : LockFile) → os.file ≡ some f → length f.content ≤ width
  pub recorded :
      (f : LockFile) (p : ℕ)
      → os.file ≡ some f
      → f.holder ≡ some p
      → (f.content ≡ decimal p) × (0 < p) × (p < 2 ^ 31)
  pub held :
      (p : ℕ)
      → os.running p ≡ true
      → os.told p ≡ false
      → (f : LockFile) × (os.file ≡ some f) × (f.holder ≡ some p)

-- A holder other than the process that asks refuses the lock.
can_lock-other : (p q : ℕ) → (q == p) ≡ false → can_lock p (some q) ≢ true
can_lock-other p q e h = cc

module _ {width : ℕ} {os : Os} (kept : IsKept width os) where
  opened-short : length (opened os.file).content ≤ width
  opened-short = elim (Option-cases os.file) [
    | inl e ↦ rw e (omega arith)
    | inr (f, e) ↦ rw e (kept.short f e)
  ]

  refused-same :
      (p : ℕ) → can_lock p (opened os.file).holder ≡ false → some (opened os.file) ≡ os.file
  refused-same p busy = elim (Option-cases os.file) [
    | inl e ↦ cc (rw e at busy)
    | inr (f, e) ↦ rw e
  ]

  module _ (p : ℕ) (same : length (decimal p) ≡ width) (pos : 0 < p) (int : p < 2 ^ 31) where
    abbrev locked : Os
    locked = record os {
      file = some (record { content = decimal p; holder = some p });
      running = update os.running p true;
      told = update os.told p false;
    }

    abbrev Holds : ℕ → Type 0
    Holds q = (f : LockFile) × (locked.file ≡ some f) × (f.holder ≡ some q)

    locked-held :
        can_lock p (opened os.file).holder ≡ true
        → (q : ℕ) → locked.running q ≡ true
        → locked.told q ≡ false
        → Holds q
    locked-held free q runs untold = elim (Bool-cases (q == p)) [
      | inl e ↦ (_, refl, ap some (sym ((==_iff q p).0 e)))
      | inr e ↦
          let (f, at, by) = kept.held q (rw e at runs) (rw e at untold) in
          absurd (can_lock-other p q e (rw (at, by) at free))
    ]

    locked-IsKept : can_lock p (opened os.file).holder ≡ true → IsKept width locked
    locked-IsKept free = record {
      short = λ f e. ground arith;
      recorded = λ f q e h.
          let who : p ≡ q = cc in
          let what : f.content ≡ decimal p = cc in
          (what ∙ ap decimal who, omega (arith, who), omega (arith, who));
      held = locked-held free;
    }

  pub start-IsKept :
      {os' : Os} (host : Host) (p : ℕ)
      → host.written ≡ length (decimal p)
      → length (decimal p) ≡ width
      → 0 < p
      → p < 2 ^ 31
      → Effect host p os os'
      → IsKept width os'
  start-IsKept host p full same pos int (nothing e) = subst (IsKept width) (sym e) kept
  start-IsKept host p full same pos int (refused busy e) =
      subst (IsKept width) (sym (e ∙ ap (λ file. record os { file = file }) (refused-same p busy)))
        kept
  start-IsKept host p full same pos int (taken free e) =
      subst (IsKept width)
        (sym (
          e
          ∙ rw (
            full,
            take-length (decimal p),
            overwrite-long (decimal p) (opened os.file).content (omega (arith, opened-short, same)),
          )))
        (locked-IsKept p same pos int free)
