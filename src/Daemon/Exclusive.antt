-- ===== src/Daemon/Exclusive.antt =====
-- The lock file of src/softbts.c over any sequence of starts, stops and ends of processes.
use soft_bts.Base.{
  ℕ, ◌<◌, ◌≡◌, ◌≢◌, inl, inr, sym, ap, ◌∙◌, Bool, true, false, ◌==◌, some, arith, Bool-cases,
  Option-cases,
}
use mathlib.Core.Path.{subst}
use soft_bts.Base.Outcome.{Outcome, ok, >>=-eq-ok}
use soft_bts.Daemon.{LockFile, Os, end_recorded, kill_opened, unlock, kill_background, die}
use soft_bts.Daemon.Decimal.{scan_pid, scan_pid-decimal}
use soft_bts.Daemon.Effects.{
  Effect, daemonize-Effect, end_recorded-running, end_recorded-told, end_recorded-file,
  release-some,
}
use soft_bts.Daemon.Kept.{Step, start, stop, finish, idle, Reach, here, next, IsKept, start-IsKept}

same : {n m : ℕ} {a b : Os} → ◌≡◌ {A = Outcome (ℕ × Os)} (ok (n, a)) (ok (m, b)) → a ≡ b
same e = cc

module _ {width : ℕ} {os : Os} (kept : IsKept width os) where
  -- Whoever is the holder is told to end.
  module _ (removes : Bool) (caller pid : ℕ) (f : LockFile) (at : os.file ≡ some f)
      (scan : scan_pid f.content ≡ ok pid) where
    holder-pid : (q : ℕ) → f.holder ≡ some q → (pid ≡ q) × (0 < q)
    holder-pid q by =
        let (c, pos, int) = kept.recorded f q at by in
        let both : ok pid ≡ ok q = sym scan ∙ ap scan_pid c ∙ scan_pid-decimal q int in (cc, pos)

    ended-held :
        (q : ℕ)
        → (end_recorded removes caller pid f os).running q ≡ true
        → (end_recorded removes caller pid f os).told q ≢ false
    ended-held q runs untold =
        let before = end_recorded-told removes caller pid q f os untold in
        let (g, here_too, by) =
          kept.held q (sym (end_recorded-running removes caller pid q f os) ∙ runs) before.0 in
        let by' : f.holder ≡ some q = cc in
        let (e, pos) = holder-pid q by' in
        absurd (
          before.1 (omega (arith, e)) e
            (sym (end_recorded-running removes caller pid q f os) ∙ runs))

    ended-IsKept : IsKept width (end_recorded removes caller pid f os)
    ended-IsKept = record {
      short = λ f' e. rw (end_recorded-file removes caller pid 0 f os f' e) (kept.short f at);
      recorded = λ f' q e by.
          let was = end_recorded-file removes caller pid q f os f' e in
          let told =
            kept.recorded f q at
              (release-some caller q f.holder (sym (ap (λ g. g.holder) was) ∙ by)).0 in
          (ap (λ g. g.content) was ∙ told.0, told.1, told.2);
      held = λ q runs untold. absurd (ended-held q runs untold);
    }

  die-file :
      (p : ℕ) (f : LockFile)
      → (die p os).file ≡ some f
      → (g : LockFile) × (os.file ≡ some g) × (f ≡ unlock p g)
  unfolding die
  die-file p f e = elim (Option-cases os.file) [
    | inl gone ↦ cc (rw gone at e)
    | inr (g, at) ↦ let same : some (unlock p g) ≡ some f = rw at at e in (g, at, cc)
  ]

  die-held :
      (p q : ℕ)
      → (die p os).running q ≡ true
      → (die p os).told q ≡ false
      → (f : LockFile) × ((die p os).file ≡ some f) × (f.holder ≡ some q)
  unfolding die
  die-held p q runs untold = elim (Bool-cases (q == p)) [
    | inl hit ↦ cc (rw hit at runs)
    | inr miss ↦
        let (f, at, by) = kept.held q (rw miss at runs) (rw miss at untold) in
        (unlock p f, rw at, rw (by, miss))
  ]

  die-IsKept : (p : ℕ) → IsKept width (die p os)
  die-IsKept p = record {
    short = λ f e. let (g, at, was) = die-file p f e in rw was (kept.short g at);
    recorded = λ f q e by.
        let (g, at, was) = die-file p f e in
        let told =
          kept.recorded g q at (release-some p q g.holder (sym (ap (λ h. h.holder) was) ∙ by)).0 in
        (ap (λ h. h.content) was ∙ told.0, told.1, told.2);
    held = die-held p;
  }

  stop-IsKept :
      {os' : Os} (removes : Bool) (caller n : ℕ)
      → kill_background removes caller os ≡ ok (n, os')
      → IsKept width os'
  unfolding kill_background kill_opened
  stop-IsKept {os'} removes caller n e = elim (Option-cases os.file) [
    | inl gone ↦
        let shown : ok (1, os) ≡ ok (n, os') =
          subst (λ file. kill_opened removes caller file os ≡ ok (n, os')) gone e in
        subst (IsKept width) (same shown) kept
    | inr (f, at) ↦
        let (pid, scan, shown) = >>=-eq-ok (scan_pid f.content) _ (rw (at, kill_background) at e) in
        subst (IsKept width) (same shown) (ended-IsKept removes caller pid f at scan)
  ]

  Step-IsKept : {os' : Os} → Step width os os' → IsKept width os'
  Step-IsKept (start host p fate full same pos fits e) =
      start-IsKept kept host p full same pos (omega (arith, fits))
        (subst (Effect host p os) (ap (λ r. r.1) e) (daemonize-Effect host p os))
  Step-IsKept (stop removes caller n e) = stop-IsKept removes caller n e
  Step-IsKept (finish p e) = subst (IsKept width) e (die-IsKept p)

idle-IsKept : (width : ℕ) → IsKept width idle
idle-IsKept width = record {
  short = λ f e. cc;
  recorded = λ f p e h. cc;
  held = λ p runs untold. cc;
}

Reach-IsKept : {width : ℕ} {os : Os} → Reach width os → IsKept width os
Reach-IsKept {width} here = idle-IsKept width
Reach-IsKept (next before step) = Step-IsKept (Reach-IsKept before) step

-- In any sequence of starts, stops and ends of processes from a system without daemons and lock
-- file, whose ids have the same number of at most nine digits and are written whole, at most one
-- daemon runs that has not been told to end.
pub Reach-one :
    {width : ℕ} {os : Os}
    → Reach width os
    → (p q : ℕ) → os.running p ≡ true
    → os.told p ≡ false
    → os.running q ≡ true
    → os.told q ≡ false
    → p ≡ q
Reach-one r p q runs_p untold_p runs_q untold_q =
    let (f, at_f, by_f) = (Reach-IsKept r).held p runs_p untold_p in
    let (g, at_g, by_g) = (Reach-IsKept r).held q runs_q untold_q in cc
