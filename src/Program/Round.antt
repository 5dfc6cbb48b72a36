-- ===== src/Program/Round.antt =====
-- The loop of `main` of src/softbts.c round by round: whether the process has ended by some round is
-- decided by all that its handlers have called until then.
use soft_bts.Base.{ℕ, ◌≡◌, refl, sym, ap, ◌∙◌, Option, none, some, List, [], ◌∷◌, ◌++◌, map}
use mathlib.Core.List.{reverse, reverse-append}
use soft_bts.Base.Outcome.{Outcome, ok, fault, looping, ◌>>=◌}
use soft_bts.Bts.{Net, Event, sent, killed}
use soft_bts.Daemon.{Os, Fate, exits, returns}
use soft_bts.Startup.{System, kill}
use soft_bts.Loop.{World, run}
use soft_bts.Loop.Session.{Turn, AllListed, ready, sayings, react_turn, run_refines}
use soft_bts.Oml.Refines.{view}
use soft_bts.Program.{perform, still, by_now, serve}
use soft_bts.Program.Log.{Extends, dialogue-Extends}

abbrev Performed : Type 0
Performed = Outcome (List Event × Fate × Os)

-- What more calls make of a process: one that has ended stays so.
abbrev Persists : Performed → Performed → Type 0
Persists (ok (es, returns, os)) later = Unit {0}
Persists (ok (es, exits status, os)) later = later ≡ ok (es, exits status, os)
Persists fault later = later ≡ fault
Persists looping later = later ≡ looping

Persists-sent :
    (e : Event) (now later : Performed)
    → Persists now later
    → Persists (now >>= λ r. ok (e ∷ r.0, r.1, r.2)) (later >>= λ r. ok (e ∷ r.0, r.1, r.2))
Persists-sent e (ok (es, returns, os)) later h = tt
Persists-sent e (ok (es, exits status, os)) later h = rw h refl
Persists-sent e fault later h = rw h refl
Persists-sent e looping later h = rw h refl

module _ (sys : System) where
  -- What `perform` does behind a call of `kill_background`.
  abbrev behind : List Event → Fate × Os → Performed
  behind es r = elim r.0 [
    | exits status ↦ ok ([], exits status, r.1)
    | returns ↦ perform sys es r.1
  ]

  behind-Persists :
      (es new : List Event) (r : Outcome (Fate × Os))
      → ((os : Os) → Persists (perform sys es os) (perform sys (es ++ new) os))
      → Persists (r >>= behind es) (r >>= behind (es ++ new))
  behind-Persists es new fault h = refl
  behind-Persists es new looping h = refl
  behind-Persists es new (ok (exits status, os)) h = refl
  behind-Persists es new (ok (returns, os)) h = h os

  perform-Persists :
      (es new : List Event) (os : Os) → Persists (perform sys es os) (perform sys (es ++ new) os)
  unfolding perform
  perform-Persists [] new os = tt
  perform-Persists (sent sd frame ∷ es) new os =
      Persists-sent (sent sd frame) _ _ (perform-Persists es new os)
  perform-Persists (killed ∷ es) new os =
      behind-Persists es new (kill sys.removes sys.pid os) (λ os1. perform-Persists es new os1)

  -- What a process has sent, given what it has performed, and whether it is still there.
  abbrev finish : World → Performed → Outcome (List Event × Option World × Os)
  unfolding still
  finish w p = p >>= λ r. ok (r.0, still r.1 w, r.2)

  abbrev go_on :
      Outcome (List Event × Option World × Os)
      → List Event × Option World × Os
      → Outcome (List Event × Option World × Os)
  go_on later r = elim r.1 [ none ↦ ok r | some w ↦ later ]

  -- A round of the loop and the rounds behind it, where they come to all that is called by then.
  goes_on :
      (w1 w2 : World) (now later : Performed)
      → Persists now later
      → (finish w1 now >>= go_on (finish w2 later)) ≡ finish w2 later
  unfolding still
  goes_on w1 w2 (ok (es, returns, os)) later h = refl
  goes_on w1 w2 (ok (es, exits status, os)) later h = rw h refl
  goes_on w1 w2 fault later h = rw h refl
  goes_on w1 w2 looping later h = rw h refl

  by_now-Extends :
      (w1 w2 : World) (os : Os)
      → Extends w1.bts.log w2.bts.log
      → (by_now sys w1 os >>= go_on (by_now sys w2 os)) ≡ by_now sys w2 os
  unfolding by_now still
  by_now-Extends w1 w2 os (new, e) =
      let oldest_first : reverse w2.bts.log ≡ reverse w1.bts.log ++ reverse new =
        ap reverse e ∙ reverse-append new w1.bts.log in
      goes_on w1 w2 (perform sys (reverse w1.bts.log) os) (perform sys (reverse w2.bts.log) os)
        (rw oldest_first (perform-Persists (reverse w1.bts.log) (reverse new) os))

  module _ (net : Net) (fuel : ℕ) where
    later-Extends :
        (turns : List (Turn fuel)) (w : World) {w' : World}
        → AllListed turns w.table.fds
        → run net fuel (map ready turns) w ≡ ok w'
        → Extends w.bts.log w'.bts.log
    later-Extends turns w {w'} listed e =
        let (w2, e2, same) = run_refines net fuel turns w listed in
        let (new, ext) = dialogue-Extends net w.oml_fd (sayings turns) (view w.bts) w.bts.log in
        let whole : w2 ≡ w' = cc in
        (new, ap (λ v. v.bts.log) (sym whole) ∙ ap (λ r. r.1) same ∙ ext)

    -- The rounds of the loop come to what all the calls of the run come to.
    pub serve-by_now :
        (turns : List (Turn fuel)) (w : World) (os : Os) {w' : World}
        → AllListed turns w.table.fds
        → run net fuel (map ready turns) w ≡ ok w'
        → serve net fuel sys (map ready turns) w os ≡ by_now sys w' os
    unfolding serve run
    serve-by_now [] w os {w'} listed e = let same : w ≡ w' = cc in ap (λ v. by_now sys v os) same
    serve-by_now (t ∷ ts) w os {w'} listed e =
        let (w1, reacts, rest) = react_turn net fuel t ts w listed in
        let k : run net fuel (map ready ts) w1 ≡ ok w' =
          sym (ap (λ o. o >>= run net fuel (map ready ts)) reacts) ∙ e in
        let later = serve-by_now ts w1 os rest k in
        ap (λ o. o >>= λ v. by_now sys v os >>= go_on (serve net fuel sys (map ready ts) v os))
          reacts
        ∙ ap (λ l. by_now sys w1 os >>= go_on l) later
        ∙ by_now-Extends w1 w' os (later-Extends ts w1 rest k)
