-- ===== src/Program.antt =====
-- `main` of src/softbts.c: the way to its loop, and the loop.
pub mod Round
pub mod Serves
pub mod Log
pub mod Ends
use mathlib.Core.List.{reverse}
use soft_bts.Base.{ℕ, Bool, Option, none, some, List, [], ◌∷◌}
use soft_bts.Base.Outcome.{Outcome, ok, ◌>>=◌}
use soft_bts.Bts
use soft_bts.Bts.{Net, Event, sent, killed}
use soft_bts.Trx
use soft_bts.Daemon.{Os, Fate, exits, returns}
use soft_bts.Loop.{Ready, World, react}
use soft_bts.Startup.{Opt, System, stopped, looping_with, kill, start_up}

-- The state that the loop starts in, with the descriptors of the two links.
abbrev pub booted : ℕ → ℕ → World
booted oml_fd rsl_fd = record { bts = Bts.init rsl_fd; table = Trx.init; oml_fd = oml_fd }

-- The calls that the handlers have made, oldest first: what is sent is sent, and `kill_background`
-- ends the process where the lock file tells it.
pub perform : System → List Event → Os → Outcome (List Event × Fate × Os)
perform sys [] os = ok ([], returns, os)
perform sys (sent sd frame ∷ es) os = perform sys es os >>= λ r. ok (sent sd frame ∷ r.0, r.1, r.2)
perform sys (killed ∷ es) os = kill sys.removes sys.pid os >>= λ r. elim r.0 [
  | exits status ↦ ok ([], exits status, r.1)
  | returns ↦ perform sys es r.1
]

-- What the process leaves: the state that its loop has come to, where it has not ended itself.
pub still : Fate → World → Option World
still (exits status) w = none
still returns w = some w

-- What the process has sent by some state of the loop, and whether it is still there.
pub by_now : System → World → Os → Outcome (List Event × Option World × Os)
unfolding perform still
by_now sys w os = perform sys (reverse w.bts.log) os >>= λ r. ok (r.0, still r.1 w, r.2)

-- The loop, with the system as the start has left it. After each round all calls since the start are gone
-- through, from the oldest on: a process that has ended itself serves no further descriptor.
pub serve : Net → ℕ → System → List Ready → World → Os → Outcome (List Event × Option World × Os)
unfolding by_now
serve net fuel sys [] w os = by_now sys w os
serve net fuel sys (r ∷ rs) w os = do
  w1 ← react net fuel r w
  now ← by_now sys w1 os
  let later = serve net fuel sys rs w1 os
  elim now.1 [ none ↦ ok now | some w2 ↦ later ]

-- What the process has sent, the state that its loop has come to, or none where it has ended, and the
-- system that it leaves. `socket_init` returns with a descriptor always.
unfoldable pub main :
    Net → ℕ → System → Bool → List Opt → List Ready → Os → Outcome (List Event × Option World × Os)
unfolding serve
main net fuel sys no_arguments opts events os = do
  place ← start_up sys no_arguments opts os
  elim place [
    | stopped os1 ↦ ok ([], none, os1)
    | looping_with none rsl listener os1 ↦ ok ([], none, os1)
    | looping_with (some oml_fd) none listener os1 ↦ ok ([], none, os1)
    | looping_with (some oml_fd) (some rsl_fd) listener os1 ↦
        serve net fuel sys events (booted oml_fd rsl_fd) os1
  ]
