-- ===== src/Tests/Daemons.antt =====
-- Daemons that start and are ended.
use soft_bts.Base.{◌≤◌, ◌≡◌, refl, true, false, ◌==◌, if◌then◌else◌, none, some, [], ◌∷◌, ℕ, arith}
use soft_bts.Base.Outcome.{ok}
use soft_bts.Daemon.{Os, returns, signal, daemonize, kill_background, die}
use soft_bts.Daemon.Decimal.{decimal, scan_pid}
use soft_bts.Daemon.Roundtrip.{
  good_host, started, daemonize_lem, daemonize-kill_background, daemonize-stale,
}
use soft_bts.Daemon.Kept.{Reach, here, next, start, stop, finish, idle}
use soft_bts.Daemon.Exclusive.{Reach-one}

daemonize-kill_background_example :
    let os1 = (daemonize (good_host 1234) 1234 idle).1 in
    ((daemonize (good_host 1234) 1234 idle).0 ≡ returns)
    × ((os2 : Os) × (kill_background true 5 os1 ≡ ok (0, os2))
        × (os2.file ≡ none)
        × ((q : ℕ) → os2.told q ≡ (if q == 1234 then true else false)))
daemonize-kill_background_example =
    daemonize-kill_background 5 1234 idle (omega arith) (omega arith) refl (omega arith)

-- The lock file that an earlier daemon, 99999, has left.
abbrev stale : Os
stale = record idle {
  file = some (record { content = 57 ∷ 57 ∷ 57 ∷ 57 ∷ 57 ∷ []; holder = none });
}

nine : (48 ≤ 57) × (57 ≤ 57)
nine = (omega arith, omega arith)

daemonize-stale_example :
    let os1 = (daemonize (good_host 1234) 1234 stale).1 in
    ((daemonize (good_host 1234) 1234 stale).0 ≡ returns)
    × ((os2 : Os) × (kill_background true 5 os1 ≡ ok (0, os2))
        × (os2.running 1234 ≡ true)
        × (os2.told 1234 ≡ false)
        × (os2.file ≡ none)
        × ((q : ℕ) → (daemonize (good_host q) q os2).0 ≡ returns))
unfolding decimal
daemonize-stale_example =
    daemonize-stale 5 1234 stale (omega arith) (omega arith) refl (omega arith)
      (nine, (nine, (nine, (nine, (nine, tt))))) (omega arith)

-- A daemon that starts, is ended by `kill_background` and exits, and is followed by another.
first : Os
first = started 1234 idle

second : Os
unfolding first
second = signal 1234 (record first { file = none })

third : Os
unfolding second
third = die 1234 second

fourth : Os
unfolding third
fourth = started 1235 third

starts : daemonize (good_host 1234) 1234 idle ≡ (returns, first)
unfolding first
starts = daemonize_lem 1234 idle refl

stops : kill_background true 5 first ≡ ok (0, second)
unfolding kill_background scan_pid decimal first second
stops = refl

starts_again : daemonize (good_host 1235) 1235 third ≡ (returns, fourth)
unfolding fourth third second die
starts_again = daemonize_lem 1235 third refl

schedule : Reach 4 fourth
unfolding decimal die third fourth
schedule =
    next
      (next
        (next
          (next here
            (start (good_host 1234) 1234 returns refl refl (omega arith) (omega arith) starts))
          (stop true 5 0 stops))
        (finish 1234 refl))
      (start (good_host 1235) 1235 returns refl refl (omega arith) (omega arith) starts_again)

Reach-one_example : ◌≡◌ {A = ℕ} 1235 1235
unfolding fourth third second first die
Reach-one_example = Reach-one schedule 1235 1235 refl refl refl refl
