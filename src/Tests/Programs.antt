-- ===== src/Tests/Programs.antt =====
-- The program from its start: the controller asks for the identity, a transceiver connects, and the
-- site manager is started.
use soft_bts.Base.{
  ◌↔◌, List, ℕ, ◌≡◌, refl, true, false, some, none, [], ◌∷◌, ◌==◌, if◌then◌else◌, arith,
}
use soft_bts.Base.Outcome.{ok}
use soft_bts.Message
use soft_bts.Message.{manager}
use soft_bts.Bts
use soft_bts.Bts.{Net, Event, sent}
use soft_bts.Oml.Refines.{view}
use soft_bts.Link.{id_resp}
use soft_bts.Daemon.{Os}
use soft_bts.Daemon.Kept.{idle}
use soft_bts.Daemon.Roundtrip.{started}
use soft_bts.Startup.{System}
use soft_bts.Loop.{World}
use soft_bts.Site
use soft_bts.Nm.{AdmState, adm_code}
use soft_bts.Site.Ruled.{adm}
use soft_bts.Site.Dialogue.{Spoken, on, controller, transceiver, asks, identifies, silent, dialogue}
use soft_bts.Program.{main}
use soft_bts.Program.Log.{AllCalm}
use mathlib.Core.List.{reverse}
use soft_bts.Program.Serves.{ComesUp, main_serves, main-started, main-ruled}
use soft_bts.Program.Ends.{main_killed}
use soft_bts.Tests.{good_net}
use soft_bts.Tests.Runs.{turns, said, events, turns-AllListed}
use soft_bts.Tests.Startups.{opts, system}

abbrev connected : System
connected = record system {
  oml = record { socket = some 4; connect = true; register = true };
  rsl = record { socket = some 9; connect = true; register = true };
}

idle-ComesUp : ComesUp connected opts idle 4 9
idle-ComesUp = record {
  harmless = (tt, (omega arith, tt));
  memory = refl;
  host = refl;
  pid = omega arith;
  free = refl;
  oml = refl;
  rsl = refl;
}

-- The one identity that is asked for can be sent.
calm : AllCalm good_net 4 said (view (Bts.init 9)) []
calm = (refl, (tt, (tt, tt)))

main_serves_example :
    (w : World) × (main good_net 1 connected false opts events idle
      ≡ ok (reverse w.bts.log, some w, started 1234 idle))
    × ((view w.bts, w.bts.log) ≡ dialogue good_net 4 said (view (Bts.init 9)) [])
main_serves_example =
    main_serves good_net 1 connected opts idle 4 9 turns idle-ComesUp turns-AllListed calm

main-started_example :
    (sends : List Event) × (w : World) × (main good_net 1 connected false opts events idle
      ≡ ok (sends, some w, started 1234 idle))
    × ((Site.op (view w.bts) manager ≡ Site.enabled) ↔ (true ≡ true))
main-started_example =
    main-started good_net 1 connected opts idle 4 9 turns idle-ComesUp turns-AllListed calm manager

main-ruled_example :
    (sends : List Event) × (w : World) × (main good_net 1 connected false opts events idle
      ≡ ok (sends, some w, started 1234 idle))
    × (adm (view w.bts) manager ≡ adm_code AdmState.unlocked)
main-ruled_example =
    main-ruled good_net 1 connected opts idle 4 9 turns idle-ComesUp turns-AllListed calm manager

-- A network on which nothing can be sent.
abbrev bad_net : Net
bad_net log sd frame = false

abbrev later : List Spoken
later = on (transceiver 11) silent ∷ on (transceiver 11) (asks (Message.start manager)) ∷ []

main_killed_example :
    (os' : Os) × (main bad_net 1 connected false opts events idle
      ≡ ok (sent 4 id_resp ∷ [], none, os'))
    × (os'.file ≡ none)
    × (os'.running 1234 ≡ false)
    × ((q : ℕ) → os'.told q ≡ (if q == 1234 then false else false))
unfolding dialogue
main_killed_example =
    main_killed bad_net 1 connected opts idle 4 9 turns idle-ComesUp turns-AllListed [] later
      controller identifies refl refl (omega arith) (omega arith) tt refl
