-- ===== src/Program/Serves.antt =====
-- `main` of src/softbts.c as the controller sees it: from the start of the daemon through the
-- introduction of the station to the requests.
use soft_bts.Base.{
  Bool, ◌≢◌, ◌↔◌, refl, sym, arith, ℕ, ◌^◌, ◌<◌, ◌≡◌, ap, ◌∙◌, true, false, some, none, List, [],
  map, All, if◌then◌else◌,
}
use soft_bts.Base.Outcome.{ok, ◌>>=◌}
use soft_bts.Bts
use soft_bts.Bts.{Bts, Net, Event, sent, killed}
use soft_bts.Oml.Refines.{view}
use soft_bts.Trx
use soft_bts.Globals.Lasting.{granted}
use soft_bts.Daemon.{Os, opened}
use soft_bts.Daemon.Roundtrip
use soft_bts.Daemon.Roundtrip.{good_host}
use soft_bts.Message.{Object, manager, station, transceiver, carrier, channel}
use soft_bts.Site
use soft_bts.Site.History.{started}
use soft_bts.Site.Ruled.{adm, or_else, last_ruling, adm-dialogue}
use soft_bts.Site.Started.{asked, op-dialogue}
use soft_bts.Startup.{Opt, System, Listener, looping_with, start_up}
use soft_bts.Startup.Options.{IsHarmless}
use soft_bts.Startup.Begins.{start_up-connects}
use soft_bts.Loop.{Ready, World}
use soft_bts.Loop.Session.{Turn, AllListed, ready, sayings, run_refines}
use soft_bts.Site.Dialogue.{dialogue}
use soft_bts.Program.{booted, still, by_now, serve, main}
use soft_bts.Program.Round.{serve-by_now}
use soft_bts.Program.Log.{IsSent, All-reverse, AllCalm, dialogue-AllSent, perform-sent}
use mathlib.Core.List.{reverse}
use mathlib.Core.Path.{subst}

-- No object is enabled at the start.
op-init : (rsl_fd : ℕ) (o : Object) → Site.op (view (Bts.init rsl_fd)) o ≢ Site.enabled
op-init rsl_fd manager = omega arith
op-init rsl_fd station = omega arith
op-init rsl_fd transceiver = omega arith
op-init rsl_fd carrier = omega arith
op-init rsl_fd (channel ts) = ground arith

just_if :
    (b : Bool) (n : ℕ)
    → n ≢ Site.enabled
    → (if b then Site.enabled else n) ≡ Site.enabled
    → b ≡ true
just_if true n ne e = refl
just_if false n ne e = absurd (ne e)

-- Options that are gone on after, and a system on which the daemon starts and both links connect.
pub record ComesUp (sys : System) (opts : List Opt) (os : Os) (oml_fd rsl_fd : ℕ) : Type 0 where
  pub harmless : All IsHarmless opts
  pub memory : sys.memory ≡ granted
  pub host : sys.host ≡ good_host sys.pid
  pub pid : sys.pid < 10 ^ 9
  pub free : (opened os.file).holder ≡ none
  pub oml : sys.oml ≡ record { socket = some oml_fd; connect = true; register = true }
  pub rsl : sys.rsl ≡ record { socket = some rsl_fd; connect = true; register = true }

main_lem :
    (net : Net) (fuel : ℕ) (sys : System) (opts : List Opt) (events : List Ready) (os : Os)
    → (oml_fd rsl_fd : ℕ) {listener : Listener} {os1 : Os}
    → start_up sys false opts os ≡ ok (looping_with (some oml_fd) (some rsl_fd) listener os1)
    → main net fuel sys false opts events os ≡ serve net fuel sys events (booted oml_fd rsl_fd) os1
unfolding main
main_lem net fuel sys opts events os oml_fd rsl_fd e = rw (e, ◌>>=◌)

module _ (net : Net) (fuel : ℕ) (sys : System) (opts : List Opt) (os : Os) (oml_fd rsl_fd : ℕ)
    (turns : List (Turn fuel)) (up : ComesUp sys opts os oml_fd rsl_fd)
    (listed : AllListed turns Trx.init.fds) where
  -- The program goes through the calls that the specification makes.
  pub performs :
      (w : World) × (main net fuel sys false opts (map ready turns) os
        ≡ by_now sys w (Roundtrip.started sys.pid os))
      × ((view w.bts, w.bts.log) ≡ dialogue net oml_fd (sayings turns) (view (Bts.init rsl_fd)) [])
  performs =
      let (w, runs, same) = run_refines net fuel turns (booted oml_fd rsl_fd) listed in
      let start =
        start_up-connects sys opts os oml_fd rsl_fd up.harmless up.memory up.host up.free up.oml
          up.rsl in
      (
        w,
        main_lem net fuel sys opts (map ready turns) os oml_fd rsl_fd start
            ∙ serve-by_now sys net fuel turns (booted oml_fd rsl_fd) (Roundtrip.started sys.pid os)
                listed runs,
        same,
      )

  module _ (calm : AllCalm net oml_fd (sayings turns) (view (Bts.init rsl_fd)) []) where
    -- From the start of the daemon to any number of messages: where the daemon starts and both links
    -- connect, whatever is said in messages that arrive whole (requests, the manufacturer's message,
    -- pings, requests for the identity, and information of the signalling protocol), on its two links
    -- to the controller or by transceivers that are connected, which may connect at any time, and where
    -- no answer has the station end itself (every identity can be sent, and no ping finds the unset
    -- variable below 0): `main` comes to no fault and its daemon goes on, the station goes through the
    -- specified states, and what is sent is what is specified, in order, and nothing else.
    pub main_serves :
        (w : World) × (main net fuel sys false opts (map ready turns) os
          ≡ ok (reverse w.bts.log, some w, Roundtrip.started sys.pid os))
        × ((view w.bts, w.bts.log)
            ≡ dialogue net oml_fd (sayings turns) (view (Bts.init rsl_fd)) [])
    unfolding by_now still
    main_serves =
        let (w, runs, same) = performs in
        let all_sent : All IsSent w.bts.log =
          subst (All IsSent) (sym (ap (λ r. r.1) same))
            (dialogue-AllSent net oml_fd (sayings turns) (view (Bts.init rsl_fd)) [] calm tt) in
        let start = Roundtrip.started sys.pid os in
        (
          w,
          runs
              ∙ ap (λ o. o >>= λ r. ok (r.0, still r.1 w, r.2))
                  (perform-sent sys start (reverse w.bts.log) (All-reverse w.bts.log all_sent)),
          same,
        )

    -- After a run of `main` from its start, on a system where the daemon starts and both links
    -- connect, on messages that arrive whole, and where no answer has the station end itself: the
    -- daemon goes on, and an object is enabled just if one of the requests that were made on any link
    -- has started it, whatever else was said.
    pub main-started :
        (o : Object)
        → (sends : List Event) × (w : World) × (main net fuel sys false opts (map ready turns) os
            ≡ ok (sends, some w, Roundtrip.started sys.pid os))
          × ((Site.op (view w.bts) o ≡ Site.enabled) ↔ (started o (asked (sayings turns)) ≡ true))
    main-started o =
        let (w, runs, same) = main_serves in
        let op =
          ap (λ r. Site.op r.0 o) same
          ∙ op-dialogue net o oml_fd (sayings turns) (view (Bts.init rsl_fd)) [] in
        (
          reverse w.bts.log,
          w,
          runs,
          (λ e. just_if _ _ (op-init rsl_fd o) (sym op ∙ e), λ h. op ∙ rw h refl),
        )

    -- After a run of `main` from its start, on a system where the daemon starts and both links
    -- connect, on messages that arrive whole, and where no answer has the station end itself: the
    -- daemon goes on, and the administrative state of an object is the last one that a request on any
    -- link has given it (the start of the site manager unlocks it), and the one that the program
    -- starts with if none has.
    pub main-ruled :
        (o : Object)
        → (sends : List Event) × (w : World) × (main net fuel sys false opts (map ready turns) os
            ≡ ok (sends, some w, Roundtrip.started sys.pid os))
          × (adm (view w.bts) o
              ≡ or_else (last_ruling o (asked (sayings turns))) (adm (view (Bts.init rsl_fd)) o))
    main-ruled o =
        let (w, runs, same) = main_serves in
        (
          reverse w.bts.log,
          w,
          runs,
          ap (λ r. adm r.0 o) same
              ∙ adm-dialogue net o oml_fd (sayings turns) (view (Bts.init rsl_fd)) [],
        )
