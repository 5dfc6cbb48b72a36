-- ===== src/Program/Ends.antt =====
-- The whole program of src/softbts.c as the controller sees it, `kill_background` included.
use soft_bts.Base.{
  ℕ, ◌<◌, ◌≤◌, ◌≡◌, ap, ◌∙◌, true, false, ◌==◌, if◌then◌else◌, none, List, [], ◌∷◌, ◌++◌, map,
  length, All,
}
use mathlib.Core.List.{reverse, reverse-append, reverse-cons, append_assoc}
use soft_bts.Base.Outcome.{ok, ◌>>=◌}
use soft_bts.Bts
use soft_bts.Bts.{Net, Event, sent, killed}
use soft_bts.Oml.Refines.{view}
use soft_bts.Trx
use soft_bts.Daemon.{Os, opened, exits}
use soft_bts.Daemon.Decimal.{decimal}
use soft_bts.Daemon.Roundtrip.{started}
use soft_bts.Startup.{Opt, System, kill}
use soft_bts.Startup.Refused.{kill-started}
use soft_bts.Loop.Session.{Turn, AllListed, ready, sayings}
use soft_bts.Site.Dialogue.{Said, Spoken, on, Line, fd_of, dialogue}
use soft_bts.Program.{main, perform, still, by_now}
use soft_bts.Program.Log.{
  IsSent, All-reverse, AllCalm, IsFatal, last_frame, dialogue-AllSent, dialogue-IsFatal,
  perform-killed,
}
use soft_bts.Program.Serves.{ComesUp, performs}

reverse-killed :
    (new log : List Event) → reverse (new ++ killed ∷ log) ≡ reverse log ++ killed ∷ reverse new
reverse-killed new log =
    reverse-append new (killed ∷ log)
    ∙ ap (λ es. es ++ reverse new) (reverse-cons killed log)
    ∙ append_assoc (reverse log) (killed ∷ []) (reverse new)

module _ (net : Net) (fuel : ℕ) (sys : System) (opts : List Opt) (os : Os) (oml_fd rsl_fd : ℕ)
    (turns : List (Turn fuel)) (up : ComesUp sys opts os oml_fd rsl_fd)
    (listed : AllListed turns Trx.init.fds) where
  -- What the specification has sent by the end of some messages, newest first.
  abbrev pub log_of : List Spoken → List Event
  log_of ms = (dialogue net oml_fd ms (view (Bts.init rsl_fd)) []).1

  module _ (pre post : List Spoken) (line : Line) (m : Said)
      (split : sayings turns ≡ pre ++ on line m ∷ post) where
    -- The descriptor that the last answer goes to.
    abbrev last_fd : ℕ
    last_fd = fd_of oml_fd line (dialogue net oml_fd pre (view (Bts.init rsl_fd)) []).0

    -- On a system where the daemon starts and both links connect, and on messages that arrive whole:
    -- where an answer has the station end itself (the first identity that cannot be sent, or the first
    -- ping for which the unset variable is below 0), over no lock file, or over one that nobody holds
    -- and that is not longer than the process id, and where the lock file can be removed, the program
    -- has sent what is specified up to that answer, and nothing else, and the daemon has ended itself
    -- and removed the lock file, though the handlers have more to send.
    pub main_killed :
        sys.removes ≡ true
        → 0 < sys.pid
        → length (opened os.file).content ≤ length (decimal sys.pid)
        → AllCalm net oml_fd pre (view (Bts.init rsl_fd)) []
        → IsFatal net last_fd m (log_of pre)
        → (os' : Os) × (main net fuel sys false opts (map ready turns) os
            ≡ ok (reverse (sent last_fd (last_frame m) ∷ log_of pre), none, os'))
          × (os'.file ≡ none)
          × (os'.running sys.pid ≡ false)
          × ((q : ℕ) → os'.told q ≡ (if q == sys.pid then false else os.told q))
    unfolding by_now still
    main_killed removes pos short calm fatal =
        let start = started sys.pid os in
        let last = sent last_fd (last_frame m) ∷ log_of pre in
        let (new, ext) =
          dialogue-IsFatal net oml_fd pre post line m (view (Bts.init rsl_fd)) [] fatal in
        let (w, runs, same) = performs net fuel sys opts os oml_fd rsl_fd turns up listed in
        let logged : w.bts.log ≡ new ++ (killed ∷ last) =
          ap (λ r. r.1) same ∙ ap log_of split ∙ ext in
        let oldest_first = ap reverse logged ∙ reverse-killed new last in
        let all_sent : All IsSent last =
          (tt, dialogue-AllSent net oml_fd pre (view (Bts.init rsl_fd)) [] calm tt) in
        let (os', ends, gone, stopped_running, told) =
          kill-started sys.pid os pos up.pid up.free short in
        let ended : kill sys.removes sys.pid start ≡ ok (exits 0, os') =
          ap (λ r. kill r sys.pid start) removes ∙ ends in
        (
          os',
          runs
              ∙ ap (λ es. perform sys es start >>= λ r. ok (r.0, still r.1 w, r.2)) oldest_first
              ∙ ap (λ o. o >>= λ r. ok (r.0, still r.1 w, r.2))
                  (perform-killed sys start (reverse last) (reverse new) (All-reverse last all_sent)
                    ended),
          gone,
          stopped_running,
          told,
        )
