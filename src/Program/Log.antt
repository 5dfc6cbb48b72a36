-- ===== src/Program/Log.antt =====
-- The log of a run: what was sent, with no call of `kill_background` in between.
use soft_bts.Base.{
  Bool, true, false, if◌then◌else◌, Bool-cases, inl, inr, ℕ, ◌≡◌, refl, sym, ap, ◌∙◌, List, [], ◌∷◌,
  ◌++◌, All,
}
use mathlib.Core.List.{reverse, reverse-cons, append_assoc}
use mathlib.Core.Path.{subst}
use soft_bts.Base.Outcome.{ok, ◌>>=◌}
use soft_bts.Message.{Message, encode}
use soft_bts.Site.{Site}
use soft_bts.Bts.{Net, Event, sent, killed}
use soft_bts.Link.{id_resp, pong}
use soft_bts.Link.Identify.{introduction}
use soft_bts.Oml.{init_rsl_link, id_ack, null_msg}
use soft_bts.Oml.Connect.{radio_reports}
use soft_bts.Site
use soft_bts.Site.Dialogue.{
  Said, asks, connects, pings, identifies, silent, heard, identity, dialogue, Spoken, on, Line,
  fd_of,
}
use soft_bts.Bts.Log.{transmit}
use soft_bts.Daemon.{Os, exits, returns}
use soft_bts.Startup.{System, kill}
use soft_bts.Program.{perform}

abbrev pub IsSent : Event → Type 0
IsSent (sent sd frame) = Unit {0}
IsSent killed = ⊥

pub All-append : (xs ys : List Event) → All IsSent xs → All IsSent ys → All IsSent (xs ++ ys)
All-append [] ys h k = k
All-append (x ∷ xs) ys h k = (h.0, All-append xs ys h.1 k)

pub All-reverse : (xs : List Event) → All IsSent xs → All IsSent (reverse xs)
All-reverse [] h = tt
All-reverse (x ∷ xs) h =
    subst (All IsSent) (sym (reverse-cons x xs))
      (All-append (reverse xs) (x ∷ []) (All-reverse xs h.1) (h.0, tt))

-- A log that goes on from an older one.
abbrev pub Extends : List Event → List Event → Type 0
Extends log log' = (new : List Event) × (log' ≡ new ++ log)

Extends-trans : (a b c : List Event) → Extends a b → Extends b c → Extends a c
Extends-trans a b c (x, e) (y, f) = (y ++ x, f ∙ ap (λ l. y ++ l) e ∙ sym (append_assoc y x a))

transmit-Extends :
    (sd : ℕ) (ms : List Message) (log : List Event) → Extends log (transmit sd ms log)
transmit-Extends sd [] log = ([], refl)
transmit-Extends sd (m ∷ ms) log =
    Extends-trans log (sent sd (encode m) ∷ log) (transmit sd (m ∷ ms) log)
      (sent sd (encode m) ∷ [], refl) (transmit-Extends sd ms (sent sd (encode m) ∷ log))

Extends-if :
    (b : Bool) (log l k : List Event)
    → Extends log l
    → Extends log k
    → Extends log (if b then l else k)
Extends-if true log l k el ek = el
Extends-if false log l k el ek = ek

All-transmit :
    (sd : ℕ) (ms : List Message) (log : List Event)
    → All IsSent log
    → All IsSent (transmit sd ms log)
All-transmit sd [] log h = h
All-transmit sd (m ∷ ms) log h = All-transmit sd ms (sent sd (encode m) ∷ log) (tt, h)

-- Messages whose answers do not have the station end itself: every one but a ping that does, and a
-- request for the identity where the answer cannot be sent.
abbrev pub IsCalm : Net → ℕ → Said → List Event → Type 0
IsCalm net sd (pings ends) log = ends ≡ false
IsCalm net sd identifies log = net log sd id_resp ≡ true
IsCalm net sd _ log = Unit {0}

-- All messages are, each after those before it.
abbrev pub AllCalm : Net → ℕ → List Spoken → Site → List Event → Type 0
AllCalm net oml_fd [] v log = Unit {0}
AllCalm net oml_fd (on line m ∷ ms) v log =
    let (v1, log1) = heard net (fd_of oml_fd line v) m v log in
    IsCalm net (fd_of oml_fd line v) m log × AllCalm net oml_fd ms v1 log1

-- A message whose answer has the station end itself.
abbrev pub IsFatal : Net → ℕ → Said → List Event → Type 0
IsFatal net sd (pings ends) log = ends ≡ true
IsFatal net sd identifies log = net log sd id_resp ≡ false
IsFatal net sd _ log = ⊥

abbrev pub last_frame : Said → List ℕ
last_frame identifies = id_resp
last_frame _ = pong

module _ (net : Net) (sd : ℕ) where
  answered-Extends :
      (v : Site) (log : List Event)
      → Extends (identity net sd log) (heard net sd identifies v log).1
  unfolding heard
  answered-Extends v log = elim (Bool-cases v.known) [
    | inl old ↦ rw old ([], refl)
    | inr new ↦ rw new (transmit-Extends sd introduction (identity net sd log))
  ]

  heard-Extends : (m : Said) (v : Site) (log : List Event) → Extends log (heard net sd m v log).1
  unfolding heard
  heard-Extends (asks r) v log = transmit-Extends sd (Site.answer r (Site.next r v)) log
  heard-Extends connects v log =
      let port = sent sd init_rsl_link ∷ log in
      Extends-if (net log sd init_rsl_link) log _ _
        (Extends-trans log port _ (sent sd init_rsl_link ∷ [], refl)
          (Extends-trans port (transmit sd (radio_reports v) port) _
            (transmit-Extends sd (radio_reports v) port)
            (sent v.signalling null_msg ∷ sent v.signalling id_ack ∷ [], refl)))
        (sent sd init_rsl_link ∷ [], refl)
  heard-Extends (pings ends) v log =
      Extends-if ends log _ _ (killed ∷ sent sd pong ∷ [], refl) (sent sd pong ∷ [], refl)
  heard-Extends identifies v log =
      Extends-trans log (identity net sd log) _
        (Extends-if (net log sd id_resp) log _ _ (sent sd id_resp ∷ [], refl)
          (killed ∷ sent sd id_resp ∷ [], refl))
        (answered-Extends v log)
  heard-Extends silent v log = ([], refl)

  heard-AllSent :
      (m : Said) (v : Site) (log : List Event)
      → IsCalm net sd m log
      → All IsSent log
      → All IsSent (heard net sd m v log).1
  unfolding heard
  heard-AllSent (asks r) v log calm h = All-transmit sd (Site.answer r (Site.next r v)) log h
  heard-AllSent connects v log calm h = elim (Bool-cases (net log sd init_rsl_link)) [
    | inl good ↦
        rw good (tt, (tt, All-transmit sd (radio_reports v) (sent sd init_rsl_link ∷ log) (tt, h)))
    | inr bad ↦ rw bad (tt, h)
  ]
  heard-AllSent (pings ends) v log calm h = rw calm (tt, h)
  heard-AllSent identifies v log calm h = elim (Bool-cases v.known) [
    | inl old ↦ rw (old, calm) (tt, h)
    | inr new ↦ rw (new, calm) (All-transmit sd introduction (sent sd id_resp ∷ log) (tt, h))
  ]
  heard-AllSent silent v log calm h = h

  heard-IsFatal :
      (m : Said) (v : Site) (log : List Event)
      → IsFatal net sd m log
      → Extends (killed ∷ sent sd (last_frame m) ∷ log) (heard net sd m v log).1
  unfolding heard
  heard-IsFatal (asks r) v log h = absurd h
  heard-IsFatal connects v log h = absurd h
  heard-IsFatal (pings ends) v log h = ([], rw h refl)
  heard-IsFatal identifies v log h =
      let (new, e) = answered-Extends v log in
      (
        new,
        e
            ∙ ap (λ b. new ++ (if b then sent sd id_resp ∷ log else killed ∷ sent sd id_resp ∷ log))
                h,
      )
  heard-IsFatal silent v log h = absurd h

module _ (net : Net) (oml_fd : ℕ) where
  pub dialogue-Extends :
      (ms : List Spoken) (v : Site) (log : List Event)
      → Extends log (dialogue net oml_fd ms v log).1
  unfolding dialogue
  dialogue-Extends [] v log = ([], refl)
  dialogue-Extends (on line m ∷ ms) v log =
      let sd = fd_of oml_fd line v in
      let r = heard net sd m v log in
      Extends-trans log r.1 (dialogue net oml_fd ms r.0 r.1).1 (heard-Extends net sd m v log)
        (dialogue-Extends ms r.0 r.1)

  pub dialogue-AllSent :
      (ms : List Spoken) (v : Site) (log : List Event)
      → AllCalm net oml_fd ms v log
      → All IsSent log
      → All IsSent (dialogue net oml_fd ms v log).1
  unfolding dialogue
  dialogue-AllSent [] v log calm h = h
  dialogue-AllSent (on line m ∷ ms) v log calm h =
      let sd = fd_of oml_fd line v in
      let r = heard net sd m v log in
      dialogue-AllSent ms r.0 r.1 calm.1 (heard-AllSent net sd m v log calm.0 h)

  dialogue-append :
      (pre post : List Spoken) (v : Site) (log : List Event)
      → let r = dialogue net oml_fd pre v log in
        dialogue net oml_fd (pre ++ post) v log ≡ dialogue net oml_fd post r.0 r.1
  unfolding dialogue
  dialogue-append [] post v log = refl
  dialogue-append (on line m ∷ pre) post v log =
      let r = heard net (fd_of oml_fd line v) m v log in dialogue-append pre post r.0 r.1

  -- A dialogue up to its first message whose answer has the station end itself, and beyond it.
  pub dialogue-IsFatal :
      (pre post : List Spoken) (line : Line) (m : Said) (v : Site) (log : List Event)
      → let (v1, log1) = dialogue net oml_fd pre v log in
        let sd = fd_of oml_fd line v1 in
        IsFatal net sd m log1
        → Extends
            (killed ∷ sent sd (last_frame m) ∷ log1)
            (dialogue net oml_fd (pre ++ on line m ∷ post) v log).1
  unfolding dialogue
  dialogue-IsFatal pre post line m v log fatal =
      let (v1, log1) = dialogue net oml_fd pre v log in
      let sd = fd_of oml_fd line v1 in
      let r = heard net sd m v1 log1 in
      let (new, e) =
        Extends-trans (killed ∷ sent sd (last_frame m) ∷ log1) r.1
          (dialogue net oml_fd post r.0 r.1).1 (heard-IsFatal net sd m v1 log1 fatal)
          (dialogue-Extends post r.0 r.1) in
      (new, ap (λ d. d.1) (dialogue-append pre (on line m ∷ post) v log) ∙ e)

module _ (sys : System) (os : Os) where
  pub perform-sent : (es : List Event) → All IsSent es → perform sys es os ≡ ok (es, returns, os)
  unfolding perform
  perform-sent [] h = refl
  perform-sent (sent sd frame ∷ es) h = rw (perform-sent es h.1)
  perform-sent (killed ∷ es) h = absurd h.0

  -- Where `kill_background` ends the process, what comes behind it does not happen.
  pub perform-killed :
      (pre post : List Event) {status : ℕ} {os' : Os}
      → All IsSent pre
      → kill sys.removes sys.pid os ≡ ok (exits status, os')
      → perform sys (pre ++ killed ∷ post) os ≡ ok (pre, exits status, os')
  unfolding perform
  perform-killed [] post h e = rw (e, ◌>>=◌)
  perform-killed (sent sd frame ∷ pre) post h e = rw (perform-killed pre post h.1 e)
  perform-killed (killed ∷ pre) post h e = absurd h.0
