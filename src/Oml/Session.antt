-- ===== src/Oml/Session.antt =====
-- The O&M link over a whole session: one request after the other arrives in the buffer.
use soft_bts.Base.{ℕ, ◌≡◌, refl, ap, ◌∙◌, List, [], ◌∷◌, All, map, if◌then◌else◌}
use mathlib.Core.Path.{ap₂}
use soft_bts.Base.Outcome.{Outcome, ok, fault, looping, ◌>>=◌}
use soft_bts.Buffer.{Buffer}
use soft_bts.Message.{Object, Request}
use soft_bts.Site
use soft_bts.Site.{Site}
use soft_bts.Site.History.{history, started, op-history}
use soft_bts.Bts.{Bts, Net, Event}
use soft_bts.Bts.Log.{transmit}
use soft_bts.Oml.{oml_msg}
use soft_bts.Oml.Refines.{view, observe, Holds, oml_msg_refines}

-- A request and the buffer in which it arrives; the rest of the buffer is whatever it is.
pub record Arrival : Type 0 where
  pub request : Request
  pub content : Buffer

module _ (net : Net) (fuel sd : ℕ) where
  -- Each message overwrites the buffer before `oml_msg` is called.
  pub serve : List Arrival → Bts → Outcome Bts
  serve [] s = ok s
  serve (a ∷ rest) s = oml_msg net fuel sd (record s { buf = a.content }) >>= serve rest

-- The session of the specification: the site, and the log behind an older one.
pub session : ℕ → List Arrival → Site → List Event → Site × List Event
session sd [] s log = (s, log)
session sd (a ∷ rest) s log =
    let s' = Site.next a.request s in
    session sd rest s' (transmit sd (Site.answer a.request s') log)

observe-inv :
    (r : Outcome Bts) (v : Site) (log : List Event)
    → observe r ≡ ok (v, log)
    → (s : Bts) × (r ≡ ok s) × (view s ≡ v) × (s.log ≡ log)
observe-inv (ok s) v log e = (s, refl, cc, cc)
observe-inv fault v log e = cc
observe-inv looping v log e = cc

module _ (net : Net) (fuel sd : ℕ) where
  -- A session of requests, of any length and in any order, goes as the specification says: it
  -- comes to an end without a fault, in the specified states, and with the specified messages.
  pub serve_refines :
      (arrivals : List Arrival) (s : Bts)
      → All (λ a. Holds fuel a.request a.content) arrivals
      → observe (serve net fuel sd arrivals s) ≡ ok (session sd arrivals (view s) s.log)
  unfolding serve session
  serve_refines [] s h = refl
  serve_refines (a ∷ rest) s h =
      let (t, e, v, l) =
        observe-inv _ _ _
          (oml_msg_refines net fuel sd a.request (record s { buf = a.content }) h.0) in
      rw (e) (serve_refines rest t h.1 ∙ ap₂ (λ w k. ok (session sd rest w k)) v l)

session-history :
    (sd : ℕ) (arrivals : List Arrival) (v : Site) (log : List Event)
    → (session sd arrivals v log).0 ≡ history (map (λ a. a.request) arrivals) v
unfolding session history
session-history sd [] v log = refl
session-history sd (a ∷ rest) v log =
    session-history sd rest (Site.next a.request v)
      (transmit sd (Site.answer a.request (Site.next a.request v)) log)

-- After a session of requests, which comes to an end without a fault, the operational state of an
-- object is enabled if one of the requests has started it, and is what it was before if none has.
pub serve-started :
    (net : Net) (fuel sd : ℕ) (arrivals : List Arrival) (s : Bts) (o : Object)
    → All (λ a. Holds fuel a.request a.content) arrivals
    → (s' : Bts) × (serve net fuel sd arrivals s ≡ ok s')
      × (Site.op (view s') o ≡ (
          if started o (map (λ a. a.request) arrivals) then Site.enabled else Site.op (view s) o))
serve-started net fuel sd arrivals s o h =
    let (t, e, v, l) = observe-inv _ _ _ (serve_refines net fuel sd arrivals s h) in
    (
      t,
      e,
      ap (λ w. Site.op w o) (v ∙ session-history sd arrivals (view s) s.log)
          ∙ op-history o (map (λ a. a.request) arrivals) (view s),
    )
