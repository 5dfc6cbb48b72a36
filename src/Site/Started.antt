-- ===== src/Site/Started.antt =====
-- Which objects are in operation after a dialogue.
use soft_bts.Base.{ℕ, ◌≡◌, refl, ap, ◌∙◌, Bool-cases, inl, inr, List, [], ◌∷◌, if◌then◌else◌, arith}
use soft_bts.Message.{Object, manager, station, transceiver, carrier, channel, Request}
use soft_bts.Site
use soft_bts.Site.{Site, enabled}
use soft_bts.Site.History.{started, op-next}
use soft_bts.Site.Dialogue.{
  Spoken, on, fd_of, asks, connects, pings, identifies, silent, heard, dialogue,
}
use soft_bts.Bts.{Net, Event}
use soft_bts.Link.Identify.{introduced}

-- The requests among what was said.
abbrev pub asked : List Spoken → List Request
asked [] = []
asked (on line (asks r) ∷ ms) = r ∷ asked ms
asked (_ ∷ ms) = asked ms

op-introduced : (v : Site) (o : Object) → Site.op (introduced v) o ≡ Site.op v o
op-introduced v manager = refl
op-introduced v station = refl
op-introduced v transceiver = refl
op-introduced v carrier = refl
op-introduced v (channel ts) = refl

module _ (net : Net) (o : Object) where
  op-identifies :
      (sd : ℕ) (v : Site) (log : List Event)
      → Site.op (heard net sd identifies v log).0 o ≡ Site.op v o
  unfolding heard
  op-identifies sd v log = elim (Bool-cases v.known) [
    | inl old ↦ rw old refl
    | inr new ↦ rw new (op-introduced v o)
  ]

  pub op-dialogue :
      (oml_fd : ℕ) (ms : List Spoken) (v : Site) (log : List Event)
      → Site.op (dialogue net oml_fd ms v log).0 o
        ≡ (if started o (asked ms) then enabled else Site.op v o)
  unfolding dialogue heard
  op-dialogue oml_fd [] v log = refl
  op-dialogue oml_fd (on line (asks r) ∷ ms) v log =
      let r1 = heard net (fd_of oml_fd line v) (asks r) v log in
      op-dialogue oml_fd ms r1.0 r1.1 ∙ ground (arith, op-next o r v)
  op-dialogue oml_fd (on line connects ∷ ms) v log =
      let r1 = heard net (fd_of oml_fd line v) connects v log in op-dialogue oml_fd ms r1.0 r1.1
  op-dialogue oml_fd (on line (pings ends) ∷ ms) v log =
      let r1 = heard net (fd_of oml_fd line v) (pings ends) v log in op-dialogue oml_fd ms r1.0 r1.1
  op-dialogue oml_fd (on line identifies ∷ ms) v log =
      let sd = fd_of oml_fd line v in
      let r1 = heard net sd identifies v log in
      op-dialogue oml_fd ms r1.0 r1.1
      ∙ ap (λ n. if started o (asked ms) then enabled else n) (op-identifies sd v log)
  op-dialogue oml_fd (on line silent ∷ ms) v log = op-dialogue oml_fd ms v log
