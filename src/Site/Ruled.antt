-- ===== src/Site/Ruled.antt =====
-- The administrative states after a dialogue.
use soft_bts.Base.{
  ℕ, ◌≡◌, refl, sym, ap, ◌∙◌, Bool-cases, inl, inr, Option, none, some, List, [], ◌∷◌, ◌==◌,
  if◌then◌else◌, arith,
}
use soft_bts.Nm.{AdmState, adm_code}
use soft_bts.Message.{
  Object, manager, station, transceiver, carrier, channel, Request, confirm, activate, start,
  configure_station, administer,
}
use soft_bts.Site.{Site, next}
use soft_bts.Site.Dialogue.{
  Spoken, on, fd_of, asks, connects, pings, identifies, silent, heard, dialogue,
}
use soft_bts.Site.Started.{asked}
use soft_bts.Bts.{Net, Event}
use soft_bts.Link.Identify.{introduced}

-- The administrative state of an object.
abbrev pub adm : Site → Object → ℕ
adm s manager = s.manager_adm
adm s station = s.station_adm
adm s transceiver = s.transceiver_adm
adm s carrier = s.carrier_adm
adm s (channel ts) = s.channel_adm ts

-- The state that a request gives an object: the site manager is unlocked by its start, and the others
-- have theirs changed.
abbrev pub rules : Object → Request → Option ℕ
rules manager (start manager) = some (adm_code AdmState.unlocked)
rules station (administer station a) = some a
rules transceiver (administer transceiver a) = some a
rules carrier (administer carrier a) = some a
rules (channel i) (administer (channel j) a) = if i == j then some a else none
rules _ _ = none

abbrev pub or_else : Option ℕ → ℕ → ℕ
or_else none n = n
or_else (some a) n = a

abbrev pub later : Option ℕ → Option ℕ → Option ℕ
later none before = before
later (some a) before = some a

-- The last state that is given.
abbrev pub last_ruling : Object → List Request → Option ℕ
last_ruling o [] = none
last_ruling o (r ∷ rs) = later (last_ruling o rs) (rules o r)

or_else-later : (x y : Option ℕ) (n : ℕ) → or_else (later x y) n ≡ or_else x (or_else y n)
or_else-later none y n = refl
or_else-later (some a) y n = refl

adm-next : (o : Object) (r : Request) (s : Site) → adm (next r s) o ≡ or_else (rules o r) (adm s o)
unfolding next
adm-next manager (confirm manager) s = refl
adm-next manager (activate manager) s = refl
adm-next manager (start manager) s = refl
adm-next manager configure_station s = refl
adm-next manager (administer manager a) s = refl
adm-next manager _ s = refl
adm-next station (confirm manager) s = refl
adm-next station (activate manager) s = refl
adm-next station (start manager) s = refl
adm-next station configure_station s = refl
adm-next station (administer manager a) s = refl
adm-next station _ s = refl
adm-next transceiver (confirm manager) s = refl
adm-next transceiver (activate manager) s = refl
adm-next transceiver (start manager) s = refl
adm-next transceiver configure_station s = refl
adm-next transceiver (administer manager a) s = refl
adm-next transceiver _ s = refl
adm-next carrier (confirm manager) s = refl
adm-next carrier (activate manager) s = refl
adm-next carrier (start manager) s = refl
adm-next carrier configure_station s = refl
adm-next carrier (administer manager a) s = refl
adm-next carrier _ s = refl
adm-next (channel i) (confirm manager) s = refl
adm-next (channel i) (activate manager) s = refl
adm-next (channel i) (start manager) s = refl
adm-next (channel i) configure_station s = refl
adm-next (channel i) (administer (channel j) a) s = ground arith
adm-next (channel i) (administer manager a) s = refl
adm-next (channel i) _ s = refl

adm-introduced : (v : Site) (o : Object) → adm (introduced v) o ≡ adm v o
adm-introduced v manager = refl
adm-introduced v station = refl
adm-introduced v transceiver = refl
adm-introduced v carrier = refl
adm-introduced v (channel ts) = refl

module _ (net : Net) (o : Object) where
  adm-identifies :
      (sd : ℕ) (v : Site) (log : List Event) → adm (heard net sd identifies v log).0 o ≡ adm v o
  unfolding heard
  adm-identifies sd v log = elim (Bool-cases v.known) [
    | inl old ↦ rw old refl
    | inr new ↦ rw new (adm-introduced v o)
  ]

  pub adm-dialogue :
      (oml_fd : ℕ) (ms : List Spoken) (v : Site) (log : List Event)
      → adm (dialogue net oml_fd ms v log).0 o ≡ or_else (last_ruling o (asked ms)) (adm v o)
  unfolding dialogue heard
  adm-dialogue oml_fd [] v log = refl
  adm-dialogue oml_fd (on line (asks r) ∷ ms) v log =
      let r1 = heard net (fd_of oml_fd line v) (asks r) v log in
      adm-dialogue oml_fd ms r1.0 r1.1
      ∙ ap (or_else (last_ruling o (asked ms))) (adm-next o r v)
      ∙ sym (or_else-later (last_ruling o (asked ms)) (rules o r) (adm v o))
  adm-dialogue oml_fd (on line connects ∷ ms) v log =
      let r1 = heard net (fd_of oml_fd line v) connects v log in adm-dialogue oml_fd ms r1.0 r1.1
  adm-dialogue oml_fd (on line (pings ends) ∷ ms) v log =
      let r1 = heard net (fd_of oml_fd line v) (pings ends) v log in
      adm-dialogue oml_fd ms r1.0 r1.1
  adm-dialogue oml_fd (on line identifies ∷ ms) v log =
      let sd = fd_of oml_fd line v in
      let r1 = heard net sd identifies v log in
      adm-dialogue oml_fd ms r1.0 r1.1
      ∙ ap (or_else (last_ruling o (asked ms))) (adm-identifies sd v log)
  adm-dialogue oml_fd (on line silent ∷ ms) v log = adm-dialogue oml_fd ms v log
