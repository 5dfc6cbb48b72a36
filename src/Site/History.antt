-- ===== src/Site/History.antt =====
-- What a history of requests comes to in the specification.
use soft_bts.Base.{
  ◌≡◌, refl, ◌∙◌, Bool, true, false, List, [], ◌∷◌, ◌==◌, ◌||◌, if◌then◌else◌, arith,
}
use soft_bts.Message.{
  Object, manager, station, transceiver, carrier, channel, Request, confirm, activate, start,
  configure_station, administer,
}
use soft_bts.Site.{Site, next, op, enabled}

unfoldable pub history : List Request → Site → Site
history [] s = s
history (r ∷ rs) s = history rs (next r s)

-- Whether a request takes the object into operation.
abbrev pub starts : Object → Request → Bool
starts manager (start manager) = true
starts station (start station) = true
starts transceiver (start transceiver) = true
starts carrier (start carrier) = true
starts (channel i) (start (channel j)) = i == j
starts _ _ = false

abbrev pub started : Object → List Request → Bool
started o [] = false
started o (r ∷ rs) = starts o r || started o rs

-- A request enables the object that it starts, and leaves the operational state of all others.
pub op-next :
    (o : Object) (r : Request) (s : Site)
    → op (next r s) o ≡ (if starts o r then enabled else op s o)
unfolding next
op-next manager (confirm manager) s = refl
op-next manager (activate manager) s = refl
op-next manager (start manager) s = refl
op-next manager configure_station s = refl
op-next manager (administer manager adm) s = refl
op-next manager _ s = refl
op-next station (confirm manager) s = refl
op-next station (activate manager) s = refl
op-next station (start manager) s = refl
op-next station configure_station s = refl
op-next station (administer manager adm) s = refl
op-next station _ s = refl
op-next transceiver (confirm manager) s = refl
op-next transceiver (activate manager) s = refl
op-next transceiver (start manager) s = refl
op-next transceiver configure_station s = refl
op-next transceiver (administer manager adm) s = refl
op-next transceiver _ s = refl
op-next carrier (confirm manager) s = refl
op-next carrier (activate manager) s = refl
op-next carrier (start manager) s = refl
op-next carrier configure_station s = refl
op-next carrier (administer manager adm) s = refl
op-next carrier _ s = refl
op-next (channel i) (confirm manager) s = refl
op-next (channel i) (activate manager) s = refl
op-next (channel i) (start manager) s = refl
op-next (channel i) configure_station s = refl
op-next (channel i) (administer manager adm) s = refl
op-next (channel i) _ s = refl

-- The operational state of an object tells whether it was ever started.
pub op-history :
    (o : Object) (rs : List Request) (s : Site)
    → op (history rs s) o ≡ (if started o rs then enabled else op s o)
unfolding history
op-history o [] s = refl
op-history o (r ∷ rs) s = op-history o rs (next r s) ∙ ground (arith, op-next o r s)
