-- ===== src/Oml/Refines.antt =====
-- `oml_msg` against the specification of `Site`.
use soft_bts.Base.{
  ℕ, zero, suc, ◌<◌, ◌≡◌, refl, sym, ◌∙◌, ap, List, ◌==◌, false, Bool-cases, inl, inr, arith,
  ==_iff, lt→ltb,
}
use mathlib.Core.Path.{fun_ext, subst}
use soft_bts.Base.Outcome.{Outcome, ok, ◌>>=◌}
use soft_bts.Buffer.{Buffer, store}
use soft_bts.Nm.{msg_code, ObjClass, obj_code}
use soft_bts.Message.{
  Object, manager, station, transceiver, carrier, channel, Request, confirm, activate, start,
  configure_station, configure_carrier, configure_channel, administer, request_type, subject,
}
use soft_bts.Site
use soft_bts.Site.{Site}
use soft_bts.Bts.{Bts, Net, Event}
use soft_bts.Bts.Log.{transmit}
use soft_bts.Oml.{oml_msg, manufacturer}
use soft_bts.Oml.Attributes.{Cursor, bts_get_attr}
use soft_bts.Oml.Activate.{on_sw_act_req_ack, on_activate_sw, activate_channel}
use soft_bts.Oml.Opstart.{on_opstart}
use soft_bts.Oml.Admin.{on_set_bts_attr, on_set_chan_attr, on_set_radio_attr, on_chg_adm_state}

abbrev pub view : Bts → Site
view s = record {
  sw_manager = s.sw_site_manager;
  sw_station = s.sw_bts;
  manager_adm = s.manager_admin_state;
  manager_op = s.manager_opstate;
  station_adm = s.bts_admin_state;
  station_op = s.bts_opstate;
  transceiver_adm = s.baseb_transc_admin_state;
  transceiver_op = s.baseb_transc_opstate;
  carrier_adm = s.radio_carrier_admin_state;
  carrier_op = s.radio_carrier_opstate;
  channel_adm = s.channel_admin_state;
  channel_op = s.channel_opstate;
  signalling = s.rsl_fd;
  known = s.bts_id_resp;
}

-- What the caller of a handler can see.
abbrev pub observe : Outcome Bts → Outcome (Site × List Event)
observe r = r >>= λ s. ok (view s, s.log)

abbrev pub class_of : Object → ObjClass
class_of manager = ObjClass.site_manager
class_of station = ObjClass.bts
class_of transceiver = ObjClass.baseb_transc
class_of carrier = ObjClass.radio_carrier
class_of (channel ts) = ObjClass.channel

-- The time slot of a channel, where an array of eight is indexed by it.
abbrev InRange : Object → Type 0
InRange (channel ts) = ts < 8
InRange _ = Unit {0}

abbrev HasSlot : Object → Buffer → Type 0
HasSlot (channel ts) b = b 11 ≡ ts
HasSlot _ b = Unit {0}

-- What a request asks for beside its header: a time slot in range where an array is indexed by
-- it, a new state, or attributes that the walk comes through.
abbrev Wants : ℕ → Request → Buffer → Type 0
Wants fuel (start o) b = InRange o
Wants fuel (administer o adm) b = InRange o × (b 13 ≡ adm)
Wants fuel configure_station b = (c : Cursor) × (bts_get_attr fuel b ≡ ok c)
Wants fuel _ b = Unit {0}

-- A buffer that holds a formatted O&M request. Nothing is asked of its other bytes.
pub record Holds (fuel : ℕ) (r : Request) (b : Buffer) : Type 0 where
  pub formatted : b 3 ≡ 0x80
  pub typed : b 7 ≡ msg_code (request_type r)
  pub classed : b 8 ≡ obj_code (class_of (subject r))
  pub slot : HasSlot (subject r) b
  pub wants : Wants fuel r b

-- A request's bytes are put where they already are, so that the handlers compute.
store_self : (i v : ℕ) (b : Buffer) → b i ≡ v → store i v b ≡ b
store_self i v b e = fun_ext λ j. go j
  where
    go : (j : ℕ) → store i v b j ≡ b j
    go j = elim (Bool-cases (j == i)) [
      | inl hit ↦ rw hit (sym e ∙ ap b (sym ((==_iff j i).0 hit)))
      | inr miss ↦ rw miss
    ]

abbrev place_slot : Object → Buffer → Buffer
place_slot (channel ts) b = store 11 ts b
place_slot _ b = b

abbrev place : Request → Buffer → Buffer
place r b = store 3 0x80 (
    store 7 (msg_code (request_type r))
      (store 8 (obj_code (class_of (subject r))) (place_slot (subject r) b)))

place_slot_self : (o : Object) (b : Buffer) → HasSlot o b → place_slot o b ≡ b
place_slot_self (channel ts) b h = store_self 11 ts b h
place_slot_self manager b h = refl
place_slot_self _ b h = refl

place_self : {fuel : ℕ} (r : Request) (b : Buffer) → Holds fuel r b → place r b ≡ b
place_self r b h = rw (
  place_slot_self (subject r) b h.slot,
  store_self 8 _ b h.classed,
  store_self 7 _ b h.typed,
  store_self 3 _ b h.formatted,
)

module _ (net : Net) (fuel sd : ℕ) where
  abbrev Refines : Request → Bts → Type 0
  Refines r s =
      observe (oml_msg net fuel sd s)
      ≡ ok (Site.next r (view s), transmit sd (Site.answer r (Site.next r (view s))) s.log)

  -- At a request that has been put into the buffer, all but the time slot is computed.
  confirm-Refines :
      (o : Object) (s : Bts) → Refines (confirm o) (record s { buf = place (confirm o) s.buf })
  unfolding oml_msg on_sw_act_req_ack Site.next Site.answer
  confirm-Refines manager s = refl
  confirm-Refines _ s = refl

  activate_other-Refines :
      (ts : ℕ) (s : Bts)
      → (ts == 7) ≡ false
      → Refines (activate (channel ts)) (record s { buf = place (activate (channel ts)) s.buf })
  unfolding oml_msg on_activate_sw Site.next Site.answer
  activate_other-Refines ts s e = rw (e, activate_channel, manufacturer)

  activate-Refines :
      (o : Object) (s : Bts) → Refines (activate o) (record s { buf = place (activate o) s.buf })
  unfolding oml_msg on_activate_sw Site.next Site.answer
  activate-Refines manager s = refl
  activate-Refines station s = refl
  activate-Refines transceiver s = refl
  activate-Refines carrier s = refl
  activate-Refines (channel zero) s = refl
  activate-Refines (channel (suc zero)) s = refl
  activate-Refines (channel (suc (suc zero))) s = refl
  activate-Refines (channel (suc (suc (suc zero)))) s = refl
  activate-Refines (channel (suc (suc (suc (suc zero))))) s = refl
  activate-Refines (channel (suc (suc (suc (suc (suc zero)))))) s = refl
  activate-Refines (channel (suc (suc (suc (suc (suc (suc zero))))))) s = refl
  activate-Refines (channel (suc (suc (suc (suc (suc (suc (suc zero)))))))) s = refl
  activate-Refines (channel (suc (suc (suc (suc (suc (suc (suc (suc n))))))))) s =
      activate_other-Refines (suc (suc (suc (suc (suc (suc (suc (suc n)))))))) s (ground arith)

  start-Refines :
      (o : Object) (s : Bts)
      → InRange o
      → Refines (start o) (record s { buf = place (start o) s.buf })
  unfolding oml_msg on_opstart Site.next Site.answer
  start-Refines manager s h = refl
  start-Refines station s h = refl
  start-Refines transceiver s h = refl
  start-Refines carrier s h = refl
  start-Refines (channel zero) s h = refl
  start-Refines (channel (suc zero)) s h = refl
  start-Refines (channel (suc (suc zero))) s h = refl
  start-Refines (channel (suc (suc (suc zero)))) s h = refl
  start-Refines (channel (suc (suc (suc (suc zero))))) s h = refl
  start-Refines (channel (suc (suc (suc (suc (suc zero)))))) s h = refl
  start-Refines (channel (suc (suc (suc (suc (suc (suc zero))))))) s h = refl
  start-Refines (channel (suc (suc (suc (suc (suc (suc (suc zero)))))))) s h = refl
  start-Refines (channel (suc (suc (suc (suc (suc (suc (suc (suc n))))))))) s h =
      absurd (omega arith)

  configure-Refines :
      (s : Bts) (c : Cursor)
      → bts_get_attr fuel (place configure_station s.buf) ≡ ok c
      → Refines configure_station (record s { buf = place configure_station s.buf })
  unfolding oml_msg on_set_bts_attr Site.next Site.answer
  configure-Refines s c h = rw (h, ◌>>=◌)

  configure_carrier-Refines :
      (s : Bts) → Refines configure_carrier (record s { buf = place configure_carrier s.buf })
  unfolding oml_msg on_set_radio_attr Site.next Site.answer
  configure_carrier-Refines s = refl

  configure_channel-Refines :
      (ts : ℕ) (s : Bts)
      → Refines (configure_channel ts) (record s { buf = place (configure_channel ts) s.buf })
  unfolding oml_msg on_set_chan_attr Site.next Site.answer
  configure_channel-Refines ts s = refl

  administer-Refines :
      (o : Object) (adm : ℕ) (s : Bts)
      → InRange o
      → s.buf 13 ≡ adm
      → Refines (administer o adm) (record s { buf = place (administer o adm) s.buf })
  unfolding oml_msg on_chg_adm_state Site.next Site.answer
  administer-Refines manager adm s h e = refl
  administer-Refines station adm s h e = rw (← e)
  administer-Refines transceiver adm s h e = rw (← e)
  administer-Refines carrier adm s h e = rw (← e)
  administer-Refines (channel ts) adm s h e = rw (lt→ltb ts 8 h, ← e)

  place-Refines :
      (r : Request) (s : Bts) → Holds fuel r s.buf → Refines r (record s { buf = place r s.buf })
  place-Refines (confirm o) s h = confirm-Refines o s
  place-Refines (activate o) s h = activate-Refines o s
  place-Refines (start o) s h = start-Refines o s h.wants
  place-Refines configure_station s h =
      configure-Refines s h.wants.0 (rw (place_self configure_station s.buf h) h.wants.1)
  place-Refines configure_carrier s h = configure_carrier-Refines s
  place-Refines (configure_channel ts) s h = configure_channel-Refines ts s
  place-Refines (administer o adm) s h = administer-Refines o adm s h.wants.0 h.wants.1

  -- In a buffer that holds a request, `oml_msg` takes the site to the state, and sends the
  -- messages, that the specification gives for the request, and nothing else.
  pub oml_msg_refines :
      (r : Request) (s : Bts)
      → Holds fuel r s.buf
      → observe (oml_msg net fuel sd s)
        ≡ ok (Site.next r (view s), transmit sd (Site.answer r (Site.next r (view s))) s.log)
  oml_msg_refines r s h =
      subst (λ b. Refines r (record s { buf = b })) (place_self r s.buf h) (place-Refines r s h)
