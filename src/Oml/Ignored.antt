-- ===== src/Oml/Ignored.antt =====
-- Messages that `oml_msg` of src/bts_nm.c does nothing about.
use soft_bts.Base.{ℕ, ◌≡◌, ◌≢◌, ◌⊎◌, inl, inr, false, ◌==◌, arith}
use soft_bts.Base.Outcome.{ok}
use soft_bts.Nm.{ObjClass, obj_code, MsgType, msg_code}
use soft_bts.Bts.{Bts, Net}
use soft_bts.Bts.Report.{mdisc_manuf}
use soft_bts.Oml.{oml_msg, dispatch, manufacturer}
use soft_bts.Oml.Activate.{on_sw_act_req_ack, on_activate_sw}
use soft_bts.Oml.Opstart.{on_opstart}
use soft_bts.Oml.Admin.{on_chg_adm_state}

-- The message type is none that the first `switch` has a case for.
abbrev pub IsUntyped : Bts → Type 0
IsUntyped s =
    (s.buf 7 ≢ msg_code MsgType.sw_act_req_ack)
    × (s.buf 7 ≢ msg_code MsgType.activate_sw)
    × (s.buf 7 ≢ msg_code MsgType.opstart)
    × (s.buf 7 ≢ msg_code MsgType.set_bts_attr)
    × (s.buf 7 ≢ msg_code MsgType.set_chan_attr)
    × (s.buf 7 ≢ msg_code MsgType.set_radio_attr)
    × (s.buf 7 ≢ msg_code MsgType.chg_adm_state)

-- The types whose case looks at the object class.
abbrev pub IsClassed : ℕ → Type 0
IsClassed mt =
    (mt ≡ msg_code MsgType.sw_act_req_ack)
    ⊎ ((mt ≡ msg_code MsgType.activate_sw)
        ⊎ ((mt ≡ msg_code MsgType.opstart) ⊎ (mt ≡ msg_code MsgType.chg_adm_state)))

-- The object class is none of the station's.
abbrev pub IsForeign : Bts → Type 0
IsForeign s =
    (s.buf 8 ≢ obj_code ObjClass.site_manager)
    × (s.buf 8 ≢ obj_code ObjClass.bts)
    × (s.buf 8 ≢ obj_code ObjClass.baseb_transc)
    × (s.buf 8 ≢ obj_code ObjClass.radio_carrier)
    × (s.buf 8 ≢ obj_code ObjClass.channel)

test_ne : (a b : ℕ) → a ≢ b → (a == b) ≡ false
test_ne a b h = ground arith

module _ (net : Net) (fuel sd : ℕ) (s : Bts) (plain : s.buf 3 ≢ mdisc_manuf) where
  manufacturer-plain : manufacturer net sd s ≡ s
  unfolding manufacturer
  manufacturer-plain = rw (test_ne _ _ plain)

  untyped-ignored : IsUntyped s → oml_msg net fuel sd s ≡ ok s
  unfolding oml_msg
  untyped-ignored (a, b, c, d, e, f, g) = rw (
    oml_msg,
    dispatch,
    test_ne _ _ a,
    test_ne _ _ b,
    test_ne _ _ c,
    test_ne _ _ d,
    test_ne _ _ e,
    test_ne _ _ f,
    test_ne _ _ g,
    manufacturer-plain,
  )

  module _ (foreign : IsForeign s) where
    on_sw_act_req_ack-foreign : on_sw_act_req_ack s ≡ s
    unfolding on_sw_act_req_ack
    on_sw_act_req_ack-foreign = rw (test_ne _ _ foreign.0, test_ne _ _ foreign.1)

    on_activate_sw-foreign : on_activate_sw sd s ≡ s
    unfolding on_activate_sw
    on_activate_sw-foreign = rw (
      test_ne _ _ foreign.0,
      test_ne _ _ foreign.1,
      test_ne _ _ foreign.2,
      test_ne _ _ foreign.3,
      test_ne _ _ foreign.4,
    )

    on_opstart-foreign : on_opstart sd s ≡ ok s
    unfolding on_opstart
    on_opstart-foreign = rw (
      test_ne _ _ foreign.0,
      test_ne _ _ foreign.1,
      test_ne _ _ foreign.2,
      test_ne _ _ foreign.3,
      test_ne _ _ foreign.4,
    )

    on_chg_adm_state-foreign : on_chg_adm_state sd s ≡ ok s
    unfolding on_chg_adm_state
    on_chg_adm_state-foreign =
        rw (
          test_ne _ _ foreign.1,
          test_ne _ _ foreign.2,
          test_ne _ _ foreign.3,
          test_ne _ _ foreign.4,
        )

  foreign-ignored : IsClassed (s.buf 7) → IsForeign s → oml_msg net fuel sd s ≡ ok s
  unfolding oml_msg
  foreign-ignored (inl mt) h =
      rw (oml_msg, dispatch, mt, on_sw_act_req_ack-foreign h, manufacturer-plain)
  foreign-ignored (inr (inl mt)) h =
      rw (oml_msg, dispatch, mt, on_activate_sw-foreign h, manufacturer-plain)
  foreign-ignored (inr (inr (inl mt))) h =
      rw (oml_msg, dispatch, mt, on_opstart-foreign h, manufacturer-plain)
  foreign-ignored (inr (inr (inr mt))) h =
      rw (oml_msg, dispatch, mt, on_chg_adm_state-foreign h, manufacturer-plain)

  -- A message that is not the manufacturer's, of a type that the `switch` does not name, or of one
  -- whose case looks at the object class and with a class that the station does not have: no state
  -- changes and nothing is sent.
  pub oml_msg-ignored :
      IsUntyped s ⊎ (IsClassed (s.buf 7) × IsForeign s) → oml_msg net fuel sd s ≡ ok s
  oml_msg-ignored (inl untyped) = untyped-ignored untyped
  oml_msg-ignored (inr (classed, foreign)) = foreign-ignored classed foreign
