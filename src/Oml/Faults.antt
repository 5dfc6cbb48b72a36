-- ===== src/Oml/Faults.antt =====
-- Requests that take `oml_msg` of src/bts_nm.c out of an array, or into a loop without an end.
use soft_bts.Base.{ℕ, ◌≤◌, ◌<◌, ◌≡◌, ◌≢◌, ◌⊎◌, inl, inr, ltb, false, arith}
use soft_bts.Base.Outcome.{fault, looping, ◌>>=◌}
use soft_bts.Nm.{ObjClass, obj_code, MsgType, msg_code}
use soft_bts.Bts.{Bts, Net}
use soft_bts.Oml.{oml_msg, dispatch}
use soft_bts.Oml.Opstart.{on_opstart, opstart_channel}
use soft_bts.Oml.Admin.{on_chg_adm_state, on_set_bts_attr}
use soft_bts.Oml.Attributes.{unknown, shape}
use soft_bts.Oml.Attributes.Walk.{bts_get_attr-unknown}

out_of_range : (n : ℕ) → 8 ≤ n → ltb n 8 ≡ false
out_of_range n h = ground arith

module _ (net : Net) (fuel sd : ℕ) (s : Bts) where
  -- A request to start a channel, or to change its administrative state, whose time slot is not
  -- below 8 has `oml_msg` write past the end of an array.
  pub oml_msg-past_channels :
      (s.buf 7 ≡ msg_code MsgType.opstart) ⊎ (s.buf 7 ≡ msg_code MsgType.chg_adm_state)
      → s.buf 8 ≡ obj_code ObjClass.channel
      → 8 ≤ s.buf 11
      → oml_msg net fuel sd s ≡ fault
  unfolding oml_msg on_opstart opstart_channel on_chg_adm_state
  oml_msg-past_channels (inl mt) oc past =
      rw (mt, oc, oml_msg, dispatch, on_opstart, opstart_channel, out_of_range (s.buf 11) past)
  oml_msg-past_channels (inr mt) oc past =
      rw (mt, oc, oml_msg, dispatch, on_chg_adm_state, out_of_range (s.buf 11) past)

  -- Set BTS Attributes with a first attribute that the walk does not know, and a length that is
  -- not that of an empty list: `oml_msg` does not come to an end, whatever the fuel.
  pub oml_msg-looping :
      s.buf 7 ≡ msg_code MsgType.set_bts_attr
      → shape (s.buf 12) ≡ unknown
      → s.buf 6 < 256
      → s.buf 6 ≢ 5
      → oml_msg net fuel sd s ≡ looping
  unfolding oml_msg on_set_bts_attr
  oml_msg-looping mt un lt ne =
      rw (mt, oml_msg, dispatch, on_set_bts_attr, bts_get_attr-unknown s.buf fuel un lt ne, ◌>>=◌)
