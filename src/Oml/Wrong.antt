-- ===== src/Oml/Wrong.antt =====
-- Just which messages take `oml_msg` of src/bts_nm.c out of an array.
use soft_bts.Base.{ℕ, ◌≤◌, ◌≡◌, ◌⊎◌, ◌↔◌, arith, refl}
use soft_bts.Base.Outcome.{Outcome, ok, fault, looping, ◌>>=◌}
use soft_bts.Buffer.{Buffer}
use soft_bts.Nm.{ObjClass, obj_code, MsgType, msg_code}
use soft_bts.Bts.{Bts, Net}
use soft_bts.Oml.{oml_msg, dispatch}
use soft_bts.Oml.Opstart.{on_opstart, opstart_channel}
use soft_bts.Oml.Admin.{on_chg_adm_state, on_set_bts_attr}
use soft_bts.Oml.Attributes.{bts_get_attr}

-- A request on a channel whose time slot is in none of the arrays.
abbrev pub IsPast : Buffer → Type 0
IsPast b = (b 8 ≡ obj_code ObjClass.channel) × (8 ≤ b 11)

-- What takes a request out of an array: a time slot, or the walk over its attributes.
abbrev pub IsOutside : ℕ → Buffer → Type 0
IsOutside fuel b =
    (((b 7 ≡ msg_code MsgType.opstart) ⊎ (b 7 ≡ msg_code MsgType.chg_adm_state)) × IsPast b)
    ⊎ ((b 7 ≡ msg_code MsgType.set_bts_attr) × (bts_get_attr fuel b ≡ fault))

bind-fault : (r : Outcome Bts) (f : Bts → Bts) → (r >>= λ s. ok (f s)) ≡ fault → r ≡ fault
bind-fault (ok s) f e = cc
bind-fault fault f e = refl
bind-fault looping f e = cc

module _ (net : Net) (fuel sd : ℕ) (s : Bts) where
  on_opstart-fault : (on_opstart sd s ≡ fault) ↔ IsPast s.buf
  unfolding on_opstart opstart_channel
  on_opstart-fault = (λ e. ground arith, λ h. ground arith)

  on_chg_adm_state-fault : (on_chg_adm_state sd s ≡ fault) ↔ IsPast s.buf
  unfolding on_chg_adm_state
  on_chg_adm_state-fault = (λ e. ground arith, λ h. ground arith)

  on_set_bts_attr-fault : (on_set_bts_attr fuel sd s ≡ fault) ↔ (bts_get_attr fuel s.buf ≡ fault)
  unfolding on_set_bts_attr
  on_set_bts_attr-fault = (λ e. ground arith, λ h. rw h refl)

  dispatch-fault : (dispatch fuel sd s ≡ fault) ↔ IsOutside fuel s.buf
  unfolding dispatch
  dispatch-fault = (
    λ e. ground (arith, on_opstart-fault, on_chg_adm_state-fault, on_set_bts_attr-fault),
    λ h. ground (arith, on_opstart-fault, on_chg_adm_state-fault, on_set_bts_attr-fault),
  )

  -- `oml_msg` leaves an array for no other message.
  pub oml_msg-fault : (oml_msg net fuel sd s ≡ fault) ↔ IsOutside fuel s.buf
  unfolding oml_msg
  oml_msg-fault = (
    λ e. dispatch-fault.0 (bind-fault (dispatch fuel sd s) _ e),
    λ h. rw (dispatch-fault.1 h) refl,
  )
