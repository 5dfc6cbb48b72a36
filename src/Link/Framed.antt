-- ===== src/Link/Framed.antt =====
-- The frames of a call of `receive_msg` of src/bts_nm.c, of whichever protocol.
use soft_bts.Base.{ℕ, ◌≡◌, refl, Option, ◌==◌, if◌then◌else◌, ap, ◌∙◌, arith}
use mathlib.Core.Path.{subst}
use soft_bts.Base.Outcome.{Outcome, ok, fault, looping, ◌>>=◌, >>=-eq-ok}
use soft_bts.Nm.{IpaMsg, ipa_code, proto_softbts, proto_oml, proto_rsl}
use soft_bts.Bts.{Bts, Net, send}
use soft_bts.Bts.Log.{AllFramed}
use soft_bts.Rsl.{rsl_msg}
use soft_bts.Oml.Framed.{OkFramed, if-AllFramed, if-OkFramed, oml_msg-OkFramed}
use soft_bts.Link.{
  Stack, Socket, Received, id_resp, kill_background, introduce, softbts_msg, read_message, deliver,
  receive_msg,
}

introduce-AllFramed : (sd : ℕ) (s : Bts) → AllFramed s → AllFramed (introduce sd s)
unfolding introduce
introduce-AllFramed sd s h = assumption refl

identify-AllFramed :
    (sd : ℕ) (s : Bts) → AllFramed s → AllFramed (if s.bts_id_resp then s else introduce sd s)
identify-AllFramed sd s h = if-AllFramed s.bts_id_resp _ _ h (introduce-AllFramed sd s h)

softbts_msg-AllFramed :
    (net : Net) (stack : Stack) (sd : ℕ) (s : Bts)
    → AllFramed s
    → AllFramed (softbts_msg net stack sd s)
unfolding softbts_msg
softbts_msg-AllFramed net stack sd s h =
    if-AllFramed (s.buf 3 == ipa_code IpaMsg.ping) _ _
      (if-AllFramed stack.rc_negative _ _ (tt, (refl, h)) (refl, h))
      (if-AllFramed (s.buf 3 == ipa_code IpaMsg.id_get) _ _
        (identify-AllFramed sd _ (
          if-AllFramed (net s.log sd id_resp) (send sd id_resp s)
            (kill_background (send sd id_resp s)) (refl, h) (tt, (refl, h))))
        h)

rsl-OkFramed {ℓ} : {A : Type ℓ} (r : Outcome A) (s : Bts) → AllFramed s → OkFramed (r >>= λ a. ok s)
rsl-OkFramed (ok a) s h = h
rsl-OkFramed fault s h = tt
rsl-OkFramed looping s h = tt

read_message-log :
    (sock : Socket) (s : Bts) (m : ℕ × Received × Bts)
    → read_message sock s ≡ ok m
    → m.2.log ≡ s.log
unfolding read_message
read_message-log sock s m e = ground arith

module _ (net : Net) (stack : Stack) (fuel sd : ℕ) where
  deliver-OkFramed : (len : ℕ) (s : Bts) → AllFramed s → OkFramed (deliver net stack fuel sd len s)
  unfolding deliver
  deliver-OkFramed len s h = if-OkFramed _ fault _ tt (
      if-OkFramed (s.buf 2 == proto_softbts) (ok (softbts_msg net stack sd s)) _
        (softbts_msg-AllFramed net stack sd s h)
        (if-OkFramed (s.buf 2 == proto_oml) _ _ (oml_msg-OkFramed net fuel sd s h) (
          if-OkFramed (s.buf 2 == proto_rsl) _ (ok s)
            (rsl-OkFramed (rsl_msg stack.octets_is_one s.buf) s h) h)))

  -- Whatever comes in, where `receive_msg` returns, every frame that was sent is as long as its
  -- headers say, if those sent before are.
  pub receive_msg-AllFramed :
      (sock : Socket) (s : Bts) {n : Option ℕ} {s' : Bts}
      → AllFramed s
      → receive_msg net stack fuel sd sock s ≡ ok (n, s')
      → AllFramed s'
  unfolding receive_msg
  receive_msg-AllFramed sock s {n} {s'} h e =
      let (m, em, k) = >>=-eq-ok (read_message sock s) _ e in
      let (s2, e2, k2) = >>=-eq-ok (deliver net stack fuel sd m.0 m.2) _ k in
      let same : s2 ≡ s' = cc in
      let before : AllFramed m.2 = rw (read_message-log sock s m em) h in
      subst OkFramed (e2 ∙ ap ok same) (deliver-OkFramed m.0 m.2 before)
