-- ===== src/Trx/Told.antt =====
-- `trx_cb` of src/trx_init.c on a message that arrives whole from a transceiver in the table.
use soft_bts.Base.{ℕ, ◌<◌, ◌≡◌, refl, ◌∙◌, false, ◌==◌, some, List, length, arith}
use soft_bts.Base.Outcome.{ok}
use soft_bts.Nm.{proto_rsl}
use soft_bts.Bts.{Bts, Net}
use soft_bts.Oml.Refines.{view}
use soft_bts.Rsl.Safety.{IsHarmful}
use soft_bts.Site.Dialogue.{Said, heard}
use soft_bts.Link.{Stack, Socket}
use soft_bts.Link.Whole.{Gives, filled, receive_msg-rsl}
use soft_bts.Link.Said.{proto_of, Means, receive_msg-returns}
use soft_bts.Trx.Table.{find_index}
use soft_bts.Trx.{Trx, trx_cb}
use soft_bts.Trx.Close.{trx_cb_lem}

module _ (net : Net) (stack : Stack) (fuel : ℕ) (sock : Socket) (sd i : ℕ) (s : Bts) (t : Trx)
    (found : find_index (some sd) t.fds ≡ some i) (body : List ℕ)
    (some_bytes : 0 < length body) where
  -- A transceiver is answered as the controller would be, on its own link, and stays in the table.
  pub trx_cb-heard :
      (m : Said) (g : Gives sock (proto_of m) body)
      → Means fuel stack m (filled g.hi g.lo (proto_of m) body t.msg_trx)
      → (r : Bts × Trx) × (trx_cb net stack fuel sock sd s t ≡ ok r)
        × (view r.0 ≡ (heard net sd m (view s) s.log).0)
        × (r.0.log ≡ (heard net sd m (view s) s.log).1)
        × (r.1.fds ≡ t.fds)
  trx_cb-heard m g h =
      let (r, e, n, v, l) =
        receive_msg-returns net stack fuel sd sock (record s { buf = t.msg_trx }) m body g h in
      let kept : (length body == 0) ≡ false = ground arith in
      (
        (record r.1 { buf = s.buf }, record t { msg_trx = r.1.buf }),
        trx_cb_lem net stack fuel sock sd s t i r.0 r.1 found e ∙ rw (n, kept),
        v,
        l,
        refl,
      )

  pub trx_cb-informed :
      (g : Gives sock proto_rsl body)
      → ¬ IsHarmful stack.octets_is_one (filled g.hi g.lo proto_rsl body t.msg_trx)
      → trx_cb net stack fuel sock sd s t
        ≡ ok (s, record t { msg_trx = filled g.hi g.lo proto_rsl body t.msg_trx })
  trx_cb-informed g harmless =
      let kept : (length body == 0) ≡ false = ground arith in
      trx_cb_lem net stack fuel sock sd s t i (some (length body)) _ found
        (receive_msg-rsl net stack fuel sd sock (record s { buf = t.msg_trx }) body g harmless)
      ∙ rw kept
