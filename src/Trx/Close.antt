-- ===== src/Trx/Close.antt =====
-- `trx_cb` of src/trx_init.c: which connections it takes for lost.
use soft_bts.Base.{
  ℕ, ◌≡◌, refl, ap, sym, ◌∙◌, Bool, true, false, length, Option-cases, inl, inr, Option, none, some,
  [], ◌∷◌, length-set, get_elem?, get_elem?-set_self, set, if◌then◌else◌,
}
use soft_bts.Base.Outcome.{ok, fault, ◌>>=◌, >>=-eq-ok}
use soft_bts.Buffer.{Buffer}
use soft_bts.Bts.{Bts, Net}
use mathlib.Core.Path.{subst}
use soft_bts.Bts.Log.{AllFramed}
use soft_bts.Link.Framed.{receive_msg-AllFramed}
use soft_bts.Link.{Stack, Socket, got, is_zero, receive_msg}
use soft_bts.Link.Receive.{announced, receive_msg-rc}
use soft_bts.Trx.Table.{find_index, find_index-Finds}
use soft_bts.Trx.{closed, unlisten, Trx, trx_cb}

-- What a read leaves in the table: the entry is given up where the second `recv` of the message
-- returned 0, and nothing changes otherwise.
pub trx_cb_lem :
    (net : Net) (stack : Stack) (fuel : ℕ) (sock : Socket) (sd : ℕ) (s : Bts) (t : Trx)
    → (i : ℕ) (r : Option ℕ) (s1 : Bts) → find_index (some sd) t.fds ≡ some i
    → receive_msg net stack fuel sd sock (record s { buf = t.msg_trx }) ≡ ok (r, s1)
    → trx_cb net stack fuel sock sd s t
      ≡ ok (
        record s1 { buf = s.buf },
        (if is_zero r
            then record t {
              msg_trx = s1.buf;
              fds = set t.fds i none;
              actions = unlisten i ∷ closed sd ∷ t.actions;
            }
            else record t { msg_trx = s1.buf }),
      )
unfolding trx_cb
trx_cb_lem net stack fuel sock sd s t i r s1 e h = rw (e, trx_cb, h, ◌>>=◌)

-- A descriptor that is in no entry: `trx[-1]` is accessed.
pub trx_cb_unknown :
    (net : Net) (stack : Stack) (fuel : ℕ) (sock : Socket) (sd : ℕ) (s : Bts) (t : Trx)
    → find_index (some sd) t.fds ≡ none
    → trx_cb net stack fuel sock sd s t ≡ fault
unfolding trx_cb
trx_cb_unknown net stack fuel sock sd s t e = rw (e, trx_cb)

-- A message whose body is of no bytes, as a header that announces 0 asks for, is taken for a lost
-- connection where it could be handled: the descriptor is closed and its entry is free again.
pub trx_cb-empty :
    (net : Net) (stack : Stack) (fuel : ℕ) (sock : Socket) (sd : ℕ) (s : Bts) (t : Trx)
    → (i : ℕ) (r : Option ℕ) (s1 : Bts) → find_index (some sd) t.fds ≡ some i
    → sock.body (announced sock t.msg_trx) ≡ got []
    → receive_msg net stack fuel sd sock (record s { buf = t.msg_trx }) ≡ ok (r, s1)
    → (t' : Trx) × (trx_cb net stack fuel sock sd s t ≡ ok (record s1 { buf = s.buf }, t'))
      × (get_elem? t'.fds i ≡ some none)
      × (t'.actions ≡ unlisten i ∷ closed sd ∷ t.actions)
trx_cb-empty net stack fuel sock sd s t i r s1 e none_read h =
    (given_up, trx_cb_lem net stack fuel sock sd s t i r s1 e h ∙ rw zero_read, freed, refl)
  where
    given_up : Trx
    given_up = record t {
      msg_trx = s1.buf;
      fds = set t.fds i none;
      actions = unlisten i ∷ closed sd ∷ t.actions;
    }

    zero_read : r ≡ some 0
    zero_read =
        receive_msg-rc net stack fuel sd sock (record s { buf = t.msg_trx }) r s1 h ∙ rw none_read

    freed : get_elem? (set t.fds i none) i ≡ some none
    freed = get_elem?-set_self t.fds i none (find_index-Finds (some sd) t.fds e).here

length-if :
    (b : Bool) (t u : Trx) (n : ℕ)
    → length t.fds ≡ n
    → length u.fds ≡ n
    → length (if b then t else u).fds ≡ n
length-if true t u n ht hu = ht
length-if false t u n ht hu = hu

pub returned :
    (net : Net) (stack : Stack) (fuel : ℕ) (sock : Socket) (sd : ℕ) (s : Bts) (t : Trx)
    → {s' : Bts} {t' : Trx} (i : ℕ) → find_index (some sd) t.fds ≡ some i
    → trx_cb net stack fuel sock sd s t ≡ ok (s', t')
    → (m : Option ℕ × Bts) × (receive_msg net stack fuel sd sock (record s { buf = t.msg_trx })
        ≡ ok m)
unfolding trx_cb
returned net stack fuel sock sd s t i found e =
    let (m, em, k) =
      >>=-eq-ok (receive_msg net stack fuel sd sock (record s { buf = t.msg_trx })) _
        (rw (found, trx_cb) at e) in
    (m, em)

msg_trx-if :
    (b : Bool) (t u : Trx) (buf : Buffer)
    → t.msg_trx ≡ buf
    → u.msg_trx ≡ buf
    → (if b then t else u).msg_trx ≡ buf
msg_trx-if true t u buf ht hu = ht
msg_trx-if false t u buf ht hu = hu

-- Where the callback returns, `receive_msg` on the buffer of the transceivers has: that buffer and
-- the state are what it has left, and the table keeps its size.
pub trx_cb-left :
    (net : Net) (stack : Stack) (fuel : ℕ) (sock : Socket) (sd : ℕ) (s : Bts) (t : Trx)
    → {s' : Bts} {t' : Trx} → trx_cb net stack fuel sock sd s t ≡ ok (s', t')
    → (m : Option ℕ × Bts) × (receive_msg net stack fuel sd sock (record s { buf = t.msg_trx })
        ≡ ok m)
      × (record m.1 { buf = s.buf } ≡ s')
      × (t'.msg_trx ≡ m.1.buf)
      × (length t'.fds ≡ length t.fds)
trx_cb-left net stack fuel sock sd s t {s'} {t'} e =
    elim (Option-cases (find_index (some sd) t.fds)) [
      | inl unknown ↦ cc (trx_cb_unknown net stack fuel sock sd s t unknown)
      | inr (i, found) ↦
          let (m, em) = returned net stack fuel sock sd s t i found e in
          let left = trx_cb_lem net stack fuel sock sd s t i m.0 m.1 found em in
          let table : (if is_zero m.0 then given_up i m.1 else record t { msg_trx = m.1.buf })
              ≡ t' =
            cc in
          (
            m,
            em,
            cc,
            ap (λ u. u.msg_trx) (sym table) ∙ msg_trx-if (is_zero m.0) _ _ _ refl refl,
            ap (λ u. length u.fds) (sym table)
                ∙ length-if (is_zero m.0) _ _ _ (length-set t.fds i none) refl,
          )
    ]
  where
    given_up : ℕ → Bts → Trx
    given_up i s1 = record t {
      msg_trx = s1.buf;
      fds = set t.fds i none;
      actions = unlisten i ∷ closed sd ∷ t.actions;
    }

-- Where the callback returns, the frames it has sent on the link are as long as they say, and the
-- table keeps its size.
pub trx_cb-AllFramed :
    (net : Net) (stack : Stack) (fuel : ℕ) (sock : Socket) (sd : ℕ) (s : Bts) (t : Trx)
    → {s' : Bts} {t' : Trx} → AllFramed s
    → trx_cb net stack fuel sock sd s t ≡ ok (s', t')
    → AllFramed s' × (length t'.fds ≡ length t.fds)
trx_cb-AllFramed net stack fuel sock sd s t h e =
    let (m, em, same, buf, size) = trx_cb-left net stack fuel sock sd s t e in
    let start = record s { buf = t.msg_trx } in
    let framed : AllFramed (record m.1 { buf = s.buf }) =
      receive_msg-AllFramed net stack fuel sd sock start h em in
    (subst AllFramed same framed, size)
