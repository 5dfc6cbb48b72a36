-- ===== src/Link/Whole.antt =====
-- A message that arrives whole: from the socket through `receive_msg` of src/bts_nm.c to the
-- handler of its protocol.
use soft_bts.Base.{
  ℕ, ◌+◌, ◌*◌, ◌≤◌, ◌<◌, ◌≡◌, ◌≢◌, ◌∙◌, ap, Option, some, List, [], ◌∷◌, length, arith, ltb, false,
}
use soft_bts.Base.Outcome.{Outcome, ok, fault, looping, ◌>>=◌}
use soft_bts.Buffer.{Buffer, store_list, load16, htons}
use soft_bts.Nm.{proto_oml, proto_softbts, proto_rsl}
use soft_bts.Rsl.{Report, rsl_msg}
use soft_bts.Rsl.Safety.{IsHarmful, rsl_msg-handled}
use soft_bts.Bts.{Bts, Net, Event}
use soft_bts.Bts.Log.{transmit}
use soft_bts.Message.{Request}
use soft_bts.Site
use soft_bts.Site.{Site}
use soft_bts.Oml.{oml_msg}
use soft_bts.Oml.Refines.{view, observe, Holds, oml_msg_refines}
use soft_bts.Link.{Stack, Socket, got, read_message, deliver, softbts_msg, receive_msg}
use soft_bts.Link.Receive.{store_list_below, deliver-softbts}

-- The socket gives a message of the protocol and with the body in two reads.
pub record Gives (sock : Socket) (proto : ℕ) (body : List ℕ) : Type 0 where
  pub hi : ℕ
  pub lo : ℕ
  pub hi_byte : hi < 256
  pub lo_byte : lo < 256
  pub counts : hi * 256 + lo ≡ length body
  pub fits : length body ≤ 252
  pub head : sock.header ≡ got (hi ∷ lo ∷ proto ∷ [])
  pub rest : sock.body (length body) ≡ got body

-- The buffer when the message has come in.
abbrev pub filled : ℕ → ℕ → ℕ → List ℕ → Buffer → Buffer
filled hi lo proto body b = store_list 3 body (store_list 0 (hi ∷ lo ∷ proto ∷ []) b)

length_of_head :
    (hi lo p : ℕ) (b : Buffer)
    → hi < 256
    → lo < 256
    → htons (load16 (store_list 0 (hi ∷ lo ∷ p ∷ []) b) 0) ≡ hi * 256 + lo
length_of_head hi lo p b h l = omega arith

pub filled-proto : (hi lo p : ℕ) (body : List ℕ) (b : Buffer) → filled hi lo p body b 2 ≡ p
filled-proto hi lo p body b = store_list_below 3 2 body _ (omega arith)

-- What can be seen of a call of `receive_msg`: its result, the site, and what was sent.
abbrev pub seen : Outcome (Option ℕ × Bts) → Outcome (Option ℕ × Site × List Event)
seen (ok (n, s)) = ok (n, view s, s.log)
seen fault = fault
seen looping = looping

pub seen-observe :
    (n : Option ℕ) (r : Outcome Bts) (v : Site) (log : List Event)
    → observe r ≡ ok (v, log)
    → seen (r >>= λ s. ok (n, s)) ≡ ok (n, v, log)
seen-observe n (ok s) v log e = cc
seen-observe n fault v log e = cc
seen-observe n looping v log e = cc

module _ (net : Net) (stack : Stack) (fuel sd : ℕ) (sock : Socket) (s : Bts) where
  read_message-Gives :
      (p : ℕ) (body : List ℕ) (g : Gives sock p body)
      → read_message sock s
        ≡ ok (length body, got body, record s { buf = filled g.hi g.lo p body s.buf })
  unfolding read_message
  read_message-Gives p body g = rw (
    g.head,
    read_message,
    length_of_head g.hi g.lo p s.buf g.hi_byte g.lo_byte,
    g.counts,
    g.rest,
    room,
  )
    where
      room : ltb 255 (3 + length body) ≡ false
      room = ground (arith, g.fits)

  pub deliver-oml :
      (len : ℕ) (s1 : Bts)
      → s1.buf 2 ≡ proto_oml
      → len ≤ 252
      → deliver net stack fuel sd len s1 ≡ oml_msg net fuel sd s1
  unfolding deliver
  deliver-oml len s1 e fits = rw (e, deliver, room)
    where
      room : ltb 255 (len + 3) ≡ false
      room = ground arith

  pub receive_msg-Gives :
      (p : ℕ) (body : List ℕ) (g : Gives sock p body)
      → receive_msg net stack fuel sd sock s ≡ (
          deliver net stack fuel sd (length body) (record s { buf = filled g.hi g.lo p body s.buf })
          >>= λ s'. ok (some (length body), s'))
  unfolding receive_msg
  receive_msg-Gives p body g = rw (receive_msg, read_message-Gives p body g, g.head)

  -- A request of the O&M protocol that arrives whole: the site goes to the specified state, the
  -- specified messages are sent, and the result is the length of the body.
  pub receive_msg-request :
      (body : List ℕ) (g : Gives sock proto_oml body) (r : Request)
      → Holds fuel r (filled g.hi g.lo proto_oml body s.buf)
      → seen (receive_msg net stack fuel sd sock s)
        ≡ ok (
          some (length body),
          Site.next r (view s),
          transmit sd (Site.answer r (Site.next r (view s))) s.log,
        )
  receive_msg-request body g r h =
      let s1 = record s { buf = filled g.hi g.lo proto_oml body s.buf } in
      ap seen (
        receive_msg-Gives proto_oml body g
        ∙ ap (λ o. o >>= λ s'. ok (some (length body), s'))
            (deliver-oml (length body) s1 (filled-proto g.hi g.lo proto_oml body s.buf) g.fits))
      ∙ seen-observe (some (length body)) _ _ _ (oml_msg_refines net fuel sd r s1 h)

  -- A message of the station's own protocol that arrives whole.
  pub receive_msg-softbts :
      (body : List ℕ) (g : Gives sock proto_softbts body)
      → receive_msg net stack fuel sd sock s
        ≡ ok (
          some (length body),
          softbts_msg net stack sd (record s { buf = filled g.hi g.lo proto_softbts body s.buf }),
        )
  receive_msg-softbts body g =
      let s1 = record s { buf = filled g.hi g.lo proto_softbts body s.buf } in
      receive_msg-Gives proto_softbts body g
      ∙ ap (λ o. o >>= λ s'. ok (some (length body), s'))
          (deliver-softbts net stack fuel sd (length body) s1
            (filled-proto g.hi g.lo proto_softbts body s.buf) g.fits)

  deliver-rsl :
      (len : ℕ) (s1 : Bts) {r : Report}
      → s1.buf 2 ≡ proto_rsl
      → len ≤ 252
      → rsl_msg stack.octets_is_one s1.buf ≡ ok r
      → deliver net stack fuel sd len s1 ≡ ok s1
  unfolding deliver
  deliver-rsl len s1 e fits handled = rw (e, deliver, room, handled, ◌>>=◌)
    where
      room : ltb 255 (len + 3) ≡ false
      room = ground arith

  -- A message of the signalling link that arrives whole and is not harmful: but for the buffer, no
  -- state changes.
  pub receive_msg-rsl :
      (body : List ℕ) (g : Gives sock proto_rsl body)
      → ¬ IsHarmful stack.octets_is_one (filled g.hi g.lo proto_rsl body s.buf)
      → receive_msg net stack fuel sd sock s
        ≡ ok (some (length body), record s { buf = filled g.hi g.lo proto_rsl body s.buf })
  receive_msg-rsl body g harmless =
      let s1 = record s { buf = filled g.hi g.lo proto_rsl body s.buf } in
      let (r, handled) = rsl_msg-handled stack.octets_is_one s1.buf harmless in
      receive_msg-Gives proto_rsl body g
      ∙ ap (λ o. o >>= λ s'. ok (some (length body), s'))
          (deliver-rsl (length body) s1 (filled-proto g.hi g.lo proto_rsl body s.buf) g.fits
            handled)

  -- A message of the station's own protocol that calls for no answer: neither a ping nor an identity
  -- request.
  pub receive_msg-silent :
      (c : ℕ) (rest : List ℕ) (g : Gives sock proto_softbts (c ∷ rest))
      → c ≢ 0
      → c ≢ 4
      → receive_msg net stack fuel sd sock s
        ≡ ok (
          some (length (c ∷ rest)),
          record s { buf = filled g.hi g.lo proto_softbts (c ∷ rest) s.buf },
        )
  unfolding softbts_msg
  receive_msg-silent c rest g no_ping no_request =
      let s1 = record s { buf = filled g.hi g.lo proto_softbts (c ∷ rest) s.buf } in
      let command : s1.buf 3 ≡ c = store_list_below 4 3 rest _ (omega arith) in
      receive_msg-softbts (c ∷ rest) g ∙ ap (λ s'. ok (some (length (c ∷ rest)), s')) (ground arith)
