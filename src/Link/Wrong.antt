-- ===== src/Link/Wrong.antt =====
-- Just what takes `receive_msg` of src/bts_nm.c out of the buffer or an array, or to a pointer that was
-- never set.
use soft_bts.Base.{
  ◌∙◌, ℕ, ◌+◌, ◌<◌, ◌≡◌, ◌⊎◌, ◌↔◌, inl, inr, refl, Bool, Bool-cases, Option, length, ltb,
  if◌then◌else◌, arith,
}
use soft_bts.Base.Outcome.{Outcome, ok, fault, looping, ◌>>=◌}
use soft_bts.Buffer.{Buffer, store_list}
use soft_bts.Nm.{proto_oml, proto_rsl}
use soft_bts.Bts.{Bts, Net}
use soft_bts.Rsl.{Report, rsl_msg}
use soft_bts.Rsl.Safety.{IsHarmful, rsl_msg-fault}
use soft_bts.Oml.Wrong.{IsOutside, oml_msg-fault}
use soft_bts.Link.{Stack, Socket, received_bytes, rc, read_message, deliver, receive_msg}
use soft_bts.Link.Receive.{with_header, announced, result_lem, IsKnown}

-- The buffer behind both calls of `recv`.
abbrev pub received : Socket → Buffer → Buffer
received sock b = store_list 3 (received_bytes (sock.body (announced sock b))) (with_header sock b)

-- More bytes than the buffer has room for, or a known protocol with a length that leads `hexdump` out
-- of it; an O&M request outside an array; harmful information.
abbrev pub IsWrong : ℕ → Stack → Socket → Buffer → Type 0
IsWrong fuel stack sock b =
    let b1 = received sock b in
    (252 < length (received_bytes (sock.body (announced sock b))))
    ⊎ ((IsKnown (b1 2) × (252 < announced sock b))
        ⊎ (((b1 2 ≡ proto_oml) × IsOutside fuel b1)
            ⊎ ((b1 2 ≡ proto_rsl) × IsHarmful stack.octets_is_one b1)))

abbrev guarded : ℕ → Outcome Bts → Option ℕ → Outcome (Option ℕ × Bts)
guarded n d r = if ltb 255 (3 + n) then fault else (d >>= λ s. ok (r, s))

guarded-fault :
    (n : ℕ) (d : Outcome Bts) (r : Option ℕ) → (guarded n d r ≡ fault) ↔ ((252 < n) ⊎ (d ≡ fault))
guarded-fault n (ok s) r = (λ e. ground arith, λ h. ground arith)
guarded-fault n fault r = (λ e. inr refl, λ h. ground arith)
guarded-fault n looping r = (λ e. ground arith, λ h. ground arith)

module _ (net : Net) (stack : Stack) (fuel sd : ℕ) where
  rsl-fault :
      (luck : Bool) (s : Bts) → ((rsl_msg luck s.buf >>= λ _. ok s) ≡ fault) ↔ IsHarmful luck s.buf
  rsl-fault luck s = (
    λ e. (rsl_msg-fault luck s.buf).0 (left (rsl_msg luck s.buf) e),
    λ h. rw ((rsl_msg-fault luck s.buf).1 h) refl,
  )
    where
      left : (r : Outcome Report) → (r >>= λ _. ok s) ≡ fault → r ≡ fault
      left (ok r) e = cc
      left fault e = refl
      left looping e = cc

  deliver-fault :
      (len : ℕ) (s : Bts)
      → (deliver net stack fuel sd len s ≡ fault) ↔ (
          (IsKnown (s.buf 2) × (252 < len))
          ⊎ (((s.buf 2 ≡ proto_oml) × IsOutside fuel s.buf)
              ⊎ ((s.buf 2 ≡ proto_rsl) × IsHarmful stack.octets_is_one s.buf)))
  unfolding deliver
  deliver-fault len s = (
    λ e. ground (arith, oml_msg-fault net fuel sd s, rsl-fault stack.octets_is_one s),
    λ h. ground (arith, oml_msg-fault net fuel sd s, rsl-fault stack.octets_is_one s),
  )

  module _ (sock : Socket) (s : Bts) where
    receive_lem : receive_msg net stack fuel sd sock s ≡ (
        if ltb 255 (3 + length (received_bytes (sock.body (announced sock s.buf))))
        then fault
        else (deliver net stack fuel sd
              (announced sock s.buf)
              (record s { buf = received sock s.buf })
            >>= λ s'. ok (rc (sock.body (announced sock s.buf)), s')))
    unfolding receive_msg read_message
    receive_lem =
        elim (Bool-cases
          (ltb 255 (3 + length (received_bytes (sock.body (announced sock s.buf)))))) [
            | inl over ↦ rw (over, receive_msg, read_message) refl
            | inr fits ↦
                rw
                  (
                    fits,
                    receive_msg,
                    read_message,
                    result_lem (rc sock.header) (rc (sock.body (announced sock s.buf))),
                  )
                  refl
          ]

    -- `receive_msg` leaves the buffer or an array, or follows a pointer that was never set, for just
    -- these inputs, whatever state the station is in: more bytes than the buffer has room for, a known
    -- protocol with a length that leads `hexdump` out of the buffer, an O&M request whose time slot or
    -- attributes lead out of their array, and information of the signalling protocol that `rsl_msg`
    -- must not be given.
    pub receive_msg-fault :
        (receive_msg net stack fuel sd sock s ≡ fault) ↔ IsWrong fuel stack sock s.buf
    receive_msg-fault =
        let n = length (received_bytes (sock.body (announced sock s.buf))) in
        let (to, from) =
          guarded-fault n
            (deliver net stack fuel sd (announced sock s.buf)
              (record s { buf = received sock s.buf }))
            (rc (sock.body (announced sock s.buf))) in
        let delivers =
          deliver-fault (announced sock s.buf) (record s { buf = received sock s.buf }) in
        (
          λ e. elim (to (rw receive_lem at e)) [ inl over ↦ inl over | inr d ↦ inr (delivers.0 d) ],
          λ h. receive_lem ∙ from (elim h [ inl over ↦ inl over | inr w ↦ inr (delivers.1 w) ]),
        )
