-- ===== src/Link/Receive.antt =====
-- `receive_msg` of src/bts_nm.c: its result, and what a length that the header makes up does.
use soft_bts.Base.{
  ℕ, ◌+◌, ◌<◌, ◌≤◌, false, ◌≡◌, ◌⊎◌, ◌↔◌, inl, inr, refl, sym, ap, ◌∙◌, none, Option, some, List,
  [], ◌∷◌, length, arith, Bool-cases, lt→ltb, ltb,
}
use soft_bts.Base.Outcome.{ok, fault, ◌>>=◌, >>=-eq-ok}
use soft_bts.Buffer.{Buffer, store, store_list, load16, htons, buffer_length}
use soft_bts.Nm.{proto_softbts, proto_oml, proto_rsl}
use soft_bts.Bts.{Bts, Net}
use soft_bts.Link.{
  Stack, Socket, Received, failed, got, received_bytes, rc, result, read_message, softbts_msg,
  deliver, receive_msg,
}

-- The buffer behind the first `recv`, and the length that it announces.
abbrev pub with_header : Socket → Buffer → Buffer
with_header sock b = store_list 0 (received_bytes sock.header) b

abbrev pub announced : Socket → Buffer → ℕ
announced sock b = htons (load16 (with_header sock b) 0)

-- A list that is stored from an offset on leaves what lies before.
pub store_list_below : (i j : ℕ) (xs : List ℕ) (b : Buffer) → j < i → store_list i xs b j ≡ b j
store_list_below i j [] b h = refl
store_list_below i j (x ∷ xs) b h =
    store_list_below (i + 1) j xs (store i x b) (omega arith) ∙ ground arith

read_message-ok :
    (sock : Socket) (s : Bts) (len : ℕ) (body : Received) (s1 : Bts)
    → read_message sock s ≡ ok (len, body, s1)
    → body ≡ sock.body (announced sock s.buf)
unfolding read_message
read_message-ok sock s len body s1 h = ground arith

-- The test for a closed socket changes nothing.
pub result_lem : (ret r : Option ℕ) → result ret r ≡ r
result_lem ret none = ground arith
result_lem ret (some n) = ground arith

pub receive_msg-rc :
    (net : Net) (stack : Stack) (fuel sd : ℕ) (sock : Socket) (s : Bts)
    → (r : Option ℕ) (s' : Bts) → receive_msg net stack fuel sd sock s ≡ ok (r, s')
    → r ≡ rc (sock.body (announced sock s.buf))
unfolding receive_msg
receive_msg-rc net stack fuel sd sock s r s' h =
    let (m, e, k) = >>=-eq-ok (read_message sock s) _ h in
    let (s2, e2, k2) = >>=-eq-ok (deliver net stack fuel sd m.0 m.2) _ k in
    let result_is : result (rc sock.header) (rc m.1) ≡ r = cc in
    sym result_is
    ∙ result_lem (rc sock.header) (rc m.1)
    ∙ ap rc (read_message-ok sock s m.0 m.1 m.2 e)

-- The result of `receive_msg` is that of the second `recv` on every path, its test for a closed socket
-- included, which changes nothing: it is 0 just where the second `recv` gives no bytes, whatever the
-- first one gave, so that a message whose header announces no bytes has the result of a closed socket.
pub receive_msg-result :
    (net : Net) (stack : Stack) (fuel sd : ℕ) (sock : Socket) (s : Bts)
    → (r : Option ℕ) (s' : Bts) → receive_msg net stack fuel sd sock s ≡ ok (r, s')
    → (r ≡ rc (sock.body (announced sock s.buf)))
      × ((r ≡ some 0) ↔ (sock.body (announced sock s.buf) ≡ got []))
receive_msg-result net stack fuel sd sock s r s' h =
    let same = receive_msg-rc net stack fuel sd sock s r s' h in
    (same, (λ e. rc-zero (sock.body (announced sock s.buf)) (sym same ∙ e), λ e. same ∙ rw e refl))
  where
    rc-zero : (x : Received) → rc x ≡ some 0 → x ≡ got []
    rc-zero failed e = cc
    rc-zero (got []) e = refl
    rc-zero (got (b ∷ bs)) e = let none_left : length (b ∷ bs) ≡ 0 = cc in absurd (omega arith)

-- The protocols of the `switch`.
abbrev pub IsKnown : ℕ → Type 0
IsKnown p = (p ≡ proto_softbts) ⊎ ((p ≡ proto_oml) ⊎ (p ≡ proto_rsl))

deliver-overlong :
    (net : Net) (stack : Stack) (fuel sd len : ℕ) (s : Bts)
    → IsKnown (s.buf 2)
    → 252 < len
    → deliver net stack fuel sd len s ≡ fault
unfolding deliver
deliver-overlong net stack fuel sd len s (inl e) long =
    rw (e, deliver, lt→ltb 255 (len + 3) (omega arith))
deliver-overlong net stack fuel sd len s (inr (inl e)) long =
    rw (e, deliver, lt→ltb 255 (len + 3) (omega arith))
deliver-overlong net stack fuel sd len s (inr (inr e)) long =
    rw (e, deliver, lt→ltb 255 (len + 3) (omega arith))

pub deliver-softbts :
    (net : Net) (stack : Stack) (fuel sd len : ℕ) (s : Bts)
    → s.buf 2 ≡ proto_softbts
    → len ≤ 252
    → deliver net stack fuel sd len s ≡ ok (softbts_msg net stack sd s)
unfolding deliver
deliver-softbts net stack fuel sd len s e fits = rw (e, deliver, room)
  where
    room : ltb 255 (len + 3) ≡ false
    room = ground arith

-- A header that announces more than the buffer holds, of a protocol that the switch knows, takes
-- the program out of the buffer, however little follows it: `hexdump` reads as many bytes as the
-- header says.
pub receive_msg-overlong :
    (net : Net) (stack : Stack) (fuel sd : ℕ) (sock : Socket) (s : Bts)
    → IsKnown (with_header sock s.buf 2)
    → 252 < announced sock s.buf
    → receive_msg net stack fuel sd sock s ≡ fault
unfolding receive_msg
receive_msg-overlong net stack fuel sd sock s known long =
    elim (Bool-cases (ltb buffer_length (3 + length (received_bytes body)))) [
      | inl over ↦ rw (over, receive_msg, read_message)
      | inr fits ↦ rw (
        fits,
        receive_msg,
        read_message,
        deliver-overlong net stack fuel sd (announced sock s.buf) arrived kept long,
      )
    ]
  where
    body : Received
    body = sock.body (announced sock s.buf)

    arrived : Bts
    arrived = record s { buf = store_list 3 (received_bytes body) (with_header sock s.buf) }

    same_proto : arrived.buf 2 ≡ with_header sock s.buf 2
    same_proto = store_list_below 3 2 (received_bytes body) (with_header sock s.buf) (omega arith)

    kept : IsKnown (arrived.buf 2)
    kept = rw same_proto known

-- A closed connection, where both calls give no bytes: the message that the buffer still holds is
-- handled once more.
pub receive_msg-closed :
    (net : Net) (stack : Stack) (fuel sd : ℕ) (sock : Socket) (s : Bts)
    → sock.header ≡ got []
    → sock.body (htons (load16 s.buf 0)) ≡ got []
    → receive_msg net stack fuel sd sock s
      ≡ (deliver net stack fuel sd (htons (load16 s.buf 0)) s >>= λ s'. ok (some 0, s'))
unfolding receive_msg
receive_msg-closed net stack fuel sd sock s h b = rw (h, receive_msg, read_message, b)
