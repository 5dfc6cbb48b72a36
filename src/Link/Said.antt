-- ===== src/Link/Said.antt =====
-- `receive_msg` of src/bts_nm.c on every message of the two protocols that the station answers.
use soft_bts.Base.{
  ℕ, ◌≡◌, ◌≢◌, refl, ap, ◌∙◌, Bool, true, false, Bool-cases, inl, inr, Option, some, List, ◌∷◌,
  length, arith,
}
use soft_bts.Base.Outcome.{Outcome, ok, fault, looping, ◌>>=◌}
use soft_bts.Buffer.{Buffer}
use soft_bts.Nm.{proto_oml, proto_softbts}
use soft_bts.Bts.{Bts, Net, Event, sent, killed}
use soft_bts.Site.{Site}
use soft_bts.Site.Dialogue.{Said, asks, connects, pings, identifies, silent, heard}
use soft_bts.Oml.Connect.{oml_msg-connects}
use soft_bts.Oml.Refines.{view, Holds}
use soft_bts.Link.{Stack, Socket, id_resp, softbts_msg, introduce, receive_msg}
use soft_bts.Link.Identify.{introduction, introduced, view-introduce, introduce_lem}
use soft_bts.Bts.Log.{transmit}
use mathlib.Core.Path.{ap₂}
use soft_bts.Link.Whole.{
  Gives, filled, filled-proto, seen, seen-observe, deliver-oml, receive_msg-Gives,
  receive_msg-request, receive_msg-softbts,
}

abbrev pub proto_of : Said → ℕ
proto_of (asks r) = proto_oml
proto_of connects = proto_oml
proto_of _ = proto_softbts

-- A buffer that holds what was said.
abbrev pub Means : ℕ → Stack → Said → Buffer → Type 0
Means fuel stack (asks r) b = Holds fuel r b
Means fuel stack connects b = (b 3 ≡ 0x10) × (b 7 ≡ 12)
Means fuel stack (pings ends) b = (b 3 ≡ 0) × (stack.rc_negative ≡ ends)
Means fuel stack identifies b = b 3 ≡ 4
Means fuel stack silent b = (b 3 ≢ 0) × (b 3 ≢ 4)

-- What can be seen of a state.
abbrev told_by : Bts → Site × List Event
told_by s = (view s, s.log)

module _ (net : Net) (stack : Stack) (fuel sd : ℕ) where
  abbrev Hears : Said → Bts → Type 0
  Hears m s = told_by (softbts_msg net stack sd s) ≡ heard net sd m (view s) s.log

  softbts_msg-pings :
      (ends : Bool) (s : Bts) → s.buf 3 ≡ 0 → stack.rc_negative ≡ ends → Hears (pings ends) s
  unfolding softbts_msg heard
  softbts_msg-pings true s e luck = rw (e, softbts_msg, luck) refl
  softbts_msg-pings false s e luck = rw (e, softbts_msg, luck) refl

  softbts_msg-silent : (s : Bts) → s.buf 3 ≢ 0 → s.buf 3 ≢ 4 → Hears silent s
  unfolding softbts_msg heard
  softbts_msg-silent s no_ping no_request =
      let kept : softbts_msg net stack sd s ≡ s = ground arith in ap told_by kept

  introduce-seen :
      (s : Bts) → told_by (introduce sd s) ≡ (introduced (view s), transmit sd introduction s.log)
  introduce-seen s = ap₂ (λ v l. (v, l)) (view-introduce sd s) (introduce_lem sd s).0

  softbts_msg-identifies : (s : Bts) → s.buf 3 ≡ 4 → Hears identifies s
  unfolding softbts_msg heard
  softbts_msg-identifies s e = elim (Bool-cases (net s.log sd id_resp)) [
    | inl good ↦ elim (Bool-cases s.bts_id_resp) [
      | inl old ↦ rw (e, softbts_msg, good, old) refl
      | inr new ↦
          rw (e, softbts_msg, good, new)
            (introduce-seen (record s { log = sent sd id_resp ∷ s.log }))
    ]
    | inr bad ↦ elim (Bool-cases s.bts_id_resp) [
      | inl old ↦ rw (e, softbts_msg, bad, old) refl
      | inr new ↦
          rw (e, softbts_msg, bad, new)
            (introduce-seen (record s { log = killed ∷ sent sd id_resp ∷ s.log }))
    ]
  ]

  module _ (sock : Socket) (s : Bts) where
    -- A message of the station's own protocol, from the socket.
    receive_msg-Hears :
        (m : Said) (body : List ℕ) (g : Gives sock proto_softbts body)
        → Hears m (record s { buf = filled g.hi g.lo proto_softbts body s.buf })
        → let (v, log) = heard net sd m (view s) s.log in
          seen (receive_msg net stack fuel sd sock s) ≡ ok (some (length body), v, log)
    receive_msg-Hears m body g hears =
        ap seen (receive_msg-softbts net stack fuel sd sock s body g)
        ∙ ap (λ r. ok (some (length body), r.0, r.1)) hears

    -- A message that arrives whole (an O&M request, the manufacturer's message, a
    -- ping, a request for the identity, or one that calls for no answer) takes the site to the
    -- specified state, has the specified calls of `send` and `kill_background` made, and `receive_msg`
    -- returns the length of its body.
    pub receive_msg-heard :
        (m : Said) (body : List ℕ) (g : Gives sock (proto_of m) body)
        → Means fuel stack m (filled g.hi g.lo (proto_of m) body s.buf)
        → let (v, log) = heard net sd m (view s) s.log in
          seen (receive_msg net stack fuel sd sock s) ≡ ok (some (length body), v, log)
    unfolding heard
    receive_msg-heard (asks r) body g h = receive_msg-request net stack fuel sd sock s body g r h
    receive_msg-heard connects body g h =
        let s1 = record s { buf = filled g.hi g.lo proto_oml body s.buf } in
        ap seen (
          receive_msg-Gives net stack fuel sd sock s proto_oml body g
          ∙ ap (λ o. o >>= λ s'. ok (some (length body), s'))
              (deliver-oml net stack fuel sd sock s (length body) s1
                (filled-proto g.hi g.lo proto_oml body s.buf) g.fits))
        ∙ seen-observe (some (length body)) _ _ _ (oml_msg-connects net fuel sd s1 h.0 h.1)
    receive_msg-heard (pings ends) body g h =
        receive_msg-Hears (pings ends) body g (softbts_msg-pings ends _ h.0 h.1)
    receive_msg-heard identifies body g h =
        receive_msg-Hears identifies body g (softbts_msg-identifies _ h)
    receive_msg-heard silent body g h =
        receive_msg-Hears silent body g (softbts_msg-silent _ h.0 h.1)

seen-inv :
    (r : Outcome (Option ℕ × Bts)) (n : Option ℕ) (v : Site) (log : List Event)
    → seen r ≡ ok (n, v, log)
    → (m : Option ℕ × Bts) × (r ≡ ok m) × (m.0 ≡ n) × (view m.1 ≡ v) × (m.1.log ≡ log)
seen-inv (ok (n1, s)) n v log e = ((n1, s), refl, cc, cc, cc)
seen-inv fault n v log e = cc
seen-inv looping n v log e = cc

-- The same, with the state that `receive_msg` returns.
pub receive_msg-returns :
    (net : Net) (stack : Stack) (fuel sd : ℕ) (sock : Socket) (s : Bts) (m : Said) (body : List ℕ)
    → (g : Gives sock (proto_of m) body)
    → Means fuel stack m (filled g.hi g.lo (proto_of m) body s.buf)
    → (r : Option ℕ × Bts) × (receive_msg net stack fuel sd sock s ≡ ok r)
      × (r.0 ≡ some (length body))
      × (view r.1 ≡ (heard net sd m (view s) s.log).0)
      × (r.1.log ≡ (heard net sd m (view s) s.log).1)
receive_msg-returns net stack fuel sd sock s m body g h =
    seen-inv _ _ _ _ (receive_msg-heard net stack fuel sd sock s m body g h)
