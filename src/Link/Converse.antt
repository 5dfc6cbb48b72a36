-- ===== src/Link/Converse.antt =====
-- `softbts_msg` of src/bts_nm.c over a whole conversation: one message after the other.
use soft_bts.Base.{
  ℕ, ◌≡◌, ◌≢◌, ◌⊎◌, inl, inr, refl, ap, ◌∙◌, true, false, ◌==◌, List, [], ◌∷◌, ◌++◌, All,
  if◌then◌else◌, arith, Bool-cases,
}
use soft_bts.Buffer.{Buffer}
use soft_bts.Bts.{Bts, Net, Event, sent, killed}
use soft_bts.Bts.Log.{transmit}
use soft_bts.Link.{Stack, softbts_msg, id_resp, pong}
use soft_bts.Link.Identify.{introduction, softbts_msg-first}

-- What was handed to `send`, without the calls of `kill_background` in between.
unfoldable pub frames : List Event → List Event
frames [] = []
frames (sent sd frame ∷ log) = let rest = frames log in sent sd frame ∷ rest
frames (killed ∷ log) = frames log

-- The answer to one message that asks for no introduction: a pong to a ping, the identity to an
-- identity request, and nothing to any other message.
unfoldable pub reply : ℕ → Buffer → List Event → List Event
reply sd b log =
    if b 3 == 0 then sent sd pong ∷ log else if b 3 == 4 then sent sd id_resp ∷ log else log

unfoldable pub replies : ℕ → List Buffer → List Event → List Event
replies sd [] log = log
replies sd (b ∷ bs) log = replies sd bs (reply sd b log)

module _ (net : Net) (stack : Stack) (sd : ℕ) where
  -- Each message overwrites the buffer before `softbts_msg` is called.
  pub converse : List Buffer → Bts → Bts
  converse [] s = s
  converse (b ∷ bs) s = converse bs (softbts_msg net stack sd (record s { buf = b }))

  converse-append :
      (pre post : List Buffer) (s : Bts) → converse (pre ++ post) s ≡ converse post (converse pre s)
  unfolding converse
  converse-append [] post s = refl
  converse-append (b ∷ pre) post s =
      converse-append pre post (softbts_msg net stack sd (record s { buf = b }))

  -- A message that asks for no introduction, and what it leaves of the flag.
  pub softbts_msg-reply :
      (s : Bts)
      → (s.bts_id_resp ≡ true) ⊎ (s.buf 3 ≢ 4)
      → (frames (softbts_msg net stack sd s).log ≡ reply sd s.buf (frames s.log))
        × ((softbts_msg net stack sd s).bts_id_resp ≡ s.bts_id_resp)
  unfolding softbts_msg frames reply
  softbts_msg-reply s h = ground arith

  pub softbts_msg-buf :
      (s : Bts) → (s.bts_id_resp ≡ true) ⊎ (s.buf 3 ≢ 4) → (softbts_msg net stack sd s).buf ≡ s.buf
  unfolding softbts_msg
  softbts_msg-buf s h = ground arith

  converse-replies :
      (bs : List Buffer) (s : Bts)
      → (s.bts_id_resp ≡ true) ⊎ All (λ b. b 3 ≢ 4) bs
      → (frames (converse bs s).log ≡ replies sd bs (frames s.log))
        × ((converse bs s).bts_id_resp ≡ s.bts_id_resp)
  unfolding converse replies
  converse-replies [] s h = (refl, refl)
  converse-replies (b ∷ bs) s (inl known) =
      let (l, k) = softbts_msg-reply (record s { buf = b }) (inl known) in
      let (l', k') =
        converse-replies bs (softbts_msg net stack sd (record s { buf = b })) (inl (k ∙ known)) in
      (l' ∙ ap (replies sd bs) l, k' ∙ k)
  converse-replies (b ∷ bs) s (inr others) =
      let (l, k) = softbts_msg-reply (record s { buf = b }) (inr others.0) in
      let (l', k') =
        converse-replies bs (softbts_msg net stack sd (record s { buf = b })) (inr others.1) in
      (l' ∙ ap (replies sd bs) l, k' ∙ k)

  softbts_msg-introduction :
      (s : Bts)
      → s.buf 3 ≡ 4
      → s.bts_id_resp ≡ false
      → (frames (softbts_msg net stack sd s).log
          ≡ transmit sd introduction (sent sd id_resp ∷ frames s.log))
        × ((softbts_msg net stack sd s).bts_id_resp ≡ true)
  unfolding frames
  softbts_msg-introduction s asks new =
      let (l, known, waits) = softbts_msg-first net stack sd s asks new in
      elim (Bool-cases (net s.log sd id_resp)) [
        | inl good ↦ (ap frames (rw good at l), known)
        | inr bad ↦ (ap frames (rw bad at l), known)
      ]

  -- In a conversation that starts before the station has introduced itself, every ping is answered by
  -- a pong and every identity request by the identity, in their order; the station introduces itself
  -- behind its answer to the first request and at no other time. This does not depend on what the
  -- network takes, nor on variables that are not set, as far as the handler goes on.
  pub converse-introduces :
      (pre post : List Buffer) (b : Buffer) (s : Bts)
      → s.bts_id_resp ≡ false
      → All (λ b. b 3 ≢ 4) pre
      → b 3 ≡ 4
      → frames (converse (pre ++ b ∷ post) s).log
        ≡ replies sd post
            (transmit sd introduction (sent sd id_resp ∷ replies sd pre (frames s.log)))
  unfolding converse
  converse-introduces pre post b s new quiet asks =
      let s1 = converse pre s in
      let s2 = softbts_msg net stack sd (record s1 { buf = b }) in
      let (l, k) = converse-replies pre s (inr quiet) in
      let (l', known) = softbts_msg-introduction (record s1 { buf = b }) asks (k ∙ new) in
      ap (λ t. frames t.log) (converse-append pre (b ∷ post) s)
      ∙ (converse-replies post s2 (inl known)).0
      ∙ ap (replies sd post) (l' ∙ ap (λ t. transmit sd introduction (sent sd id_resp ∷ t)) l)
