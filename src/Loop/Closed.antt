-- ===== src/Loop/Closed.antt =====
-- The loop of src/softbts.c when the controller has closed the O&M link: `recv` then gives no bytes
-- at once, and `select` reports the descriptor ready again and again.
use soft_bts.Base.{ℕ, ◌≤◌, ◌≡◌, ◌≢◌, ◌⊎◌, refl, ap, ◌∙◌, true, List, [], ◌∷◌, map, some}
use mathlib.Core.Path.{ap₂}
use soft_bts.Base.Outcome.{ok, ◌>>=◌}
use soft_bts.Buffer.{load16, htons}
use soft_bts.Nm.{proto_softbts}
use soft_bts.Bts.{Bts, Net}
use soft_bts.Link.{Stack, Socket, got, softbts_msg, receive_msg}
use soft_bts.Link.Receive.{receive_msg-closed, deliver-softbts}
use soft_bts.Link.Converse.{frames, replies, softbts_msg-reply, softbts_msg-buf}
use soft_bts.Loop.{World, oml, run, react, connection}

-- A closed socket.
abbrev pub closed : Socket
closed = record { header = got []; body = λ n. got [] }

-- What the buffer still holds: a message of the softBTS protocol, as long as it says, which does not
-- ask for an introduction.
pub record IsStale (s : Bts) : Type 0 where
  pub proto : s.buf 2 ≡ proto_softbts
  pub fits : htons (load16 s.buf 0) ≤ 252
  pub quiet : (s.bts_id_resp ≡ true) ⊎ (s.buf 3 ≢ 4)

module _ (net : Net) (fuel : ℕ) where
  receive_msg-stale :
      (stack : Stack) (sd : ℕ) (s : Bts)
      → IsStale s
      → receive_msg net stack fuel sd closed s ≡ ok (some 0, softbts_msg net stack sd s)
  receive_msg-stale stack sd s h =
      receive_msg-closed net stack fuel sd closed s refl refl
      ∙ ap (λ o. o >>= λ s'. ok (some 0, s'))
          (deliver-softbts net stack fuel sd (htons (load16 s.buf 0)) s h.proto h.fits)

  softbts_msg-IsStale :
      (stack : Stack) (sd : ℕ) (s : Bts) → IsStale s → IsStale (softbts_msg net stack sd s)
  softbts_msg-IsStale stack sd s h =
      let kept = softbts_msg-buf net stack sd s h.quiet in
      let (l, flag) = softbts_msg-reply net stack sd s h.quiet in
      record { proto = rw kept h.proto; fits = rw kept h.fits; quiet = rw (kept, flag) h.quiet }

  -- After the controller has closed the O&M link, over a message of the softBTS protocol of at most
  -- 252 bytes that asks for no introduction, nothing ends the connection: as long as the loop goes
  -- round it comes to no fault, and every round hands the answer to that message to `send` once more.
  pub run-closed :
      (stacks : List Stack) (w : World)
      → IsStale w.bts
      → (w' : World) × (run net fuel (map (λ stack. oml stack closed) stacks) w ≡ ok w')
        × (frames w'.bts.log
            ≡ replies w.oml_fd (map (λ stack. w.bts.buf) stacks) (frames w.bts.log))
        × (w'.table ≡ w.table)
  unfolding run react connection replies
  run-closed [] w h = (w, refl, refl, refl)
  run-closed (stack ∷ stacks) w h =
      let s1 = softbts_msg net stack w.oml_fd w.bts in
      let w1 = record w { bts = s1 } in
      let (w', runs, answers, same) =
        run-closed stacks w1 (softbts_msg-IsStale stack w.oml_fd w.bts h) in
      let (l, flag) = softbts_msg-reply net stack w.oml_fd w.bts h.quiet in
      (
        w',
        rw (receive_msg-stale stack w.oml_fd w.bts h) runs,
        answers
            ∙ ap₂ (λ b k. replies w.oml_fd (map (λ _. b) stacks) k)
                (softbts_msg-buf net stack w.oml_fd w.bts h.quiet) l,
        same,
      )
