-- ===== src/Bts/Log.antt =====
-- The log of what was sent: lists of messages, and that each frame is as long as it says.
use soft_bts.Base.{
  Bool, true, false, ◌==◌, ◌&&◌, if◌then◌else◌, ℕ, ◌+◌, ◌*◌, ◌≡◌, List, [], ◌∷◌, length, All,
}
use soft_bts.Message.{Message, encode}
use soft_bts.Bts.{Bts, Event, sent, killed}

-- The calls of `send` for a list of messages, behind an older log; newest first.
abbrev pub transmit : ℕ → List Message → List Event → List Event
transmit sd [] log = log
transmit sd (m ∷ ms) log = transmit sd ms (sent sd (encode m) ∷ log)

-- The fourth byte of an O&M message: in a formatted one it counts all bytes behind it, and in a
-- manufacturer's one those behind the manufacturer's name, which has a length of its own.
abbrev pub inner_framed : List ℕ → Bool
inner_framed (mdisc ∷ placement ∷ sequence ∷ len ∷ name ∷ rest) =
    if mdisc == 0x80 then len == 1 + length rest else (mdisc == 0x10) && (name + len == length rest)
inner_framed _ = false

-- The first two bytes of a frame count the bytes behind the third.
abbrev pub framed : List ℕ → Bool
framed (hi ∷ lo ∷ proto ∷ rest) =
    (hi * 256 + lo == length rest) && (if proto == 0xff then inner_framed rest else true)
framed _ = false

abbrev pub IsFramed : Event → Type 0
IsFramed (sent sd frame) = framed frame ≡ true
IsFramed killed = Unit {0}

abbrev pub AllFramed : Bts → Type 0
AllFramed s = All IsFramed s.log
