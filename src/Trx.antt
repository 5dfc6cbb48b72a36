-- ===== src/Trx.antt =====
-- src/trx_init.c: the table of the four transceiver connections.
pub mod Table
pub mod Accept
pub mod Capacity
pub mod Connections
pub mod Close
pub mod Told
use soft_bts.Base.{
  ℕ, zero, suc, ◌+◌, Bool, true, false, Option, none, some, List, [], ◌∷◌, ◌==◌, if◌then◌else◌, set,
}
use soft_bts.Base.Outcome.{Outcome, ok, fault, ◌>>=◌}
use soft_bts.Buffer.{Buffer}
use soft_bts.Nm.{IpaMsg, ipa_code, IdTag, tag_code, proto_softbts}
use soft_bts.Bts.{Bts, Net}
use soft_bts.Link.{Stack, Socket, is_zero, receive_msg}
use Table.{Fd, find_index, find_empty_record}

-- What the functions ask of the system: bytes written to a descriptor, a descriptor closed, a
-- table entry put on and taken off the list of lib/select.
pub data Action : Type 0 where
  wrote : ℕ → List ℕ → Action
  closed : ℕ → Action
  listen unlisten : ℕ → Action

-- `trx[MAX_TRX]` by the descriptors of its entries, the buffer `msg_trx`, and what was done,
-- newest first.
pub record Trx : Type 0 where
  pub fds : List Fd
  pub msg_trx : Buffer
  pub actions : List Action

abbrev pub init : Trx
init = record { fds = none ∷ none ∷ none ∷ none ∷ []; msg_trx = λ i. 0; actions = [] }

-- What the system answers: `accept`, `socket_register_fd` and `write`.
pub record Answers : Type 0 where
  pub accepted : Option ℕ
  pub registers : Bool
  pub writes : Bool

abbrev pub id_req : List ℕ
id_req =
    0
    ∷ 11
    ∷ proto_softbts
    ∷ ipa_code IpaMsg.id_get
    ∷ 0x00
    ∷ tag_code IdTag.unit
    ∷ 0x00
    ∷ tag_code IdTag.unitname
    ∷ 0x00
    ∷ tag_code IdTag.swversion
    ∷ 0x00
    ∷ tag_code IdTag.macaddr
    ∷ 0x00
    ∷ tag_code IdTag.ipaddr
    ∷ []

-- "\nThis BTS can serve only 4 TRX"
abbrev pub full_text : List ℕ
full_text =
    10 ∷ b'T' ∷ b'h' ∷ b'i' ∷ b's' ∷ 32 ∷ b'B' ∷ b'T' ∷ b'S' ∷ 32 ∷ b'c' ∷ b'a' ∷ b'n' ∷ 32 ∷ b's'
    ∷ b'e' ∷ b'r' ∷ b'v' ∷ b'e' ∷ 32 ∷ b'o' ∷ b'n' ∷ b'l' ∷ b'y' ∷ 32 ∷ b'4' ∷ 32 ∷ b'T' ∷ b'R'
    ∷ b'X' ∷ []

abbrev pub act : Action → Trx → Trx
act a t = record t { actions = a ∷ t.actions }

-- The table is full: the caller is told so and turned away.
turn_away : ℕ → Trx → Trx
turn_away sd t = act (closed sd) (act (wrote sd full_text) t)

-- A free entry takes the connection. A failure of the registration or of the write closes the
-- descriptor and leaves the entry as it is. The result is whether the function returns 0.
pub take_entry : Answers → ℕ → ℕ → Trx → Bool × Trx
take_entry ans i sd t =
    let t1 = record t { fds = set t.fds i (some sd) } in
    if ans.registers
    then (let t2 = act (wrote sd id_req) (act (listen i) t1) in
        if ans.writes then (true, t2) else (false, act (closed sd) t2))
    else (false, act (closed sd) t1)

place_connection : Answers → Option ℕ → Option ℕ → Trx → Bool × Trx
unfolding turn_away take_entry
place_connection ans i none t = (false, t)
place_connection ans none (some sd) t = (true, turn_away sd t)
place_connection ans (some i) (some sd) t = take_entry ans i sd t

unfoldable pub accept_connection : Answers → Trx → Bool × Trx
unfolding place_connection
accept_connection ans t = place_connection ans (find_empty_record t.fds) ans.accepted t

-- A connection that is lost, or seems so: `close`, `fd = -1`, `socket_unregister_fd`.
close_entry : ℕ → ℕ → Trx → Trx
close_entry i sd t = act (unlisten i) (record (act (closed sd) t) { fds = set t.fds i none })

-- `receive_msg` works in `msg_trx` here, and shares all other state with the other links.
read_entry : Net → Stack → ℕ → Socket → ℕ → ℕ → Bts → Trx → Outcome (Bts × Trx)
unfolding close_entry
read_entry net stack fuel sock i sd s t = do
  (rc, s1) ← receive_msg net stack fuel sd sock (record s { buf = t.msg_trx })
  let t1 = record t { msg_trx = s1.buf }
  ok (record s1 { buf = s.buf }, (if is_zero rc then close_entry i sd t1 else t1))

-- The callback of an entry, when it can be read. `find_index` is -1 for a descriptor that is not
-- in the table, and `trx[-1]` is no entry.
unfoldable pub trx_cb : Net → Stack → ℕ → Socket → ℕ → Bts → Trx → Outcome (Bts × Trx)
unfolding read_entry
trx_cb net stack fuel sock sd s t = elim (find_index (some sd) t.fds) [
  | none ↦ fault
  | some i ↦ read_entry net stack fuel sock i sd s t
]
