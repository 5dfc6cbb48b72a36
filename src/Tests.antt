-- ===== src/Tests.antt =====
-- Messages and sessions on which the theorems are applied.
mod Links
mod Objects
mod Attrs
mod Signalling
mod Connections
mod Texts
mod Runs
mod Daemons
mod Startups
mod Cells
mod Programs
mod Logs
use soft_bts.Base.{ℕ, true, List, [], ◌∷◌}
use soft_bts.Buffer.{Buffer, store_list}
use soft_bts.Bts
use soft_bts.Bts.{Bts, Net}
use soft_bts.Nm.{ObjClass, obj_code, MsgType, msg_code, Attr, att_code}
use soft_bts.Link.{Stack}

-- A network on which every `send` succeeds.
abbrev pub good_net : Net
good_net log sd frame = true

abbrev pub zeros : Buffer
zeros i = 0

abbrev pub stack : Stack
stack = record { rc_negative = true; octets_is_one = true }

abbrev pub fresh : Bts
fresh = Bts.init 9

abbrev pub with_bytes : List ℕ → Bts
with_bytes bs = record fresh { buf = store_list 0 bs zeros }

-- The bodies of three requests.
abbrev pub start_site : List ℕ
start_site =
    0x80
    ∷ 0x80
    ∷ 0
    ∷ 5
    ∷ msg_code MsgType.opstart
    ∷ obj_code ObjClass.site_manager
    ∷ 0xff
    ∷ 0xff
    ∷ 0xff
    ∷ []

abbrev pub start_last : List ℕ
start_last =
    0x80 ∷ 0x80 ∷ 0 ∷ 5 ∷ msg_code MsgType.opstart ∷ obj_code ObjClass.channel ∷ 0 ∷ 0 ∷ 7 ∷ []

abbrev pub set_attributes : List ℕ
set_attributes =
    0x80
    ∷ 0x80
    ∷ 0
    ∷ 7
    ∷ msg_code MsgType.set_bts_attr
    ∷ obj_code ObjClass.bts
    ∷ 0
    ∷ 0xff
    ∷ 0xff
    ∷ att_code Attr.bsic
    ∷ 63
    ∷ []
