-- ===== src/Oml/Request.antt =====
-- What the handlers of src/bts_nm.c read of a request, in the buffer, and the arrays of eight.
use soft_bts.Base.{ℕ, ◌+◌, Bool, ◌==◌, if◌then◌else◌}
use soft_bts.Nm.{ObjClass, obj_code, MsgType, msg_code}
use soft_bts.Nm.Layout.{offset, fom_hdr, obj_inst, om_hdr_at, fom_hdr_at, obj_inst_at}
use soft_bts.Bts.{Bts}

-- `fom_hdr->msg_type`, `fom_hdr->obj_class`, `fom_hdr->obj_inst.ts_nr` and `om_hdr->mdisc`
abbrev pub msg_type : Bts → ℕ
msg_type s = s.buf fom_hdr_at

abbrev pub class_is : Bts → ObjClass → Bool
class_is s c = s.buf (fom_hdr_at + offset fom_hdr 1) == obj_code c

abbrev pub ts_nr : Bts → ℕ
ts_nr s = s.buf (obj_inst_at + offset obj_inst 2)

abbrev pub mdisc : Bts → ℕ
mdisc s = s.buf om_hdr_at

abbrev pub type_is : Bts → MsgType → Bool
type_is s mt = msg_type s == msg_code mt

-- NM_OC_NULL, which stands for an object instance number that does not apply.
abbrev pub none_nr : ℕ
none_nr = obj_code ObjClass.null

abbrev pub channels : ℕ
channels = 8

-- `a[i] = v` on one of the arrays of eight.
abbrev pub update : (ℕ → ℕ) → ℕ → ℕ → ℕ → ℕ
update a i v j = if j == i then v else a j
