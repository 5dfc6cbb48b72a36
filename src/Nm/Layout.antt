-- ===== src/Nm/Layout.antt =====
-- The packed structures of src/bts_nm.h, each as the widths of its fields in order: where a field
-- lies, and how long a structure is.
use soft_bts.Base.{ℕ, zero, suc, ◌+◌, List, [], ◌∷◌}

abbrev pub u8 : ℕ
u8 = 1

abbrev pub u16 : ℕ
u16 = 2

-- An array `data[0]` at the end takes no place.
abbrev pub sizeof : List ℕ → ℕ
sizeof [] = 0
sizeof (w ∷ ws) = w + sizeof ws

-- Where the field of a number, counted from 0, begins.
abbrev pub offset : List ℕ → ℕ → ℕ
offset ws zero = 0
offset [] (suc n) = 0
offset (w ∷ ws) (suc n) = w + offset ws n

-- `struct softbts_head`: len, proto
abbrev pub msg_head : List ℕ
msg_head = u16 ∷ u8 ∷ []

-- `struct abis_om_hdr`: mdisc, placement, sequence, length
abbrev pub om_hdr : List ℕ
om_hdr = u8 ∷ u8 ∷ u8 ∷ u8 ∷ []

-- `struct abis_om_obj_inst`: bts_nr, trx_nr, ts_nr
abbrev pub obj_inst : List ℕ
obj_inst = u8 ∷ u8 ∷ u8 ∷ []

-- `struct abis_om_fom_hdr`: msg_type, obj_class, obj_inst
abbrev pub fom_hdr : List ℕ
fom_hdr = u8 ∷ u8 ∷ (sizeof obj_inst) ∷ []

-- `struct abis_admin_state`: atribute, state
abbrev pub admin_state : List ℕ
admin_state = u8 ∷ u8 ∷ []

-- `struct abis_avail_status`: atribute, len, avail_status
abbrev pub avail_status : List ℕ
avail_status = u8 ∷ u16 ∷ u8 ∷ []

-- `struct abis_oper_state`: atribute, oper_state
abbrev pub oper_state : List ℕ
oper_state = u8 ∷ u8 ∷ []

-- `struct abis_file_id`: atribute, len
abbrev pub file_id : List ℕ
file_id = u8 ∷ u16 ∷ []

-- `struct abis_file_ver`: atribute, len
abbrev pub file_ver : List ℕ
file_ver = u8 ∷ u16 ∷ []

-- `struct abis_sw_config`: atribute, len
abbrev pub sw_config : List ℕ
sw_config = u8 ∷ u16 ∷ []

-- `struct interf_boundaries`: atribute, bound0 to bound5
abbrev pub interf_bound : List ℕ
interf_bound = u8 ∷ u8 ∷ u8 ∷ u8 ∷ u8 ∷ u8 ∷ u8 ∷ []

-- `struct intave_parameter`: attribute, intave
abbrev pub intave_param : List ℕ
intave_param = u8 ∷ u8 ∷ []

-- `struct t200`: atribute, and seven timers
abbrev pub t200 : List ℕ
t200 = u8 ∷ u8 ∷ u8 ∷ u8 ∷ u8 ∷ u8 ∷ u8 ∷ u8 ∷ []

-- `struct connection_failure_criterion`: atribute, length, criterion, criteria_value
abbrev pub conn_fail_criteria : List ℕ
conn_fail_criteria = u8 ∷ u16 ∷ u8 ∷ u8 ∷ []

-- `struct overload_period`: atribute, length, period
abbrev pub overload_period : List ℕ
overload_period = u8 ∷ u16 ∷ u8 ∷ []

-- `struct max_timing_advance`: atribute, timing_adv
abbrev pub max_timing_adv : List ℕ
max_timing_adv = u8 ∷ u8 ∷ []

-- `struct CCCH_load_treshold`: atribute, treshold
abbrev pub ccch_load_treshold : List ℕ
ccch_load_treshold = u8 ∷ u8 ∷ []

-- `struct CCCH_load_indication_period`: atribute, period
abbrev pub ccch_load_ind_period : List ℕ
ccch_load_ind_period = u8 ∷ u8 ∷ []

-- `struct RACCH_busy_threshold`: atribute, threshold
abbrev pub racch_busy_threshold : List ℕ
racch_busy_threshold = u8 ∷ u8 ∷ []

-- `struct RACCH_load_averaging_slots`: atribute, load_aver_MSB, load_aver_LSB
abbrev pub racch_load_averaging_slots : List ℕ
racch_load_averaging_slots = u8 ∷ u8 ∷ u8 ∷ []

-- `struct BTS_air_timer`: atribute, T3105
abbrev pub bts_air_timer : List ℕ
bts_air_timer = u8 ∷ u8 ∷ []

-- `struct Ny1`: atribute, Ny1
abbrev pub ny1 : List ℕ
ny1 = u8 ∷ u8 ∷ []

-- `struct BCCH_ARCFN`: atribute, ARCFN_MSB, ARFCN_LSB
abbrev pub bcch_arcfn : List ℕ
bcch_arcfn = u8 ∷ u8 ∷ u8 ∷ []

-- `struct BSIC`: atribute, bsic
abbrev pub bsic : List ℕ
bsic = u8 ∷ u8 ∷ []

-- `struct starting_time`: atribute, current_FN_MSB, current_FN_LSB
abbrev pub starting_time : List ℕ
starting_time = u8 ∷ u8 ∷ u8 ∷ []

-- The headers of a message, one behind the other, and where the attributes begin.
abbrev pub om_hdr_at : ℕ
om_hdr_at = sizeof msg_head

abbrev pub fom_hdr_at : ℕ
fom_hdr_at = om_hdr_at + sizeof om_hdr

abbrev pub obj_inst_at : ℕ
obj_inst_at = fom_hdr_at + offset fom_hdr 2

abbrev pub data_at : ℕ
data_at = fom_hdr_at + sizeof fom_hdr
