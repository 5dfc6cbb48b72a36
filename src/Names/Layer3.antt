-- ===== src/Names/Layer3.antt =====
-- The tables of src/L3_0408.h: names for the codes of the radio interface's layer 3.
use soft_bts.Base.{none, some, [], ◌∷◌}
use soft_bts.Names.Format.{Table, entry}

abbrev pub rr : Table
rr =
    entry 0x3c (some "RR_INIT_REQ")
    ∷ entry 0x3b (some "RR_ADD_ASS")
    ∷ entry 0x3f (some "RR_IMM_ASS")
    ∷ entry 0x39 (some "RR_IMM_ASS_EXT")
    ∷ entry 0x3a (some "RR_IMM_ASS_REJ")
    ∷ entry 0x35 (some "RR_CIPH_M_CMD")
    ∷ entry 0x32 (some "RR_CIPH_M_COMPL")
    ∷ entry 0x30 (some "RR_CFG_CHG_CMD")
    ∷ entry 0x31 (some "RR_CFG_CHG_ACK")
    ∷ entry 0x33 (some "RR_CFG_CHG_REJ")
    ∷ entry 0x2e (some "RR_ASS_CMD")
    ∷ entry 0x29 (some "RR_ASS_COMPL")
    ∷ entry 0x2f (some "RR_ASS_FAIL")
    ∷ entry 0x2b (some "RR_HANDO_CMD")
    ∷ entry 0x2c (some "RR_HANDO_COMPL")
    ∷ entry 0x28 (some "RR_HANDO_FAIL")
    ∷ entry 0x2d (some "RR_HANDO_INFO")
    ∷ entry 0x08 (some "RR_CELL_CHG_ORDER")
    ∷ entry 0x23 (some "RR_PDCH_ASS_CMD")
    ∷ entry 0x0d (some "RR_CHAN_REL")
    ∷ entry 0x0a (some "RR_PART_REL")
    ∷ entry 0x0f (some "RR_PART_REL_COMP")
    ∷ entry 0x21 (some "RR_PAG_REQ_1")
    ∷ entry 0x22 (some "RR_PAG_REQ_2")
    ∷ entry 0x24 (some "RR_PAG_REQ_3")
    ∷ entry 0x27 (some "RR_PAG_RESP")
    ∷ entry 0x20 (some "RR_NOTIF_NCH")
    ∷ entry 0x25 (some "RR_NOTIF_FACCH")
    ∷ entry 0x26 (some "RR_NOTIF_RESP")
    ∷ entry 0x18 (some "RR_SYSINFO_8")
    ∷ entry 0x19 (some "RR_SYSINFO_1")
    ∷ entry 0x1a (some "RR_SYSINFO_2")
    ∷ entry 0x1b (some "RR_SYSINFO_3")
    ∷ entry 0x1c (some "RR_SYSINFO_4")
    ∷ entry 0x1d (some "RR_SYSINFO_5")
    ∷ entry 0x1e (some "RR_SYSINFO_6")
    ∷ entry 0x1f (some "RR_SYSINFO_7")
    ∷ entry 0x02 (some "RR_SYSINFO_2bis")
    ∷ entry 0x03 (some "RR_SYSINFO_2ter")
    ∷ entry 0x05 (some "RR_SYSINFO_5bis")
    ∷ entry 0x06 (some "RR_SYSINFO_5ter")
    ∷ entry 0x04 (some "RR_SYSINFO_9")
    ∷ entry 0x00 (some "RR_SYSINFO_13")
    ∷ entry 0x3d (some "RR_SYSINFO_16")
    ∷ entry 0x3e (some "RR_SYSINFO_17")
    ∷ entry 0x10 (some "RR_CHAN_MODE_MODIF")
    ∷ entry 0x12 (some "RR_STATUS")
    ∷ entry 0x17 (some "RR_CHAN_MODE_MODIF_ACK")
    ∷ entry 0x14 (some "RR_FREQ_REDEF")
    ∷ entry 0x15 (some "RR_MEAS_REP")
    ∷ entry 0x16 (some "RR_CLSM_CHG")
    ∷ entry 0x13 (some "RR_CLSM_ENQ")
    ∷ entry 0x36 (some "RR_EXT_MEAS_REP")
    ∷ entry 0x37 (some "RR_EXT_MEAS_REP_ORD")
    ∷ entry 0x34 (some "RR_GPRS_SUSP_REQ")
    ∷ entry 0x08 (some "RR_VGCS_UPL_GRANT")
    ∷ entry 0x0e (some "RR_UPLINK_RELEASE")
    ∷ entry 0x0c (some "RR_UPLINK_FREE")
    ∷ entry 0x2a (some "RR_UPLINK_BUSY")
    ∷ entry 0x11 (some "RR_TALKER_IND")
    ∷ entry 0x38 (some "RR_APP_INFO")
    ∷ entry 0x00 none
    ∷ []

abbrev pub mm : Table
mm =
    entry 0x01 (some "MM_IMSI_DETACH_IND")
    ∷ entry 0x02 (some "MM_LOC_UPD_ACCEPT")
    ∷ entry 0x04 (some "MM_LOC_UPD_REJECT")
    ∷ entry 0x08 (some "MM_LOC_UPD_REQUEST")
    ∷ entry 0x11 (some "MM_AUTH_REJ")
    ∷ entry 0x12 (some "MM_AUTH_REQ")
    ∷ entry 0x14 (some "MM_AUTH_RESP")
    ∷ entry 0x18 (some "MM_ID_REQ")
    ∷ entry 0x19 (some "MM_ID_RESP")
    ∷ entry 0x1a (some "MM_TMSI_REALL_CMD")
    ∷ entry 0x1b (some "MM_TMSI_REALL_COMPL")
    ∷ entry 0x21 (some "MM_CM_SERV_ACC")
    ∷ entry 0x22 (some "MM_CM_SERV_REJ")
    ∷ entry 0x23 (some "MM_CM_SERV_ABORT")
    ∷ entry 0x24 (some "MM_CM_SERV_REQ")
    ∷ entry 0x25 (some "MM_CM_SERV_PROMPT")
    ∷ entry 0x28 (some "MM_CM_REEST_REQ")
    ∷ entry 0x29 (some "MM_ABORT")
    ∷ entry 0x30 (some "MM_NULL")
    ∷ entry 0x31 (some "MM_STATUS")
    ∷ entry 0x32 (some "MM_INFO")
    ∷ entry 0x00 none
    ∷ []
