-- ===== src/Names/Rsl.antt =====
-- The tables of src/abis_rsl.h: names for the codes of the signalling link.
use soft_bts.Base.{none, some, [], ◌∷◌}
use soft_bts.Names.Format.{Table, entry}

abbrev pub mg : Table
mg =
    entry 0x00 (some " Reserved")
    ∷ entry 0x01 (some " Radio Link Layer Message")
    ∷ entry 0x04 (some " DCH Management Message")
    ∷ entry 0x06 (some " Common CHannel Management Message")
    ∷ entry 0x08 (some " TRX Management messages")
    ∷ entry 0x10 (some " Location Services message")
    ∷ entry 0x00 none
    ∷ []

abbrev pub mt_cch : Table
mt_cch =
    entry 0x11 (some "BCCH Information")
    ∷ entry 0x12 (some "CCCH Load Indication")
    ∷ entry 0x13 (some "Channel Required")
    ∷ entry 0x14 (some "Delete Indication")
    ∷ entry 0x15 (some "Paging Command")
    ∷ entry 0x16 (some "Immediate Assign Command")
    ∷ entry 0x17 (some "SMS Broadcast Request")
    ∷ entry 0x19 (some "RF Resource Indication")
    ∷ entry 0x1a (some "SACCH Filling")
    ∷ entry 0x1b (some "Overload")
    ∷ entry 0x1c (some "Error Report")
    ∷ entry 0x1d (some "SMS Broadcast Command")
    ∷ entry 0x1e (some "CBCH Load Indicator")
    ∷ entry 0x1f (some "Notification Command ")
    ∷ entry 0x00 none
    ∷ []

abbrev pub ch : Table
ch =
    entry 0x01 (some "Bm_ACCHs")
    ∷ entry 0x02 (some "Lm_ACCHs")
    ∷ entry 0x03 (some "Lm_ACCHs")
    ∷ entry 0x04 (some "SDCCH4_ACCH")
    ∷ entry 0x05 (some "SDCCH4_ACCH")
    ∷ entry 0x06 (some "SDCCH4_ACCH")
    ∷ entry 0x07 (some "SDCCH4_ACCH")
    ∷ entry 0x08 (some "SDCCH8_ACCH")
    ∷ entry 0x09 (some "SDCCH8_ACCH")
    ∷ entry 0x0a (some "SDCCH8_ACCH")
    ∷ entry 0x0b (some "SDCCH8_ACCH")
    ∷ entry 0x0c (some "SDCCH8_ACCH")
    ∷ entry 0x0d (some "SDCCH8_ACCH")
    ∷ entry 0x0e (some "SDCCH8_ACCH")
    ∷ entry 0x0f (some "SDCCH8_ACCH")
    ∷ entry 0x10 (some "BCCH")
    ∷ entry 0x11 (some "RACH")
    ∷ entry 0x12 (some "PCH_AGCH")
    ∷ entry 0x00 none
    ∷ []

abbrev pub ei : Table
ei =
    entry 0x01 (some "CHAN_NR")
    ∷ entry 0x02 (some "LINK_IDENT")
    ∷ entry 0x03 (some "ACT_TYPE")
    ∷ entry 0x04 (some "BS_POWER")
    ∷ entry 0x05 (some "CHAN_IDENT")
    ∷ entry 0x06 (some "CHAN_MODE")
    ∷ entry 0x07 (some "ENCR_INFO")
    ∷ entry 0x08 (some "FRAME_NUMBER")
    ∷ entry 0x09 (some "HANDO_REF")
    ∷ entry 0x0a (some "L1_INFO")
    ∷ entry 0x0b (some "L3_INFO")
    ∷ entry 0x0c (some "MS_IDENTITY")
    ∷ entry 0x0d (some "MS_POWER")
    ∷ entry 0x0e (some "PAGING_GROUP")
    ∷ entry 0x0f (some "PAGING_LOAD")
    ∷ entry 0x10 (some "PYHS_CONTEXT")
    ∷ entry 0x11 (some "ACCESS_DELAY")
    ∷ entry 0x12 (some "RACH_LOAD")
    ∷ entry 0x13 (some "REQ_REFERENCE")
    ∷ entry 0x14 (some "RELEASE_MODE")
    ∷ entry 0x15 (some "RESOURCE_INFO")
    ∷ entry 0x16 (some "RLM_CAUSE")
    ∷ entry 0x17 (some "STARTNG_TIME")
    ∷ entry 0x18 (some "TIMING_ADVANCE")
    ∷ entry 0x19 (some "UPLINK_MEAS")
    ∷ entry 0x1a (some "CAUSE")
    ∷ entry 0x1b (some "MEAS_RES_NR")
    ∷ entry 0x1c (some "MSG_ID")
    ∷ entry 0x1e (some "SYSINFO_TYPE")
    ∷ entry 0x1f (some "MS_POWER_PARAM")
    ∷ entry 0x20 (some "BS_POWER_PARAM")
    ∷ entry 0x21 (some "PREPROC_PARAM")
    ∷ entry 0x22 (some "PREPROC_MEAS")
    ∷ entry 0x23 (some "IMM_ASS_INFO")
    ∷ entry 0x24 (some "SMSCB_INFO")
    ∷ entry 0x25 (some "MS_TIMING_OFFSET")
    ∷ entry 0x26 (some "ERR_MSG")
    ∷ entry 0x27 (some "FULL_BCCH_INFO")
    ∷ entry 0x28 (some "CHAN_NEEDED")
    ∷ entry 0x29 (some "CB_CMD_TYPE")
    ∷ entry 0x2a (some "SMSCB_MSG")
    ∷ entry 0x2b (some "FULL_IMM_ASS_INFO")
    ∷ entry 0x2c (some "SACCH_INFO")
    ∷ entry 0x2d (some "CBCH_LOAD_INFO")
    ∷ entry 0x2e (some "SMSCB_CHAN_INDICATOR")
    ∷ entry 0x2f (some "GROUP_CALL_REF")
    ∷ entry 0x30 (some "CHAN_DESC")
    ∷ entry 0x31 (some "NCH_DRX_INFO")
    ∷ entry 0x32 (some "CMD_INDICATOR")
    ∷ entry 0x33 (some "EMLPP_PRIO")
    ∷ entry 0x34 (some "UIC")
    ∷ entry 0x35 (some "MAIN_CHAN_REF")
    ∷ entry 0x36 (some "MR_CONFIG")
    ∷ entry 0x37 (some "MR_CONTROL")
    ∷ entry 0x38 (some "SUP_CODEC_TYPES")
    ∷ entry 0x39 (some "CODEC_CONFIG")
    ∷ entry 0x3a (some "RTD")
    ∷ entry 0x3b (some "TFO_STATUS")
    ∷ entry 0x3c (some "LLP_APDU")
    ∷ entry 0x00 none
    ∷ []
