-- ===== src/Names/Info.antt =====
-- The tables of src/L3_0408.h: names for the values in the System Information messages.
use soft_bts.Base.{none, some, [], ◌∷◌}
use soft_bts.Names.Format.{Table, entry}

abbrev pub att : Table
att =
    entry 0x00 (some "MSs in the cell are not allowed to apply IMSI attach and detach procedure")
    ∷ entry 0x01 (some "MSs in the cell shall apply IMSI attach and detach procedure")
    ∷ entry 0x00 none
    ∷ []

abbrev pub ccch_conf : Table
ccch_conf =
    entry 0x00 (some "1 basic physical channel used for CCCH, not combined with SDCCHs")
    ∷ entry 0x01 (some "1 basic physical channel used for CCCH, combined with SDCCHs")
    ∷ entry 0x02 (some "2 basic physical channel used for CCCH, not combined with SDCCHs")
    ∷ entry 0x03 (some " 3 basic physical channel used for CCCH, not combined with SDCCHs")
    ∷ entry 0x04 (some " basic physical channels used for CCCH, not combined with SDCCHs")
    ∷ entry 0x00 none
    ∷ []

abbrev pub bs_pa_mfrms : Table
bs_pa_mfrms =
    entry 0x00 (some "2 multiframes period for transm. PAGING REQUEST to the same paging subgroup")
    ∷ entry 0x01
        (some "3 multiframes period for transm. PAGING REQUEST to the same paging subgroup")
    ∷ entry 0x02
        (some "4 multiframes period for transm. PAGING REQUEST to the same paging subgroup")
    ∷ entry 0x03
        (some "5 multiframes period for transm. PAGING REQUEST to the same paging subgroup")
    ∷ entry 0x04
        (some "6 multiframes period for transm. PAGING REQUEST to the same paging subgroup")
    ∷ entry 0x05
        (some "7 multiframes period for transm. PAGING REQUEST to the same paging subgroup")
    ∷ entry 0x06
        (some "8 multiframes period for transm. PAGING REQUEST to the same paging subgroup")
    ∷ entry 0x0f
        (some "9 multiframes period for transm. PAGING REQUEST to the same paging subgroup")
    ∷ entry 0x00 none
    ∷ []

abbrev pub dtx : Table
dtx =
    entry 0x00 (some "The MSs may use uplink discontinuous transmission")
    ∷ entry 0x01 (some "The MSs shall use uplink discontinuous transmission")
    ∷ entry 0x02 (some "The MS shall not use uplink discontinuous transmission")
    ∷ entry 0x00 none
    ∷ []

abbrev pub rest_octets_si3 : Table
rest_octets_si3 =
    entry 0x01 (some "Selection Parameters:")
    ∷ entry 0x02 (some "Power Offset:")
    ∷ entry 0x03 (some "System Information 2nd Indicator:")
    ∷ entry 0x04 (some "Early Classmark Sending Control:")
    ∷ entry 0x05 (some "Scheduling if and where:")
    ∷ entry 0x06 (some "GPRS indicator:")
    ∷ entry 0x00 none
    ∷ []

abbrev pub state : Table
state =
    entry 0x01 (some "HIGH present") ∷ entry 0x00 (some "LOW not present") ∷ entry 0x00 none ∷ []

abbrev pub nch : Table
nch =
    entry 0x00 (some "No of blocks = 1 and Number of first block = 0")
    ∷ entry 0x01 (some "No of blocks = 1 and Number of first block = 1")
    ∷ entry 0x02 (some "No of blocks = 1 and Number of first block = 2")
    ∷ entry 0x03 (some "No of blocks = 1 and Number of first block = 3")
    ∷ entry 0x04 (some "No of blocks = 1 and Number of first block = 4")
    ∷ entry 0x05 (some "No of blocks = 1 and Number of first block = 5")
    ∷ entry 0x06 (some "No of blocks = 1 and Number of first block = 6")
    ∷ entry 0x07 (some "No of blocks = 1 and Number of first block = 0")
    ∷ entry 0x08 (some "No of blocks = 2 and Number of first block = 1")
    ∷ entry 0x09 (some "No of blocks = 2 and Number of first block = 2")
    ∷ entry 0x0a (some "No of blocks = 2 and Number of first block = 3")
    ∷ entry 0x0b (some "No of blocks = 2 and Number of first block = 4")
    ∷ entry 0x0c (some "No of blocks = 2 and Number of first block = 5")
    ∷ entry 0x0d (some "No of blocks = 3 and Number of first block = 0")
    ∷ entry 0x0e (some "No of blocks = 3 and Number of first block = 1")
    ∷ entry 0x0f (some "No of blocks = 3 and Number of first block = 2")
    ∷ entry 0x10 (some "No of blocks = 3 and Number of first block = 3")
    ∷ entry 0x11 (some "No of blocks = 3 and Number of first block = 4")
    ∷ entry 0x12 (some "No of blocks = 4 and Number of first block = 0")
    ∷ entry 0x13 (some "No of blocks = 4 and Number of first block = 1")
    ∷ entry 0x14 (some "No of blocks = 4 and Number of first block = 2")
    ∷ entry 0x15 (some "No of blocks = 4 and Number of first block = 3")
    ∷ entry 0x16 (some "No of blocks = 5 and Number of first block = 0")
    ∷ entry 0x17 (some "No of blocks = 5 and Number of first block = 1")
    ∷ entry 0x18 (some "No of blocks = 5 and Number of first block = 2")
    ∷ entry 0x19 (some "No of blocks = 6 and Number of first block = 0")
    ∷ entry 0x1a (some "No of blocks = 6 and Number of first block = 1")
    ∷ entry 0x1b (some "No of blocks = 7 and Number of first block = 0")
    ∷ entry 0x1c (some "Reserved")
    ∷ entry 0x1d (some "Reserved")
    ∷ entry 0x1e (some "Reserved")
    ∷ entry 0x1f (some "Reserved")
    ∷ entry 0x00 none
    ∷ []
