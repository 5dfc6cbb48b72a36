-- ===== src/Rsl/Info.antt =====
-- The System Information messages of src/L3_0408.h, as src/abis_rsl.c reads them. A bit field
-- that is declared first has the lowest bits of its byte.
use soft_bts.Base.{ℕ, ◌+◌, ◌/◌, ◌%◌, List}
use soft_bts.Buffer.{Buffer, bytes}

-- `n` bits of a byte from bit `k` on.
abbrev pub bits : ℕ → ℕ → ℕ → ℕ
bits byte low width = byte / low % width

-- L2_pseudo_length_t, PD_skip_t and the message type.
pub record Head : Type 0 where
  pub fb : ℕ
  pub plv : ℕ
  pub discr : ℕ
  pub skip : ℕ
  pub msg_type : ℕ

unfoldable pub head : Buffer → ℕ → Head
head b i = record {
  fb = bits (b i) 1 4;
  plv = bits (b i) 4 64;
  discr = bits (b (i + 1)) 1 16;
  skip = bits (b (i + 1)) 16 16;
  msg_type = b (i + 2);
}

-- rach_control_parameters_t
pub record RachControl : Type 0 where
  pub re : ℕ
  pub cell_bar_access : ℕ
  pub tx_integer : ℕ
  pub max_retrans : ℕ
  pub ac8_9 : ℕ
  pub ec : ℕ
  pub ac15_11 : ℕ
  pub ac7_0 : ℕ

unfoldable pub rach_control : Buffer → ℕ → RachControl
rach_control b i = record {
  re = bits (b i) 1 2;
  cell_bar_access = bits (b i) 2 2;
  tx_integer = bits (b i) 4 16;
  max_retrans = bits (b i) 64 4;
  ac8_9 = bits (b (i + 1)) 1 4;
  ec = bits (b (i + 1)) 4 2;
  ac15_11 = bits (b (i + 1)) 8 32;
  ac7_0 = b (i + 2);
}

-- cell_channel_descr_t
pub record CellChannel : Type 0 where
  pub bit_121 : ℕ
  pub format_id_low : ℕ
  pub spare : ℕ
  pub format_id_high : ℕ
  pub rest : List ℕ

unfoldable pub cell_channel : Buffer → ℕ → CellChannel
cell_channel b i = record {
  bit_121 = bits (b i) 1 2;
  format_id_low = bits (b i) 2 8;
  spare = bits (b i) 16 4;
  format_id_high = bits (b i) 64 4;
  rest = bytes b (i + 1) 15;
}

-- cell_var_bit_t: the same bytes in the variable bit map format, 10xx111x.
pub record VarBit : Type 0 where
  pub orig_arfcn_hi : ℕ
  pub orig_arfcn_mid : ℕ
  pub rrfcn_1_7 : ℕ
  pub orig_arfcn_lo : ℕ
  pub rrfcn_8_111 : List ℕ

unfoldable pub var_bit : Buffer → ℕ → VarBit
var_bit b i = record {
  orig_arfcn_hi = bits (b i) 1 2;
  orig_arfcn_mid = b (i + 1);
  rrfcn_1_7 = bits (b (i + 2)) 1 128;
  orig_arfcn_lo = bits (b (i + 2)) 128 2;
  rrfcn_8_111 = bytes b (i + 3) 13;
}

-- system_information_type1_t, with the cell channel description in both of its formats.
pub record SysInfo1 : Type 0 where
  pub l2 : Head
  pub chd : CellChannel
  pub bits : VarBit
  pub rach : RachControl
  pub si1 : ℕ

unfoldable pub sys_info1 : Buffer → ℕ → SysInfo1
unfolding head cell_channel var_bit rach_control
sys_info1 b i = record {
  l2 = head b i;
  chd = cell_channel b (i + 3);
  bits = var_bit b (i + 3);
  rach = rach_control b (i + 19);
  si1 = b (i + 22);
}

-- neighbour_cell_description_t
pub record NeighbourCells : Type 0 where
  pub ch_nr_124_121 : ℕ
  pub ba_ind : ℕ
  pub ext_ind : ℕ
  pub ch_nr_128_127 : ℕ
  pub ch_nr_120_00 : List ℕ

unfoldable pub neighbour_cells : Buffer → ℕ → NeighbourCells
neighbour_cells b i = record {
  ch_nr_124_121 = bits (b i) 1 16;
  ba_ind = bits (b i) 16 2;
  ext_ind = bits (b i) 32 2;
  ch_nr_128_127 = bits (b i) 64 4;
  ch_nr_120_00 = bytes b (i + 1) 15;
}

pub record SysInfo2 : Type 0 where
  pub l2 : Head
  pub ncd : NeighbourCells
  pub ncc_permitted : ℕ
  pub rach : RachControl

unfoldable pub sys_info2 : Buffer → ℕ → SysInfo2
unfolding head neighbour_cells rach_control
sys_info2 b i = record {
  l2 = head b i;
  ncd = neighbour_cells b (i + 3);
  ncc_permitted = b (i + 19);
  rach = rach_control b (i + 20);
}

-- lai_t
pub record LocationArea : Type 0 where
  pub mcc1 : ℕ
  pub mcc2 : ℕ
  pub mcc3 : ℕ
  pub mnc3 : ℕ
  pub mnc1 : ℕ
  pub mnc2 : ℕ
  pub lac : ℕ
  pub lac_cont : ℕ

unfoldable pub location_area : Buffer → ℕ → LocationArea
location_area b i = record {
  mcc1 = bits (b i) 1 16;
  mcc2 = bits (b i) 16 16;
  mcc3 = bits (b (i + 1)) 1 16;
  mnc3 = bits (b (i + 1)) 16 16;
  mnc1 = bits (b (i + 2)) 1 16;
  mnc2 = bits (b (i + 2)) 16 16;
  lac = b (i + 3);
  lac_cont = b (i + 4);
}

-- control_chanel_description_t
pub record ControlChannel : Type 0 where
  pub ccch_conf : ℕ
  pub bs_ag_blks_res : ℕ
  pub att : ℕ
  pub bs_pa_mfrms : ℕ
  pub t3212 : ℕ

unfoldable pub control_channel : Buffer → ℕ → ControlChannel
control_channel b i = record {
  ccch_conf = bits (b i) 1 8;
  bs_ag_blks_res = bits (b i) 8 8;
  att = bits (b i) 64 2;
  bs_pa_mfrms = bits (b (i + 1)) 1 8;
  t3212 = b (i + 2);
}

-- cell_options_t and cell_selection_parameters_t
pub record CellOptions : Type 0 where
  pub radio_link_timeout : ℕ
  pub dtx : ℕ
  pub pwrc : ℕ
  pub ms_txpwr_max_ccch : ℕ
  pub cell_resel_hyst : ℕ
  pub rxlev_acc_min : ℕ
  pub neci : ℕ
  pub acs : ℕ

unfoldable pub cell_options : Buffer → ℕ → CellOptions
cell_options b i = record {
  radio_link_timeout = bits (b i) 1 16;
  dtx = bits (b i) 16 4;
  pwrc = bits (b i) 64 2;
  ms_txpwr_max_ccch = bits (b (i + 1)) 1 32;
  cell_resel_hyst = bits (b (i + 1)) 32 8;
  rxlev_acc_min = bits (b (i + 2)) 1 64;
  neci = bits (b (i + 2)) 64 2;
  acs = bits (b (i + 2)) 128 2;
}

pub record SysInfo3 : Type 0 where
  pub l2 : Head
  pub ci1 : ℕ
  pub ci2 : ℕ
  pub lai : LocationArea
  pub cch_descr : ControlChannel
  pub options : CellOptions
  pub rach : RachControl

unfoldable pub sys_info3 : Buffer → ℕ → SysInfo3
unfolding head location_area control_channel cell_options rach_control
sys_info3 b i = record {
  l2 = head b i;
  ci1 = b (i + 3);
  ci2 = b (i + 4);
  lai = location_area b (i + 5);
  cch_descr = control_channel b (i + 10);
  options = cell_options b (i + 13);
  rach = rach_control b (i + 16);
}
