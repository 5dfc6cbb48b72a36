-- ===== src/Rsl/Shown.antt =====
-- What src/abis_rsl.c prints of a System Information message: the values that it hands to `debug`, in
-- the fields of a record named for what the format calls them. The bits that `print_bits` writes are of
-- the same bytes, and only those of a sum of fields are kept here.
use soft_bts.Base.{
  ℕ, ◌+◌, ◌*◌, ◌%◌, Bool, ◌==◌, ◌&&◌, if◌then◌else◌, Option, none, some, List, [], ◌∷◌,
}
use soft_bts.Rsl.Info.{
  Head, RachControl, CellChannel, VarBit, SysInfo1, NeighbourCells, SysInfo2, LocationArea,
  ControlChannel, CellOptions, SysInfo3,
}

-- The random access control: `octet` is what `print_bits` is given, and `ac9_8` what is printed as
-- ACCESS-CONTROL-CLASS [9-8].
pub record RachShown : Type 0 where
  pub re : ℕ
  pub cell_bar_access : ℕ
  pub tx_integer : ℕ
  pub max_retrans : ℕ
  pub octet : ℕ
  pub ec : ℕ
  pub ac15_11 : ℕ
  pub ac9_8 : ℕ
  pub ac7_0 : ℕ

-- `ac8_9|ec<<2|ac15_11<<3`, whose parts do not overlap, so that `|` adds; then `ac15_11` is printed twice.
unfoldable pub rach_shown : RachControl → RachShown
rach_shown r = record {
  re = r.re;
  cell_bar_access = r.cell_bar_access;
  tx_integer = r.tx_integer;
  max_retrans = r.max_retrans;
  octet = r.ac8_9 + r.ec * 4 + r.ac15_11 * 8;
  ec = r.ec;
  ac15_11 = r.ac15_11;
  ac9_8 = r.ac15_11;
  ac7_0 = r.ac7_0;
}

-- The first channel number in parts and as a number, and the 13 bytes behind them.
pub record ArfcnsShown : Type 0 where
  pub high : ℕ
  pub midd : ℕ
  pub low : ℕ
  pub arfcn : ℕ
  pub list : List ℕ

-- `orig_arfcn_hi<<9 | orig_arfcn_mid<<1 | orig_arfcn_lo`; the three fields do not overlap either.
unfoldable pub arfcns_shown : VarBit → ArfcnsShown
arfcns_shown v = record {
  high = v.orig_arfcn_hi;
  midd = v.orig_arfcn_mid;
  low = v.orig_arfcn_lo;
  arfcn = v.orig_arfcn_hi * 512 + v.orig_arfcn_mid * 2 + v.orig_arfcn_lo;
  list = v.rrfcn_8_111;
}

-- `format_id_high == 2 && format_id_low == 7`
abbrev pub is_var_bit : CellChannel → Bool
is_var_bit c = (c.format_id_high == 2) && (c.format_id_low == 7)

pub record Shown1 : Type 0 where
  pub l2 : Head
  pub format_high : ℕ
  pub format_low : ℕ
  pub arfcns : Option ArfcnsShown
  pub rach : RachShown
  pub nch : ℕ

-- `0x1f & si1` is the position of the notification channel.
unfoldable pub shown1 : SysInfo1 → Shown1
unfolding rach_shown arfcns_shown
shown1 x = record {
  l2 = x.l2;
  format_high = x.chd.format_id_high;
  format_low = x.chd.format_id_low;
  arfcns = if is_var_bit x.chd then some (arfcns_shown x.bits) else none;
  rach = rach_shown x.rach;
  nch = x.si1 % 32;
}

pub record Shown2 : Type 0 where
  pub l2 : Head
  pub ncd : NeighbourCells
  pub ncc_permitted : ℕ
  pub rach : RachShown

unfoldable pub shown2 : SysInfo2 → Shown2
unfolding rach_shown
shown2 x = record {
  l2 = x.l2;
  ncd = x.ncd;
  ncc_permitted = x.ncc_permitted;
  rach = rach_shown x.rach;
}

pub record Shown3 : Type 0 where
  pub l2 : Head
  pub ci1 : ℕ
  pub ci2 : ℕ
  pub mcc : List ℕ
  pub mnc : List ℕ
  pub lac : ℕ
  pub lac_cont : ℕ
  pub cch_descr : ControlChannel
  pub options : CellOptions
  pub timeout : ℕ
  pub rach : RachShown

-- The network code has two digits where the third is 0x0f.
mnc_shown : LocationArea → List ℕ
mnc_shown a = if a.mnc3 == 0x0f then a.mnc1 ∷ a.mnc2 ∷ [] else a.mnc1 ∷ a.mnc2 ∷ a.mnc3 ∷ []

unfoldable pub shown3 : SysInfo3 → Shown3
unfolding rach_shown mnc_shown
shown3 x = record {
  l2 = x.l2;
  ci1 = x.ci1;
  ci2 = x.ci2;
  mcc = x.lai.mcc1 ∷ x.lai.mcc2 ∷ x.lai.mcc3 ∷ [];
  mnc = mnc_shown x.lai;
  lac = x.lai.lac;
  lac_cont = x.lai.lac_cont;
  cch_descr = x.cch_descr;
  options = x.options;
  timeout = 4 * x.options.radio_link_timeout + 4;
  rach = rach_shown x.rach;
}
