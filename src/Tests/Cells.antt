-- ===== src/Tests/Cells.antt =====
-- System Information with lists of cells.
use soft_bts.Base.{ℕ, ◌≡◌, refl, false, some, List, [], ◌∷◌, arith}
use soft_bts.Base.Outcome.{ok}
use soft_bts.Buffer.{Buffer, store_list}
use soft_bts.Rsl.{rsl_msg, si1, si2, bcch_info}
use soft_bts.Rsl.Info.{Head, RachControl, SysInfo1, SysInfo2}
use soft_bts.Rsl.Shown.{Shown1}
use soft_bts.Rsl.Layout.{HeadFits, RachFits, told_rach}
use soft_bts.Rsl.Cells.{
  SysInfo1Fits, SysInfo2Fits, si1_bytes, si2_bytes, told2, rsl_msg-si1_bytes, rsl_msg-si2_bytes,
}
use soft_bts.Tests.{zeros}

abbrev more : List ℕ
more = 1 ∷ 2 ∷ 3 ∷ 4 ∷ 5 ∷ 6 ∷ 7 ∷ 8 ∷ 9 ∷ 10 ∷ 11 ∷ 12 ∷ 13 ∷ []

abbrev cells : List ℕ
cells = 0x9a ∷ 0xbc ∷ more

abbrev l2 : Head
l2 = record { fb = 1; plv = 21; discr = 6; skip = 0; msg_type = 25 }

abbrev rach : RachControl
rach = record {
  re = 1;
  cell_bar_access = 0;
  tx_integer = 9;
  max_retrans = 2;
  ac8_9 = 1;
  ec = 1;
  ac15_11 = 17;
  ac7_0 = 0x81;
}

-- A BCCH information message of a type.
abbrev bcch : ℕ → Buffer
bcch kind = store_list 3 (12 ∷ bcch_info ∷ 1 ∷ 128 ∷ 30 ∷ kind ∷ 39 ∷ 23 ∷ []) zeros

-- In the variable bit map format; the first channel number is 512 + 2 * 0x9a + 1.
abbrev info1 : SysInfo1
info1 = record {
  l2 = l2;
  chd = record { bit_121 = 1; format_id_low = 7; spare = 0; format_id_high = 2; rest = cells };
  bits = record {
    orig_arfcn_hi = 1;
    orig_arfcn_mid = 0x9a;
    rrfcn_1_7 = 0x3c;
    orig_arfcn_lo = 1;
    rrfcn_8_111 = more;
  };
  rach = rach;
  si1 = 0x25;
}

abbrev info2 : SysInfo2
info2 = record {
  l2 = l2;
  ncd = record {
    ch_nr_124_121 = 3;
    ba_ind = 1;
    ext_ind = 0;
    ch_nr_128_127 = 2;
    ch_nr_120_00 = cells;
  };
  ncc_permitted = 0x7f;
  rach = rach;
}

l2-Fits : HeadFits l2
l2-Fits = record { fb = omega arith; plv = omega arith; discr = omega arith; skip = omega arith }

rach-Fits : RachFits rach
rach-Fits = record {
  re = omega arith;
  cell_bar_access = omega arith;
  tx_integer = omega arith;
  max_retrans = omega arith;
  ac8_9 = omega arith;
  ec = omega arith;
  ac15_11 = omega arith;
}

info1-Fits : SysInfo1Fits info1
info1-Fits = record {
  l2 = l2-Fits;
  number = 821;
  number_fits = omega arith;
  bit_121 = refl;
  format_id_low = omega arith;
  spare = omega arith;
  format_id_high = omega arith;
  listed = refl;
  hi = refl;
  mid = refl;
  lo = refl;
  first = omega arith;
  starts = refl;
  rach = rach-Fits;
  si1 = omega arith;
}

info2-Fits : SysInfo2Fits info2
info2-Fits = record {
  l2 = l2-Fits;
  ncd = record {
    ch_nr_124_121 = omega arith;
    ba_ind = omega arith;
    ext_ind = omega arith;
    ch_nr_128_127 = omega arith;
    listed = refl;
  };
  rach = rach-Fits;
}

-- What is reported of it.
abbrev report1 : Shown1
report1 = record {
  l2 = l2;
  format_high = 2;
  format_low = 7;
  arfcns = some (record { high = 1; midd = 0x9a; low = 1; arfcn = 821; list = more });
  rach = told_rach rach;
  nch = 5;
}

rsl_msg-si1_bytes_example :
    rsl_msg false (store_list 11 (si1_bytes info1) (bcch 1)) ≡ ok (si1 report1)
unfolding info1-Fits
rsl_msg-si1_bytes_example =
    rsl_msg-si1_bytes info1 false (bcch 1) info1-Fits refl refl refl (omega arith)

rsl_msg-si2_bytes_example :
    rsl_msg false (store_list 11 (si2_bytes info2) (bcch 2)) ≡ ok (si2 (told2 info2))
rsl_msg-si2_bytes_example =
    rsl_msg-si2_bytes info2 false (bcch 2) info2-Fits refl refl refl (omega arith)
