-- ===== src/Tests/Signalling.antt =====
-- Messages on the signalling link.
use soft_bts.Base.{◌≡◌, ◌↔◌, inr, refl, true, false, [], ◌∷◌, arith}
use soft_bts.Base.Outcome.{ok, fault}
use soft_bts.Buffer.{Buffer, store_list}
use soft_bts.Rsl.{rsl_msg, si3, bcch_info}
use soft_bts.Rsl.Info.{SysInfo3}
use soft_bts.Rsl.Layout.{SysInfo3Fits, si3_bytes, told3, rsl_msg-si3_bytes}
use soft_bts.Rsl.Safety.{IsHarmful, rsl_msg-fault}
use soft_bts.Tests.{zeros}

abbrev info : SysInfo3
info = record {
  l2 = record { fb = 1; plv = 18; discr = 6; skip = 0; msg_type = 27 };
  ci1 = 0;
  ci2 = 1;
  lai = record {
    mcc1 = 0;
    mcc2 = 0;
    mcc3 = 1;
    mnc3 = 15;
    mnc1 = 0;
    mnc2 = 1;
    lac = 0;
    lac_cont = 1;
  };
  cch_descr = record { ccch_conf = 1; bs_ag_blks_res = 1; att = 1; bs_pa_mfrms = 3; t3212 = 0 };
  options = record {
    radio_link_timeout = 7;
    dtx = 2;
    pwrc = 0;
    ms_txpwr_max_ccch = 15;
    cell_resel_hyst = 2;
    rxlev_acc_min = 0;
    neci = 1;
    acs = 0;
  };
  rach = record {
    re = 1;
    cell_bar_access = 0;
    tx_integer = 9;
    max_retrans = 3;
    ac8_9 = 2;
    ec = 1;
    ac15_11 = 17;
    ac7_0 = 0;
  };
}

info-Fits : SysInfo3Fits info
info-Fits = record {
  l2 = record { fb = omega arith; plv = omega arith; discr = omega arith; skip = omega arith };
  lai = record {
    mcc1 = omega arith;
    mcc2 = omega arith;
    mcc3 = omega arith;
    mnc3 = omega arith;
    mnc1 = omega arith;
    mnc2 = omega arith;
  };
  cch_descr = record {
    ccch_conf = omega arith;
    bs_ag_blks_res = omega arith;
    att = omega arith;
    bs_pa_mfrms = omega arith;
  };
  options = record {
    radio_link_timeout = omega arith;
    dtx = omega arith;
    pwrc = omega arith;
    ms_txpwr_max_ccch = omega arith;
    cell_resel_hyst = omega arith;
    rxlev_acc_min = omega arith;
    neci = omega arith;
    acs = omega arith;
  };
  rach = record {
    re = omega arith;
    cell_bar_access = omega arith;
    tx_integer = omega arith;
    max_retrans = omega arith;
    ac8_9 = omega arith;
    ec = omega arith;
    ac15_11 = omega arith;
  };
}

-- A BCCH information message of type 3.
abbrev bcch : Buffer
bcch = store_list 3 (12 ∷ bcch_info ∷ 1 ∷ 128 ∷ 30 ∷ 3 ∷ 39 ∷ 23 ∷ []) zeros

rsl_msg-si3_bytes_example :
    rsl_msg true (store_list 11 (si3_bytes info) bcch) ≡ ok (si3 (told3 info))
rsl_msg-si3_bytes_example = rsl_msg-si3_bytes info bcch info-Fits refl refl refl (omega arith)

rsl_msg-fault_example : (rsl_msg false bcch ≡ fault) ↔ IsHarmful false bcch
rsl_msg-fault_example = rsl_msg-fault false bcch

-- Where `octets` does not hold 1 the message is harmful.
bcch-IsHarmful : IsHarmful false bcch
bcch-IsHarmful = ((refl, refl, refl), inr (refl, refl))
