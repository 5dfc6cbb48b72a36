-- ===== src/Rsl/Layout.antt =====
-- The System Information messages as 3GPP TS 04.08 lays them out, and that the program reads them
-- back: every field at its place, and no bit of one in another.
use soft_bts.Base.{
  ◌==◌, if◌then◌else◌, ltb, true, false, ◌≤◌, ℕ, ◌+◌, ◌*◌, ◌<◌, ◌≡◌, List, [], ◌∷◌, ◌++◌, arith,
}
use soft_bts.Buffer.{Buffer, store_list}
use soft_bts.Base.Outcome.{ok}
use soft_bts.Rsl.{rsl_msg, si3, mg_cch, bcch_info}
use soft_bts.Rsl.Rest.{rest_octets_si3}
use soft_bts.Rsl.Shown.{RachShown, rach_shown, Shown3, shown3}
use soft_bts.Rsl.Info.{
  Head, RachControl, LocationArea, ControlChannel, CellOptions, SysInfo3, sys_info3,
}

-- Every field fits its bits.
pub record HeadFits (h : Head) : Type 0 where
  pub fb : h.fb < 4
  pub plv : h.plv < 64
  pub discr : h.discr < 16
  pub skip : h.skip < 16

pub record RachFits (r : RachControl) : Type 0 where
  pub re : r.re < 2
  pub cell_bar_access : r.cell_bar_access < 2
  pub tx_integer : r.tx_integer < 16
  pub max_retrans : r.max_retrans < 4
  pub ac8_9 : r.ac8_9 < 4
  pub ec : r.ec < 2
  pub ac15_11 : r.ac15_11 < 32

pub record AreaFits (a : LocationArea) : Type 0 where
  pub mcc1 : a.mcc1 < 16
  pub mcc2 : a.mcc2 < 16
  pub mcc3 : a.mcc3 < 16
  pub mnc3 : a.mnc3 < 16
  pub mnc1 : a.mnc1 < 16
  pub mnc2 : a.mnc2 < 16

pub record ControlFits (c : ControlChannel) : Type 0 where
  pub ccch_conf : c.ccch_conf < 8
  pub bs_ag_blks_res : c.bs_ag_blks_res < 8
  pub att : c.att < 2
  pub bs_pa_mfrms : c.bs_pa_mfrms < 8

pub record OptionsFit (o : CellOptions) : Type 0 where
  pub radio_link_timeout : o.radio_link_timeout < 16
  pub dtx : o.dtx < 4
  pub pwrc : o.pwrc < 2
  pub ms_txpwr_max_ccch : o.ms_txpwr_max_ccch < 32
  pub cell_resel_hyst : o.cell_resel_hyst < 8
  pub rxlev_acc_min : o.rxlev_acc_min < 64
  pub neci : o.neci < 2
  pub acs : o.acs < 2

abbrev pub head_bytes : Head → List ℕ
head_bytes h = (h.fb + 4 * h.plv) ∷ (h.discr + 16 * h.skip) ∷ h.msg_type ∷ []

abbrev pub rach_bytes : RachControl → List ℕ
rach_bytes r =
    (r.re + 2 * r.cell_bar_access + 4 * r.tx_integer + 64 * r.max_retrans)
    ∷ (r.ac8_9 + 4 * r.ec + 8 * r.ac15_11)
    ∷ r.ac7_0
    ∷ []

area_bytes : LocationArea → List ℕ
area_bytes a =
    (a.mcc1 + 16 * a.mcc2)
    ∷ (a.mcc3 + 16 * a.mnc3)
    ∷ (a.mnc1 + 16 * a.mnc2)
    ∷ a.lac
    ∷ a.lac_cont
    ∷ []

control_bytes : ControlChannel → List ℕ
control_bytes c = (c.ccch_conf + 8 * c.bs_ag_blks_res + 64 * c.att) ∷ c.bs_pa_mfrms ∷ c.t3212 ∷ []

option_bytes : CellOptions → List ℕ
option_bytes o =
    (o.radio_link_timeout + 16 * o.dtx + 64 * o.pwrc)
    ∷ (o.ms_txpwr_max_ccch + 32 * o.cell_resel_hyst)
    ∷ (o.rxlev_acc_min + 64 * o.neci + 128 * o.acs)
    ∷ []

abbrev pub si3_bytes : SysInfo3 → List ℕ
unfolding area_bytes control_bytes option_bytes
si3_bytes x =
    head_bytes x.l2
    ++ (x.ci1
        ∷ x.ci2
        ∷ (area_bytes x.lai
            ++ (control_bytes x.cch_descr ++ (option_bytes x.options ++ rach_bytes x.rach))))

pub record SysInfo3Fits (x : SysInfo3) : Type 0 where
  pub l2 : HeadFits x.l2
  pub lai : AreaFits x.lai
  pub cch_descr : ControlFits x.cch_descr
  pub options : OptionsFit x.options
  pub rach : RachFits x.rach

sys_info3-si3_bytes :
    (x : SysInfo3) (b : Buffer) → SysInfo3Fits x → sys_info3 (store_list 11 (si3_bytes x) b) 11 ≡ x
unfolding sys_info3 si3_bytes
sys_info3-si3_bytes x b h = ground arith

-- The report of the random access control: [9-8] is reported with the value of [15-11], so that the
-- classes 8 and 9 are seen in the bits of the octet alone.
abbrev pub told_rach : RachControl → RachShown
told_rach r = record {
  re = r.re;
  cell_bar_access = r.cell_bar_access;
  tx_integer = r.tx_integer;
  max_retrans = r.max_retrans;
  octet = r.ac8_9 + 4 * r.ec + 8 * r.ac15_11;
  ec = r.ec;
  ac15_11 = r.ac15_11;
  ac9_8 = r.ac15_11;
  ac7_0 = r.ac7_0;
}

pub rach_shown_lem : (r : RachControl) → rach_shown r ≡ told_rach r
unfolding rach_shown
rach_shown_lem r = ground arith

-- A network code of two digits has 0x0f for its third.
abbrev pub digits : LocationArea → List ℕ
digits a = if a.mnc3 == 15 then a.mnc1 ∷ a.mnc2 ∷ [] else a.mnc1 ∷ a.mnc2 ∷ a.mnc3 ∷ []

abbrev pub told3 : SysInfo3 → Shown3
told3 x = record {
  l2 = x.l2;
  ci1 = x.ci1;
  ci2 = x.ci2;
  mcc = x.lai.mcc1 ∷ x.lai.mcc2 ∷ x.lai.mcc3 ∷ [];
  mnc = digits x.lai;
  lac = x.lai.lac;
  lac_cont = x.lai.lac_cont;
  cch_descr = x.cch_descr;
  options = x.options;
  timeout = 4 * (x.options.radio_link_timeout + 1);
  rach = told_rach x.rach;
}

shown3-told3 : (x : SysInfo3) → shown3 x ≡ told3 x
unfolding shown3
shown3-told3 x =
    let timeout : 4 * x.options.radio_link_timeout + 4 ≡ 4 * (x.options.radio_link_timeout + 1) =
      omega arith in
    rw (shown3, rach_shown_lem x.rach, timeout)

-- A System Information 3 message on the broadcast channel, whose length stays in the buffer, is
-- reported field by field as it was laid out, wherever the rest of the buffer comes from, if the
-- variable `octets` holds 1: the network code with two digits where it has two, the radio link timeout
-- in frames as well, and the access control classes [9-8] with the value of [15-11].
pub rsl_msg-si3_bytes :
    (x : SysInfo3) (b : Buffer)
    → SysInfo3Fits x
    → b 3 ≡ 2 * mg_cch
    → b 4 ≡ bcch_info
    → b 8 ≡ 3
    → b 10 ≤ 244
    → rsl_msg true (store_list 11 (si3_bytes x) b) ≡ ok (si3 (told3 x))
unfolding rsl_msg rest_octets_si3 si3_bytes
rsl_msg-si3_bytes x b h e3 e4 e8 le =
    rw (e3, e4, e8, rsl_msg, room, sys_info3-si3_bytes x b h, shown3-told3 x)
  where
    room : ltb 255 (11 + b 10) ≡ false
    room = ground arith
