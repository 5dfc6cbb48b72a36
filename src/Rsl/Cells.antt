-- ===== src/Rsl/Cells.antt =====
-- System Information 1 and 2, with their lists of cells, as 3GPP TS 04.08 lays them out, and that
-- src/abis_rsl.c reads them back.
use soft_bts.Base.{
  Bool, ltb, false, ◌==◌, ◌&&◌, if◌then◌else◌, none, some, sym, ◌≤◌, ℕ, ◌+◌, ◌*◌, ◌/◌, ◌%◌, ◌<◌,
  ◌≡◌, ap, ◌∙◌, List, [], ◌∷◌, ◌++◌, length, arith,
}
use soft_bts.Buffer.{Buffer, store_list, bytes}
use soft_bts.Base.Outcome.{ok}
use soft_bts.Link.Receive.{store_list_below}
use soft_bts.Rsl.{rsl_msg, si1, si2, mg_cch, bcch_info}
use soft_bts.Rsl.Layout.{HeadFits, RachFits, head_bytes, rach_bytes, told_rach, rach_shown_lem}
use soft_bts.Rsl.Info.{
  NeighbourCells, SysInfo1, sys_info1, SysInfo2, sys_info2, neighbour_cells, cell_channel, var_bit,
}
use soft_bts.Rsl.Shown.{ArfcnsShown, arfcns_shown, Shown1, shown1, Shown2, shown2}
use soft_bts.Rsl.Placed.{rach_control_lem, message, head-message, at_14, at_15, behind}

-- Every field of the neighbour cells fits its bits, and the list has its length.
pub record NeighboursFit (n : NeighbourCells) : Type 0 where
  pub ch_nr_124_121 : n.ch_nr_124_121 < 16
  pub ba_ind : n.ba_ind < 2
  pub ext_ind : n.ext_ind < 2
  pub ch_nr_128_127 : n.ch_nr_128_127 < 4
  pub listed : length n.ch_nr_120_00 ≡ 15

module _ (c : Buffer) (i : ℕ) where
  neighbour_cells_lem :
      (n : NeighbourCells)
      → NeighboursFit n
      → c i ≡ n.ch_nr_124_121 + 16 * n.ba_ind + 32 * n.ext_ind + 64 * n.ch_nr_128_127
      → bytes c (i + 1) 15 ≡ n.ch_nr_120_00
      → neighbour_cells c i ≡ n
  unfolding neighbour_cells
  neighbour_cells_lem n fits e es = ground arith

pub record SysInfo2Fits (x : SysInfo2) : Type 0 where
  pub l2 : HeadFits x.l2
  pub ncd : NeighboursFit x.ncd
  pub rach : RachFits x.rach

abbrev pub si2_bytes : SysInfo2 → List ℕ
si2_bytes x =
    head_bytes x.l2
    ++ ((x.ncd.ch_nr_124_121 + 16 * x.ncd.ba_ind + 32 * x.ncd.ext_ind + 64 * x.ncd.ch_nr_128_127)
        ∷ (x.ncd.ch_nr_120_00 ++ (x.ncc_permitted ∷ rach_bytes x.rach)))

sys_info2-si2_bytes :
    (x : SysInfo2) (b : Buffer) → SysInfo2Fits x → sys_info2 (store_list 11 (si2_bytes x) b) 11 ≡ x
unfolding sys_info2
sys_info2-si2_bytes x b h =
    let (base, e) = behind x.l2 h.l2 f3 x.ncd.ch_nr_120_00 tail b h.ncd.listed in
    rw (
      head-message x.l2 h.l2 f3 x.ncd.ch_nr_120_00 tail b h.ncd.listed,
      neighbour_cells_lem c 14 x.ncd h.ncd
          (at_14 x.l2 h.l2 f3 x.ncd.ch_nr_120_00 tail b h.ncd.listed)
          (at_15 x.l2 h.l2 f3 x.ncd.ch_nr_120_00 tail b h.ncd.listed),
      ap (λ a. a 30) e,
      rach_control_lem c 31 x.rach h.rach (ap (λ a. a 31) e) (ap (λ a. a 32) e) (ap (λ a. a 33) e),
    )
  where
    f3 : ℕ
    f3 = x.ncd.ch_nr_124_121 + 16 * x.ncd.ba_ind + 32 * x.ncd.ext_ind + 64 * x.ncd.ch_nr_128_127

    tail : List ℕ
    tail = x.ncc_permitted ∷ rach_bytes x.rach

    c : Buffer
    c = message x.l2 h.l2 f3 x.ncd.ch_nr_120_00 tail b h.ncd.listed

-- A message on the broadcast channel, of a length that stays in the buffer.
record OnBcch (c : Buffer) : Type 0 where
  group : c 3 ≡ 2 * mg_cch
  kind_of : c 4 ≡ bcch_info
  fits : c 10 ≤ 244

module _ (octets_is_one : Bool) (c : Buffer) (on : OnBcch c) where
  room : ltb 255 (11 + c 10) ≡ false
  room = ground (arith, on.fits)

  rsl_msg-si1 : c 8 ≡ 1 → rsl_msg octets_is_one c ≡ ok (si1 (shown1 (sys_info1 c 11)))
  unfolding rsl_msg
  rsl_msg-si1 e = rw (on.group, on.kind_of, rsl_msg, room, e)

  rsl_msg-si2 : c 8 ≡ 2 → rsl_msg octets_is_one c ≡ ok (si2 (shown2 (sys_info2 c 11)))
  unfolding rsl_msg
  rsl_msg-si2 e = rw (on.group, on.kind_of, rsl_msg, room, e)

-- What is stored from offset 11 on leaves the header.
OnBcch-store_list :
    (xs : List ℕ) (b : Buffer)
    → b 3 ≡ 2 * mg_cch
    → b 4 ≡ bcch_info
    → b 10 ≤ 244
    → OnBcch (store_list 11 xs b)
OnBcch-store_list xs b e3 e4 le = record {
  group = store_list_below 11 3 xs b (omega arith) ∙ e3;
  kind_of = store_list_below 11 4 xs b (omega arith) ∙ e4;
  fits = omega (arith, store_list_below 11 10 xs b (omega arith));
}

abbrev pub told2 : SysInfo2 → Shown2
told2 x = record {
  l2 = x.l2;
  ncd = x.ncd;
  ncc_permitted = x.ncc_permitted;
  rach = told_rach x.rach;
}

shown2-told2 : (x : SysInfo2) → shown2 x ≡ told2 x
unfolding shown2
shown2-told2 x = rw (shown2, rach_shown_lem x.rach)

-- A System Information 2 message on the broadcast channel, whose length stays in the buffer, is
-- reported field by field as it was laid out, the list of neighbour cells included, but for the access
-- control classes [9-8], which are reported with the value of [15-11].
pub rsl_msg-si2_bytes :
    (x : SysInfo2) (octets_is_one : Bool) (b : Buffer)
    → SysInfo2Fits x
    → b 3 ≡ 2 * mg_cch
    → b 4 ≡ bcch_info
    → b 8 ≡ 2
    → b 10 ≤ 244
    → rsl_msg octets_is_one (store_list 11 (si2_bytes x) b) ≡ ok (si2 (told2 x))
rsl_msg-si2_bytes x octets_is_one b h e3 e4 e8 le =
    rsl_msg-si2 octets_is_one (store_list 11 (si2_bytes x) b)
      (OnBcch-store_list (si2_bytes x) b e3 e4 le)
      (store_list_below 11 8 (si2_bytes x) b (omega arith) ∙ e8)
    ∙ ap (λ y. ok (si2 (shown2 y))) (sys_info2-si2_bytes x b h)
    ∙ ap (λ y. ok (si2 y)) (shown2-told2 x)

-- Every field of the cell channels fits its bits, and the variable bit map is the same bytes: the first
-- channel number has the ten bits behind the format, and then comes a bit for each further channel.
pub record SysInfo1Fits (x : SysInfo1) : Type 0 where
  pub l2 : HeadFits x.l2
  pub number : ℕ
  pub number_fits : number < 1024
  pub bit_121 : x.chd.bit_121 ≡ number / 512
  pub format_id_low : x.chd.format_id_low < 8
  pub spare : x.chd.spare < 4
  pub format_id_high : x.chd.format_id_high < 4
  pub listed : length x.chd.rest ≡ 15
  pub hi : x.bits.orig_arfcn_hi ≡ number / 512
  pub mid : x.bits.orig_arfcn_mid ≡ number / 2 % 256
  pub lo : x.bits.orig_arfcn_lo ≡ number % 2
  pub first : x.bits.rrfcn_1_7 < 128
  pub starts :
      x.chd.rest ≡ (number / 2 % 256) ∷ (x.bits.rrfcn_1_7 + 128 * (number % 2)) ∷ x.bits.rrfcn_8_111
  pub rach : RachFits x.rach
  pub si1 : x.si1 < 256

abbrev pub si1_bytes : SysInfo1 → List ℕ
si1_bytes x =
    head_bytes x.l2
    ++ ((x.chd.bit_121 + 2 * x.chd.format_id_low + 16 * x.chd.spare + 64 * x.chd.format_id_high)
        ∷ (x.chd.rest ++ (rach_bytes x.rach ++ x.si1 ∷ [])))

-- The cell channels from the bytes at their place.
module _ (c : Buffer) (i : ℕ) (x : SysInfo1) (h : SysInfo1Fits x) where
  abbrev format : ℕ
  format = x.chd.bit_121 + 2 * x.chd.format_id_low + 16 * x.chd.spare + 64 * x.chd.format_id_high

  cell_channel_lem : c i ≡ format → bytes c (i + 1) 15 ≡ x.chd.rest → cell_channel c i ≡ x.chd
  unfolding cell_channel
  cell_channel_lem e es =
      let one : x.chd.bit_121 < 2 = omega (arith, h.bit_121, h.number_fits) in
      let low = h.format_id_low in let two = h.spare in let high = h.format_id_high in ground arith

  var_bit_lem : c i ≡ format → bytes c (i + 1) 15 ≡ x.chd.rest → var_bit c i ≡ x.bits
  unfolding var_bit
  var_bit_lem e es =
      let both : bytes c (i + 1) 15
          ≡ (h.number / 2 % 256) ∷ (x.bits.rrfcn_1_7 + 128 * (h.number % 2)) ∷ x.bits.rrfcn_8_111 =
        es ∙ h.starts in
      let e1 : c (i + 1) ≡ h.number / 2 % 256 = cc in
      let next : c (i + 1 + 1) ≡ x.bits.rrfcn_1_7 + 128 * (h.number % 2) = cc in
      let list : bytes c (i + 1 + 1 + 1) 13 ≡ x.bits.rrfcn_8_111 = cc in
      let e2 : c (i + 2) ≡ x.bits.rrfcn_1_7 + 128 * (h.number % 2) = ap c (omega arith) ∙ next in
      let at3 : bytes c (i + 3) 13 ≡ x.bits.rrfcn_8_111 =
        ap (λ k. bytes c k 13) (omega arith) ∙ list in
      let hi : c i / 1 % 2 ≡ x.bits.orig_arfcn_hi =
        omega (arith, e, h.hi, h.bit_121, h.number_fits) in
      let r : c (i + 2) / 1 % 128 ≡ x.bits.rrfcn_1_7 = omega (arith, e2, h.first) in
      let lo : c (i + 2) / 128 % 2 ≡ x.bits.orig_arfcn_lo = omega (arith, e2, h.lo, h.first) in
      let m : c (i + 1) ≡ x.bits.orig_arfcn_mid = e1 ∙ sym h.mid in rw (hi, r, lo, m, at3)

sys_info1-si1_bytes :
    (x : SysInfo1) (b : Buffer) → SysInfo1Fits x → sys_info1 (store_list 11 (si1_bytes x) b) 11 ≡ x
unfolding sys_info1
sys_info1-si1_bytes x b h =
    let (base, e) = behind x.l2 h.l2 (format c 14 x h) x.chd.rest tail b h.listed in
    let at14 = at_14 x.l2 h.l2 (format c 14 x h) x.chd.rest tail b h.listed in
    let at15 = at_15 x.l2 h.l2 (format c 14 x h) x.chd.rest tail b h.listed in
    rw (
      head-message x.l2 h.l2 (format c 14 x h) x.chd.rest tail b h.listed,
      cell_channel_lem c 14 x h at14 at15,
      var_bit_lem c 14 x h at14 at15,
      rach_control_lem c 30 x.rach h.rach (ap (λ a. a 30) e) (ap (λ a. a 31) e) (ap (λ a. a 32) e),
      ap (λ a. a 33) e,
    )
  where
    tail : List ℕ
    tail = rach_bytes x.rach ++ x.si1 ∷ []

    c : Buffer
    c = store_list 11 (si1_bytes x) b

-- The list of cell channels is reported in the variable bit map format, 10xx111x, alone: the first
-- channel number, and the last 13 bytes of the list, without the first seven of the further channels.
abbrev told_arfcns : (x : SysInfo1) → SysInfo1Fits x → ArfcnsShown
told_arfcns x h = record {
  high = h.number / 512;
  midd = h.number / 2 % 256;
  low = h.number % 2;
  arfcn = h.number;
  list = x.bits.rrfcn_8_111;
}

abbrev pub told1 : (x : SysInfo1) → SysInfo1Fits x → Shown1
told1 x h = record {
  l2 = x.l2;
  format_high = x.chd.format_id_high;
  format_low = x.chd.format_id_low;
  arfcns =
      if (x.chd.format_id_high == 2) && (x.chd.format_id_low == 7)
      then some (told_arfcns x h)
      else none;
  rach = told_rach x.rach;
  nch = x.si1 % 32;
}

arfcns_shown_lem : (x : SysInfo1) (h : SysInfo1Fits x) → arfcns_shown x.bits ≡ told_arfcns x h
unfolding arfcns_shown
arfcns_shown_lem x h =
    let number : (h.number / 512) * 512 + (h.number / 2 % 256) * 2 + h.number % 2 ≡ h.number =
      omega (arith, h.number_fits) in
    rw (h.hi, h.mid, h.lo, number)

shown1-told1 : (x : SysInfo1) (h : SysInfo1Fits x) → shown1 x ≡ told1 x h
unfolding shown1
shown1-told1 x h = rw (shown1, rach_shown_lem x.rach, arfcns_shown_lem x h)

-- A System Information 1 message on the broadcast channel, whose length stays in the buffer, is
-- reported field by field as it was laid out: in the variable bit map format the first channel number
-- and the last 13 bytes of the list (in any other format nothing of the list), the position of the
-- notification channel whatever the three bits above it hold, and the access control classes [9-8] with
-- the value of [15-11].
pub rsl_msg-si1_bytes :
    (x : SysInfo1) (octets_is_one : Bool) (b : Buffer)
    → (h : SysInfo1Fits x) → b 3 ≡ 2 * mg_cch
    → b 4 ≡ bcch_info
    → b 8 ≡ 1
    → b 10 ≤ 244
    → rsl_msg octets_is_one (store_list 11 (si1_bytes x) b) ≡ ok (si1 (told1 x h))
rsl_msg-si1_bytes x octets_is_one b h e3 e4 e8 le =
    rsl_msg-si1 octets_is_one (store_list 11 (si1_bytes x) b)
      (OnBcch-store_list (si1_bytes x) b e3 e4 le)
      (store_list_below 11 8 (si1_bytes x) b (omega arith) ∙ e8)
    ∙ ap (λ y. ok (si1 (shown1 y))) (sys_info1-si1_bytes x b h)
    ∙ ap (λ y. ok (si1 y)) (shown1-told1 x h)
