-- ===== src/V34/Info.antt =====
-- The INFO sequences of V.34 phase 2 in nf_v34.c: `v34_info_build_bits` and `v34_info_parse`. The
-- time at which a frame was found is left out.
use nospandsp_fax.Common.{ℕ, ◌+◌, Bool, true, false, ◌||◌, not, ltb, ◌==◌, if◌then◌else◌}
use nospandsp_fax.Common.{Option, none, some, List, [], ◌∷◌, ◌++◌, length, take, drop, get_or}
use nospandsp_fax.V34.Frames.{field, read, crc_bits}
pub mod RoundTrip

-- The fields of an INFO0, by Table 14.
pub record Info0 : Type 0 where
  pub sr2743 : ℕ
  pub sr2800 : ℕ
  pub sr3429 : ℕ
  pub low3000 : ℕ
  pub high3000 : ℕ
  pub low3200 : ℕ
  pub high3200 : ℕ
  pub allow_3429 : ℕ
  pub can_reduce_power : ℕ
  pub max_sr_diff : ℕ
  pub from_cme : ℕ
  pub support_1664pt : ℕ
  pub clock_source : ℕ
  pub info0_ack : ℕ

-- The fields of an INFOh, by Table 22.
pub record Infoh : Type 0 where
  pub power_reduction : ℕ
  pub trn_len : ℕ
  pub high_carrier : ℕ
  pub preemph_idx : ℕ
  pub symrate_idx : ℕ
  pub trn_16pt : ℕ

-- `nf_v34_info_frame_t`: the fields of the other kind stay 0 in the source.
pub data InfoFrame : Type 0 where
  info0 : Info0 → InfoFrame
  infoh : Infoh → InfoFrame

-- `v34_info_sync`
unfoldable pub info_sync : List ℕ
info_sync = 1 ∷ 1 ∷ 1 ∷ 1 ∷ 0 ∷ 1 ∷ 1 ∷ 1 ∷ 0 ∷ 0 ∷ 1 ∷ 0 ∷ []

unfoldable pub info_bits : InfoFrame → List ℕ
unfolding field
info_bits (info0 f) =
    field 1 f.sr2743
    ++ (field 1 f.sr2800
        ++ (field 1 f.sr3429
            ++ (field 1 f.low3000
                ++ (field 1 f.high3000
                    ++ (field 1 f.low3200
                        ++ (field 1 f.high3200
                            ++ (field 1 f.allow_3429
                                ++ (field 1 f.can_reduce_power
                                    ++ (field 3 f.max_sr_diff
                                        ++ (field 1 f.from_cme
                                            ++ (field 1 f.support_1664pt
                                                ++ (field 2 f.clock_source
                                                    ++ field 1 f.info0_ack))))))))))))
info_bits (infoh f) =
    field 3 f.power_reduction
    ++ (field 7 f.trn_len
        ++ (field 1 f.high_carrier
            ++ (field 4 f.preemph_idx ++ (field 3 f.symrate_idx ++ field 1 f.trn_16pt))))

-- `v34_info_build_bits`
unfoldable pub info_build : InfoFrame → List ℕ
unfolding info_bits info_sync field
info_build f =
    info_sync ++ (info_bits f ++ (field 16 (crc_bits (info_bits f)) ++ (1 ∷ 1 ∷ 1 ∷ 1 ∷ [])))

-- The first bits are those of the pattern.
unfoldable pub begins_with : List ℕ → List ℕ → Bool
begins_with [] b = true
begins_with (x ∷ pat) [] = false
begins_with (x ∷ pat) (y ∷ b) = if y == x then begins_with pat b else false

unfoldable pub info_len : Bool → ℕ
info_len is_infoh = if is_infoh then 19 else 17

unfoldable pub info_fields : Bool → List ℕ → InfoFrame
unfolding read
info_fields true b = infoh (record {
  power_reduction = read 3 b 12;
  trn_len = read 7 b 15;
  high_carrier = get_or b 22 0;
  preemph_idx = read 4 b 23;
  symrate_idx = read 3 b 27;
  trn_16pt = get_or b 30 0;
})
info_fields false b = info0 (record {
  sr2743 = get_or b 12 0;
  sr2800 = get_or b 13 0;
  sr3429 = get_or b 14 0;
  low3000 = get_or b 15 0;
  high3000 = get_or b 16 0;
  low3200 = get_or b 17 0;
  high3200 = get_or b 18 0;
  allow_3429 = get_or b 19 0;
  can_reduce_power = get_or b 20 0;
  max_sr_diff = read 3 b 21;
  from_cme = get_or b 24 0;
  support_1664pt = get_or b 25 0;
  clock_source = read 2 b 26;
  info0_ack = get_or b 28 0;
})

-- `v34_info_parse`; `b` is what is there of the bits from the start of the frame.
unfoldable pub info_parse : List ℕ → Bool → Option InfoFrame
unfolding read info_len
info_parse b is_infoh =
    let len = info_len is_infoh in
    if ltb (length b) (12 + len + 16)
      || not (begins_with info_sync b)
      || not (crc_bits (take len (drop 12 b)) == read 16 b (12 + len))
    then none
    else some (info_fields is_infoh b)
