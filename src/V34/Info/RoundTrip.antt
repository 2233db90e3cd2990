-- ===== src/V34/Info/RoundTrip.antt =====
-- An INFO frame of nf_v34.c is read back as it was sent.
use nospandsp_fax.Common.{ℕ, ◌+◌, ◌%◌, ◌≡◌, refl, ap, ◌∙◌, arith, Bool, true, false}
use nospandsp_fax.Common.{some, List, ◌++◌, length, take, drop, ltb}
use nospandsp_fax.V34.Frames.{read, crc_bits, crc_bits-lt}
use nospandsp_fax.V34.Info.{
  Info0, Infoh, InfoFrame, info0, infoh, info_sync, info_bits, info_build, begins_with, info_len,
  info_fields, info_parse,
}

-- The bits of the fields that a frame has room for.
unfoldable pub sent : InfoFrame → InfoFrame
sent (info0 f) = info0 (record {
  sr2743 = f.sr2743 % 2;
  sr2800 = f.sr2800 % 2;
  sr3429 = f.sr3429 % 2;
  low3000 = f.low3000 % 2;
  high3000 = f.high3000 % 2;
  low3200 = f.low3200 % 2;
  high3200 = f.high3200 % 2;
  allow_3429 = f.allow_3429 % 2;
  can_reduce_power = f.can_reduce_power % 2;
  max_sr_diff = f.max_sr_diff % 8;
  from_cme = f.from_cme % 2;
  support_1664pt = f.support_1664pt % 2;
  clock_source = f.clock_source % 4;
  info0_ack = f.info0_ack % 2;
})
sent (infoh f) = infoh (record {
  power_reduction = f.power_reduction % 8;
  trn_len = f.trn_len % 128;
  high_carrier = f.high_carrier % 2;
  preemph_idx = f.preemph_idx % 16;
  symrate_idx = f.symrate_idx % 8;
  trn_16pt = f.trn_16pt % 2;
})

unfoldable pub is_infoh : InfoFrame → Bool
is_infoh (info0 f) = false
is_infoh (infoh f) = true

accepted :
    (k : Bool) (b : List ℕ)
    → ltb (length b) (12 + info_len k + 16) ≡ false
    → begins_with info_sync b ≡ true
    → crc_bits (take (info_len k) (drop 12 b)) ≡ read 16 b (12 + info_len k)
    → info_parse b k ≡ some (info_fields k b)
unfolding info_parse
accepted k b long sync crc = ground arith

-- A frame of either kind, whatever follows it, is accepted and has the fields that were sent.
pub info_parse-info_build :
    (f : InfoFrame) (rest : List ℕ) → info_parse (info_build f ++ rest) (is_infoh f) ≡ some (sent f)
unfolding info_build begins_with info_fields sent is_infoh info_len
info_parse-info_build (info0 f) rest =
    let c = crc_bits-lt (info_bits (info0 f)) in
    accepted false (info_build (info0 f) ++ rest) (ground arith) refl (omega arith)
    ∙ ap (λ (g : Info0). some (info0 g)) (ground arith)
info_parse-info_build (infoh f) rest =
    let c = crc_bits-lt (info_bits (infoh f)) in
    accepted true (info_build (infoh f) ++ rest) (ground arith) refl (omega arith)
    ∙ ap (λ (g : Infoh). some (infoh g)) (ground arith)
