-- ===== src/Tests/Coding.antt =====
-- nf_t4.c at concrete inputs: a page of three rows of 16 pixels through the coder and back.
use nospandsp_fax.Common.{ℕ, ◌≡◌, refl, List, [], ◌∷◌, data_bits}
use nospandsp_fax.Common.{◌<◌, ◌++◌, arith}
use nospandsp_fax.T4.Bits.{written, bits_of, written-eput}
use nospandsp_fax.T4.Tables.{white_codes, black_codes}
use nospandsp_fax.T4.Encode.{
  Compression, one_d, two_d, t6, Enc, enc_init, flush_octets, eput, put_long, put_1d_span, put_fill,
  encode_eol, changes, row_runs, put_spans, encode_1d_row, put_eols, end_page,
}
use nospandsp_fax.T4.Rows.{
  code_v, search_down, search_up, move_b, put_horizontal, put_mode, put_modes, encode_2d_row,
  next_group, enc_row,
}
use nospandsp_fax.T4.Decode.{
  canonical, find_run, read_code, read_run, eol_tail, consume_eol_tag, set_range, decode_spans,
  decode_1d_row,
}
use nospandsp_fax.T4.DecodeRows.{
  find_change, find_b, mode_of, read_mode, read_runs, decode_modes, decode_2d_row,
}
use nospandsp_fax.T4.Page.{dec_init, emit_row, put_t6, take_eols, resync, put_row, put_t4, dec_put}

abbrev page : List (List ℕ)
page = (0x0F ∷ 0xF0 ∷ []) ∷ (0x1F ∷ 0x81 ∷ []) ∷ (0x80 ∷ 0x01 ∷ []) ∷ []

abbrev coded : Enc → List (List ℕ) → Enc
coded e [] = end_page e
coded e (row ∷ rows) = coded (enc_row e row) rows

abbrev round_trip : Compression → List (List ℕ)
round_trip comp =
    (dec_put (dec_init 16 comp) (data_bits (coded (enc_init 16 comp 4) page).buf)).0.out

page_1d : round_trip one_d ≡ page
unfolding white_codes black_codes enc_init flush_octets eput put_long put_1d_span put_fill
    encode_eol changes row_runs put_spans encode_1d_row put_eols end_page code_v search_down
    search_up move_b put_horizontal put_mode put_modes encode_2d_row next_group enc_row canonical
    find_run read_code read_run eol_tail consume_eol_tag set_range decode_spans decode_1d_row
    find_change find_b mode_of read_mode read_runs decode_modes decode_2d_row dec_init emit_row
    put_t6 take_eols resync put_row put_t4 dec_put
page_1d = refl

page_2d : round_trip two_d ≡ page
unfolding white_codes black_codes enc_init flush_octets eput put_long put_1d_span put_fill
    encode_eol changes row_runs put_spans encode_1d_row put_eols end_page code_v search_down
    search_up move_b put_horizontal put_mode put_modes encode_2d_row next_group enc_row canonical
    find_run read_code read_run eol_tail consume_eol_tag set_range decode_spans decode_1d_row
    find_change find_b mode_of read_mode read_runs decode_modes decode_2d_row dec_init emit_row
    put_t6 take_eols resync put_row put_t4 dec_put
page_2d = refl

page_t6 : round_trip t6 ≡ page
unfolding white_codes black_codes enc_init flush_octets eput put_long put_1d_span put_fill
    encode_eol changes row_runs put_spans encode_1d_row put_eols end_page code_v search_down
    search_up move_b put_horizontal put_mode put_modes encode_2d_row next_group enc_row canonical
    find_run read_code read_run eol_tail consume_eol_tag set_range decode_spans decode_1d_row
    find_change find_b mode_of read_mode read_runs decode_modes decode_2d_row dec_init emit_row
    put_t6 take_eols resync put_row put_t4 dec_put
page_t6 = refl

-- The end of line code on a coder that has just begun.
written-eput_example :
    (written (eput (enc_init 16 one_d 4) 0x0800 12)
      ≡ written (enc_init 16 one_d 4) ++ bits_of 12 0x0800)
    × ((eput (enc_init 16 one_d 4) 0x0800 12).nbits < 8)
written-eput_example =
    written-eput (enc_init 16 one_d 4) 0x0800 12 (unfold enc_init in omega arith)
      (unfold enc_init in omega arith) (omega arith)
