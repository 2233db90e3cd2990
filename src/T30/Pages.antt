-- ===== src/T30/Pages.antt =====
-- Pages on their way out and in, in nf_t30.c: a page of a TIFF file through the T.4 encoder, the
-- file transfer format, the image bits of a page without error correction and its copy quality.
-- Reading a TIFF, JPEG and the sizes of the buffers are outside; so are the descriptive tags.
use nospandsp_fax.Common.{ℕ, zero, suc, ◌+◌, ◌-◌, ◌*◌, ◌/◌, ◌%◌, Bool, true, false}
use nospandsp_fax.Common.{Option, none, some, List, [], ◌∷◌, ◌++◌, length, take, drop, replicate}
use nospandsp_fax.Common.{get_or, ◌==◌, ltb, leb, not, ◌&&◌, ◌||◌, if◌then◌else◌, data_bits}
use nospandsp_fax.Common.{◌>>=◌}
use nospandsp_fax.T4.Encode.{Enc, enc_init, set_min_row_bits, end_page}
use nospandsp_fax.T4.Rows.{enc_row}
use nospandsp_fax.T4.Page.{dec_init, dec_put}
use nospandsp_fax.T30.Tables.{Res, fine, res_to_dpi, classify_res, min_scan_ms, min_scan_code}
use nospandsp_fax.T30.State.{
  T30, Outside, bilevel, color, gray, file, TiffPage, bilevel_page, jpeg_page, file_contents,
}
use nospandsp_fax.T30.EcmReceive.{rx_max_page}

-- `open_tx` on a file with the given pages, none for one that cannot be opened.
unfoldable pub open_tx : T30 → List TiffPage → T30
unfolding classify_res
open_tx s pages =
    let res : TiffPage → Res = λ page. classify_res page.tiff_width page.ydpi in
    let s' = record s { doc = record (s.doc) { pages_total = length pages; cur_page = 0 } } in
    elim pages [
      | [] ↦ s'
      | page ∷ rest ↦ record s' {
        neg = record (s.neg) {
          nf_res = res page;
          x_res = (res_to_dpi (res page)).0;
          y_res = (res_to_dpi (res page)).1;
          image_width = page.tiff_width;
        };
      }
    ]

-- `set_enc`, and the size of the page for the statistics.
abbrev pub set_enc : T30 → List ℕ → ℕ → ℕ → T30
set_enc s enc width rows = record s {
  doc = record (s.doc) { enc = enc; enc_bit = 0 };
  stats = record (s.stats) { width = width; rows = rows };
}

-- `encode_page_jpeg`
unfoldable pub encode_page_jpeg : Outside → T30 → Bool → Option T30
encode_page_jpeg o s is_gray = o.read_jpeg is_gray s.doc.cur_page >>= λ (octets, w, h).
    some (record (set_enc s octets w h) {
      neg = record (s.neg) { image_width = w; nf_res = fine; x_res = 204; y_res = 196 };
    })

-- "NFFX1"
abbrev pub file_magic : List ℕ
file_magic = 78 ∷ 70 ∷ 70 ∷ 88 ∷ 49 ∷ []

-- The lowest octets of a number, the lowest first.
unfoldable pub le_octets : ℕ → ℕ → List ℕ
le_octets zero n = []
le_octets (suc count) n = n % 256 ∷ le_octets count (n / 256)

unfoldable pub from_le : List ℕ → ℕ
from_le [] = 0
from_le (x ∷ xs) = x + 256 * from_le xs

-- The payload of `encode_file_payload` for a base name and the contents of a file.
unfoldable pub file_payload : List ℕ → List ℕ → List ℕ
unfolding le_octets
file_payload name contents =
    let kept = take 255 name in
    file_magic ++ (length kept ∷ (kept ++ (le_octets 8 (length contents) ++ contents)))

-- `encode_file_payload`
unfoldable pub encode_file_payload : Outside → T30 → Option T30
unfolding file_payload
encode_file_payload o s = o.read_file >>= λ (name, contents).
    some (set_enc s (file_payload name contents) (length contents) 1)

unfoldable pub enc_rows : Enc → List (List ℕ) → Enc
enc_rows e [] = e
enc_rows e (row ∷ rows) = enc_rows (enc_row e row) rows

-- A bilevel page: its resolution and its width are taken over, and it is encoded, with the fill
-- that the far end's scan line time asks for unless errors are corrected.
unfoldable pub encode_bilevel : T30 → TiffPage → T30
unfolding classify_res min_scan_code enc_rows enc_init set_min_row_bits
encode_bilevel s page =
    let res = classify_res page.tiff_width page.ydpi in
    let neg' = record (s.neg) {
      nf_res = res;
      x_res = (res_to_dpi res).0;
      y_res = (res_to_dpi res).1;
      image_width = page.tiff_width;
    } in
    let ms = get_or min_scan_ms (min_scan_code s.neg.ecm res s.far_dis) 0 in
    let e0 = enc_init page.tiff_width s.neg.encoding 0 in
    let e = if s.neg.ecm then e0 else set_min_row_bits e0 (s.neg.bit_rate * ms / 1000) in
    let s' =
      set_enc s (end_page (enc_rows e page.tiff_rows)).buf page.tiff_width
        (length page.tiff_rows) in
    record s' { neg = neg' }

-- `encode_current_page`
unfoldable pub encode_current_page : Outside → T30 → Option T30
unfolding encode_page_jpeg encode_file_payload encode_bilevel
encode_current_page o s = elim (s.neg.kind) [
  | color ↦ encode_page_jpeg o s false
  | gray ↦ encode_page_jpeg o s true
  | file ↦ encode_file_payload o s
  | bilevel ↦ o.read_page s.doc.cur_page >>= λ page. some (encode_bilevel s page)
]

-- `start_rx_page`: a decoder for the width and the coding agreed on.
unfoldable pub start_rx_page : T30 → T30
start_rx_page s = record s {
  recv = record (s.recv) {
    rx_bits = [];
    dec_width = s.neg.image_width;
    dec_encoding = s.neg.encoding;
  };
}

-- The rows that `rx_row` keeps: those that start below the largest size of a page.
unfoldable pub kept_rows : ℕ → List (List ℕ) → List (List ℕ)
kept_rows width rows =
    let stride = (width + 7) / 8 in take ((rx_max_page + stride - 1) / stride) rows

-- The bits of the receive buffer, whose last octet is filled up with zeros.
abbrev pub whole_octets : List ℕ → List ℕ
whole_octets bits = bits ++ replicate ((8 - length bits % 8) % 8) 0

-- A page is bad when it has no rows, or when 15% of them were damaged.
abbrev pub copy_is_bad : ℕ → ℕ → Bool
copy_is_bad rows bad = rows == 0 || leb (rows * 3) (bad * 20)

abbrev pub write_page : T30 → ℕ → List (List ℕ) → T30
write_page s width rows = record s {
  stats = record (s.stats) { pages_rx = s.stats.pages_rx + 1; width = width; rows = length rows };
  written = bilevel_page width rows ∷ s.written;
}

-- `finish_rx_page`: a bad page is neither written nor counted.
unfoldable pub finish_rx_page : T30 → T30
unfolding dec_init dec_put kept_rows
finish_rx_page s =
    let fresh = dec_init s.recv.dec_width s.recv.dec_encoding in
    let d =
      if length s.recv.rx_bits == 0
      then fresh
      else (dec_put fresh (whole_octets s.recv.rx_bits)).0 in
    let bad = copy_is_bad d.rows d.bad_rows in
    let s' = record s { recv = record (s.recv) { rx_flip_n = 0; rx_page_bad = bad } } in
    if bad then s' else write_page s' s.neg.image_width (kept_rows s.recv.dec_width d.out)

-- What `write_rx_file` writes, if anything: a length beyond the end means all there is.
unfoldable pub read_payload : List ℕ → Option (List ℕ)
unfolding from_le
read_payload page =
    let nl = get_or page 5 0 in
    let rest = drop (6 + nl) page in
    let size = from_le (take 8 rest) in
    let contents = drop 8 rest in
    let magic =
      get_or page 0 0 == 78
      && (get_or page 1 0 == 70
          && (get_or page 2 0 == 70 && (get_or page 3 0 == 88 && get_or page 4 0 == 49))) in
    if ltb (length page) 14 || not magic
    then none
    else if ltb (length page) (6 + nl + 8)
    then none
    else some (if ltb (length contents) size then contents else take size contents)

-- `write_rx_file`, into a file that can be opened.
unfoldable pub write_rx_file : T30 → T30
unfolding read_payload
write_rx_file s = elim (read_payload s.rx.page) [
  | none ↦ s
  | some contents ↦ record s { written = file_contents contents ∷ s.written }
]

abbrev pub drop_page : T30 → T30
drop_page s = record s { rx = record (s.rx) { page = [] } }

-- A page of JPEG data: it is counted and written if it can be decoded.
unfoldable pub finish_jpeg : Outside → T30 → Bool → T30
finish_jpeg o s is_gray = elim (o.jpeg_decode is_gray s.rx.page) [
  | none ↦ s
  | some (w, h) ↦ record s {
    stats = record (s.stats) { pages_rx = s.stats.pages_rx + 1; width = w; rows = h };
    written = jpeg_page is_gray w h ∷ s.written;
  }
]

abbrev pub count_page : T30 → T30
count_page s = record s { stats = record (s.stats) { pages_rx = s.stats.pages_rx + 1 } }

-- The bilevel end of `ecm_finish_page`.
unfoldable pub finish_ecm_bilevel : T30 → T30
unfolding start_rx_page dec_init dec_put kept_rows
finish_ecm_bilevel s =
    let s' = start_rx_page s in
    let fresh = dec_init s.neg.image_width s.neg.encoding in
    let d = if length s.rx.page == 0 then fresh else (dec_put fresh (data_bits s.rx.page)).0 in
    write_page s' s.neg.image_width (kept_rows s.neg.image_width d.out)

-- `ecm_finish_page`
unfoldable pub ecm_finish_page : Outside → T30 → T30
unfolding finish_jpeg write_rx_file finish_ecm_bilevel
ecm_finish_page o s = elim (s.neg.kind) [
  | color ↦ drop_page (finish_jpeg o s false)
  | gray ↦ drop_page (finish_jpeg o s true)
  | file ↦ drop_page (count_page (write_rx_file s))
  | bilevel ↦ drop_page (finish_ecm_bilevel s)
]

abbrev pub flip : ℕ → ℕ
flip b = if b == 0 then 1 else 0

-- A received bit of the training check.
unfoldable pub tcf_bit : T30 → ℕ → T30
tcf_bit s b =
    let r = s.recv in
    let longest = if ltb r.tcf_most r.tcf_zeros then r.tcf_zeros else r.tcf_most in
    if b == 0
    then record s { recv = record r { tcf_zeros = r.tcf_zeros + 1 } }
    else record s { recv = record r { tcf_zeros = 0; tcf_most = longest } }

-- A received bit of an image; the test hook flips every so many of them.
unfoldable pub image_bit : T30 → ℕ → T30
image_bit s b =
    let r = s.recv in
    let armed = ltb 0 r.rx_flip_n in
    let due = armed && leb r.rx_flip_n (r.rx_flip_ctr + 1) in
    let ctr = if due then 0 else if armed then r.rx_flip_ctr + 1 else r.rx_flip_ctr in
    let b' = if due then flip b else b in
    let bits =
      if leb rx_max_page (length r.rx_bits / 8) then r.rx_bits else r.rx_bits ++ (b' ∷ []) in
    record s { recv = record r { rx_flip_ctr = ctr; rx_bits = bits } }
