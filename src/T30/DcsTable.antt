-- ===== src/T30/DcsTable.antt =====
-- What the bits of a DCS of nf_t30.c stand for, checked for every row, document and scan line time.
use nospandsp_fax.Common.{
  ℕ, zero, suc, ◌+◌, ◌*◌, ◌/◌, ◌%◌, ◌<◌, ◌≡◌, ◌≢◌, refl, arith, ap, sym, ◌∙◌,
}
use nospandsp_fax.Common.{Bool, true, false, List, take, ◌==◌, ◌&&◌}
use nospandsp_fax.Common.{all_below, all_below_sound}
use nospandsp_fax.Common.{All, All-get_or, ==_iff}
use nospandsp_fax.T4.Encode.{Compression, one_d, two_d, t6}
use nospandsp_fax.T30.Tables.{
  Res, standard, fine, superfine, res_300, res_400, min_scan_code, scan_xlat, scan_row, scan_dcs,
}
use nospandsp_fax.T30.State.{Kind, bilevel, color, gray, file, Negotiated}
use nospandsp_fax.T30.Fields.{dcs_frame, dcs_choice, trim_and_set_ext_bits, last_used, extend}

-- Numbers for what a DCS says, to compare by.
kind_code : Kind → ℕ
kind_code bilevel = 0
kind_code color = 1
kind_code gray = 2
kind_code file = 3

encoding_code : Compression → ℕ
encoding_code one_d = 0
encoding_code two_d = 1
encoding_code t6 = 2

res_code : Res → ℕ
res_code standard = 0
res_code fine = 1
res_code superfine = 2
res_code res_300 = 3
res_code res_400 = 4

ecm_code : Bool → ℕ
ecm_code true = 1
ecm_code false = 0

-- What the receiver of the DCS should read: the row, the kind and error correction, and for a
-- bilevel document also the coding and the resolution.
module _ (fcf : ℕ) (kind : Kind) (encoding : Compression) (ecm : Bool) (res : Res) where
  abbrev pub read_dcs : ℕ → ℕ → Negotiated
  read_dcs scan i = dcs_choice false (take 24 (dcs_frame fcf false scan i kind encoding ecm res))

  reads : ℕ → Bool
  reads t =
      let n = read_dcs (t % 8) (t / 8) in
      n.fallback == t / 8
      && (kind_code n.kind == kind_code kind
          && (ecm_code n.ecm == ecm_code ecm
              && (encoding_code n.encoding == encoding_code encoding
                  && res_code n.nf_res == res_code res)))

  reads_kind : ℕ → Bool
  reads_kind t =
      let n = read_dcs (t % 8) (t / 8) in
      n.fallback == t / 8 && (kind_code n.kind == kind_code kind && ecm_code n.ecm == 1)

reads_bilevel :
    (fcf : ℕ) (encoding : Compression) (ecm : Bool) (res : Res)
    → (encoding ≡ t6 → ecm ≡ true)
    → all_below 64 (reads fcf bilevel encoding ecm res) ≡ true
unfolding reads all_below dcs_frame dcs_choice trim_and_set_ext_bits last_used extend scan_dcs
    kind_code encoding_code res_code ecm_code
reads_bilevel fcf one_d true standard h = refl
reads_bilevel fcf one_d true fine h = refl
reads_bilevel fcf one_d true superfine h = refl
reads_bilevel fcf one_d true res_300 h = refl
reads_bilevel fcf one_d true res_400 h = refl
reads_bilevel fcf one_d false standard h = refl
reads_bilevel fcf one_d false fine h = refl
reads_bilevel fcf one_d false superfine h = refl
reads_bilevel fcf one_d false res_300 h = refl
reads_bilevel fcf one_d false res_400 h = refl
reads_bilevel fcf two_d true standard h = refl
reads_bilevel fcf two_d true fine h = refl
reads_bilevel fcf two_d true superfine h = refl
reads_bilevel fcf two_d true res_300 h = refl
reads_bilevel fcf two_d true res_400 h = refl
reads_bilevel fcf two_d false standard h = refl
reads_bilevel fcf two_d false fine h = refl
reads_bilevel fcf two_d false superfine h = refl
reads_bilevel fcf two_d false res_300 h = refl
reads_bilevel fcf two_d false res_400 h = refl
reads_bilevel fcf t6 true standard h = refl
reads_bilevel fcf t6 true fine h = refl
reads_bilevel fcf t6 true superfine h = refl
reads_bilevel fcf t6 true res_300 h = refl
reads_bilevel fcf t6 true res_400 h = refl
reads_bilevel fcf t6 false res h = let on : false ≡ true = h refl in cc

reads_other :
    (fcf : ℕ) (kind : Kind) (encoding : Compression) (ecm : Bool) (res : Res)
    → kind ≢ bilevel
    → all_below 64 (reads_kind fcf kind encoding ecm res) ≡ true
unfolding reads_kind all_below dcs_frame dcs_choice trim_and_set_ext_bits last_used extend scan_dcs
    kind_code ecm_code
reads_other fcf bilevel encoding ecm res h = absurd (h refl)
reads_other fcf color encoding ecm res h = refl
reads_other fcf gray encoding ecm res h = refl
reads_other fcf file encoding ecm res h = refl

kind_of_code : ℕ → Kind
kind_of_code zero = bilevel
kind_of_code (suc zero) = color
kind_of_code (suc (suc zero)) = gray
kind_of_code (suc (suc (suc n))) = file

kind_code_inj : (a b : Kind) → kind_code a ≡ kind_code b → a ≡ b
unfolding kind_code kind_of_code
kind_code_inj a b same = sym (back a) ∙ (ap kind_of_code same ∙ back b)
  where
    back : (k : Kind) → kind_of_code (kind_code k) ≡ k
    back bilevel = refl
    back color = refl
    back gray = refl
    back file = refl

encoding_of_code : ℕ → Compression
encoding_of_code zero = one_d
encoding_of_code (suc zero) = two_d
encoding_of_code (suc (suc n)) = t6

encoding_code_inj : (a b : Compression) → encoding_code a ≡ encoding_code b → a ≡ b
unfolding encoding_code encoding_of_code
encoding_code_inj a b same = sym (back a) ∙ (ap encoding_of_code same ∙ back b)
  where
    back : (c : Compression) → encoding_of_code (encoding_code c) ≡ c
    back one_d = refl
    back two_d = refl
    back t6 = refl

res_of_code : ℕ → Res
res_of_code zero = standard
res_of_code (suc zero) = fine
res_of_code (suc (suc zero)) = superfine
res_of_code (suc (suc (suc zero))) = res_300
res_of_code (suc (suc (suc (suc n)))) = res_400

res_code_inj : (a b : Res) → res_code a ≡ res_code b → a ≡ b
unfolding res_code res_of_code
res_code_inj a b same = sym (back a) ∙ (ap res_of_code same ∙ back b)
  where
    back : (r : Res) → res_of_code (res_code r) ≡ r
    back standard = refl
    back fine = refl
    back superfine = refl
    back res_300 = refl
    back res_400 = refl

ecm_code_inj : (a b : Bool) → ecm_code a ≡ ecm_code b → a ≡ b
unfolding ecm_code
ecm_code_inj true true same = refl
ecm_code_inj false false same = refl
ecm_code_inj true false same = absurd (omega (arith, same))
ecm_code_inj false true same = absurd (omega (arith, same))

xlat_small : (row : ℕ) → All (λ (x : ℕ). x < 8) (scan_xlat row)
xlat_small zero = omega arith
xlat_small (suc zero) = omega arith
xlat_small (suc (suc row)) = omega arith

pub min_scan_code_lt : (ecm : Bool) (res : Res) (dis : List ℕ) → min_scan_code ecm res dis < 8
unfolding min_scan_code
min_scan_code_lt true res dis = omega arith
min_scan_code_lt false res dis =
    All-get_or (λ (x : ℕ). x < 8) (scan_xlat (scan_row res dis)) _ 0 (xlat_small (scan_row res dis))
      (omega arith)

-- A test of both numbers, from the test of the number that holds the two.
at_both :
    (test : ℕ → Bool) (scan i : ℕ)
    → all_below 64 test ≡ true
    → scan < 8
    → i < 8
    → (t : ℕ) × (t % 8 ≡ scan) × (t / 8 ≡ i) × (test t ≡ true)
at_both test scan i passed small row = (
  i * 8 + scan,
  omega arith,
  omega arith,
  all_below_sound 64 test (i * 8 + scan) passed (omega arith),
)

and_split : (a b : Bool) → (a && b) ≡ true → (a ≡ true) × (b ≡ true)
and_split true b h = (refl, h)
and_split false b h = absurd (false_ne_true h)
  where
    false_ne_true : false ≢ true
    false_ne_true e = cc

pub read_bilevel :
    (fcf scan i : ℕ) (encoding : Compression) (ecm : Bool) (res : Res)
    → scan < 8
    → i < 8
    → (encoding ≡ t6 → ecm ≡ true)
    → (let n = read_dcs fcf bilevel encoding ecm res scan i in
        (n.fallback ≡ i)
        × (n.kind ≡ bilevel)
        × (n.ecm ≡ ecm)
        × (n.encoding ≡ encoding)
        × (n.nf_res ≡ res))
unfolding reads
read_bilevel fcf scan i encoding ecm res small row coded =
    let n = read_dcs fcf bilevel encoding ecm res scan i in
    let (t, low, high, passed) =
      at_both (reads fcf bilevel encoding ecm res) scan i (reads_bilevel fcf encoding ecm res coded)
        small row in
    let passed' = rw (low, high) at passed in
    let (at_row, rest) = and_split (n.fallback == i) _ passed' in
    let (at_kind, rest') = and_split (kind_code n.kind == kind_code bilevel) _ rest in
    let (at_ecm, rest'') = and_split (ecm_code n.ecm == ecm_code ecm) _ rest' in
    let (at_encoding, at_res) =
      and_split (encoding_code n.encoding == encoding_code encoding) _ rest'' in
    (
      (==_iff _ _).0 at_row,
      kind_code_inj _ _ ((==_iff _ _).0 at_kind),
      ecm_code_inj _ _ ((==_iff _ _).0 at_ecm),
      encoding_code_inj _ _ ((==_iff _ _).0 at_encoding),
      res_code_inj _ _ ((==_iff _ _).0 at_res),
    )

pub read_other :
    (fcf scan i : ℕ) (kind : Kind) (encoding : Compression) (ecm : Bool) (res : Res)
    → scan < 8
    → i < 8
    → kind ≢ bilevel
    → (let n = read_dcs fcf kind encoding ecm res scan i in
        (n.fallback ≡ i) × (n.kind ≡ kind) × (n.ecm ≡ true))
unfolding reads_kind ecm_code
read_other fcf scan i kind encoding ecm res small row other =
    let n = read_dcs fcf kind encoding ecm res scan i in
    let (t, low, high, passed) =
      at_both (reads_kind fcf kind encoding ecm res) scan i
        (reads_other fcf kind encoding ecm res other) small row in
    let passed' = rw (low, high) at passed in
    let (at_row, rest) = and_split (n.fallback == i) _ passed' in
    let (at_kind, at_ecm) = and_split (kind_code n.kind == kind_code kind) _ rest in
    (
      (==_iff _ _).0 at_row,
      kind_code_inj _ _ ((==_iff _ _).0 at_kind),
      ecm_code_inj _ true ((==_iff _ (ecm_code true)).0 at_ecm),
    )
