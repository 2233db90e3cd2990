-- ===== src/T30/Fcf.antt =====
-- The FCF codes of nf_wire.h.
use nospandsp_fax.Common.{ℕ}

abbrev pub dis : ℕ
dis = 0x80

abbrev pub dcs : ℕ
dcs = 0x82

abbrev pub csi : ℕ
csi = 0x40

abbrev pub cig : ℕ
cig = 0x41

abbrev pub tsi : ℕ
tsi = 0x42

abbrev pub cfr : ℕ
cfr = 0x84

abbrev pub ftt : ℕ
ftt = 0x44

abbrev pub mcf : ℕ
mcf = 0x8C

abbrev pub rtp : ℕ
rtp = 0xCC

abbrev pub rtn : ℕ
rtn = 0x4C

abbrev pub eop : ℕ
eop = 0x2E

abbrev pub mps : ℕ
mps = 0x4E

abbrev pub eom : ℕ
eom = 0x8E

abbrev pub dcn : ℕ
dcn = 0xFA

abbrev pub pps : ℕ
pps = 0xBE

abbrev pub ppr : ℕ
ppr = 0xBC

abbrev pub rnr : ℕ
rnr = 0xEC

abbrev pub ctc : ℕ
ctc = 0x12

abbrev pub ctr : ℕ
ctr = 0xC4

abbrev pub eor : ℕ
eor = 0xCE

abbrev pub err : ℕ
err = 0x1C

abbrev pub null : ℕ
null = 0x00
