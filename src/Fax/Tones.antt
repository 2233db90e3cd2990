-- ===== src/Fax/Tones.antt =====
-- The calling tones of nf_fax.c. A sample is whether the tone sounds in it; its level and phase
-- are floating point.
use nospandsp_fax.Common.{ℕ, zero, suc, ◌-◌, ◌+◌, ltb, leb, if◌then◌else◌, Bool, true, false}
use nospandsp_fax.Common.{List, [], ◌∷◌, ◌++◌, replicate}
pub mod Schedule

-- `struct nf_tonegen` without the oscillator
pub record Tonegen : Type 0 where
  pub cng : Bool
  pub timer : ℕ

-- `nf_tonegen_init`
unfoldable pub tonegen_init : Bool → Tonegen
tonegen_init cng = record { cng = cng; timer = if cng then 28000 else 22400 }

-- The loop of `nf_tone_tx` for CNG.
unfoldable pub cng_samples : ℕ → ℕ → ℕ × List Bool
cng_samples zero timer = (timer, [])
cng_samples (suc left) timer =
    let now = ltb 24000 timer in
    let (last, rest) = cng_samples left (if leb timer 1 then 28000 else timer - 1) in
    (last, now ∷ rest)

-- The CED part of `nf_tone_tx`.
unfoldable pub ced_samples : ℕ → ℕ → ℕ × List Bool
ced_samples max_len timer =
    let len = if leb timer max_len then timer else max_len in
    let lead = if ltb 20800 timer then timer - 20800 else 0 in
    let i = if ltb len lead then len else lead in
    (timer - len, replicate i false ++ replicate (len - i) true)

-- `nf_tone_tx`
unfoldable pub tone_tx : Tonegen → ℕ → Tonegen × List Bool
tone_tx t max_len =
    let (timer, amp) = if t.cng then cng_samples max_len t.timer else ced_samples max_len t.timer in
    (record t { timer = timer }, amp)

-- Calls of `nf_tone_tx` one after the other.
unfoldable pub tones : Tonegen → List ℕ → List Bool
tones t [] = []
tones t (n ∷ sizes) = let (t', amp) = tone_tx t n in amp ++ tones t' sizes
