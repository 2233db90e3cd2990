-- ===== src/Fax.antt =====
-- The audio driver of fax (nf_fax.c): what of it does not run a modem. A sample is of any type.
use nospandsp_fax.Common.{ℕ, ◌-◌, ◌+◌, ltb, ◌==◌, if◌then◌else◌, List, [], ◌∷◌, ◌++◌, length, drop}
pub mod History
pub mod Tones
pub mod Transmit

-- The samples that `rx_hist` has room for.
abbrev pub hist_cap : ℕ
hist_cap = 8000

-- The history part of `nf_fax_rx`; the first `rx_hist_n` samples of C's buffer are the list.
unfoldable pub keep_history {ℓ} : {A : Type ℓ} → List A → List A → List A
keep_history hist amp =
    let len = length amp in
    let n = if ltb hist_cap len then hist_cap else len in
    let kept =
      if ltb hist_cap (length hist + n) then drop (length hist - (hist_cap - n)) hist else hist in
    if len == 0 then hist else kept ++ drop (len - n) amp

-- Calls of `nf_fax_rx` one after the other.
unfoldable pub keep_all {ℓ} : {A : Type ℓ} → List A → List (List A) → List A
keep_all hist [] = hist
keep_all hist (amp ∷ chunks) = keep_all (keep_history hist amp) chunks
