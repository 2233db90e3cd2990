-- ===== src/Tests/Driver.antt =====
-- nf_fax.c at concrete inputs.
use nospandsp_fax.Common.{ℕ, ◌≡◌, refl, arith, ◌+◌, if◌then◌else◌, Bool, true, false, none}
use nospandsp_fax.Common.{List, [], ◌∷◌, ◌++◌, replicate, take, drop}
use nospandsp_fax.T38.Wire.{Modem, modem_none, v29}
use nospandsp_fax.Fax.Transmit.{FaxTx, silence, fax_set_tx_type, fax_txs}
use nospandsp_fax.Fax.Transmit.Step.{fax_set_tx_type-fax_txs}
use nospandsp_fax.Fax.{hist_cap, keep_all}
use nospandsp_fax.Fax.History.{last, joined, keep_all-last}
use nospandsp_fax.Fax.Tones.{tonegen_init, tones}
use nospandsp_fax.Fax.Tones.Schedule.{cadence, total, tones-schedule}

abbrev chunks : List (List ℕ)
chunks = (1 ∷ 2 ∷ []) ∷ [] ∷ (3 ∷ []) ∷ []

keep_all-last_example : keep_all (9 ∷ []) chunks ≡ last hist_cap ((9 ∷ []) ++ joined chunks)
keep_all-last_example = keep_all-last (9 ∷ []) chunks (omega arith)

-- Two frames of 20 ms, then a second.
abbrev sizes : List ℕ
sizes = 160 ∷ 160 ∷ 8000 ∷ []

tones-schedule_example :
    (tones (tonegen_init true) sizes ≡ cadence 0 (total sizes))
    × (tones (tonegen_init false) sizes
        ≡ take (total sizes) (replicate 1600 false ++ replicate 20800 true))
tones-schedule_example = tones-schedule sizes

-- A modem whose state is what it has still to send.
abbrev read_out : List ℕ → ℕ → List ℕ × List ℕ
read_out m n = (drop n m, take n m)

abbrev starts_burst : List ℕ → Modem → List ℕ
starts_burst m type = 7 ∷ 8 ∷ 9 ∷ []

abbrev at_rest : FaxTx (List ℕ)
at_rest = record {
  remaining = 0;
  tonegen = record { cng = true; timer = 28000 };
  modems = [];
  tx_handler = silence;
  next_tx_handler = none;
  transmit = false;
  transmit_on_idle = true;
  current_tx_type = modem_none;
}

abbrev counts : ℕ → FaxTx (List ℕ) → ℕ × FaxTx (List ℕ)
counts u s = (u + 1, s)

abbrev sound : Bool → ℕ
sound b = if b then 5 else 0

fax_set_tx_type-fax_txs_example :
    ((fax_txs 0 sound read_out counts 2 0
        (fax_set_tx_type starts_burst at_rest v29 0)
        (400 ∷ 201 ∷ [])).2
      ≡ take (total (400 ∷ 201 ∷ [])) (replicate (0 + 600) 0 ++ (7 ∷ 8 ∷ 9 ∷ [])))
    × ((fax_txs 0 sound read_out counts 2 0
          (fax_set_tx_type starts_burst at_rest v29 0)
          (400 ∷ 201 ∷ [])).0
        ≡ 0)
fax_set_tx_type-fax_txs_example =
    fax_set_tx_type-fax_txs 0 sound read_out counts (λ m. m) (λ m n le. (refl, refl)) starts_burst 0
      0 0 at_rest v29 (400 ∷ 201 ∷ []) refl (omega arith)
