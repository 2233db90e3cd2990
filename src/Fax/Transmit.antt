-- ===== src/Fax/Transmit.antt =====
-- The transmitter of nf_fax.c: a step is silence, then a modem, or a tone. The modems are a
-- parameter: one state for all of them, its restart for a step, and the samples it gives. The
-- engine above is what it does to the transmitter when a step is complete.
use nospandsp_fax.Common.{
  ℕ, zero, suc, ◌+◌, ◌-◌, ◌*◌, Bool, true, false, ltb, leb, not, ◌&&◌, ◌==◌, if◌then◌else◌,
}
use nospandsp_fax.Common.{Option, none, some, List, [], ◌∷◌, ◌++◌, length, map, replicate}
use nospandsp_fax.T38.Wire.{Modem, modem_none, pause, ced, cng, v8, v34, modem_done}
use nospandsp_fax.Fax.Tones.{Tonegen, tonegen_init, tone_tx}
pub mod Runs
pub mod Step

-- What `tx_handler` points to.
pub data Source : Type 0 where
  silence tone modem : Source

-- The tx state of `struct nf_fax`, with the state of the modems.
pub record FaxTx (M : Type 0) : Type 0 where
  pub remaining : ℕ
  pub tonegen : Tonegen
  pub modems : M
  pub tx_handler : Source
  pub next_tx_handler : Option Source
  pub transmit : Bool
  pub transmit_on_idle : Bool
  pub current_tx_type : Modem

-- `nf_silence_alter` by a number of samples that is not negative
unfoldable pub silence_alter : {M : Type 0} → FaxTx M → ℕ → FaxTx M
silence_alter s samples = record s { remaining = s.remaining + samples }

-- `set_tx`, `set_next_tx` and `transmit = 1`
unfoldable pub start_source : {M : Type 0} → FaxTx M → Source → Option Source → FaxTx M
start_source s now next = record s { tx_handler = now; next_tx_handler = next; transmit = true }

unfoldable pub set_source : {M : Type 0} → (M → Modem → M) → FaxTx M → Modem → ℕ → FaxTx M
unfolding silence_alter start_source
set_source restart s modem_none short_train = record s {
  tx_handler = silence;
  next_tx_handler = none;
  transmit = false;
}
set_source restart s modem_done short_train = record s {
  tx_handler = silence;
  next_tx_handler = none;
  transmit = false;
}
set_source restart s pause short_train =
    start_source (silence_alter s (short_train * 8)) silence none
set_source restart s ced short_train =
    start_source (record s { tonegen = tonegen_init false }) tone none
set_source restart s cng short_train =
    start_source (record s { tonegen = tonegen_init true }) tone none
set_source restart s v8 short_train =
    start_source (record s { modems = restart s.modems v8 }) modem none
set_source restart s v34 short_train =
    start_source (record s { modems = restart s.modems v34 }) modem none
set_source restart s type short_train =
    start_source (record (silence_alter s 600) { modems = restart s.modems type }) silence
      (some modem)

-- `nf_fax_set_tx_type`; the restart knows the rate, the training and the bits to send.
unfoldable pub fax_set_tx_type : {M : Type 0} → (M → Modem → M) → FaxTx M → Modem → ℕ → FaxTx M
fax_set_tx_type restart s type short_train = record (set_source restart s type short_train) {
  current_tx_type = type;
}

-- `advance_tx`: whether it switched.
unfoldable pub advance_next : {M : Type 0} → FaxTx M → Option Source → FaxTx M × Bool
advance_next s (some next) = (record s { tx_handler = next; next_tx_handler = none }, true)
advance_next s none =
    (record s { tx_handler = silence; next_tx_handler = none; transmit = false }, false)

unfoldable pub advance_tx : {M : Type 0} → FaxTx M → FaxTx M × Bool
unfolding advance_next
advance_tx s = advance_next s s.next_tx_handler

unfoldable pub is_idle_type : Modem → Bool
is_idle_type modem_none = true
is_idle_type modem_done = true
is_idle_type type = false

module _ {A M U : Type 0} (rest : A) (sound : Bool → A) (modem_tx : M → ℕ → M × List A)
    (send_complete : U → FaxTx M → U × FaxTx M) where
  -- A call of `tx_handler`; the first is `nf_silence_tx`.
  unfoldable pub give : FaxTx M → Source → ℕ → FaxTx M × List A
  give s silence max_len =
      let len = if leb s.remaining max_len then s.remaining else max_len in
      (record s { remaining = s.remaining - len }, replicate len rest)
  give s tone max_len =
      let (t, amp) = tone_tx s.tonegen max_len in (record s { tonegen = t }, map sound amp)
  give s modem max_len = let (m, amp) = modem_tx s.modems max_len in (record s { modems = m }, amp)

  -- The report of a step that is over.
  unfoldable pub report : U → FaxTx M → Bool → U × FaxTx M
  unfolding is_idle_type
  report u s switched =
      if not switched && not (is_idle_type s.current_tx_type) then send_complete u s else (u, s)

  -- The loop of `nf_fax_tx`, with so many samples to go.
  unfoldable pub tx_loop : ℕ → U → FaxTx M → ℕ → U × FaxTx M × List A
  tx_loop zero u s max_len = (u, s, [])
  tx_loop (suc fuel) u s max_len =
      let (s1, amp) = give s s.tx_handler max_len in
      let (s2, switched) = advance_tx s1 in
      let (u3, s3) = report u s2 switched in
      let left = max_len - length amp in
      let more = tx_loop fuel u3 s3 left in
      if leb max_len (length amp)
      then (u, s1, amp)
      else if not s3.transmit
      then (u3, s3, if s3.transmit_on_idle then amp ++ replicate left rest else amp)
      else (more.0, more.1, amp ++ more.2)

  -- `nf_fax_tx`
  unfoldable pub fax_tx : ℕ → U → FaxTx M → ℕ → U × FaxTx M × List A
  fax_tx fuel u s max_len =
      if s.transmit
      then tx_loop fuel u s max_len
      else (u, s, if s.transmit_on_idle then replicate max_len rest else [])

  -- Calls of `nf_fax_tx` one after the other.
  unfoldable pub fax_txs : ℕ → U → FaxTx M → List ℕ → U × FaxTx M × List A
  fax_txs fuel u s [] = (u, s, [])
  fax_txs fuel u s (n ∷ sizes) =
      let one = fax_tx fuel u s n in
      let more = fax_txs fuel one.0 one.1 sizes in (more.0, more.1, one.2 ++ more.2)
