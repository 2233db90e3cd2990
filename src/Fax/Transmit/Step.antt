-- ===== src/Fax/Transmit/Step.antt =====
-- What a step of the transmitter of nf_fax.c sends.
use nospandsp_fax.Common.{
  ℕ, suc, ◌+◌, ◌-◌, ◌≤◌, ◌≡◌, refl, ap, sym, ◌∙◌, arith, Bool, true, false, leb, if◌then◌else◌,
  Bool-cases, inl, inr,
}
use nospandsp_fax.Common.{
  none, some, List, [], ◌∷◌, ◌++◌, length, take, drop, replicate, length-append, length-take,
  length-replicate, length-drop, ◌⊎◌,
}
use mathlib.Core.Path.{subst}
use nospandsp_fax.T38.Wire.{
  Modem, modem_none, pause, ced, cng, v21, v27ter, v29, v17, v8, v34, modem_done,
}
use nospandsp_fax.Fax.Tones.Schedule.{total}
use nospandsp_fax.Fax.Transmit.Runs.{
  take-replicate, drop-replicate, take-replicate_past, drop-replicate_past, take-add,
}
use nospandsp_fax.Fax.Transmit.{
  Source, silence, tone, modem, FaxTx, advance_tx, advance_next, give, report, tx_loop, fax_tx,
  fax_txs, fax_set_tx_type, set_source, start_source, silence_alter,
}

-- A modem that is sent after 75 ms of silence.
abbrev pub is_carrier : Modem → Bool
is_carrier v21 = true
is_carrier v27ter = true
is_carrier v29 = true
is_carrier v17 = true
is_carrier type = false

-- A modem that gives the samples of a burst in order, while there are any.
abbrev pub Plays : {A M : Type 0} → (M → ℕ → M × List A) → (M → List A) → Type 0
Plays {A} {M} modem_tx burst =
    (m : M) (n : ℕ)
    → n ≤ length (burst m)
    → ((modem_tx m n).1 ≡ take n (burst m)) × (burst (modem_tx m n).0 ≡ drop n (burst m))

module _ {A M U : Type 0} (rest : A) (sound : Bool → A) (modem_tx : M → ℕ → M × List A)
    (send_complete : U → FaxTx M → U × FaxTx M) (burst : M → List A)
    (plays : Plays modem_tx burst) where
  -- A step of silence and then the modem, at some point before its end.
  abbrev pub InStep : FaxTx M → Type 0
  InStep s =
      (s.transmit ≡ true)
      × (((s.tx_handler ≡ silence) × (s.next_tx_handler ≡ some modem))
          ⊎ ((s.tx_handler ≡ modem) × (s.next_tx_handler ≡ none)))

  abbrev to_play : FaxTx M → Source → List A
  to_play s silence = replicate s.remaining rest ++ burst s.modems
  to_play s tone = []
  to_play s modem = burst s.modems

  -- What of the step is left.
  abbrev pub left : FaxTx M → List A
  left s = to_play s s.tx_handler

  -- The result of a call.
  record Played (u u' : U) (s s' : FaxTx M) (n : ℕ) (amp : List A) : Type 0 where
    pub quiet : u' ≡ u
    pub sent : amp ≡ take n (left s)
    pub kept : left s' ≡ drop n (left s)
    pub on : InStep s'

  tx_loop-modem :
      (fuel n : ℕ) (u : U) (s : FaxTx M)
      → s.transmit ≡ true
      → s.tx_handler ≡ modem
      → s.next_tx_handler ≡ none
      → n ≤ length (burst s.modems)
      → Played u
          (tx_loop rest sound modem_tx send_complete (suc fuel) u s n).0
          s
          (tx_loop rest sound modem_tx send_complete (suc fuel) u s n).1
          n
          (tx_loop rest sound modem_tx send_complete (suc fuel) u s n).2
  unfolding tx_loop give
  tx_loop-modem fuel n u s on at last le =
      let (out, after) = plays s.modems n le in
      let size : length (modem_tx s.modems n).1 ≡ n =
        ap (λ (l : List A). length l) out ∙ omega (arith, length-take n (burst s.modems)) in
      let full : leb n n ≡ true = ground arith in
      rw (at, size, full)
        (record { quiet = refl; sent = out; kept = after; on = (on, inr (refl, last)) })

  -- A call that silence fills.
  tx_loop-silence :
      (fuel n : ℕ) (u : U) (s : FaxTx M)
      → s.transmit ≡ true
      → s.tx_handler ≡ silence
      → s.next_tx_handler ≡ some modem
      → n ≤ s.remaining
      → Played u
          (tx_loop rest sound modem_tx send_complete (suc fuel) u s n).0
          s
          (tx_loop rest sound modem_tx send_complete (suc fuel) u s n).1
          n
          (tx_loop rest sound modem_tx send_complete (suc fuel) u s n).2
  unfolding tx_loop give
  tx_loop-silence fuel n u s on at next le =
      let len : (if leb s.remaining n then s.remaining else n) ≡ n = ground arith in
      let size : length (replicate n rest) ≡ n = length-replicate n rest in
      let full : leb n n ≡ true = ground arith in
      rw (at, len, size, full)
        (record {
          quiet = refl;
          sent = sym (take-replicate n s.remaining rest (burst s.modems) le);
          kept = sym (drop-replicate n s.remaining rest (burst s.modems) le);
          on = (on, inl (refl, next));
        })

  abbrev switched : FaxTx M → FaxTx M
  switched s = record s { remaining = 0; tx_handler = modem; next_tx_handler = none }

  -- A round in which silence ends.
  tx_loop_switch :
      (fuel n : ℕ) (u : U) (s : FaxTx M)
      → s.transmit ≡ true
      → s.tx_handler ≡ silence
      → s.next_tx_handler ≡ some modem
      → leb n s.remaining ≡ false
      → tx_loop rest sound modem_tx send_complete (suc fuel) u s n ≡ (
        (tx_loop rest sound modem_tx send_complete fuel u (switched s) (n - s.remaining)).0,
        (tx_loop rest sound modem_tx send_complete fuel u (switched s) (n - s.remaining)).1,
        replicate s.remaining rest
            ++ (tx_loop rest sound modem_tx send_complete fuel u (switched s) (n - s.remaining)).2,
      )
  unfolding tx_loop give advance_tx advance_next report
  tx_loop_switch fuel n u s on at next over =
      let len : (if leb s.remaining n then s.remaining else n) ≡ s.remaining =
        ground (arith, over) in
      let size : length (replicate s.remaining rest) ≡ s.remaining =
        length-replicate s.remaining rest in
      let none_left : s.remaining - s.remaining ≡ 0 = omega arith in
      rw (at, next, len, size, over, on, none_left) refl

  -- A call in which silence ends and the modem starts.
  tx_loop-Played_switch :
      (fuel n : ℕ) (u : U) (s : FaxTx M)
      → s.transmit ≡ true
      → s.tx_handler ≡ silence
      → s.next_tx_handler ≡ some modem
      → leb n s.remaining ≡ false
      → n ≤ s.remaining + length (burst s.modems)
      → Played u
          (tx_loop rest sound modem_tx send_complete (suc (suc fuel)) u s n).0
          s
          (tx_loop rest sound modem_tx send_complete (suc (suc fuel)) u s n).1
          n
          (tx_loop rest sound modem_tx send_complete (suc (suc fuel)) u s n).2
  tx_loop-Played_switch fuel n u s on at next over le =
      let e = tx_loop_switch (suc fuel) n u s on at next over in
      let second =
        tx_loop-modem fuel (n - s.remaining) u (switched s) on refl refl (ground (arith, over)) in
      let gone : s.remaining ≤ n = ground (arith, over) in
      let result =
        tx_loop rest sound modem_tx send_complete (suc fuel) u (switched s) (n - s.remaining) in
      subst (λ (r : U × FaxTx M × List A). Played u r.0 s r.1 n r.2) (sym e)
        (record {
          quiet = second.quiet;
          sent =
              ap (λ (l : List A). replicate s.remaining rest ++ l) second.sent
              ∙ sym (take-replicate_past n s.remaining rest (burst s.modems) gone)
              ∙ ap (λ (h : Source). take n (to_play s h)) (sym at);
          kept =
              second.kept
              ∙ sym (drop-replicate_past n s.remaining rest (burst s.modems) gone)
              ∙ ap (λ (h : Source). drop n (to_play s h)) (sym at);
          on = second.on;
        })

  fax_tx-Played :
      (fuel n : ℕ) (u : U) (s : FaxTx M)
      → InStep s
      → n ≤ length (left s)
      → Played u
          (fax_tx rest sound modem_tx send_complete (suc (suc fuel)) u s n).0
          s
          (fax_tx rest sound modem_tx send_complete (suc (suc fuel)) u s n).1
          n
          (fax_tx rest sound modem_tx send_complete (suc (suc fuel)) u s n).2
  unfolding fax_tx
  fax_tx-Played fuel n u s (on, inr (at, last)) le =
      let le' : n ≤ length (burst s.modems) =
        subst (λ (h : Source). n ≤ length (to_play s h)) at le in
      let whole = tx_loop-modem (suc fuel) n u s on at last le' in
      subst
        (λ (b : Bool).
          let r =
            if b
            then tx_loop rest sound modem_tx send_complete (suc (suc fuel)) u s n
            else (u, s, if s.transmit_on_idle then replicate n rest else []) in
          Played u r.0 s r.1 n r.2)
        (sym on) whole
  fax_tx-Played fuel n u s (on, inl (at, next)) le =
      let le' : n ≤ length (replicate s.remaining rest ++ burst s.modems) =
        subst (λ (h : Source). n ≤ length (to_play s h)) at le in
      let size : length (replicate s.remaining rest ++ burst s.modems)
          ≡ s.remaining + length (burst s.modems) =
        length-append (replicate s.remaining rest) (burst s.modems)
        ∙ ap (λ (m : ℕ). m + length (burst s.modems)) (length-replicate s.remaining rest) in
      let room : n ≤ s.remaining + length (burst s.modems) = omega (arith, size, le') in
      subst
        (λ (b : Bool).
          let r =
            if b
            then tx_loop rest sound modem_tx send_complete (suc (suc fuel)) u s n
            else (u, s, if s.transmit_on_idle then replicate n rest else []) in
          Played u r.0 s r.1 n r.2)
        (sym on)
        (elim (Bool-cases (leb n s.remaining)) [
          | inl fits ↦ tx_loop-silence (suc fuel) n u s on at next (ground (arith, fits))
          | inr over ↦ tx_loop-Played_switch fuel n u s on at next over room
        ])

  -- A step goes out in order, whatever sizes it is asked for in.
  step_played :
      (fuel : ℕ) (u : U) (s : FaxTx M) (sizes : List ℕ)
      → InStep s
      → total sizes ≤ length (left s)
      → ((fax_txs rest sound modem_tx send_complete (suc (suc fuel)) u s sizes).2
          ≡ take (total sizes) (left s))
        × ((fax_txs rest sound modem_tx send_complete (suc (suc fuel)) u s sizes).0 ≡ u)
  unfolding fax_txs
  step_played fuel u s [] h le = (refl, refl)
  step_played fuel u s (n ∷ sizes) h le =
      let one = fax_tx rest sound modem_tx send_complete (suc (suc fuel)) u s n in
      let p = fax_tx-Played fuel n u s h (omega arith) in
      let room : total sizes ≤ length (left one.1) =
        rw p.kept (omega (arith, length-drop n (left s), le)) in
      let (out, quiet) = step_played fuel one.0 one.1 sizes p.on room in
      (
        ap
              (λ (l : List A).
                l
                ++ (fax_txs rest sound modem_tx send_complete (suc (suc fuel)) one.0 one.1 sizes).2)
              p.sent
            ∙ ap (λ (l : List A). take n (left s) ++ l)
                (out ∙ ap (λ (l : List A). take (total sizes) l) p.kept)
            ∙ sym (take-add n (total sizes) (left s)),
        quiet ∙ p.quiet,
      )

  module _ (restart : M → Modem → M) where
    size :
        (s : FaxTx M) (type : Modem)
        → length (replicate (s.remaining + 600) rest ++ burst (restart s.modems type))
          ≡ s.remaining + 600 + length (burst (restart s.modems type))
    size s type =
        length-append (replicate (s.remaining + 600) rest) (burst (restart s.modems type))
        ∙ ap (λ (m : ℕ). m + length (burst (restart s.modems type)))
            (length-replicate (s.remaining + 600) rest)

    -- With two rounds or more in a call, a step with V.21, V.27ter, V.29 or V.17, on a
    -- transmitter that has some silence left, sends that silence, 75 ms more and then the
    -- burst of the modem, in whatever sizes it is asked for, up to the end of the burst;
    -- and no completion is reported before. The modems give the samples of a burst in
    -- order.
    pub fax_set_tx_type-fax_txs :
        (fuel short_train : ℕ) (u : U) (s : FaxTx M) (type : Modem) (sizes : List ℕ)
        → is_carrier type ≡ true
        → total sizes ≤ s.remaining + 600 + length (burst (restart s.modems type))
        → ((fax_txs rest sound modem_tx send_complete
              (suc (suc fuel))
              u
              (fax_set_tx_type restart s type short_train)
              sizes).2
            ≡ take
                (total sizes)
                (replicate (s.remaining + 600) rest ++ burst (restart s.modems type)))
          × ((fax_txs rest sound modem_tx send_complete
                (suc (suc fuel))
                u
                (fax_set_tx_type restart s type short_train)
                sizes).0
              ≡ u)
    unfolding fax_set_tx_type set_source start_source silence_alter
    fax_set_tx_type-fax_txs fuel short_train u s v21 sizes is le =
        step_played fuel u _ sizes (refl, inl (refl, refl)) (rw (size s v21) le)
    fax_set_tx_type-fax_txs fuel short_train u s v27ter sizes is le =
        step_played fuel u _ sizes (refl, inl (refl, refl)) (rw (size s v27ter) le)
    fax_set_tx_type-fax_txs fuel short_train u s v29 sizes is le =
        step_played fuel u _ sizes (refl, inl (refl, refl)) (rw (size s v29) le)
    fax_set_tx_type-fax_txs fuel short_train u s v17 sizes is le =
        step_played fuel u _ sizes (refl, inl (refl, refl)) (rw (size s v17) le)
    fax_set_tx_type-fax_txs fuel short_train u s modem_none sizes is le = absurd (ground arith)
    fax_set_tx_type-fax_txs fuel short_train u s pause sizes is le = absurd (ground arith)
    fax_set_tx_type-fax_txs fuel short_train u s ced sizes is le = absurd (ground arith)
    fax_set_tx_type-fax_txs fuel short_train u s cng sizes is le = absurd (ground arith)
    fax_set_tx_type-fax_txs fuel short_train u s v8 sizes is le = absurd (ground arith)
    fax_set_tx_type-fax_txs fuel short_train u s v34 sizes is le = absurd (ground arith)
    fax_set_tx_type-fax_txs fuel short_train u s modem_done sizes is le = absurd (ground arith)
