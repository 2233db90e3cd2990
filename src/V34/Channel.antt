-- ===== src/V34/Channel.antt =====
-- The control channel of V.34 at 1200 bit/s in nf_v34.c: scrambled dibits turn a point of four,
-- and the receiver takes the turns apart. A point (1, 1), (-1, 1), (-1, -1) or (1, -1) is the pair
-- of the tests for a minus.
use nospandsp_fax.Common.{ℕ, zero, suc, ◌+◌, ◌-◌, ◌*◌, ◌/◌, ◌%◌, Bool, true, false, not}
use nospandsp_fax.Common.{Option, none, some, List, [], ◌∷◌, length, ◌==◌, if◌then◌else◌}
use nospandsp_fax.V34.Scrambler.{Scrambler, scramble_bit}
use nospandsp_fax.V34.Mp.{MpRx, MphFields, mp_feed_bit, mph_build}
pub mod RoundTrip

unfoldable pub turn : ℕ → Bool × Bool → Bool × Bool
turn zero p = p
turn (suc n) (re, im) = turn n (im, not re)

-- `v34_rotate_cw` on the points of four.
unfoldable pub rotate_cw : ℕ → Bool × Bool → Bool × Bool
unfolding turn
rotate_cw steps p = turn (steps % 4) p

-- `v34_cc_point`
unfoldable pub cc_point : ℕ → Bool × Bool
unfolding rotate_cw
cc_point zn = rotate_cw zn (false, false)

-- `nf_v34_cc_tx_t`, whose symbols are returned.
pub record CcTx : Type 0 where
  pub scr : Scrambler
  pub zn : ℕ

-- `v34_cc_tx_dibit`
unfoldable pub cc_tx_dibit : CcTx → ℕ → ℕ → CcTx × (Bool × Bool)
cc_tx_dibit s i1_raw i2_raw =
    let (scr1, i1) = scramble_bit s.scr (i1_raw % 2) in
    let (scr2, i2) = scramble_bit scr1 (i2_raw % 2) in
    let zn = (s.zn + i1 + 2 * i2) % 4 in (record { scr = scr2; zn = zn }, cc_point zn)

unfoldable pub cc_tx_dibits : CcTx → List ℕ → CcTx × List (Bool × Bool)
cc_tx_dibits s [] = (s, [])
cc_tx_dibits s (a ∷ []) = (s, [])
cc_tx_dibits s (a ∷ b ∷ bits) =
    let (s1, p) = cc_tx_dibit s a b in let (s2, ps) = cc_tx_dibits s1 bits in (s2, p ∷ ps)

-- `nf_v34_cc_tx_bits` at 1200 bit/s
unfoldable pub cc_tx_bits : CcTx → List ℕ → Option (CcTx × List (Bool × Bool))
cc_tx_bits s bits = if length bits % 2 == 1 then none else some (cc_tx_dibits s bits)

-- `nf_v34_cc_tx_mph` at 1200 bit/s
unfoldable pub cc_tx_mph : CcTx → MphFields → Option (CcTx × List (Bool × Bool))
cc_tx_mph s f = cc_tx_bits s (mph_build f)

-- `v34_mp_quadrant`
unfoldable pub mp_quadrant : Bool × Bool → ℕ
mp_quadrant (false, false) = 0
mp_quadrant (true, false) = 1
mp_quadrant (true, true) = 2
mp_quadrant (false, true) = 3

-- `nf_v34_mp_rx_t` with its decision of quadrants, `none` before the first symbol.
pub record MpDemod : Type 0 where
  pub prev_quad : Option ℕ
  pub rx : MpRx

-- The two bits of a turn.
unfoldable pub feed_turn : MpRx → ℕ → ℕ → MpRx
feed_turn rx prev quad =
    let delta = (prev + 4 - quad) % 4 in mp_feed_bit (mp_feed_bit rx (delta % 2)) (delta / 2 % 2)

unfoldable pub feed_after : Option ℕ → MpRx → ℕ → MpRx
feed_after none rx quad = rx
feed_after (some prev) rx quad = feed_turn rx prev quad

-- `nf_v34_mp_feed_symbol`
unfoldable pub mp_feed_symbol : MpDemod → Bool × Bool → MpDemod
mp_feed_symbol s z = record {
  prev_quad = some (mp_quadrant z);
  rx = feed_after s.prev_quad s.rx (mp_quadrant z);
}

-- The symbols in order.
unfoldable pub mp_feed_symbols : MpDemod → List (Bool × Bool) → MpDemod
mp_feed_symbols s [] = s
mp_feed_symbols s (z ∷ zs) = mp_feed_symbols (mp_feed_symbol s z) zs
