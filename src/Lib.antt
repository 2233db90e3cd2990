-- ===== src/Lib.antt =====
-- Verification of the protocol code of nospandsp_fax, a fax terminal over SIP.
--
-- The parts modelled, and how they interact:
-- - The T.38 backend (nf_t38.c) sends and receives fax data as IFP packets. The T.30 engine above
--   drives it through a table of operations and is called back through the table of nf_fax.h.
--   T38/Wire has the packets, T38/State the state and the callbacks, T38/Emit the sending of a
--   packet, T38/Control the operations from above, T38/Pump the timed sender, T38/Receive the
--   receiver. A callback may act on the backend again, so it takes the whole state and returns it.
-- - The UDPTL transport (nf_udptl.c) carries each IFP packet in a datagram with copies of the
--   packets before. Udptl/Types has the state, Udptl/Encode `build` (`nf_udptl_build`), Udptl/Decode
--   `rx` (`nf_udptl_rx`). The calls of the handler are the list of deliveries that `rx` returns.
-- - HDLC framing (nf_hdlc.c) is used by the audio modems: Hdlc/Crc the check sequence, Hdlc/Tx the
--   sender `get_bit` (`nf_hdlc_tx_get_bit`), Hdlc/Rx the receiver `put_bit`
--   (`nf_hdlc_rx_put_bit`). The handler's calls are returned as events.
--   Hdlc/Stuffing and Hdlc/Destuffing relate both to the stuffed frame, Hdlc/Transfer joins them.
-- - The image codec (nf_t4.c): T4/Tables has the run codes, T4/Encode the bit layer and rows in one
--   dimension, T4/Bits what the bit layer writes, T4/Rows rows in two dimensions, T4/Decode and
--   T4/DecodeRows the reading of a row, T4/Page `nf_t4_dec_put`.
-- - The T.30 engine (nf_t30.c) runs a call: it exchanges capabilities, chooses a modem, sends or
--   receives pages and corrects errors. T30/Fcf and T30/Tables have the constants of nf_wire.h
--   and the tables, T30/State `struct nf_t30` in groups and what is outside, T30/Control the
--   shortcuts to the modem and the end of a call, T30/Fields the DIS and the DCS, T30/EcmSend
--   and T30/EcmReceive error correction, T30/Pages the documents, T30/Calling and T30/Answering
--   `on_hdlc`, T30/Status `on_status`, T30/Engine the other callbacks, T30/Init the start. The
--   calls of the backend are a log in the state. A page goes through the model of nf_t4.c. The
--   theorems: T30/Rates, T30/DcsTable and T30/Agreement on what two stations agree on,
--   T30/Idents and T30/Payload on fields and files, T30/Recovery, T30/Blocks, T30/Transfer,
--   T30/Repeats, T30/Burst and T30/Completion on error correction, T30/Training on the training
--   check, T30/Endings, T30/Expiry and T30/Silence on the end of a call.
-- - The messages of V.8 (nf_v8.c) that name the call function and the modulations: V8.
-- - A-law (g711.c): G711.
-- - The text helpers of the SIP endpoint (sip_util.c): Sip; Sip/Message writes out a message,
--   Sip/Lookup, Sip/Parts and Sip/Bounds are on what is found in it.
-- - What counts in whole numbers in the V.34 modem (nf_v34.c): V34/RateTables and V34/Rates the
--   operating points, V34/Shell the shell mapper, V34/Scrambler the scrambler, V34/Frames the fields
--   and the check sequence, V34/Info the INFO sequences of phase 2, V34/Mp the MP frames,
--   V34/Channel the control channel at 1200 bit/s, which carries them, and V34/UserData
--   the HDLC frames that it carries, and V34/Session the choice of the rates from the MPh of the
--   other side. A point of the channel is its two signs.
-- - The audio driver (nf_fax.c): Fax the history of received samples, with which a V.34 session
--   starts, Fax/Tones the calling tones, where a sample is whether the tone sounds, and Fax/Transmit
--   the steps of the transmitter, with the modems and the engine as parameters.
-- Tests has the theorems at concrete inputs.
--
-- Correspondence: a definition has the name of its C function without its prefix. An octet buffer
-- is a list of numbers, and a cursor into a buffer is the list of what is left. -1 is `none`. An
-- `int` that may be negative is a `CInt`, one that never is is a number. Counters that C would let
-- overflow after 2^31 steps are unbounded. A narrow integer keeps its wrap-around (`u8`, `u16`,
-- `u32`). Debug output and failing allocations are left out.
--
-- Fuel: the loop over groups of secondaries takes one more than the octets left, since each round
-- reads an octet. A loop over the codes of an image row takes one more than the bits left, since
-- each code has a bit. The header lookup takes the length of the message, since a line is not
-- empty. The coder in two dimensions takes the width and two more rounds, since its
-- position moves right in all rounds but the first. The page loops take the limit of 100000 rows of
-- the source, to which the T.4 loop adds the bits left.
--
-- The loop of `on_get_frame` of the T.30 engine takes the number of frames left in the block. The
-- loops of the shell mapper take the rounds to their bounds; `b` rounds are enough for q. The
-- loop of `nf_fax_tx` takes fuel, of which two are enough for silence and then a modem.
--
-- Not modelled: of the audio driver the receiver's choice of a modem, the
-- modems but for the parts of V.34 above, and the tones of V.8 (floating-point
-- signal processing), colour (libjpeg), the SIP endpoint and the program around it (sockets,
-- timers and files), and of the SIP helpers MD5, the response code, random tokens and socket
-- addresses. For the T.30 engine the readers of TIFF and JPEG files, the modems allowed by the
-- environment and the answers of the backend are the fields of `Outside`, and the backend does
-- not act on the engine before a call of it has returned. The checks of `nf_v34_modeparams_check`
-- on the numbers of rings, and the values of `nf_v34_pcparams_init` in floating point are left
-- out. The T.38 backend is modelled on its own, with the callbacks of the engine as parameters.
pub mod Common
pub mod Udptl
pub mod Hdlc
pub mod T38
pub mod G711
pub mod T4
pub mod V8
pub mod T30
pub mod Sip
pub mod V34
pub mod Fax
mod Tests
