-- ===== src/Tests/Negotiation.antt =====
-- nf_v8.c at concrete inputs: a calling fax terminal with V.21, V.27ter, V.29, V.17 and V.34.
use nospandsp_fax.Common.{ℕ, ◌+◌, ◌^◌, ◌≡◌, refl, some}
use nospandsp_fax.V8.{
  v17, v21, v27ter, v29, v34_hdx, mark, build_modulation_octets, note_mode, parse_third,
}
use nospandsp_fax.V8.{parse_second, parse_modulation, skip_extensions, parse_octets, parse_message}
use nospandsp_fax.V8.{call_octet, message}

abbrev fax_modes : ℕ
fax_modes = 2 ^ v17 + 2 ^ v21 + 2 ^ v27ter + 2 ^ v29 + 2 ^ v34_hdx

fax_message : parse_message (message 4 fax_modes) ≡ (some 4, fax_modes)
unfolding mark build_modulation_octets note_mode parse_third parse_second parse_modulation
    skip_extensions parse_octets parse_message call_octet message
fax_message = refl

-- A call function below 4 comes out as another one.
textphone_message : parse_message (message 2 fax_modes) ≡ (some 6, fax_modes)
unfolding mark build_modulation_octets note_mode parse_third parse_second parse_modulation
    skip_extensions parse_octets parse_message call_octet message
textphone_message = refl
