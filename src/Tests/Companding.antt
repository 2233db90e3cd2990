-- ===== src/Tests/Companding.antt =====
-- g711.c at concrete inputs.
use nospandsp_fax.Common.{◌≡◌, arith}
use nospandsp_fax.G711.{linear_to_alaw, alaw_to_linear, linear_to_alaw-alaw_to_linear}

linear_to_alaw-alaw_to_linear_example : linear_to_alaw (alaw_to_linear 0x2A) ≡ 0x2A
linear_to_alaw-alaw_to_linear_example = linear_to_alaw-alaw_to_linear 0x2A (omega arith)
