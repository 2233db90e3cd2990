-- ===== src/T4/Tables.antt =====
-- The run-length codes of nf_t4.c. A code is sent lowest bit first.
use nospandsp_fax.Common.{ℕ, List, [], ◌∷◌}

-- `rte_t`
pub record Rte : Type 0 where
  pub bits : ℕ
  pub value : ℕ
  pub run : ℕ

abbrev pub code : ℕ → ℕ → ℕ → Rte
code bits value run = record { bits = bits; value = value; run = run }

-- `white_codes`: the runs 0 to 63, then the make-up codes 64 to 2560.
unfoldable pub white_codes : List Rte
white_codes =
    code 8 0x00AC 0
    ∷ code 6 0x0038 1
    ∷ code 4 0x000E 2
    ∷ code 4 0x0001 3
    ∷ code 4 0x000D 4
    ∷ code 4 0x0003 5
    ∷ code 4 0x0007 6
    ∷ code 4 0x000F 7
    ∷ code 5 0x0019 8
    ∷ code 5 0x0005 9
    ∷ code 5 0x001C 10
    ∷ code 5 0x0002 11
    ∷ code 6 0x0004 12
    ∷ code 6 0x0030 13
    ∷ code 6 0x000B 14
    ∷ code 6 0x002B 15
    ∷ code 6 0x0015 16
    ∷ code 6 0x0035 17
    ∷ code 7 0x0072 18
    ∷ code 7 0x0018 19
    ∷ code 7 0x0008 20
    ∷ code 7 0x0074 21
    ∷ code 7 0x0060 22
    ∷ code 7 0x0010 23
    ∷ code 7 0x000A 24
    ∷ code 7 0x006A 25
    ∷ code 7 0x0064 26
    ∷ code 7 0x0012 27
    ∷ code 7 0x000C 28
    ∷ code 8 0x0040 29
    ∷ code 8 0x00C0 30
    ∷ code 8 0x0058 31
    ∷ code 8 0x00D8 32
    ∷ code 8 0x0048 33
    ∷ code 8 0x00C8 34
    ∷ code 8 0x0028 35
    ∷ code 8 0x00A8 36
    ∷ code 8 0x0068 37
    ∷ code 8 0x00E8 38
    ∷ code 8 0x0014 39
    ∷ code 8 0x0094 40
    ∷ code 8 0x0054 41
    ∷ code 8 0x00D4 42
    ∷ code 8 0x0034 43
    ∷ code 8 0x00B4 44
    ∷ code 8 0x0020 45
    ∷ code 8 0x00A0 46
    ∷ code 8 0x0050 47
    ∷ code 8 0x00D0 48
    ∷ code 8 0x004A 49
    ∷ code 8 0x00CA 50
    ∷ code 8 0x002A 51
    ∷ code 8 0x00AA 52
    ∷ code 8 0x0024 53
    ∷ code 8 0x00A4 54
    ∷ code 8 0x001A 55
    ∷ code 8 0x009A 56
    ∷ code 8 0x005A 57
    ∷ code 8 0x00DA 58
    ∷ code 8 0x0052 59
    ∷ code 8 0x00D2 60
    ∷ code 8 0x004C 61
    ∷ code 8 0x00CC 62
    ∷ code 8 0x002C 63
    ∷ code 5 0x001B 64
    ∷ code 5 0x0009 128
    ∷ code 6 0x003A 192
    ∷ code 7 0x0076 256
    ∷ code 8 0x006C 320
    ∷ code 8 0x00EC 384
    ∷ code 8 0x0026 448
    ∷ code 8 0x00A6 512
    ∷ code 8 0x0016 576
    ∷ code 8 0x00E6 640
    ∷ code 9 0x0066 704
    ∷ code 9 0x0166 768
    ∷ code 9 0x0096 832
    ∷ code 9 0x0196 896
    ∷ code 9 0x0056 960
    ∷ code 9 0x0156 1024
    ∷ code 9 0x00D6 1088
    ∷ code 9 0x01D6 1152
    ∷ code 9 0x0036 1216
    ∷ code 9 0x0136 1280
    ∷ code 9 0x00B6 1344
    ∷ code 9 0x01B6 1408
    ∷ code 9 0x0032 1472
    ∷ code 9 0x0132 1536
    ∷ code 9 0x00B2 1600
    ∷ code 6 0x0006 1664
    ∷ code 9 0x01B2 1728
    ∷ code 11 0x0080 1792
    ∷ code 11 0x0180 1856
    ∷ code 11 0x0580 1920
    ∷ code 12 0x0480 1984
    ∷ code 12 0x0C80 2048
    ∷ code 12 0x0280 2112
    ∷ code 12 0x0A80 2176
    ∷ code 12 0x0680 2240
    ∷ code 12 0x0E80 2304
    ∷ code 12 0x0380 2368
    ∷ code 12 0x0B80 2432
    ∷ code 12 0x0780 2496
    ∷ code 12 0x0F80 2560
    ∷ []

-- `black_codes`, in the same order.
unfoldable pub black_codes : List Rte
black_codes =
    code 10 0x03B0 0
    ∷ code 3 0x0002 1
    ∷ code 2 0x0003 2
    ∷ code 2 0x0001 3
    ∷ code 3 0x0006 4
    ∷ code 4 0x000C 5
    ∷ code 4 0x0004 6
    ∷ code 5 0x0018 7
    ∷ code 6 0x0028 8
    ∷ code 6 0x0008 9
    ∷ code 7 0x0010 10
    ∷ code 7 0x0050 11
    ∷ code 7 0x0070 12
    ∷ code 8 0x0020 13
    ∷ code 8 0x00E0 14
    ∷ code 9 0x0030 15
    ∷ code 10 0x03A0 16
    ∷ code 10 0x0060 17
    ∷ code 10 0x0040 18
    ∷ code 11 0x0730 19
    ∷ code 11 0x00B0 20
    ∷ code 11 0x01B0 21
    ∷ code 11 0x0760 22
    ∷ code 11 0x00A0 23
    ∷ code 11 0x0740 24
    ∷ code 11 0x00C0 25
    ∷ code 12 0x0530 26
    ∷ code 12 0x0D30 27
    ∷ code 12 0x0330 28
    ∷ code 12 0x0B30 29
    ∷ code 12 0x0160 30
    ∷ code 12 0x0960 31
    ∷ code 12 0x0560 32
    ∷ code 12 0x0D60 33
    ∷ code 12 0x04B0 34
    ∷ code 12 0x0CB0 35
    ∷ code 12 0x02B0 36
    ∷ code 12 0x0AB0 37
    ∷ code 12 0x06B0 38
    ∷ code 12 0x0EB0 39
    ∷ code 12 0x0360 40
    ∷ code 12 0x0B60 41
    ∷ code 12 0x05B0 42
    ∷ code 12 0x0DB0 43
    ∷ code 12 0x02A0 44
    ∷ code 12 0x0AA0 45
    ∷ code 12 0x06A0 46
    ∷ code 12 0x0EA0 47
    ∷ code 12 0x0260 48
    ∷ code 12 0x0A60 49
    ∷ code 12 0x04A0 50
    ∷ code 12 0x0CA0 51
    ∷ code 12 0x0240 52
    ∷ code 12 0x0EC0 53
    ∷ code 12 0x01C0 54
    ∷ code 12 0x0E40 55
    ∷ code 12 0x0140 56
    ∷ code 12 0x01A0 57
    ∷ code 12 0x09A0 58
    ∷ code 12 0x0D40 59
    ∷ code 12 0x0340 60
    ∷ code 12 0x05A0 61
    ∷ code 12 0x0660 62
    ∷ code 12 0x0E60 63
    ∷ code 10 0x03C0 64
    ∷ code 12 0x0130 128
    ∷ code 12 0x0930 192
    ∷ code 12 0x0DA0 256
    ∷ code 12 0x0CC0 320
    ∷ code 12 0x02C0 384
    ∷ code 12 0x0AC0 448
    ∷ code 13 0x06C0 512
    ∷ code 13 0x16C0 576
    ∷ code 13 0x0A40 640
    ∷ code 13 0x1A40 704
    ∷ code 13 0x0640 768
    ∷ code 13 0x1640 832
    ∷ code 13 0x09C0 896
    ∷ code 13 0x19C0 960
    ∷ code 13 0x05C0 1024
    ∷ code 13 0x15C0 1088
    ∷ code 13 0x0DC0 1152
    ∷ code 13 0x1DC0 1216
    ∷ code 13 0x0940 1280
    ∷ code 13 0x1940 1344
    ∷ code 13 0x0540 1408
    ∷ code 13 0x1540 1472
    ∷ code 13 0x0B40 1536
    ∷ code 13 0x1B40 1600
    ∷ code 13 0x04C0 1664
    ∷ code 13 0x14C0 1728
    ∷ code 11 0x0080 1792
    ∷ code 11 0x0180 1856
    ∷ code 11 0x0580 1920
    ∷ code 12 0x0480 1984
    ∷ code 12 0x0C80 2048
    ∷ code 12 0x0280 2112
    ∷ code 12 0x0A80 2176
    ∷ code 12 0x0680 2240
    ∷ code 12 0x0E80 2304
    ∷ code 12 0x0380 2368
    ∷ code 12 0x0B80 2432
    ∷ code 12 0x0780 2496
    ∷ code 12 0x0F80 2560
    ∷ []
