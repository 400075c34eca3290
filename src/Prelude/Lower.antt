-- ===== src/Prelude/Lower.antt =====
-- Go's `unicode.ToLower`, which `strings.ToLower` applies to each code point: the ranges of the code points
-- outside ASCII that have another lower case, from the tables of Unicode 14 (no letter with a case was
-- added in 15).
use Prim.Native.Nat.{ℕ, ◌+◌, ◌-◌, ◌%◌}
use mathlib.Core.Bool.{Bool, ◌&&◌}
use mathlib.Core.List.{List, [], ◌∷◌}
use order_service_go_archite.Prelude.Tests.{ltb, leb, ◌==◌, if◌then◌else◌}

-- From a first to a last code point: the lower case lies above or below by a distance, or the first, the
-- third and so on are upper cases of the next ones.
pub data CaseRange : Type 0 where
  above below : ℕ → ℕ → ℕ → CaseRange
  pairs : ℕ → ℕ → CaseRange

abbrev pub is_within : ℕ → CaseRange → Bool
is_within c (above first last d) = leb first c && leb c last
is_within c (below first last d) = leb first c && leb c last
is_within c (pairs first last) = leb first c && leb c last

abbrev pub lower_of : ℕ → CaseRange → ℕ
lower_of c (above first last d) = c + d
lower_of c (below first last d) = c - d
lower_of c (pairs first last) = if (c - first) % 2 == 0 then c + 1 else c

unfoldable pub lower_in : List CaseRange → ℕ → ℕ
lower_in [] c = c
lower_in (r ∷ rs) c = let rest = lower_in rs c in if is_within c r then lower_of c r else rest

unfoldable pub case_ranges : List CaseRange
case_ranges =
    above 0xc0 0xd6 32
    ∷ above 0xd8 0xde 32
    ∷ pairs 0x100 0x12e
    ∷ below 0x130 0x130 199
    ∷ pairs 0x132 0x136
    ∷ pairs 0x139 0x147
    ∷ pairs 0x14a 0x176
    ∷ below 0x178 0x178 121
    ∷ pairs 0x179 0x17d
    ∷ above 0x181 0x181 210
    ∷ pairs 0x182 0x184
    ∷ above 0x186 0x186 206
    ∷ above 0x187 0x187 1
    ∷ above 0x189 0x18a 205
    ∷ above 0x18b 0x18b 1
    ∷ above 0x18e 0x18e 79
    ∷ above 0x18f 0x18f 202
    ∷ above 0x190 0x190 203
    ∷ above 0x191 0x191 1
    ∷ above 0x193 0x193 205
    ∷ above 0x194 0x194 207
    ∷ above 0x196 0x196 211
    ∷ above 0x197 0x197 209
    ∷ above 0x198 0x198 1
    ∷ above 0x19c 0x19c 211
    ∷ above 0x19d 0x19d 213
    ∷ above 0x19f 0x19f 214
    ∷ pairs 0x1a0 0x1a4
    ∷ above 0x1a6 0x1a6 218
    ∷ above 0x1a7 0x1a7 1
    ∷ above 0x1a9 0x1a9 218
    ∷ above 0x1ac 0x1ac 1
    ∷ above 0x1ae 0x1ae 218
    ∷ above 0x1af 0x1af 1
    ∷ above 0x1b1 0x1b2 217
    ∷ pairs 0x1b3 0x1b5
    ∷ above 0x1b7 0x1b7 219
    ∷ above 0x1b8 0x1b8 1
    ∷ above 0x1bc 0x1bc 1
    ∷ above 0x1c4 0x1c4 2
    ∷ above 0x1c5 0x1c5 1
    ∷ above 0x1c7 0x1c7 2
    ∷ above 0x1c8 0x1c8 1
    ∷ above 0x1ca 0x1ca 2
    ∷ pairs 0x1cb 0x1db
    ∷ pairs 0x1de 0x1ee
    ∷ above 0x1f1 0x1f1 2
    ∷ pairs 0x1f2 0x1f4
    ∷ below 0x1f6 0x1f6 97
    ∷ below 0x1f7 0x1f7 56
    ∷ pairs 0x1f8 0x21e
    ∷ below 0x220 0x220 130
    ∷ pairs 0x222 0x232
    ∷ above 0x23a 0x23a 10795
    ∷ above 0x23b 0x23b 1
    ∷ below 0x23d 0x23d 163
    ∷ above 0x23e 0x23e 10792
    ∷ above 0x241 0x241 1
    ∷ below 0x243 0x243 195
    ∷ above 0x244 0x244 69
    ∷ above 0x245 0x245 71
    ∷ pairs 0x246 0x24e
    ∷ pairs 0x370 0x372
    ∷ above 0x376 0x376 1
    ∷ above 0x37f 0x37f 116
    ∷ above 0x386 0x386 38
    ∷ above 0x388 0x38a 37
    ∷ above 0x38c 0x38c 64
    ∷ above 0x38e 0x38f 63
    ∷ above 0x391 0x3a1 32
    ∷ above 0x3a3 0x3ab 32
    ∷ above 0x3cf 0x3cf 8
    ∷ pairs 0x3d8 0x3ee
    ∷ below 0x3f4 0x3f4 60
    ∷ above 0x3f7 0x3f7 1
    ∷ below 0x3f9 0x3f9 7
    ∷ above 0x3fa 0x3fa 1
    ∷ below 0x3fd 0x3ff 130
    ∷ above 0x400 0x40f 80
    ∷ above 0x410 0x42f 32
    ∷ pairs 0x460 0x480
    ∷ pairs 0x48a 0x4be
    ∷ above 0x4c0 0x4c0 15
    ∷ pairs 0x4c1 0x4cd
    ∷ pairs 0x4d0 0x52e
    ∷ above 0x531 0x556 48
    ∷ above 0x10a0 0x10c5 7264
    ∷ above 0x10c7 0x10c7 7264
    ∷ above 0x10cd 0x10cd 7264
    ∷ above 0x13a0 0x13ef 38864
    ∷ above 0x13f0 0x13f5 8
    ∷ below 0x1c90 0x1cba 3008
    ∷ below 0x1cbd 0x1cbf 3008
    ∷ pairs 0x1e00 0x1e94
    ∷ below 0x1e9e 0x1e9e 7615
    ∷ pairs 0x1ea0 0x1efe
    ∷ below 0x1f08 0x1f0f 8
    ∷ below 0x1f18 0x1f1d 8
    ∷ below 0x1f28 0x1f2f 8
    ∷ below 0x1f38 0x1f3f 8
    ∷ below 0x1f48 0x1f4d 8
    ∷ below 0x1f59 0x1f59 8
    ∷ below 0x1f5b 0x1f5b 8
    ∷ below 0x1f5d 0x1f5d 8
    ∷ below 0x1f5f 0x1f5f 8
    ∷ below 0x1f68 0x1f6f 8
    ∷ below 0x1f88 0x1f8f 8
    ∷ below 0x1f98 0x1f9f 8
    ∷ below 0x1fa8 0x1faf 8
    ∷ below 0x1fb8 0x1fb9 8
    ∷ below 0x1fba 0x1fbb 74
    ∷ below 0x1fbc 0x1fbc 9
    ∷ below 0x1fc8 0x1fcb 86
    ∷ below 0x1fcc 0x1fcc 9
    ∷ below 0x1fd8 0x1fd9 8
    ∷ below 0x1fda 0x1fdb 100
    ∷ below 0x1fe8 0x1fe9 8
    ∷ below 0x1fea 0x1feb 112
    ∷ below 0x1fec 0x1fec 7
    ∷ below 0x1ff8 0x1ff9 128
    ∷ below 0x1ffa 0x1ffb 126
    ∷ below 0x1ffc 0x1ffc 9
    ∷ below 0x2126 0x2126 7517
    ∷ below 0x212a 0x212a 8383
    ∷ below 0x212b 0x212b 8262
    ∷ above 0x2132 0x2132 28
    ∷ above 0x2160 0x216f 16
    ∷ above 0x2183 0x2183 1
    ∷ above 0x24b6 0x24cf 26
    ∷ above 0x2c00 0x2c2f 48
    ∷ above 0x2c60 0x2c60 1
    ∷ below 0x2c62 0x2c62 10743
    ∷ below 0x2c63 0x2c63 3814
    ∷ below 0x2c64 0x2c64 10727
    ∷ pairs 0x2c67 0x2c6b
    ∷ below 0x2c6d 0x2c6d 10780
    ∷ below 0x2c6e 0x2c6e 10749
    ∷ below 0x2c6f 0x2c6f 10783
    ∷ below 0x2c70 0x2c70 10782
    ∷ above 0x2c72 0x2c72 1
    ∷ above 0x2c75 0x2c75 1
    ∷ below 0x2c7e 0x2c7f 10815
    ∷ pairs 0x2c80 0x2ce2
    ∷ pairs 0x2ceb 0x2ced
    ∷ above 0x2cf2 0x2cf2 1
    ∷ pairs 0xa640 0xa66c
    ∷ pairs 0xa680 0xa69a
    ∷ pairs 0xa722 0xa72e
    ∷ pairs 0xa732 0xa76e
    ∷ pairs 0xa779 0xa77b
    ∷ below 0xa77d 0xa77d 35332
    ∷ pairs 0xa77e 0xa786
    ∷ above 0xa78b 0xa78b 1
    ∷ below 0xa78d 0xa78d 42280
    ∷ pairs 0xa790 0xa792
    ∷ pairs 0xa796 0xa7a8
    ∷ below 0xa7aa 0xa7aa 42308
    ∷ below 0xa7ab 0xa7ab 42319
    ∷ below 0xa7ac 0xa7ac 42315
    ∷ below 0xa7ad 0xa7ad 42305
    ∷ below 0xa7ae 0xa7ae 42308
    ∷ below 0xa7b0 0xa7b0 42258
    ∷ below 0xa7b1 0xa7b1 42282
    ∷ below 0xa7b2 0xa7b2 42261
    ∷ above 0xa7b3 0xa7b3 928
    ∷ pairs 0xa7b4 0xa7c2
    ∷ below 0xa7c4 0xa7c4 48
    ∷ below 0xa7c5 0xa7c5 42307
    ∷ below 0xa7c6 0xa7c6 35384
    ∷ pairs 0xa7c7 0xa7c9
    ∷ above 0xa7d0 0xa7d0 1
    ∷ pairs 0xa7d6 0xa7d8
    ∷ above 0xa7f5 0xa7f5 1
    ∷ above 0xff21 0xff3a 32
    ∷ above 0x10400 0x10427 40
    ∷ above 0x104b0 0x104d3 40
    ∷ above 0x10570 0x1057a 39
    ∷ above 0x1057c 0x1058a 39
    ∷ above 0x1058c 0x10592 39
    ∷ above 0x10594 0x10595 39
    ∷ above 0x10c80 0x10cb2 64
    ∷ above 0x118a0 0x118bf 32
    ∷ above 0x16e40 0x16e5f 32
    ∷ above 0x1e900 0x1e921 34
    ∷ []

unfoldable pub to_lower : ℕ → ℕ
unfolding lower_in case_ranges
to_lower c =
    if ltb c 128 then (if leb b'A' c && leb c b'Z' then c + 32 else c) else lower_in case_ranges c
